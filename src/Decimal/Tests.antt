-- ===== src/Decimal/Tests.antt =====
-- Numbers as text, on examples.
use os_212_assignment.Base.{ℕ, ◌≡◌, refl, arith, List, [], ◌∷◌, some, true, false}
use os_212_assignment.Base.Int.{pos, negsuc}
use os_212_assignment.Decimal.{printint, fill, digit, atoi, atoi_loop}
use os_212_assignment.Decimal.RoundTrip.{atoi-printint}

hexadecimal : printint (pos 0xBEEF) 16 false ≡ some (b'B' ∷ b'E' ∷ b'E' ∷ b'F' ∷ [])
unfolding printint fill digit
hexadecimal = refl

negative : printint (negsuc 11) 10 true ≡ some (b'-' ∷ b'1' ∷ b'2' ∷ [])
unfolding printint fill digit
negative = refl

-- A minus sign is not read.
no_minus : atoi (b'-' ∷ b'1' ∷ b'2' ∷ []) ≡ 0
unfolding atoi atoi_loop
no_minus = refl

atoi-printint_example :
    (text : List ℕ) × (printint (pos 1402) 10 true ≡ some text) × (atoi text ≡ 1402)
atoi-printint_example = atoi-printint 1402 true (omega arith)
