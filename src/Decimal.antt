-- ===== src/Decimal.antt =====
-- user/printf.c, printint, and user/ulib.c, atoi and strchr: numbers as text. A text is the list of
-- its characters up to the zero byte.
pub mod RoundTrip
mod Tests
use os_212_assignment.Base.{
  ℕ, zero, suc, ◌+◌, ◌-◌, ◌*◌, ◌/◌, ◌%◌, ◌^◌, Bool, ◌&&◌, List, [], ◌∷◌, ltb, leb, ◌==◌,
  if◌then◌else◌, Option, none, some,
}
use os_212_assignment.Base.Int.{ℤ, pos, negsuc}

-- `digits[d]`
pub digit : ℕ → ℕ
digit d = if ltb d 10 then b'0' + d else b'A' + (d - 10)

-- `buf` has 16 bytes.
abbrev pub buf_size : ℕ
buf_size = 16

-- The loop of `printint` that fills the buffer, whose last character is printed first: `out` holds
-- the characters of the buffer in the order in which they are printed. `none` is a write behind it.
pub fill : ℕ → ℕ → ℕ → List ℕ → Option (List ℕ)
fill zero base x out = none
fill (suc room) base x out =
    let rest = fill room base (x / base) (digit (x % base) ∷ out) in
    if (x / base) == 0 then some (digit (x % base) ∷ out) else rest

-- `xx` as a `uint`.
abbrev pub as_uint : ℤ → ℕ
as_uint (pos n) = n
as_uint (negsuc n) = 2 ^ 32 - (n + 1)

abbrev pub with_minus : Option (List ℕ) → Option (List ℕ)
with_minus none = none
with_minus (some out) = some (b'-' ∷ out)

-- What `printint(fd, xx, base, sgn)` writes.
pub printint : ℤ → ℕ → Bool → Option (List ℕ)
printint (pos n) base sgn = fill buf_size base n []
printint (negsuc n) base sgn =
    if sgn
    then with_minus (fill buf_size base (n + 1) [])
    else fill buf_size base (as_uint (negsuc n)) []

abbrev pub is_digit : ℕ → Bool
is_digit c = leb b'0' c && leb c b'9'

-- The loop of `atoi`, whose `int` stays below 2^31 where the text stands for such a number.
pub atoi_loop : ℕ → List ℕ → ℕ
atoi_loop n [] = n
atoi_loop n (c ∷ cs) = let rest = atoi_loop (n * 10 + c - b'0') cs in if is_digit c then rest else n

-- `atoi(s)`
pub atoi : List ℕ → ℕ
atoi s = atoi_loop 0 s
