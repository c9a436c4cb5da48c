-- ===== src/Decimal/RoundTrip.antt =====
-- atoi reads what printint writes.
use os_212_assignment.Base.{
  ℕ, zero, suc, ◌+◌, ◌*◌, ◌/◌, ◌%◌, ◌^◌, ◌<◌, ◌≡◌, ap, ◌∙◌, refl, arith, List, [], ◌∷◌, ◌==◌, Bool,
  Bool-cases, inl, inr, some, ne_of_false, ==_iff, ◌≢◌,
}
use native.Mathlib.Nat.{pow-suc}
use os_212_assignment.Base.Int.{pos}
use os_212_assignment.Decimal.{digit, buf_size, fill, printint, atoi_loop, atoi}

-- A decimal digit is read back.
digit_read :
    (n d : ℕ) (cs : List ℕ) → d < 10 → atoi_loop n (digit d ∷ cs) ≡ atoi_loop (n * 10 + d) cs
unfolding atoi_loop digit
digit_read n d cs h = ground arith

-- The number is read back in front of what has been printed before.
fill_read :
    (room x : ℕ) (out : List ℕ)
    → x < 10 ^ room
    → 0 < room
    → (text : List ℕ) × (fill room 10 x out ≡ some text)
      × ((n : ℕ) → n ≡ 0 → atoi_loop n text ≡ atoi_loop x out)
unfolding fill
fill_read zero x out h p = absurd (omega arith)
fill_read (suc room) x out h p = elim (Bool-cases ((x / 10) == 0)) [
  | inl last ↦
      let e : x / 10 ≡ 0 = (==_iff (x / 10) 0).0 last in
      (
        digit (x % 10) ∷ out,
        rw last refl,
        λ n z.
            digit_read n (x % 10) out (omega arith) ∙ ap (λ (m : ℕ). atoi_loop m out) (omega arith),
      )
  | inr more ↦
      let e = ne_of_false (x / 10) 0 more in
      let q = pow-suc 10 room in
      let k = fill_read room (x / 10) (digit (x % 10) ∷ out) (omega arith) (enough room x e h) in
      (
        k.0,
        rw more k.1,
        λ n z.
            k.2 n z
            ∙ digit_read (x / 10) (x % 10) out (omega arith)
            ∙ ap (λ (m : ℕ). atoi_loop m out) (omega arith),
      )
]
  where
    enough : (room x : ℕ) → x / 10 ≢ 0 → x < 10 ^ suc room → 0 < room
    enough zero x e h = absurd (e (omega arith))
    enough (suc r) x e h = omega arith

-- For every number n below 2^31, and either value of sgn, printint writes a text in base 10 without
-- a write behind its buffer, and atoi of the text is n.
pub atoi-printint :
    (n : ℕ) (sgn : Bool)
    → n < 2 ^ 31
    → (text : List ℕ) × (printint (pos n) 10 sgn ≡ some text) × (atoi text ≡ n)
unfolding printint atoi atoi_loop
atoi-printint n sgn h =
    let k = fill_read buf_size n [] (omega arith) (omega arith) in (k.0, k.1, k.2 0 refl)
