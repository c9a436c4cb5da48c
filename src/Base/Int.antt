-- ===== src/Base/Int.antt =====
-- C's signed `int` as an integer over the native numbers, under the library's names. The values
-- that the modelled code gives to an `int` stay far from 2^31, so none wraps.
use os_212_assignment.Base.{
  ℕ, suc, ◌+◌, ◌-◌, ◌≡◌, ◌↔◌, ◌<◌, Bool, false, arith, ltb, leb, ◌==◌, if◌then◌else◌,
}
use mathlib.Core.Bool.{true}

-- `negsuc n` is -(n + 1).
pub data ℤ : Type 0 where
  pos : ℕ → ℤ
  negsuc : ℕ → ℤ

-- -1
abbrev pub minus_one : ℤ
minus_one = negsuc 0

abbrev pub pos_part : ℤ → ℕ
pos_part (pos n) = n
pos_part (negsuc n) = 0

abbrev pub neg_part : ℤ → ℕ
neg_part (pos n) = 0
neg_part (negsuc n) = suc n

-- a - b, as an integer.
abbrev pub sub_ℕ : ℕ → ℕ → ℤ
sub_ℕ a b = if leb b a then pos (a - b) else negsuc (b - a - 1)

-- `x += 1` and `x -= 1`.
abbrev pub inc : ℤ → ℤ
inc a = sub_ℕ (pos_part a + 1) (neg_part a)

abbrev pub dec : ℤ → ℤ
dec a = sub_ℕ (pos_part a) (neg_part a + 1)

abbrev pub ltb_ℤ : ℤ → ℤ → Bool
ltb_ℤ a b = ltb (pos_part a + neg_part b) (pos_part b + neg_part a)

abbrev pub eqb_ℤ : ℤ → ℤ → Bool
eqb_ℤ (pos a) (pos b) = a == b
eqb_ℤ (negsuc a) (negsuc b) = a == b
eqb_ℤ _ _ = false

pub eqb_ℤ_iff : (a b : ℤ) → (eqb_ℤ a b ≡ true) ↔ (a ≡ b)
eqb_ℤ_iff (pos a) (pos b) = ground arith
eqb_ℤ_iff (pos a) (negsuc b) = ground arith
eqb_ℤ_iff (negsuc a) (pos b) = ground arith
eqb_ℤ_iff (negsuc a) (negsuc b) = ground arith

pub inc-pos : (n : ℕ) → inc (pos n) ≡ pos (n + 1)
inc-pos n = ground arith

pub dec-pos : (n : ℕ) → 0 < n → dec (pos n) ≡ pos (n - 1)
dec-pos n h = ground arith

pub ltb_ℤ-pos : (a b : ℕ) → ltb_ℤ (pos a) (pos b) ≡ ltb a b
ltb_ℤ-pos a b = ground arith
