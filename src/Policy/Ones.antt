-- ===== src/Policy/Ones.antt =====
-- `countOnes` of kernel/vm.c counts the set bits of a `uint`.
use os_212_assignment.Base.{
  ℕ, zero, suc, ◌+◌, ◌*◌, ◌/◌, ◌%◌, ◌^◌, ◌≤◌, ◌<◌, ◌≡◌, refl, ap, ◌∙◌, arith,
}
use native.Mathlib.Nat.{pow-suc}
use os_212_assignment.Policy.{count_loop, count_ones}

-- The number of ones among the lowest `k` binary digits of `a`.
pub bits : ℕ → ℕ → ℕ
bits zero a = 0
bits (suc k) a = a % 2 + bits k (a / 2)

bits_step : (k a : ℕ) → bits (suc k) a ≡ a % 2 + bits k (a / 2)
unfolding bits
bits_step k a = refl

bits-zero : (k : ℕ) → bits k 0 ≡ 0
unfolding bits
bits-zero zero = refl
bits-zero (suc k) = omega (arith, bits-zero k)

bits-le : (k a : ℕ) → bits k a ≤ k
unfolding bits
bits-le zero a = omega arith
bits-le (suc k) a = omega (arith, bits-le k (a / 2))

-- The loop adds them up; that it stops at 0 changes nothing.
count_loop-bits : (k a c : ℕ) → count_loop k a c ≡ c + bits k a
unfolding count_loop bits
count_loop-bits zero a c = omega arith
count_loop-bits (suc k) zero c = omega (arith, bits-zero k)
count_loop-bits (suc k) (suc a) c = ground (arith, count_loop-bits k (suc a / 2) (c + suc a % 2))

pub count_ones-bits : (a : ℕ) → count_ones a ≡ bits 32 a
unfolding count_ones
count_ones-bits a = omega (arith, count_loop-bits 32 a 0)

-- Digits above those that `a` has are zero.
bits-suc : (k a : ℕ) → a < 2 ^ k → bits (suc k) a ≡ bits k a
unfolding bits
bits-suc zero a h = omega arith
bits-suc (suc k) a h = ap (λ n. a % 2 + n) (bits-suc k (a / 2) (omega (arith, pow-suc 2 k)))

pub count_ones-le : (a : ℕ) → count_ones a ≤ 32
count_ones-le a = omega (arith, count_ones-bits a, bits-le 32 a)

bits-digit : (k a b : ℕ) → a < 2 ^ k → b < 2 → bits (suc k) (2 * a + b) ≡ bits (suc k) a + b
bits-digit k a b h low = shift (bits-suc k a h)
  where
    half : (2 * a + b) / 2 ≡ a
    half = omega arith

    shift : bits (suc k) a ≡ bits k a → bits (suc k) (2 * a + b) ≡ bits (suc k) a + b
    shift e = rw (e, bits_step k (2 * a + b), half) (omega arith)

-- `countOnes` is 0 at 0, and a binary digit `b` behind the digits of `a` adds `b` to it, for every
-- `uint`: it is the number of set bits.
pub count_ones-digit :
    (a b : ℕ)
    → 2 * a + b < 2 ^ 32
    → b < 2
    → (count_ones 0 ≡ 0) × (count_ones (2 * a + b) ≡ count_ones a + b)
count_ones-digit a b h low = (
  count_ones-bits 0 ∙ bits-zero 32,
  omega
      (arith, count_ones-bits (2 * a + b), count_ones-bits a, bits-digit 31 a b (omega arith) low),
)
