-- ===== src/Fs/Bits.antt =====
-- The bits of a byte of the bitmap in kernel/fs.c: `|=` and `&= ~` of one bit.
use os_212_assignment.Base.{ℕ, zero, suc, ◌+◌, ◌-◌, ◌*◌, ◌/◌, ◌^◌, ◌≤◌, ◌≡◌, ◌≢◌, ap, ◌∙◌, arith}
use native.Mathlib.Nat.{pow-suc}
use os_212_assignment.Fs.{bit}

pow_step : (k : ℕ) → 2 ^ suc k ≡ 2 * 2 ^ k
pow_step k = omega (arith, pow-suc 2 k)

pub bit-set_ne : (k j b : ℕ) → bit b k ≡ 0 → k ≢ j → bit (b + 2 ^ k) j ≡ bit b j
unfolding bit
bit-set_ne zero zero b h e = absurd (e refl')
  where
    refl' : ◌≡◌ {A = ℕ} 0 0
    refl' = omega arith
bit-set_ne zero (suc j) b h e = ap (λ x. bit x j) (omega arith)
bit-set_ne (suc k) zero b h e = rw (pow_step k) (omega arith)
bit-set_ne (suc k) (suc j) b h e =
    ap (λ x. bit x j) (rw (pow_step k) (omega arith)) ∙ bit-set_ne k j (b / 2) h (λ q. e (ap suc q))

pub bit-set_self : (k b : ℕ) → bit b k ≡ 0 → bit (b + 2 ^ k) k ≡ 1
unfolding bit
bit-set_self zero b h = omega arith
bit-set_self (suc k) b h =
    ap (λ x. bit x k) (rw (pow_step k) (omega arith)) ∙ bit-set_self k (b / 2) h

-- A byte with a bit is as large as the bit.
bit_le : (k b : ℕ) → bit b k ≢ 0 → 2 ^ k ≤ b
unfolding bit
bit_le zero b h = omega arith
bit_le (suc k) b h = rw (pow_step k) (omega (arith, bit_le k (b / 2) h))

pub bit-clear_ne : (k j b : ℕ) → bit b k ≢ 0 → k ≢ j → bit (b - 2 ^ k) j ≡ bit b j
unfolding bit
bit-clear_ne zero zero b h e = absurd (omega arith)
bit-clear_ne zero (suc j) b h e = ap (λ x. bit x j) (omega arith)
bit-clear_ne (suc k) zero b h e = let l = bit_le k (b / 2) h in rw (pow_step k) (omega arith)
bit-clear_ne (suc k) (suc j) b h e =
    ap (λ x. bit x j) (rw (pow_step k) (omega arith))
    ∙ bit-clear_ne k j (b / 2) h (λ q. e (ap suc q))

pub bit-clear_self : (k b : ℕ) → bit b k ≢ 0 → bit (b - 2 ^ k) k ≡ 0
unfolding bit
bit-clear_self zero b h = omega arith
bit-clear_self (suc k) b h =
    ap (λ x. bit x k) (rw (pow_step k) (omega arith)) ∙ bit-clear_self k (b / 2) h
