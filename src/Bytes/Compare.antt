-- ===== src/Bytes/Compare.antt =====
-- `memcmp` returns 0 exactly for equal bytes.
use os_212_assignment.Base.{
  ℕ, zero, suc, ◌+◌, ◌-◌, ◌<◌, ◌≡◌, ◌↔◌, refl, inl, inr, arith, ◌==◌, leb, Bool-cases, ==_iff,
  leb→le, ap, ◌∙◌,
}
use os_212_assignment.Base.Int.{pos}
use os_212_assignment.Bytes.{byte_diff, memcmp}

-- The `n` bytes from `v1` and from `v2` on are equal.
abbrev pub Same : ℕ → ℕ → ℕ → (ℕ → ℕ) → Type 0
Same v1 v2 n mem = (i : ℕ) → i < n → mem (v1 + i) ≡ mem (v2 + i)

diff_zero : (a b : ℕ) → byte_diff a b ≡ pos 0 → a ≡ b
unfolding byte_diff
diff_zero a b e = elim (Bool-cases (leb b a)) [
  | inl l ↦ let f = (rw l at e) in let z : a - b ≡ 0 = cc in omega (arith, z, leb→le b a l)
  | inr g ↦ let f = (rw g at e) in absurd cc
]

suc-Same :
    (n v1 v2 : ℕ) (mem : ℕ → ℕ)
    → mem v1 ≡ mem v2
    → Same (v1 + 1) (v2 + 1) n mem
    → Same v1 v2 (suc n) mem
suc-Same n v1 v2 mem e s zero l = ap mem (omega arith) ∙ e ∙ ap mem (omega arith)
suc-Same n v1 v2 mem e s (suc i) l = ap mem (omega arith) ∙ s i (omega arith) ∙ ap mem (omega arith)

-- memcmp(v1, v2, n) returns 0 if and only if the n bytes from v1 on equal those from v2 on.
pub memcmp_iff : (n v1 v2 : ℕ) (mem : ℕ → ℕ) → (memcmp v1 v2 n mem ≡ pos 0) ↔ Same v1 v2 n mem
unfolding memcmp
memcmp_iff zero v1 v2 mem = ((λ e i l. absurd (omega arith)), λ s. refl)
memcmp_iff (suc n) v1 v2 mem =
    let (to, back) = memcmp_iff n (v1 + 1) (v2 + 1) mem in
    elim (Bool-cases (mem v1 == mem v2)) [
      | inl e ↦
          let first : mem v1 ≡ mem v2 = omega (arith, (==_iff (mem v1) (mem v2)).0 e) in
          (
            rw e (λ r. suc-Same n v1 v2 mem first (to r)),
            rw e (λ s.
                back
                  (λ i l. ap mem (omega arith) ∙ s (suc i) (omega arith) ∙ ap mem (omega arith))),
          )
      | inr e ↦ (
        rw e (λ r.
            absurd (let q = (==_iff (mem v1) (mem v2)).1 (diff_zero (mem v1) (mem v2) r) in cc)),
        rw e (λ s. absurd (
            let q =
              (==_iff (mem v1) (mem v2)).1
                (ap mem (omega arith) ∙ s 0 (omega arith) ∙ ap mem (omega arith)) in
            cc)),
      )
    ]
