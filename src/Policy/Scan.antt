-- ===== src/Policy/Scan.antt =====
-- The search that `nfua` and `lapa` share: the first entry of least rank, below a bound. An entry
-- that has no rank is passed over.
use os_212_assignment.Base.{
  ℕ, zero, suc, ◌+◌, ◌≤◌, ◌<◌, ◌≡◌, refl, ap, ◌∙◌, ◌⊎◌, inl, inr, Option, none, some, List, [], ◌∷◌,
  arith, ltb, if◌then◌else◌, Bool-cases, get_or,
}
use os_212_assignment.Base.Int.{ℤ, pos}

unfoldable pub scan : List (Option ℕ) → ℕ → ℕ → ℤ → ℤ
scan [] i low index = index
scan (none ∷ rs) i low index = scan rs (i + 1) low index
scan (some r ∷ rs) i low index =
    let found = scan rs (i + 1) r (pos i) in
    let on = scan rs (i + 1) low index in if ltb r low then found else on

-- Every rank is at least `low`.
abbrev pub NoneBelow : List (Option ℕ) → ℕ → Type 0
NoneBelow rs low = (j r : ℕ) → get_or rs j none ≡ some r → low ≤ r

-- Entry `k` has the least rank `r`, no entry before it has the same, and it lies below `low`.
pub record Least (rs : List (Option ℕ)) (low k r : ℕ) : Type 0 where
  pub rank : get_or rs k none ≡ some r
  pub below : r < low
  pub least : (j s : ℕ) → get_or rs j none ≡ some s → r ≤ s
  pub first : (j s : ℕ) → j < k → get_or rs j none ≡ some s → r < s

abbrev pub Scanned : List (Option ℕ) → ℕ → ℕ → ℤ → ℤ → Type 0
Scanned rs i low index out =
    ((out ≡ index) × NoneBelow rs low)
    ⊎ ((k : ℕ) × (r : ℕ) × (out ≡ pos (i + k)) × Least rs low k r)

NoneBelow-cons :
    (o : Option ℕ) (rs : List (Option ℕ)) (low : ℕ)
    → ((r : ℕ) → o ≡ some r → low ≤ r)
    → NoneBelow rs low
    → NoneBelow (o ∷ rs) low
NoneBelow-cons o rs low h t zero r e = h r e
NoneBelow-cons o rs low h t (suc j) r e = t j r e

Least-cons :
    (o : Option ℕ) (rs : List (Option ℕ)) (low low' k r : ℕ)
    → r < low'
    → ((s : ℕ) → o ≡ some s → r < s)
    → Least rs low k r
    → Least (o ∷ rs) low' (suc k) r
Least-cons o rs low low' k r b h l = record {
  rank = l.rank;
  below = b;
  least = least;
  first = first;
}
  where
    least : (j s : ℕ) → get_or (o ∷ rs) j none ≡ some s → r ≤ s
    least zero s e = omega (arith, h s e)
    least (suc j) s e = l.least j s e

    first : (j s : ℕ) → j < suc k → get_or (o ∷ rs) j none ≡ some s → r < s
    first zero s lt e = h s e
    first (suc j) s lt e = l.first j s (omega arith) e

Least-here :
    (rs : List (Option ℕ)) (low r : ℕ) → r < low → NoneBelow rs r → Least (some r ∷ rs) low 0 r
Least-here rs low r b h = record {
  rank = refl;
  below = b;
  least = least;
  first = λ j s lt. absurd (omega arith);
}
  where
    least : (j s : ℕ) → get_or (some r ∷ rs) j none ≡ some s → r ≤ s
    least zero s e = ground arith
    least (suc j) s e = h j s e

-- An entry that does not lie below the bound changes nothing.
Scanned-pass :
    (o : Option ℕ) (rs : List (Option ℕ)) (i low : ℕ) {index out : ℤ}
    → ((s : ℕ) → o ≡ some s → low ≤ s)
    → Scanned rs (i + 1) low index out
    → Scanned (o ∷ rs) i low index out
Scanned-pass o rs i low h (inl (e, t)) = inl (e, NoneBelow-cons o rs low h t)
Scanned-pass o rs i low h (inr (k, r, e, l)) = inr (
  suc k,
  r,
  e ∙ ap pos (omega arith),
  Least-cons o rs low low k r l.below (λ s q. omega (arith, l.below, h s q)) l,
)

-- An entry below the bound becomes the one to beat.
Scanned-take :
    (r : ℕ) (rs : List (Option ℕ)) (i low : ℕ) {index out : ℤ}
    → r < low
    → Scanned rs (i + 1) r (pos i) out
    → Scanned (some r ∷ rs) i low index out
Scanned-take r rs i low b (inl (e, t)) =
    inr (0, r, e ∙ ap pos (omega arith), Least-here rs low r b t)
Scanned-take r rs i low b (inr (k, s, e, l)) = inr (
  suc k,
  s,
  e ∙ ap pos (omega arith),
  Least-cons (some r) rs r low k s (omega (arith, l.below)) (λ t q. ground (arith, l.below)) l,
)

pub scan-Scanned :
    (rs : List (Option ℕ)) (i low : ℕ) (index : ℤ) → Scanned rs i low index (scan rs i low index)
unfolding scan
scan-Scanned [] i low index = inl (refl, λ j r e. absurd (ground arith))
scan-Scanned (none ∷ rs) i low index =
    Scanned-pass none rs i low (λ s e. absurd (ground arith)) (scan-Scanned rs (i + 1) low index)
scan-Scanned (some r ∷ rs) i low index = elim (Bool-cases (ltb r low)) [
  | inl e ↦ rw e (Scanned-take r rs i low (ground arith) (scan-Scanned rs (i + 1) r (pos i)))
  | inr e ↦
      rw e
        (Scanned-pass (some r) rs i low (λ s q. ground arith) (scan-Scanned rs (i + 1) low index))
]
