-- ===== src/Policy/Choice.antt =====
-- What `nfua` and `lapa` of kernel/vm.c choose, in terms of `p->data`.
use os_212_assignment.Base.{
  ℕ, zero, suc, ◌+◌, ◌-◌, ◌*◌, ◌^◌, ◌≤◌, ◌<◌, ◌≡◌, ◌≢◌, refl, sym, ap, ◌∙◌, ◌⊎◌, inl, inr, Option,
  none, some, List, [], ◌∷◌, arith, get_or, drop,
}
use os_212_assignment.Base.Int.{ℤ, pos, minus_one}
use os_212_assignment.Proc.{Meta, Proc}
use os_212_assignment.Policy.{nfua, count_ones, lapa}
use os_212_assignment.Policy.Scan.{scan, Scanned, Least, scan-Scanned}
use os_212_assignment.Policy.Ones.{bits, count_ones-bits, count_ones-le}
use os_212_assignment.Policy.Least.{
  idle, meta_at, Candidate, age, nfua_rank, nfua_loop-scan, lapa_rank, AreWords,
  lapa_loop_start-scan, ranks, get_or-ranks,
}

-- The page `k` is a candidate whose counter is below 2^31 and least, and the first of those.
pub record NfuaChoice (p : Proc) (k : ℕ) : Type 0 where
  pub candidate : Candidate p k
  pub below : age p k < 2 ^ 31
  pub least : (j : ℕ) → Candidate p j → age p k ≤ age p j
  pub first : (j : ℕ) → j < k → Candidate p j → age p k < age p j

rank_of_candidate :
    (f : Meta → Option ℕ) (p : Proc) (j r : ℕ)
    → f idle ≡ none
    → 3 ≤ j
    → f (meta_at p j) ≡ some r
    → get_or (ranks f p) (j - 3) none ≡ some r
rank_of_candidate f p j r e h h' =
    let s : 3 + (j - 3) ≡ j = omega arith in
    get_or-ranks f p (j - 3) e ∙ ap (λ n. f (meta_at p n)) s ∙ h'

nfua_rank-some : (m : Meta) → m.in_use ≢ 0 → nfua_rank m ≡ some m.aging_counter
unfolding nfua_rank
nfua_rank-some m h = ground arith

nfua_rank-inv : (m : Meta) (r : ℕ) → nfua_rank m ≡ some r → (m.in_use ≢ 0) × (r ≡ m.aging_counter)
unfolding nfua_rank
nfua_rank-inv m r h = ground arith

nfua_at :
    (p : Proc) (j : ℕ) → Candidate p j → get_or (ranks nfua_rank p) (j - 3) none ≡ some (age p j)
unfolding nfua_rank
nfua_at p j c =
    rank_of_candidate nfua_rank p j (age p j) refl c.high (nfua_rank-some (meta_at p j) c.resident)

NfuaChoice-Least :
    (p : Proc) (k r : ℕ) → Least (ranks nfua_rank p) (2 ^ 31) k r → NfuaChoice p (3 + k)
unfolding nfua_rank
NfuaChoice-Least p k r l =
    let found =
      nfua_rank-inv (meta_at p (3 + k)) r (sym (get_or-ranks nfua_rank p k refl) ∙ l.rank) in
    record {
      candidate = record { high = omega arith; resident = found.0 };
      below = omega (arith, l.below, found.1);
      least = λ j c. omega (arith, found.1, l.least (j - 3) (age p j) (nfua_at p j c));
      first = λ j lt c.
          let high = c.high in
          omega (arith, found.1, l.first (j - 3) (age p j) (omega arith) (nfua_at p j c));
    }

-- `nfua` returns the first page, from page 3 on, that is in memory and has the least counter; it
-- returns -1 exactly where no such page has a counter below 2^31.
pub nfua-least :
    (p : Proc)
    → ((nfua p ≡ minus_one) × ((j : ℕ) → Candidate p j → 2 ^ 31 ≤ age p j))
      ⊎ ((k : ℕ) × (nfua p ≡ pos k) × NfuaChoice p k)
unfolding nfua ranks
nfua-least p =
    let e = nfua_loop-scan (drop 3 p.meta) 3 (2 ^ 31) minus_one in
    finish (nfua p) e (scan-Scanned (ranks nfua_rank p) 3 (2 ^ 31) minus_one)
  where
    finish :
        (out : ℤ)
        → out ≡ scan (ranks nfua_rank p) 3 (2 ^ 31) minus_one
        → Scanned
            (ranks nfua_rank p)
            3
            (2 ^ 31)
            minus_one
            (scan (ranks nfua_rank p) 3 (2 ^ 31) minus_one)
        → ((out ≡ minus_one) × ((j : ℕ) → Candidate p j → 2 ^ 31 ≤ age p j))
          ⊎ ((k : ℕ) × (out ≡ pos k) × NfuaChoice p k)
    finish out e (inl (q, h)) = inl (e ∙ q, λ j c. h (j - 3) (age p j) (nfua_at p j c))
    finish out e (inr (k, r, q, l)) = inr (3 + k, e ∙ q, NfuaChoice-Least p k r l)

-- Page `k` has fewer ones among the 32 binary digits of its counter than page `j`, or as many and
-- a smaller counter.
abbrev pub FewerOnes : Proc → ℕ → ℕ → Type 0
FewerOnes p k j =
    (bits 32 (age p k) < bits 32 (age p j))
    ⊎ ((bits 32 (age p k) ≡ bits 32 (age p j)) × (age p k < age p j))

-- The page `k` is a candidate that no other one comes before, and the first of those.
pub record LapaChoice (p : Proc) (k : ℕ) : Type 0 where
  pub candidate : Candidate p k
  pub least : (j : ℕ) → Candidate p j → ¬ FewerOnes p j k
  pub first : (j : ℕ) → j < k → Candidate p j → FewerOnes p k j

lapa_key : Proc → ℕ → ℕ
lapa_key p j = count_ones (age p j) * 2 ^ 32 + age p j

lapa_rank-some :
    (m : Meta)
    → m.in_use ≢ 0
    → lapa_rank m ≡ some (count_ones m.aging_counter * 2 ^ 32 + m.aging_counter)
unfolding lapa_rank
lapa_rank-some m h = ground arith

lapa_rank-inv :
    (m : Meta) (r : ℕ)
    → lapa_rank m ≡ some r
    → (m.in_use ≢ 0) × (r ≡ count_ones m.aging_counter * 2 ^ 32 + m.aging_counter)
unfolding lapa_rank
lapa_rank-inv m r h = ground arith

lapa_at :
    (p : Proc) (j : ℕ)
    → Candidate p j
    → get_or (ranks lapa_rank p) (j - 3) none ≡ some (lapa_key p j)
unfolding lapa_rank lapa_key
lapa_at p j c =
    rank_of_candidate lapa_rank p j (lapa_key p j) refl c.high
      (lapa_rank-some (meta_at p j) c.resident)

age-word : (p : Proc) (j : ℕ) → AreWords p.meta → age p j < 2 ^ 32
age-word p j w = go p.meta j w
  where
    go : (ms : List Meta) (j : ℕ) → AreWords ms → (get_or ms j idle).aging_counter < 2 ^ 32
    go [] j w = omega arith
    go (m ∷ ms) zero w = w.0
    go (m ∷ ms) (suc j) w = go ms j w.1

LapaChoice-Least :
    (p : Proc) (k r : ℕ)
    → AreWords p.meta
    → Least (ranks lapa_rank p) (33 * 2 ^ 32) k r
    → LapaChoice p (3 + k)
unfolding lapa_rank lapa_key
LapaChoice-Least p k r w l =
    let found =
      lapa_rank-inv (meta_at p (3 + k)) r (sym (get_or-ranks lapa_rank p k refl) ∙ l.rank) in
    let low = age-word p (3 + k) w in
    record {
      candidate = record { high = omega arith; resident = found.0 };
      least = λ j c fewer.
          let le = l.least (j - 3) (lapa_key p j) (lapa_at p j c) in
          let ones = count_ones-bits (age p j) in
          let mine = count_ones-bits (age p (3 + k)) in
          let word = age-word p j w in omega (arith, found.1);
      first = λ j lt c.
          let high = c.high in
          let less = l.first (j - 3) (lapa_key p j) (omega arith) (lapa_at p j c) in
          let ones = count_ones-bits (age p j) in
          let mine = count_ones-bits (age p (3 + k)) in
          let word = age-word p j w in ground (arith, found.1);
    }

AreWords-drop : (n : ℕ) (ms : List Meta) → AreWords ms → AreWords (drop n ms)
AreWords-drop zero ms w = w
AreWords-drop (suc n) [] w = tt
AreWords-drop (suc n) (m ∷ ms) w = AreWords-drop n ms w.1

-- Where the counters are `uint`s, `lapa` returns the first page, from page 3 on, that is in memory
-- and has the fewest ones among the 32 binary digits of its counter, and among those the least
-- counter; it returns -1 exactly where no such page is in memory.
pub lapa-least :
    (p : Proc)
    → AreWords p.meta
    → ((lapa p ≡ minus_one) × ((j : ℕ) → ¬ Candidate p j))
      ⊎ ((k : ℕ) × (lapa p ≡ pos k) × LapaChoice p k)
unfolding lapa ranks lapa_key
lapa-least p w =
    let e =
      lapa_loop_start-scan (drop 3 p.meta) 3 0xffff_ffff minus_one (AreWords-drop 3 p.meta w) in
    finish (lapa p) e (scan-Scanned (ranks lapa_rank p) 3 (33 * 2 ^ 32) minus_one)
  where
    finish :
        (out : ℤ)
        → out ≡ scan (ranks lapa_rank p) 3 (33 * 2 ^ 32) minus_one
        → Scanned
            (ranks lapa_rank p)
            3
            (33 * 2 ^ 32)
            minus_one
            (scan (ranks lapa_rank p) 3 (33 * 2 ^ 32) minus_one)
        → ((out ≡ minus_one) × ((j : ℕ) → ¬ Candidate p j))
          ⊎ ((k : ℕ) × (out ≡ pos k) × LapaChoice p k)
    finish out e (inl (q, h)) = inl (
      e ∙ q,
      λ j c. omega (
        arith,
        h (j - 3) (lapa_key p j) (lapa_at p j c),
        count_ones-le (age p j),
        age-word p j w,
      ),
    )
    finish out e (inr (k, r, q, l)) = inr (3 + k, e ∙ q, LapaChoice-Least p k r w l)
