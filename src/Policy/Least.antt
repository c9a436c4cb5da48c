-- ===== src/Policy/Least.antt =====
-- What `nfua` and `lapa` of kernel/vm.c choose.
use os_212_assignment.Base.{
  ℕ, zero, suc, ◌+◌, ◌*◌, ◌^◌, ◌≤◌, ◌<◌, ◌≡◌, ◌≢◌, refl, sym, ap, ◌∙◌, Option, none, some, List, [],
  ◌∷◌, map, arith, ltb, if◌then◌else◌, get_or, drop, get_or-drop,
}
use os_212_assignment.Base.Int.{ℤ, pos, minus_one}
use os_212_assignment.Proc.{Meta, Proc}
use os_212_assignment.Policy.{truth, nfua_loop, count_ones, lapa_better, lapa_loop}
use os_212_assignment.Policy.Scan.{scan}
use os_212_assignment.Policy.Ones.{count_ones-le}

-- An entry that no page stands in.
abbrev pub idle : Meta
idle = record { offset = 0; in_use = 0; aging_counter = 0 }

-- `p->data[j]`
abbrev pub meta_at : Proc → ℕ → Meta
meta_at p j = get_or p.meta j idle

-- Page `j` may be chosen: it is in memory, and not one of the first three.
pub record Candidate (p : Proc) (j : ℕ) : Type 0 where
  pub high : 3 ≤ j
  pub resident : (meta_at p j).in_use ≢ 0

abbrev pub age : Proc → ℕ → ℕ
age p j = (meta_at p j).aging_counter

-- The rank of an entry under NFUA is its counter.
unfoldable pub nfua_rank : Meta → Option ℕ
nfua_rank m = if truth m.in_use then some m.aging_counter else none

pub nfua_loop-scan :
    (ms : List Meta) (i low : ℕ) (index : ℤ)
    → nfua_loop ms i low index ≡ scan (map nfua_rank ms) i low index
unfolding nfua_loop scan nfua_rank
nfua_loop-scan [] i low index = refl
nfua_loop-scan (m ∷ ms) i low index =
    ground (
      arith,
      nfua_loop-scan ms (i + 1) m.aging_counter (pos i),
      nfua_loop-scan ms (i + 1) low index,
    )

-- Under LAPA it is the number of ones, and the counter where that is equal.
unfoldable pub lapa_rank : Meta → Option ℕ
lapa_rank m =
    if truth m.in_use then some (count_ones m.aging_counter * 2 ^ 32 + m.aging_counter) else none

-- Counters are `uint`s.
abbrev pub AreWords : List Meta → Type 0
AreWords [] = Unit
AreWords (m ∷ ms) = (m.aging_counter < 2 ^ 32) × AreWords ms

lapa_better-ltb :
    (ones age o a : ℕ)
    → age < 2 ^ 32
    → a < 2 ^ 32
    → lapa_better ones age (pos o) a ≡ ltb (ones * 2 ^ 32 + age) (o * 2 ^ 32 + a)
unfolding lapa_better
lapa_better-ltb ones age o a h h' = ground arith

lapa_loop-scan :
    (ms : List Meta) (i o a : ℕ) (index : ℤ)
    → AreWords ms
    → a < 2 ^ 32
    → lapa_loop ms i (pos o) a index ≡ scan (map lapa_rank ms) i (o * 2 ^ 32 + a) index
unfolding lapa_loop scan lapa_rank
lapa_loop-scan [] i o a index w h = refl
lapa_loop-scan (m ∷ ms) i o a index w h = ground (
  arith,
  lapa_better-ltb (count_ones m.aging_counter) m.aging_counter o a w.0 h,
  lapa_loop-scan ms (i + 1) (count_ones m.aging_counter) m.aging_counter (pos i) w.1 w.0,
  lapa_loop-scan ms (i + 1) o a index w.1 h,
)

-- Before the first candidate every rank is taken.
pub lapa_loop_start-scan :
    (ms : List Meta) (i a : ℕ) (index : ℤ)
    → AreWords ms
    → lapa_loop ms i minus_one a index ≡ scan (map lapa_rank ms) i (33 * 2 ^ 32) index
unfolding lapa_loop scan lapa_rank lapa_better
lapa_loop_start-scan [] i a index w = refl
lapa_loop_start-scan (m ∷ ms) i a index w = ground (
  arith,
  count_ones-le m.aging_counter,
  lapa_loop-scan ms (i + 1) (count_ones m.aging_counter) m.aging_counter (pos i) w.1 w.0,
  lapa_loop_start-scan ms (i + 1) a index w.1,
)

-- The ranks of the entries from index 3 on, read through `p->data`.
unfoldable pub ranks : (Meta → Option ℕ) → Proc → List (Option ℕ)
ranks f p = map f (drop 3 p.meta)

pub get_or-ranks :
    (f : Meta → Option ℕ) (p : Proc) (j : ℕ)
    → f idle ≡ none
    → get_or (ranks f p) j none ≡ f (meta_at p (3 + j))
unfolding ranks
get_or-ranks f p j e = go (drop 3 p.meta) j ∙ ap f (get_or-drop 3 j p.meta idle)
  where
    go : (ms : List Meta) (j : ℕ) → get_or (map f ms) j none ≡ f (get_or ms j idle)
    go [] j = sym e
    go (m ∷ ms) zero = refl
    go (m ∷ ms) (suc j) = go ms j
