-- ===== src/Policy.antt =====
-- kernel/vm.c: the page replacement policies NFUA and LAPA (`nfua`, `countOnes`, `lapa`), which
-- read only the paging data of a process. SCFIFO also reads page tables and stands in Swap.
pub mod Scan
pub mod Ones
pub mod Least
pub mod Choice
mod Tests
use os_212_assignment.Base.{
  ℕ, zero, suc, ◌+◌, ◌/◌, ◌%◌, ◌^◌, Bool, true, false, ◌&&◌, ◌||◌, not, List, [], ◌∷◌, ltb, ◌==◌,
  if◌then◌else◌, drop,
}
use os_212_assignment.Base.Int.{ℤ, pos, minus_one, ltb_ℤ, eqb_ℤ}
use os_212_assignment.Proc.{Meta, Proc}

-- C's truth of a number.
abbrev pub truth : ℕ → Bool
truth n = not (n == 0)

-- The loop of `nfua` over the entries from index `i` on.
unfoldable pub nfua_loop : List Meta → ℕ → ℕ → ℤ → ℤ
nfua_loop [] i low index = index
nfua_loop (m ∷ ms) i low index =
    let found = nfua_loop ms (i + 1) m.aging_counter (pos i) in
    let on = nfua_loop ms (i + 1) low index in
    if truth m.in_use && ltb m.aging_counter low then found else on

-- `nfua(p)`. The pages 0 to 2 are never chosen.
unfoldable pub nfua : Proc → ℤ
nfua p = nfua_loop (drop 3 p.meta) 3 (2 ^ 31) minus_one

-- The loop of `countOnes`; a `uint` has no bit left after 32 rounds.
pub count_loop : ℕ → ℕ → ℕ → ℕ
count_loop zero age count = count
count_loop (suc fuel) age count =
    let rest = count_loop fuel (age / 2) (count + age % 2) in if truth age then rest else count

-- `countOnes(age)`
pub count_ones : ℕ → ℕ
count_ones age = count_loop 32 age 0

-- The test of `lapa`. `minAge` is an `int`, but `age < minAge` compares as `uint`, so it is kept as
-- its bit pattern.
pub lapa_better : ℕ → ℕ → ℤ → ℕ → Bool
lapa_better ones age min_ones min_age =
    eqb_ℤ min_ones minus_one
    || ltb_ℤ (pos ones) min_ones
    || (eqb_ℤ (pos ones) min_ones && ltb age min_age)

-- The loop of `lapa` over the entries from index `i` on.
pub lapa_loop : List Meta → ℕ → ℤ → ℕ → ℤ → ℤ
lapa_loop [] i min_ones min_age index = index
lapa_loop (m ∷ ms) i min_ones min_age index =
    let age = m.aging_counter in
    let found = lapa_loop ms (i + 1) (pos (count_ones age)) age (pos i) in
    let on = lapa_loop ms (i + 1) min_ones min_age index in
    if truth m.in_use && lapa_better (count_ones age) age min_ones min_age then found else on

-- `lapa(p)`
pub lapa : Proc → ℤ
lapa p = lapa_loop (drop 3 p.meta) 3 minus_one 0xffff_ffff minus_one
