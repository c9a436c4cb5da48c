-- ===== src/Memory/Lookup.antt =====
-- `walk` on the low addresses of a process: the pages 0 to 511 share one table of each level, so
-- the PTE of page `j` is entry `j` of the last one.
use os_212_assignment.Base.{
  ℕ, ◌+◌, ◌*◌, ◌/◌, ◌≤◌, ◌<◌, ◌≡◌, ◌≢◌, ap, ◌∙◌, ◌⊎◌, Bool, true, false, arith, leb,
}
use os_212_assignment.Kernel.{pgsize, maxva, Kernel, walk_va, ok, panic}
use os_212_assignment.Memory.{has, pte_v, pte2pa, px, walk_down, walk}

-- The root table `pt` leads through `t1` to the last table `t0`, which holds neither of their
-- first entries.
pub record LowTable (mem : ℕ → ℕ) (pt t1 t0 : ℕ) : Type 0 where
  pub root : has (mem pt) pte_v ≡ true
  pub root_next : pte2pa (mem pt) ≡ t1
  pub mid : has (mem t1) pte_v ≡ true
  pub mid_next : pte2pa (mem t1) ≡ t0
  pub nonzero : t0 ≢ 0
  pub pt_apart : (pt < t0) ⊎ (t0 + pgsize ≤ pt)
  pub t1_apart : (t1 < t0) ⊎ (t0 + pgsize ≤ t1)

-- The entry of page `j` in the table `t0`.
abbrev pub entry : ℕ → ℕ → ℕ
entry t0 j = t0 + 8 * j

px_low : (va : ℕ) → va < 512 * pgsize → (px 2 va ≡ 0) × (px 1 va ≡ 0) × (px 0 va ≡ va / pgsize)
px_low va h = omega arith

plus_zero : (a : ℕ) → a + 8 * 0 ≡ a
plus_zero a = omega arith

-- `walk` finds the PTE of a low address, and writes nothing.
pub walk-low :
    (k : Kernel) (va : ℕ) {pt t1 t0 : ℕ}
    → LowTable k.mem pt t1 t0
    → va < 512 * pgsize
    → walk pt va false k ≡ ok (entry t0 (va / pgsize)) k
unfolding walk walk_down
walk-low k va {pt} {t1} {t0} t h =
    let (a, b, c) = px_low va h in
    let low : leb maxva va ≡ false = ground arith in
    rw (low, a, b, c)
      (rw (plus_zero pt, t.root) (rw (t.root_next, plus_zero t1, t.mid) (rw t.mid_next)))

pub walk-entry :
    (k : Kernel) (j : ℕ) {pt t1 t0 : ℕ}
    → LowTable k.mem pt t1 t0
    → j < 512
    → walk pt (j * pgsize) false k ≡ ok (entry t0 j) k
walk-entry k j {t0} t h =
    walk-low k (j * pgsize) t (omega arith) ∙ ap (λ n. ok (entry t0 n) k) (omega arith)

-- A change inside the table `t0` alone leaves the path to it.
pub LowTable-frame :
    (mem mem' : ℕ → ℕ) {pt t1 t0 : ℕ}
    → LowTable mem pt t1 t0
    → mem' pt ≡ mem pt
    → mem' t1 ≡ mem t1
    → LowTable mem' pt t1 t0
LowTable-frame mem mem' t e e' = record {
  root = rw e t.root;
  root_next = rw e t.root_next;
  mid = rw e' t.mid;
  mid_next = rw e' t.mid_next;
  nonzero = t.nonzero;
  pt_apart = t.pt_apart;
  t1_apart = t.t1_apart;
}

-- An address from 2^38 on makes `walk` panic.
pub walk-panic :
    (k : Kernel) (pt va : ℕ) (alloc : Bool) → maxva ≤ va → walk pt va alloc k ≡ panic walk_va
unfolding walk
walk-panic k pt va alloc h = let high : leb maxva va ≡ true = ground arith in rw high
