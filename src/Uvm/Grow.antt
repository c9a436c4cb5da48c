-- ===== src/Uvm/Grow.antt =====
-- `growproc` of kernel/proc.c at the limit of pages that `uvmalloc` of kernel/vm.c sets.
use os_212_assignment.Base.{
  ℕ, suc, ◌+◌, ◌-◌, ◌/◌, ◌%◌, ◌^◌, ◌≤◌, ◌<◌, ◌≡◌, true, false, arith, ltb, leb, ap, ◌∙◌, refl,
  Bool-cases, inl, inr, ◌==◌, if◌then◌else◌,
}
use os_212_assignment.Base.Int.{pos}
use os_212_assignment.Proc.{max_total_pages}
use os_212_assignment.Kernel.{pgsize, Kernel, ok, update}
use os_212_assignment.Memory.{pgroundup}
use os_212_assignment.Uvm.{
  is_none, return, alloc_round, alloc_loop, rounds, tracked_uvmalloc, uvmalloc, set_size, add32,
  grow, growproc,
}

-- A page number above the limit ends `uvmalloc` with -1.
alloc_round-limit :
    (k : Kernel) (i pagetable a first newsz : ℕ)
    → 1 < (k.procs i).pid
    → max_total_pages < a / pgsize
    → alloc_round i pagetable a first newsz k ≡ ok (return (2 ^ 64 - 1)) k
unfolding alloc_round
alloc_round-limit k i pagetable a first newsz pid far =
    let user : ltb 1 (k.procs i).pid ≡ true = ground arith in
    let high : ltb max_total_pages (a / pgsize) ≡ true = ground arith in rw user (rw high)

uvmalloc-limit :
    (k : Kernel) (pagetable oldsz newsz : ℕ)
    → 1 < (k.procs k.current).pid
    → is_none k.selection ≡ false
    → oldsz ≤ newsz
    → max_total_pages < pgroundup oldsz / pgsize
    → pgroundup oldsz < newsz
    → uvmalloc pagetable oldsz newsz k ≡ ok (2 ^ 64 - 1) k
unfolding uvmalloc tracked_uvmalloc alloc_loop
uvmalloc-limit k pagetable oldsz newsz pid policy le far more =
    let first = pgroundup oldsz in
    let up : ltb newsz oldsz ≡ false = ground arith in
    let some_round : rounds first newsz ≡ suc (rounds first newsz - 1) = omega arith in
    rw policy
      (rw (up, some_round) (rw (alloc_round-limit k k.current pagetable first first newsz pid far)))

uvmalloc-wrapped :
    (k : Kernel) (pagetable oldsz newsz : ℕ)
    → is_none k.selection ≡ false
    → newsz < oldsz
    → uvmalloc pagetable oldsz newsz k ≡ ok oldsz k
unfolding uvmalloc tracked_uvmalloc
uvmalloc-wrapped k pagetable oldsz newsz policy l =
    let down : ltb newsz oldsz ≡ true = ground arith in rw policy (rw down refl)

uvmalloc-same_page :
    (k : Kernel) (pagetable oldsz newsz : ℕ)
    → is_none k.selection ≡ false
    → oldsz ≤ newsz
    → newsz ≤ pgroundup oldsz
    → uvmalloc pagetable oldsz newsz k ≡ ok newsz k
unfolding uvmalloc tracked_uvmalloc alloc_loop
uvmalloc-same_page k pagetable oldsz newsz policy le same =
    let up : ltb newsz oldsz ≡ false = ground arith in
    let no_round : rounds (pgroundup oldsz) newsz ≡ 0 = omega arith in
    rw policy (rw (up, no_round) refl)

-- growproc by a positive amount where uvmalloc gives back `got`.
growproc-got :
    (k : Kernel) (n got : ℕ)
    → let p = k.procs k.current in
      p.sz < 2 ^ 32
      → uvmalloc p.pagetable p.sz ((p.sz + suc n) % 2 ^ 32) k ≡ ok got k
      → 0 < got % 2 ^ 32
      → growproc (pos (suc n)) k
        ≡ ok true (record k { procs = update k.procs k.current (record p { sz = got % 2 ^ 32 }) })
unfolding growproc grow set_size add32
growproc-got k n got small run some_ =
    let p = k.procs k.current in
    let old : p.sz % 2 ^ 32 ≡ p.sz = omega arith in
    let more : ((got % 2 ^ 32) == 0) ≡ false = ground arith in rw old (rw run (rw more refl))

-- The size after a growth by n from a size whose next page is behind the limit.
abbrev pub size_at_limit : ℕ → ℕ → ℕ
size_at_limit sz n =
    if leb (2 ^ 32) (sz + n) then sz else if leb (sz + n) (pgroundup sz) then sz + n else 2 ^ 32 - 1

-- Let a policy be selected, and a process other than the first one be given whose size fits 32 bits
-- and whose next page has a number above 32. growproc by any positive int maps no page and reports
-- success in all cases: where the sum wraps around at 2^32 the size stays, where it does not go
-- beyond the last page that is in use the size grows by n, and otherwise the size becomes 2^32 - 1:
-- uvmalloc returns -1, and growproc takes 0 only for an error.
pub growproc-limit :
    (k : Kernel) (n : ℕ)
    → let p = k.procs k.current in
      suc n < 2 ^ 31
      → 1 < p.pid
      → is_none k.selection ≡ false
      → p.sz < 2 ^ 32
      → max_total_pages < pgroundup p.sz / pgsize
      → growproc (pos (suc n)) k
        ≡ ok true (record k {
          procs = update k.procs k.current (record p { sz = size_at_limit p.sz (suc n) });
        })
growproc-limit k n int pid policy small far =
    let p = k.procs k.current in
    let some_ : 0 < p.sz = omega arith in
    elim (Bool-cases (leb (2 ^ 32) (p.sz + suc n))) [
      | inl w ↦
          let e : p.sz % 2 ^ 32 ≡ p.sz = omega arith in
          let l : (p.sz + suc n) % 2 ^ 32 < p.sz = ground arith in
          rw w (
            rw e at (
              growproc-got k n p.sz small (uvmalloc-wrapped k p.pagetable p.sz _ policy l)
                (omega arith)))
      | inr w ↦
          let new : (p.sz + suc n) % 2 ^ 32 ≡ p.sz + suc n = ground arith in
          elim (Bool-cases (leb (p.sz + suc n) (pgroundup p.sz))) [
            | inl s ↦
                rw (w, s)
                  (rw new at (
                    growproc-got k n (p.sz + suc n) small
                      (ap (λ z. uvmalloc p.pagetable p.sz z k) new
                        ∙ uvmalloc-same_page k p.pagetable p.sz (p.sz + suc n) policy (omega arith)
                            (ground arith))
                      (omega arith)))
            | inr s ↦
                rw (w, s)
                  (growproc-got k n (2 ^ 64 - 1) small
                    (ap (λ z. uvmalloc p.pagetable p.sz z k) new
                      ∙ uvmalloc-limit k p.pagetable p.sz (p.sz + suc n) pid policy (omega arith)
                          far (ground arith))
                    (omega arith))
          ]
    ]
