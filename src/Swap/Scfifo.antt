-- ===== src/Swap/Scfifo.antt =====
-- `scfifo` of kernel/vm.c gives each page a second chance: the victim is the first page of the queue
-- that was not accessed, and the accessed pages before it go behind the others with the bit cleared.
use os_212_assignment.Base.{
  ℕ, zero, suc, ◌+◌, ◌-◌, ◌*◌, ◌≤◌, ◌<◌, ◌≡◌, ◌≢◌, refl, ap, ◌∙◌, inl, inr, true, false, List, [],
  ◌∷◌, ◌++◌, arith, ◌==◌, Bool-cases, length,
}
use os_212_assignment.Base.Int.{ℤ, pos, ltb_ℤ, ltb_ℤ-pos}
use os_212_assignment.Kernel.{pgsize, Kernel, ok, update}
use os_212_assignment.Ring
use os_212_assignment.Ring.{place, front}
use os_212_assignment.Ring.Remove.{Holds, Holds-count, Holds-few, out-Holds, in_-Holds}
use os_212_assignment.Memory.{has, pte_a}
use os_212_assignment.Memory.Lookup.{LowTable, entry, walk-entry}
use os_212_assignment.Swap.{va_of_page, evict_front, scfifo_loop}
use os_212_assignment.Swap.Aging.{update_self}

abbrev pub All {ℓ} : {A : Type ℓ} → (A → Type 0) → List A → Type 0
All P [] = Unit
All P (x ∷ xs) = P x × All P xs

-- The PTE of a queued page.
abbrev pub word_of : Kernel → ℕ → ℤ → ℕ
word_of k t0 x = k.mem (entry t0 (place x))

-- Page numbers below 512, each once.
abbrev pub AreLow : List ℤ → Type 0
AreLow xs = All (λ x. (x ≡ pos (place x)) × (place x < 512)) xs

abbrev pub AreDistinct : List ℤ → Type 0
AreDistinct [] = Unit
AreDistinct (x ∷ xs) = All (λ y. place x ≢ place y) xs × AreDistinct xs

abbrev pub AreAccessed : Kernel → ℕ → List ℤ → Type 0
AreAccessed k t0 xs = All (λ x. has (word_of k t0 x) pte_a ≡ true) xs

-- From `k` to `k'` the accessed bits of the pages `xs` were cleared, and no other word was changed.
pub record Cleared (k k' : Kernel) (me t0 : ℕ) (xs : List ℤ) : Type 0 where
  pub words : All (λ x. word_of k' t0 x ≡ word_of k t0 x - pte_a) xs
  pub others : (a : ℕ) → All (λ x. a ≢ entry t0 (place x)) xs → k'.mem a ≡ k.mem a
  pub table : (k'.procs me).pagetable ≡ (k.procs me).pagetable

-- The state after a round at an accessed page.
abbrev pub passed : Kernel → ℕ → ℕ → ℤ → Kernel
passed k me t0 x =
    let k1 = record k { mem = update k.mem (entry t0 (place x)) (word_of k t0 x - pte_a) } in
    let k2 = record k1 { procs = update k1.procs me (Ring.out (k1.procs me)) } in
    record k2 { procs = update k2.procs me (Ring.in_ x (k2.procs me)) }

module _ (k : Kernel) (me : ℕ) {t1 t0 : ℕ} (t : LowTable k.mem (k.procs me).pagetable t1 t0) (x : ℤ)
    (xs : List ℤ) (h : Holds (x ∷ xs) (k.procs me)) where
  pub passed-proc : (passed k me t0 x).procs me ≡ Ring.in_ x (Ring.out (k.procs me))
  passed-proc =
      let q = Ring.out (k.procs me) in
      update_self (update k.procs me q) me (Ring.in_ x (update k.procs me q me))
      ∙ ap (Ring.in_ x) (update_self k.procs me q)

  pub passed-Holds : Holds (xs ++ (x ∷ [])) ((passed k me t0 x).procs me)
  passed-Holds =
      let (_, rest) = out-Holds x xs h in
      let few = Holds-few (x ∷ xs) h in rw passed-proc (in_-Holds x xs rest (omega arith))

  -- A round at an accessed page puts it behind the others.
  pub scfifo_loop-pass :
      (rounds i : ℕ)
      → i ≤ length xs
      → AreLow (x ∷ [])
      → has (word_of k t0 x) pte_a ≡ true
      → scfifo_loop (suc rounds) me i k ≡ scfifo_loop rounds me (i + 1) (passed k me t0 x)
  unfolding scfifo_loop
  scfifo_loop-pass rounds i le low a =
      let (first, _) = out-Holds x xs h in
      let go : ltb_ℤ (pos i) (k.procs me).num_of_pages ≡ true =
        ap (ltb_ℤ (pos i)) (Holds-count (x ∷ xs) h)
        ∙ ltb_ℤ-pos i (suc (length xs))
        ∙ ground arith in
      let there : (entry t0 (place x) == 0) ≡ false = ground (arith, t.nonzero) in
      let va : va_of_page x ≡ place x * pgsize = ap va_of_page low.0.0 in
      rw go (rw first (rw va (rw (walk-entry k (place x) t low.0.1) (rw there (rw a refl)))))

  pub evict_front-run :
      evict_front me k ≡ ok x (record k { procs = update k.procs me (Ring.out (k.procs me)) })
  unfolding evict_front
  evict_front-run =
      let (first, _) = out-Holds x xs h in
      ap (λ y. ok y (record k { procs = update k.procs me (Ring.out (k.procs me)) })) first

  -- A page that was not accessed is the victim.
  pub scfifo_loop-victim :
      (rounds i : ℕ)
      → AreLow (x ∷ [])
      → has (word_of k t0 x) pte_a ≡ false
      → scfifo_loop rounds me i k
        ≡ ok x (record k { procs = update k.procs me (Ring.out (k.procs me)) })
  unfolding scfifo_loop
  scfifo_loop-victim zero i low a = evict_front-run
  scfifo_loop-victim (suc rounds) i low a =
      let (first, _) = out-Holds x xs h in
      let there : (entry t0 (place x) == 0) ≡ false = ground (arith, t.nonzero) in
      let va : va_of_page x ≡ place x * pgsize = ap va_of_page low.0.0 in
      elim (Bool-cases (ltb_ℤ (pos i) (k.procs me).num_of_pages)) [
        | inl go ↦ rw go (
            rw first
              (rw va (rw (walk-entry k (place x) t low.0.1) (rw there (rw a evict_front-run)))))
        | inr stop ↦ rw stop evict_front-run
      ]
