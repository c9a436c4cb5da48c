-- ===== src/Memory/FreeList.antt =====
-- The free list of kernel/kalloc.c, threaded through the free pages themselves, is a stack of pages.
use mathlib.Core.Path.{subst}
use os_212_assignment.Base.{
  ℕ, zero, suc, ◌+◌, ◌-◌, ◌*◌, ◌/◌, ◌%◌, ◌≤◌, ◌<◌, ◌≡◌, ◌≢◌, refl, sym, ap, ◌∙◌, ◌⊎◌, Bool, true,
  false, not, ◌||◌, List, [], ◌∷◌, arith, ltb, leb, ◌==◌,
}
use os_212_assignment.Kernel.{pgsize, phystop, Kernel, kfree_page, ok, panic, filled, update}
use os_212_assignment.Memory.{pgroundup, kfree, kalloc, free_pages, freerange, kinit}

-- What `kfree` accepts: a page of the memory after the kernel.
pub record IsPage (end p : ℕ) : Type 0 where
  pub nonzero : p ≢ 0
  pub aligned : p % pgsize ≡ 0
  pub low : end ≤ p
  pub high : p < phystop

abbrev pub occurs : ℕ → List ℕ → Bool
occurs p [] = false
occurs p (q ∷ qs) = (q == p) || occurs p qs

-- From `head` the first words of the pages `ps` lead one to the next; the pages are distinct.
pub data FreeList (mem : ℕ → ℕ) (end : ℕ) : ℕ → List ℕ → Type 0 where
  nil : FreeList mem end 0 []
  cons :
      {p : ℕ} {ps : List ℕ}
      → IsPage end p
      → occurs p ps ≡ false
      → FreeList mem end (mem p) ps
      → FreeList mem end p (p ∷ ps)

-- The pages of a free list keep their links where these are not written.
pub FreeList-frame :
    (mem mem' : ℕ → ℕ) {end head : ℕ} {ps : List ℕ}
    → FreeList mem end head ps
    → ((q : ℕ) → IsPage end q → occurs q ps ≡ true → mem' q ≡ mem q)
    → FreeList mem' end head ps
FreeList-frame mem mem' nil same = nil
FreeList-frame mem mem' {end} (cons {p} {ps} is out f) same = cons is out (
    subst (λ h. FreeList mem' end h ps) (sym (same p is (ground arith)))
      (FreeList-frame mem mem' f (λ q q_is i. same q q_is (ground arith))))

-- Filling a page leaves the other pages alone.
pub filled-page :
    (mem : ℕ → ℕ) {end p q : ℕ} (w : ℕ)
    → IsPage end p
    → IsPage end q
    → p ≢ q
    → filled mem p w q ≡ mem q
filled-page mem w p_is q_is ne = ground arith

ne_of_occurs : (p q : ℕ) (ps : List ℕ) → occurs p ps ≡ false → occurs q ps ≡ true → p ≢ q
ne_of_occurs p q ps out i e = cc

-- The free list of a kernel state holds the pages `ps`.
abbrev pub Frees : Kernel → List ℕ → Type 0
Frees k ps = FreeList k.mem k.end k.freelist ps

-- The state that `kalloc` leaves when it hands out page `p`.
abbrev pub taken : Kernel → ℕ → Kernel
taken k p = record k { freelist = k.mem p; mem = filled k.mem p 0x0505050505050505 }

-- The state that `kfree` leaves when it takes page `p` back.
abbrev pub given : Kernel → ℕ → Kernel
given k p = record k { freelist = p; mem = update (filled k.mem p 0x0101010101010101) p k.freelist }

Frees-taken :
    (k : Kernel) {h p : ℕ} {ps : List ℕ}
    → h ≡ k.freelist
    → FreeList k.mem k.end h (p ∷ ps)
    → (h ≡ p) × IsPage k.end p × Frees (taken k p) ps
Frees-taken k e (cons {p} {ps} is out f) = (
  refl,
  is,
  FreeList-frame k.mem (filled k.mem p 0x0505050505050505) f
      (λ q q_is i. filled-page k.mem 0x0505050505050505 is q_is (ne_of_occurs p q ps out i)),
)

test_of_ne_zero : (r p : ℕ) → r ≡ p → p ≢ 0 → (r == 0) ≡ false
test_of_ne_zero r p e h = ground arith

-- `kalloc` takes the first free page, fills it with 5s and changes nothing else.
pub kalloc-taken :
    (k : Kernel) (p : ℕ) (ps : List ℕ)
    → Frees k (p ∷ ps)
    → (kalloc k ≡ ok p (taken k p)) × IsPage k.end p × Frees (taken k p) ps
unfolding kalloc
kalloc-taken k p ps f =
    let (e, is, f') = Frees-taken k refl f in
    let some_page : (k.freelist == 0) ≡ false = test_of_ne_zero k.freelist p e is.nonzero in
    (rw some_page (ap (λ r. ok r (taken k r)) e), is, f')

Frees-nil : {mem : ℕ → ℕ} {end h : ℕ} → FreeList mem end h [] → h ≡ 0
Frees-nil nil = refl

-- With no free page `kalloc` returns 0 and changes nothing.
pub kalloc-none : (k : Kernel) → Frees k [] → kalloc k ≡ ok 0 k
unfolding kalloc
kalloc-none k f =
    let none_left : (k.freelist == 0) ≡ true = ground (arith, Frees-nil f) in rw none_left

kfree_test :
    {end p : ℕ} → IsPage end p → (not ((p % pgsize) == 0) || ltb p end || leb phystop p) ≡ false
kfree_test is = ground arith

-- `kfree` of a page that is not free puts it in front and changes nothing but that page.
pub kfree-given :
    (k : Kernel) (p : ℕ) (ps : List ℕ)
    → IsPage k.end p
    → occurs p ps ≡ false
    → Frees k ps
    → (kfree p k ≡ ok tt (given k p)) × Frees (given k p) (p ∷ ps)
unfolding kfree
kfree-given k p ps is out f = (
  rw (kfree_test is),
  cons is out (
      subst (λ h. FreeList (given k p).mem k.end h ps) link
        (FreeList-frame k.mem (given k p).mem f (λ q q_is i.
          let ne = ne_of_occurs p q ps out i in
          other q ne ∙ filled-page k.mem 0x0101010101010101 is q_is ne))),
)
  where
    link : k.freelist ≡ (given k p).mem p
    link = ground arith

    other : (q : ℕ) → p ≢ q → (given k p).mem q ≡ filled k.mem p 0x0101010101010101 q
    other q ne = ground arith

-- `kfree` panics on an address that is not the start of a page or lies
-- outside the memory that the allocator hands out.
pub kfree-panic :
    (k : Kernel) (p : ℕ)
    → (p % pgsize ≢ 0) ⊎ (p < k.end) ⊎ (phystop ≤ p)
    → kfree p k ≡ panic kfree_page
unfolding kfree
kfree-panic k p h = rw (test k.end h)
  where
    test :
        (end : ℕ)
        → (p % pgsize ≢ 0) ⊎ (p < end) ⊎ (phystop ≤ p)
        → (not ((p % pgsize) == 0) || ltb p end || leb phystop p) ≡ true
    test end h = ground arith

-- The free list after the `n` pages from `p` on went in front of `ps`.
pub freed : ℕ → ℕ → List ℕ → List ℕ
freed zero p ps = ps
freed (suc n) p ps = freed n (p + pgsize) (p ∷ ps)

-- Every page of the list lies below `p`.
abbrev AreBelow : ℕ → List ℕ → Type 0
AreBelow p [] = Unit
AreBelow p (q ∷ qs) = (q < p) × AreBelow p qs

not_occurs : (p : ℕ) (ps : List ℕ) → AreBelow p ps → occurs p ps ≡ false
not_occurs p [] h = refl
not_occurs p (q ∷ qs) h = ground (arith, not_occurs p qs h.1)

AreBelow-up : (p p' : ℕ) (ps : List ℕ) → p ≤ p' → AreBelow p ps → AreBelow p' ps
AreBelow-up p p' [] le h = tt
AreBelow-up p p' (q ∷ qs) le h = (omega (arith, h.0), AreBelow-up p p' qs le h.1)

free_pages-freed :
    (n p : ℕ) (k : Kernel) (ps : List ℕ)
    → 0 < p
    → p % pgsize ≡ 0
    → k.end ≤ p
    → p + n * pgsize ≤ phystop
    → AreBelow p ps
    → Frees k ps
    → (k' : Kernel) × (free_pages n p k ≡ ok tt k') × Frees k' (freed n p ps)
unfolding free_pages freed
free_pages-freed zero p k ps ne al low high below f = (k, refl, f)
free_pages-freed (suc n) p k ps ne al low high below f =
    let is : IsPage k.end p = record {
      nonzero = omega arith;
      aligned = al;
      low = low;
      high = omega arith;
    } in
    let (run, f') = kfree-given k p ps is (not_occurs p ps below) f in
    rw run (
      free_pages-freed n (p + pgsize) (given k p) (p ∷ ps) (omega arith) (omega arith) (omega arith)
        (omega arith) (omega arith, AreBelow-up p (p + pgsize) ps (omega arith) below) f')

-- `kinit` puts every whole page between the end of the kernel and PHYSTOP on the free list once,
-- the highest first.
pub kinit-freed :
    (k : Kernel)
    → k.freelist ≡ 0
    → 0 < k.end
    → k.end ≤ phystop
    → let first = pgroundup k.end in
      (k' : Kernel) × (kinit k ≡ ok tt k') × Frees k' (freed ((phystop - first) / pgsize) first [])
unfolding kinit freerange
kinit-freed k e pos le =
    free_pages-freed ((phystop - pgroundup k.end) / pgsize) (pgroundup k.end) k [] (omega arith)
      (omega arith) (omega arith) (omega arith) tt
      (subst (λ h. FreeList k.mem k.end h []) (sym e) nil)
