-- ===== src/Swap/Aging.antt =====
-- `updateAging` of kernel/vm.c: every counter of a page in memory is shifted right, gets its top
-- bit if the page was accessed, and the accessed bit is cleared.
use os_212_assignment.Base.{
  ℕ, zero, suc, ◌+◌, ◌-◌, ◌/◌, ◌^◌, ◌≤◌, ◌<◌, ◌≡◌, ◌≢◌, refl, ap, ◌∙◌, ◌⊎◌, inl, inr, Bool, true,
  false, arith, ltb, ◌==◌, if◌then◌else◌, Bool-cases, length, get_or, length-set, get_or-set_self,
  get_or-set_ne,
}
use mathlib.Core.Path.{subst, subst₂}
use os_212_assignment.Proc.{Meta, Proc, Selection, max_total_pages}
use os_212_assignment.Kernel.{Kernel, ok, update, change_meta, blank}
use os_212_assignment.Memory.{has, with_bit, without, pte_v, pte_a}
use os_212_assignment.Memory.Lookup.{LowTable, entry, walk-entry, LowTable-frame}
use os_212_assignment.Swap.{age_page, age_pages, update_aging, update_aging_as}

-- `p->data[j]` of process `i`
abbrev pub data_at : Kernel → ℕ → ℕ → Meta
data_at k i j = get_or (k.procs i).meta j blank

-- What a round makes of a counter and of a PTE.
abbrev pub aged : ℕ → ℕ → ℕ
aged w counter =
    if has w pte_v
    then (if has w pte_a then with_bit (counter / 2) (2 ^ 31) else counter / 2)
    else counter

abbrev pub seen : ℕ → ℕ
seen w = if has w pte_v then without w pte_a else w

-- From `k` to `k'` process `me` was aged at the pages from `low` on, below `high`, and nothing else
-- that a later round reads has changed.
pub record AgedIn (k k' : Kernel) (me t0 low high : ℕ) : Type 0 where
  pub counter :
      (j : ℕ)
      → low ≤ j
      → j < high
      → (data_at k' me j).aging_counter ≡ aged (k.mem (entry t0 j)) (data_at k me j).aging_counter
  pub word : (j : ℕ) → low ≤ j → j < high → k'.mem (entry t0 j) ≡ seen (k.mem (entry t0 j))
  pub other_data : (j : ℕ) → (j < low) ⊎ (high ≤ j) → data_at k' me j ≡ data_at k me j
  pub other_mem : (a : ℕ) → ((j : ℕ) → low ≤ j → j < high → a ≢ entry t0 j) → k'.mem a ≡ k.mem a
  pub size : length (k'.procs me).meta ≡ length (k.procs me).meta
  pub table : (k'.procs me).pagetable ≡ (k.procs me).pagetable

-- One page is aged if its entry and its PTE are, and the others stay.
AgedIn-page :
    (k k' : Kernel) (me t0 j : ℕ)
    → (data_at k' me j).aging_counter ≡ aged (k.mem (entry t0 j)) (data_at k me j).aging_counter
    → k'.mem (entry t0 j) ≡ seen (k.mem (entry t0 j))
    → ((i : ℕ) → j ≢ i → data_at k' me i ≡ data_at k me i)
    → ((a : ℕ) → a ≢ entry t0 j → k'.mem a ≡ k.mem a)
    → length (k'.procs me).meta ≡ length (k.procs me).meta
    → (k'.procs me).pagetable ≡ (k.procs me).pagetable
    → AgedIn k k' me t0 j (suc j)
AgedIn-page k k' me t0 j c w d m size table = record {
  counter = λ i lo hi.
      let e : j ≡ i = omega arith in
      subst
        (λ i.
          (data_at k' me i).aging_counter
          ≡ aged (k.mem (entry t0 i)) (data_at k me i).aging_counter)
        e c;
  word = λ i lo hi.
      let e : j ≡ i = omega arith in
      subst (λ i. k'.mem (entry t0 i) ≡ seen (k.mem (entry t0 i))) e w;
  other_data = λ i out. d i (omega arith);
  other_mem = λ a out. m a (out j (omega arith) (omega arith));
  size = size;
  table = table;
}

-- The data of a process after a change of one entry.
pub changed_self :
    (p : Proc) (j : ℕ) (f : Meta → Meta)
    → j < length p.meta
    → get_or (change_meta j f p).meta j blank ≡ f (get_or p.meta j blank)
changed_self p j f h = get_or-set_self p.meta j (f (get_or p.meta j blank)) blank h

pub changed_other :
    (p : Proc) (j i : ℕ) (f : Meta → Meta)
    → j ≢ i
    → get_or (change_meta j f p).meta i blank ≡ get_or p.meta i blank
changed_other p j i f h = get_or-set_ne p.meta j i (f (get_or p.meta j blank)) blank h

abbrev halve : Meta → Meta
halve m = record m { aging_counter = m.aging_counter / 2 }

abbrev raise : Meta → Meta
raise m = record m { aging_counter = with_bit m.aging_counter (2 ^ 31) }

pub update_self : {A : Type 0} (f : ℕ → A) (i : ℕ) (v : A) → update f i v i ≡ v
update_self f i v = ground arith

-- The states after a round at a page in memory, not accessed and accessed.
abbrev halved : Kernel → ℕ → ℕ → Kernel
halved k me j = record k { procs = update k.procs me (change_meta j halve (k.procs me)) }

abbrev raised : Kernel → ℕ → ℕ → ℕ → Kernel
raised k me j t0 =
    let k1 = halved k me j in
    record k1 {
      procs = update k1.procs me (change_meta j raise (k1.procs me));
      mem = update k.mem (entry t0 j) (k.mem (entry t0 j) - pte_a);
    }

module _ (k : Kernel) (me j t0 : ℕ) (len : length (k.procs me).meta ≡ max_total_pages)
    (h : j < max_total_pages) (v : has (k.mem (entry t0 j)) pte_v ≡ true) where
  halved-AgedIn : has (k.mem (entry t0 j)) pte_a ≡ false → AgedIn k (halved k me j) me t0 j (suc j)
  halved-AgedIn a =
      let p = k.procs me in
      let new = update_self k.procs me (change_meta j halve p) in
      AgedIn-page k (halved k me j) me t0 j
        (rw (v, a) (rw new (ap (λ m. m.aging_counter) (changed_self p j halve (omega arith)))))
        (rw v (rw a refl)) (λ i ne. rw new (changed_other p j i halve ne)) (λ a ne. refl)
        (rw new (length-set p.meta j (halve (get_or p.meta j blank)))) (rw new refl)

  raised-AgedIn :
      has (k.mem (entry t0 j)) pte_a ≡ true → AgedIn k (raised k me j t0) me t0 j (suc j)
  raised-AgedIn a =
      let p = k.procs me in
      let k1 = halved k me j in
      let once = update_self k.procs me (change_meta j halve p) in
      let new =
        update_self k1.procs me (change_meta j raise (k1.procs me))
        ∙ ap (change_meta j raise) once in
      let q = change_meta j halve p in
      let long = length-set p.meta j (halve (get_or p.meta j blank)) in
      AgedIn-page k (raised k me j t0) me t0 j
        (rw (v, a)
          (rw new (
            ap (λ m. m.aging_counter)
              (changed_self q j raise (omega (arith, long))
                ∙ ap raise (changed_self p j halve (omega arith))))))
        (rw (v, a) (update_self k.mem (entry t0 j) (k.mem (entry t0 j) - pte_a)))
        (λ i ne. rw new (changed_other q j i raise ne ∙ changed_other p j i halve ne))
        (λ a ne. ground arith) (rw new (length-set q.meta j (raise (get_or q.meta j blank)) ∙ long))
        (rw new refl)

age_page-AgedIn :
    (k : Kernel) (me j : ℕ) {t1 t0 : ℕ}
    → LowTable k.mem (k.procs me).pagetable t1 t0
    → length (k.procs me).meta ≡ max_total_pages
    → j < max_total_pages
    → (k' : Kernel) × (age_page me j k ≡ ok tt k') × AgedIn k k' me t0 j (suc j)
unfolding age_page
age_page-AgedIn k me j {t1} {t0} t len h =
    let w = k.mem (entry t0 j) in
    let there : (entry t0 j == 0) ≡ false = ground (arith, t.nonzero) in
    let inside : ltb j max_total_pages ≡ true = ground arith in
    rw (walk-entry k j t (omega arith)) (
      rw (there, inside)
        (elim (Bool-cases (has w pte_v)) [
          | inl v ↦ rw v (elim (Bool-cases (has w pte_a)) [
            | inl a ↦ rw a (raised k me j t0, refl, raised-AgedIn k me j t0 len h v a)
            | inr a ↦ rw a (halved k me j, refl, halved-AgedIn k me j t0 len h v a)
          ])
          | inr v ↦ rw v (
            k,
            refl,
            AgedIn-page k k me t0 j (rw v refl) (rw v refl) (λ i ne. refl) (λ a ne. refl) refl refl,
          )
        ]))

-- Aging page `low` and then the pages above it ages them all.
module _ (k k1 k2 : Kernel) (me t0 low high : ℕ) (le : low < high)
    (one : AgedIn k k1 me t0 low (suc low)) (rest : AgedIn k1 k2 me t0 (suc low) high) where
  join_counter :
      (j : ℕ)
      → low ≤ j
      → j < high
      → (data_at k2 me j).aging_counter ≡ aged (k.mem (entry t0 j)) (data_at k me j).aging_counter
  join_counter j lo hi = elim (Bool-cases (low == j)) [
    | inl e ↦
        ap (λ m. m.aging_counter) (rest.other_data j (inl (ground arith)))
        ∙ one.counter j lo (ground arith)
    | inr e ↦
        let up : suc low ≤ j = ground arith in
        rest.counter j up hi
        ∙ ap (λ w. aged w (data_at k1 me j).aging_counter)
            (one.other_mem (entry t0 j) (λ i a b q. omega arith))
        ∙ ap (λ m. aged (k.mem (entry t0 j)) m.aging_counter) (one.other_data j (inr up))
  ]

  join_word : (j : ℕ) → low ≤ j → j < high → k2.mem (entry t0 j) ≡ seen (k.mem (entry t0 j))
  join_word j lo hi = elim (Bool-cases (low == j)) [
    | inl e ↦
        let here : low ≡ j = ground arith in
        rest.other_mem (entry t0 j) (λ i a b q. omega arith) ∙ one.word j lo (omega arith)
    | inr e ↦
        let up : suc low ≤ j = ground arith in
        rest.word j up hi ∙ ap seen (one.other_mem (entry t0 j) (λ i a b q. omega arith))
  ]

  AgedIn-join : AgedIn k k2 me t0 low high
  AgedIn-join = record {
    counter = join_counter;
    word = join_word;
    other_data = λ j out. rest.other_data j (omega arith) ∙ one.other_data j (omega arith);
    other_mem = λ a out.
        rest.other_mem a (λ j lo hi. out j (omega arith) hi)
        ∙ one.other_mem a (λ j lo hi. out j lo (omega arith));
    size = rest.size ∙ one.size;
    table = rest.table ∙ one.table;
  }

-- No PTE of a low page is an entry on the path to its table.
LowTable-AgedIn :
    (k k' : Kernel) (me : ℕ) {t1 t0 : ℕ} (low high : ℕ)
    → LowTable k.mem (k.procs me).pagetable t1 t0
    → high ≤ 512
    → AgedIn k k' me t0 low high
    → LowTable k'.mem (k'.procs me).pagetable t1 t0
LowTable-AgedIn k k' me {t1} low high t le a =
    let pt = (k.procs me).pagetable in
    rw a.table (
      LowTable-frame k.mem k'.mem t (a.other_mem pt (λ j lo hi q. omega arith))
        (a.other_mem t1 (λ j lo hi q. omega arith)))

AgedIn-none : (k : Kernel) (me t0 j : ℕ) → AgedIn k k me t0 j (j + 0)
AgedIn-none k me t0 j = record {
  counter = λ i lo hi. absurd (omega arith);
  word = λ i lo hi. absurd (omega arith);
  other_data = λ i out. refl;
  other_mem = λ a out. refl;
  size = refl;
  table = refl;
}

age_pages-AgedIn :
    (n j : ℕ) (k : Kernel) (me : ℕ) {t1 t0 : ℕ}
    → LowTable k.mem (k.procs me).pagetable t1 t0
    → length (k.procs me).meta ≡ max_total_pages
    → j + n ≤ max_total_pages
    → (k' : Kernel) × (age_pages n me j k ≡ ok tt k') × AgedIn k k' me t0 j (j + n)
unfolding age_pages
age_pages-AgedIn zero j k me {t0} t len h = (k, refl, AgedIn-none k me t0 j)
age_pages-AgedIn (suc n) j k me {t0} t len h =
    let (k1, run, one) = age_page-AgedIn k me j t len (omega arith) in
    let t' = LowTable-AgedIn k k1 me j (suc j) t (omega arith) one in
    let (k2, run', rest) = age_pages-AgedIn n (j + 1) k1 me t' (one.size ∙ len) (omega arith) in
    let from : j + 1 ≡ suc j = omega arith in
    let to : j + 1 + n ≡ j + suc n = omega arith in
    (
      k2,
      rw run run',
      AgedIn-join k k1 k2 me t0 j (j + suc n) (omega arith) one
          (subst₂ (λ lo hi. AgedIn k1 k2 me t0 lo hi) from to rest),
    )

-- The policies that keep counters.
abbrev pub ages : Selection → Bool
ages Selection.nfua = true
ages Selection.lapa = true
ages _ = false

-- Under NFUA and LAPA `updateAging` returns, and has shifted the counter of every page of the
-- current process that is in memory, set its top bit where the page was accessed, and cleared the
-- accessed bit; the other counters and words of memory are as before.
pub update_aging-AgedIn :
    (k : Kernel) {t1 t0 : ℕ}
    → ages k.selection ≡ true
    → LowTable k.mem (k.procs k.current).pagetable t1 t0
    → length (k.procs k.current).meta ≡ max_total_pages
    → (k' : Kernel) × (update_aging k ≡ ok tt k') × AgedIn k k' k.current t0 0 max_total_pages
unfolding update_aging update_aging_as
update_aging-AgedIn k {t0} policy t len =
    let (k', run, aged) = age_pages-AgedIn max_total_pages 0 k k.current t len (omega arith) in
    (k', select k.selection policy ∙ run, aged)
  where
    select :
        (s : Selection)
        → ages s ≡ true
        → update_aging_as s k ≡ age_pages max_total_pages k.current 0 k
    select Selection.nfua e = refl
    select Selection.lapa e = refl
    select Selection.scfifo e = cc
    select Selection.none e = cc
