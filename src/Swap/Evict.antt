-- ===== src/Swap/Evict.antt =====
-- `page_to_file` of kernel/vm.c: the victim's words are in the swap file, its PTE says so, and its
-- page is free.
use os_212_assignment.Base.{
  ℕ, ◌+◌, ◌-◌, ◌%◌, ◌≤◌, ◌<◌, ◌≡◌, ◌≢◌, refl, ap, ◌∙◌, ◌⊎◌, true, false, ◌&&◌, List, ◌∷◌, arith,
  ltb, leb, ◌==◌, if◌then◌else◌, if_true, length,
}
use os_212_assignment.Base.Int.{pos}
use os_212_assignment.Proc.{Meta, Proc, max_total_pages}
use os_212_assignment.Kernel.{pgsize, Kernel, ok, update, change_meta, dec32}
use os_212_assignment.Memory.{with_bit, without, pte_v, pte_pg, pte2pa}
use os_212_assignment.Memory.FreeList.{IsPage, occurs, Frees, given, kfree-given, FreeList-frame}
use os_212_assignment.Memory.Lookup.{LowTable, entry, walk-entry}
use os_212_assignment.Swap.{get_index_to_remove, write_to_swap_file, page_to_file}
use os_212_assignment.Swap.Aging.{data_at, changed_self, changed_other, update_self}

-- An address outside a page.
abbrev pub Outside : ℕ → ℕ → Type 0
Outside a page = (a < page) ⊎ (page + pgsize ≤ a)

-- What must hold of the state in which the victim `j` of process `i` has been chosen: its PTE `w`
-- names a page that is not free, and neither that page nor a free one is its page table.
pub record CanEvict (k : Kernel) (i j t1 t0 : ℕ) (ps : List ℕ) : Type 0 where
  pub table : LowTable k.mem (k.procs i).pagetable t1 t0
  pub entries : length (k.procs i).meta ≡ max_total_pages
  pub small : j < max_total_pages
  pub page : IsPage k.end (pte2pa (k.mem (entry t0 j)))
  pub resident : occurs (pte2pa (k.mem (entry t0 j))) ps ≡ false
  pub frees : Frees k ps
  pub aligned : t0 % pgsize ≡ 0
  pub table_kept : occurs t0 ps ≡ false
  pub table_apart : Outside (entry t0 j) (pte2pa (k.mem (entry t0 j)))
  pub disk : k.disk ≡ true

-- What `page_to_file` with place `off` has done when it returns.
pub record Evicted (k k' : Kernel) (i j t0 off : ℕ) (ps : List ℕ) : Type 0 where
  pub saved : (a : ℕ) → a < pgsize → k'.swap i (off + a) ≡ k.mem (pte2pa (k.mem (entry t0 j)) + a)
  pub word : k'.mem (entry t0 j) ≡ with_bit (without (k.mem (entry t0 j)) pte_v) pte_pg
  pub frees : Frees k' (pte2pa (k.mem (entry t0 j)) ∷ ps)
  pub offset : (data_at k' i j).offset ≡ off
  pub in_use : (data_at k' i j).in_use ≡ 0
  pub counter : (data_at k' i j).aging_counter ≡ (data_at k i j).aging_counter
  pub others : (n : ℕ) → j ≢ n → data_at k' i n ≡ data_at k i n
  pub count : (k'.procs i).pages_in_memory ≡ dec32 (k.procs i).pages_in_memory

-- The states along `page_to_file`: after the write to the file, and after `kfree`.
abbrev pub wrote : Kernel → ℕ → ℕ → ℕ → Kernel
wrote k i pha off = record k {
  swap =
      update k.swap i
        (λ o. if leb off o && ltb o (off + pgsize) then k.mem (pha + (o - off)) else k.swap i o);
}

abbrev mark : ℕ → Meta → Meta
mark off m = record m { offset = off; in_use = 0 }

abbrev fewer : Proc → Proc
fewer q = record q { pages_in_memory = dec32 q.pages_in_memory }

-- The state at the end, from the one after `kfree`.
abbrev marked : Kernel → ℕ → ℕ → ℕ → ℕ → Kernel
marked k i j pte off =
    let w = k.mem pte in
    let k1 = record k { mem = update k.mem pte (with_bit (without w pte_v) pte_pg) } in
    let k2 = record k1 { procs = update k1.procs i (change_meta j (mark off) (k1.procs i)) } in
    record k2 { procs = update k2.procs i (fewer (k2.procs i)) }

write_to_swap_file-run :
    (k : Kernel) (i pha off : ℕ)
    → k.disk ≡ true
    → write_to_swap_file i pha off k ≡ ok true (wrote k i pha off)
unfolding write_to_swap_file
write_to_swap_file-run k i pha off e = if_true k.disk (ok true (wrote k i pha off)) (ok false k) e

module _ (k : Kernel) (i j t1 t0 off : ℕ) (ps : List ℕ) (c : CanEvict k i j t1 t0 ps) where
  abbrev page : ℕ
  page = pte2pa (k.mem (entry t0 j))

  abbrev written : Kernel
  written = given (wrote k i page off) page

  evicted : Kernel
  evicted = marked written i j (entry t0 j) off

  page_to_file-run :
      (k0 : Kernel) → get_index_to_remove k0 ≡ ok (pos j) k → page_to_file i off k0 ≡ ok tt evicted
  unfolding page_to_file evicted
  page_to_file-run k0 chosen =
      let there : (entry t0 j == 0) ≡ false = ground (arith, c.table.nonzero) in
      let inside : ltb j max_total_pages ≡ true = ground (arith, c.small) in
      let (free, _) = kfree-given (wrote k i page off) page ps c.page c.resident c.frees in
      rw chosen (
        rw (walk-entry k j c.table (omega (arith, c.small)))
          (rw (there, inside) (rw (write_to_swap_file-run k i page off c.disk) (rw free refl))))

  -- Neither the page nor a free one holds the PTE.
  entry_kept : written.mem (entry t0 j) ≡ k.mem (entry t0 j)
  entry_kept = ground (arith, c.table_apart)

  entry-free : (q : ℕ) → IsPage k.end q → occurs q (page ∷ ps) ≡ true → entry t0 j ≢ q
  entry-free q q_is o e =
      let here : t0 ≡ q = omega (arith, c.aligned, q_is.aligned, c.small) in
      ground (arith, c.table_kept, c.table_apart)

  saved : (a : ℕ) → a < pgsize → evicted.swap i (off + a) ≡ k.mem (page + a)
  unfolding evicted
  saved a h =
      let back : off + a - off ≡ a = omega arith in
      let inside : (leb off (off + a) && ltb (off + a) (off + pgsize)) ≡ true = ground arith in
      rw (update_self k.swap i) (rw (inside, back))

  evicted-Frees : Frees evicted (page ∷ ps)
  unfolding evicted
  evicted-Frees =
      let (_, f) = kfree-given (wrote k i page off) page ps c.page c.resident c.frees in
      FreeList-frame written.mem evicted.mem f (λ q q_is o. other q (entry-free q q_is o))
    where
      other : (q : ℕ) → entry t0 j ≢ q → evicted.mem q ≡ written.mem q
      other q ne = ground arith

  abbrev p1 : Proc
  p1 = change_meta j (mark off) (k.procs i)

  evicted-proc : evicted.procs i ≡ fewer p1
  unfolding evicted
  evicted-proc =
      update_self (update k.procs i p1) i (fewer (update k.procs i p1 i))
      ∙ ap fewer (update_self k.procs i p1)

  evicted-Evicted : Evicted k evicted i j t0 off ps
  unfolding evicted
  evicted-Evicted =
      let here = changed_self (k.procs i) j (mark off) (omega (arith, c.entries, c.small)) in
      record {
        saved = saved;
        word =
            update_self written.mem (entry t0 j)
              (with_bit (without (written.mem (entry t0 j)) pte_v) pte_pg)
            ∙ ap (λ w. with_bit (without w pte_v) pte_pg) entry_kept;
        frees = evicted-Frees;
        offset = rw evicted-proc (ap (λ m. m.offset) here);
        in_use = rw evicted-proc (ap (λ m. m.in_use) here);
        counter = rw evicted-proc (ap (λ m. m.aging_counter) here);
        others = λ n ne. rw evicted-proc (changed_other (k.procs i) j n (mark off) ne);
        count = rw evicted-proc refl;
      }

-- Where a victim `j` has been chosen that can be evicted and the file layer succeeds, `page_to_file`
-- returns; the words of the victim's page are at their place in the swap file, its PTE is not valid
-- and marked as paged out, its page is in front of the free list, its entry names the place and is
-- not in use, the other entries are as before and the count of resident pages is one less.
pub page_to_file-Evicted :
    (k0 k : Kernel) (i j t1 t0 off : ℕ) (ps : List ℕ)
    → get_index_to_remove k0 ≡ ok (pos j) k
    → CanEvict k i j t1 t0 ps
    → (k' : Kernel) × (page_to_file i off k0 ≡ ok tt k') × Evicted k k' i j t0 off ps
page_to_file-Evicted k0 k i j t1 t0 off ps chosen c = (
  evicted k i j t1 t0 off ps c,
  page_to_file-run k i j t1 t0 off ps c k0 chosen,
  evicted-Evicted k i j t1 t0 off ps c,
)
