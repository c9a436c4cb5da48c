-- ===== src/Swap/Fault.antt =====
-- `swap_in` of kernel/vm.c for a process below its limit of resident pages: the page is back in
-- memory, with a PTE that has lost every flag but PTE_V.
use os_212_assignment.Base.{
  ℕ, ◌+◌, ◌-◌, ◌*◌, ◌/◌, ◌<◌, ◌≡◌, ◌≢◌, refl, ap, ◌∙◌, true, false, ◌&&◌, List, ◌∷◌, arith, ltb,
  leb, ◌==◌, if◌then◌else◌, length,
}
use os_212_assignment.Base.Int.{pos}
use os_212_assignment.Proc.{Meta, Proc, Selection, no_offset, max_psyc_pages, max_total_pages}
use os_212_assignment.Kernel.{pgsize, maxva, Kernel, ok, update, change_meta, inc32}
use os_212_assignment.Ring
use os_212_assignment.Memory.{pgrounddown, has, with_bit, pte_v, pte_u, pte_pg, pa2pte, walkaddr}
use os_212_assignment.Memory.FreeList.{Frees, taken, kalloc-taken}
use os_212_assignment.Memory.Lookup.{LowTable, entry, walk-low, LowTable-frame}
use os_212_assignment.Swap.{
  read_from_swap_file, place_page, init_aging, init_aging_as, swap_in, page_fault,
}
use os_212_assignment.Swap.Aging.{data_at, changed_self, update_self}
use os_212_assignment.Swap.Evict.{Outside}

-- The current process, whose page `j` is in the swap file, may have another page in memory, and `p`
-- is the first free page. Neither the PTE nor the path to it lies in that page.
pub record CanSwapIn (k : Kernel) (j t1 t0 p : ℕ) (ps : List ℕ) : Type 0 where
  pub table : LowTable k.mem (k.procs k.current).pagetable t1 t0
  pub entries : length (k.procs k.current).meta ≡ max_total_pages
  pub small : j < max_total_pages
  pub stored : (data_at k k.current j).offset ≢ no_offset
  pub frees : Frees k (p ∷ ps)
  pub room : (k.procs k.current).pages_in_memory < max_psyc_pages
  pub entry_apart : Outside (entry t0 j) p
  pub root_apart : Outside (k.procs k.current).pagetable p
  pub mid_apart : Outside t1 p
  pub paged : has (k.mem (entry t0 j)) pte_pg ≡ true

pub record SwappedIn (k k' : Kernel) (j t1 t0 p : ℕ) : Type 0 where
  pub loaded :
      (a : ℕ) → a < pgsize → k'.mem (p + a) ≡ k.swap k.current ((data_at k k.current j).offset + a)
  pub word : k'.mem (entry t0 j) ≡ pa2pte p + pte_v
  pub table : LowTable k'.mem (k'.procs k.current).pagetable t1 t0
  pub offset : (data_at k' k.current j).offset ≡ no_offset
  pub in_use : (data_at k' k.current j).in_use ≡ 1
  pub count : (k'.procs k.current).pages_in_memory ≡ inc32 (k.procs k.current).pages_in_memory
  pub current : k'.current ≡ k.current

-- What `initAging` does to the state: under SCFIFO the page joins the queue.
abbrev queued : Kernel → ℕ → Selection → Kernel
queued k j Selection.scfifo = record k {
  procs = update k.procs k.current (Ring.in_ (pos j) (k.procs k.current));
}
queued k j _ = k

abbrev first_age : Selection → ℕ
first_age Selection.lapa = 0xffff_ffff
first_age _ = 0

init_aging_as-run :
    (s : Selection) (k : Kernel) (j : ℕ) → init_aging_as s j k ≡ ok (first_age s) (queued k j s)
unfolding init_aging_as
init_aging_as-run Selection.nfua k j = refl
init_aging_as-run Selection.lapa k j = refl
init_aging_as-run Selection.scfifo k j = refl
init_aging_as-run Selection.none k j = refl

init_aging-run :
    (k : Kernel) (j : ℕ) → init_aging j k ≡ ok (first_age k.selection) (queued k j k.selection)
unfolding init_aging
init_aging-run k j = init_aging_as-run k.selection k j

-- The fields of the current process that `initAging` leaves alone.
record SameBut (k k' : Kernel) : Type 0 where
  mem : k'.mem ≡ k.mem
  current : k'.current ≡ k.current
  meta : (k'.procs k.current).meta ≡ (k.procs k.current).meta
  count : (k'.procs k.current).pages_in_memory ≡ (k.procs k.current).pages_in_memory
  pagetable : (k'.procs k.current).pagetable ≡ (k.procs k.current).pagetable

queued-SameBut : (k : Kernel) (j : ℕ) (s : Selection) → SameBut k (queued k j s)
unfolding Ring.in_
queued-SameBut k j Selection.scfifo =
    let new = update_self k.procs k.current (Ring.in_ (pos j) (k.procs k.current)) in
    record {
      mem = refl;
      current = refl;
      meta = rw new refl;
      count = rw new refl;
      pagetable = rw new refl;
    }
queued-SameBut k j Selection.nfua = record {
  mem = refl;
  current = refl;
  meta = refl;
  count = refl;
  pagetable = refl;
}
queued-SameBut k j Selection.lapa = record {
  mem = refl;
  current = refl;
  meta = refl;
  count = refl;
  pagetable = refl;
}
queued-SameBut k j Selection.none = record {
  mem = refl;
  current = refl;
  meta = refl;
  count = refl;
  pagetable = refl;
}

-- The states along `swap_in`: the words are read, the PTE is set, the entry is filled in.
abbrev back : Kernel → ℕ → ℕ → Kernel
back k p off = record (taken k p) {
  mem = λ a.
      if leb p a && ltb a (p + pgsize) then k.swap k.current (off + (a - p)) else (taken k p).mem a;
}

abbrev set_pte : Kernel → ℕ → ℕ → ℕ → Kernel
set_pte k p off pte = record (back k p off) {
  mem = update (back k p off).mem pte (with_bit (pa2pte p) pte_v);
}

abbrev fill : ℕ → Meta → Meta
fill age n = record n { aging_counter = age; offset = no_offset; in_use = 1 }

abbrev more : Proc → Proc
more q = record q { pages_in_memory = inc32 q.pages_in_memory }

abbrev counted : Kernel → ℕ → ℕ → ℕ → Kernel
counted k i j age =
    let k1 = record k { procs = update k.procs i (change_meta j (fill age) (k.procs i)) } in
    record k1 { procs = update k1.procs i (more (k1.procs i)) }

module _ (k : Kernel) (j t1 t0 p : ℕ) (ps : List ℕ) (c : CanSwapIn k j t1 t0 p ps) where
  abbrev off : ℕ
  off = (data_at k k.current j).offset

  abbrev pte : ℕ
  pte = entry t0 j

  abbrev ready : Kernel
  ready = set_pte k p off pte

  abbrev joined : Kernel
  joined = queued ready j k.selection

  swapped : Kernel
  swapped = counted joined k.current j (first_age k.selection)

  swap_in-run : (va : ℕ) → pgrounddown va / pgsize ≡ j → swap_in k.current va pte k ≡ ok tt swapped
  unfolding swap_in place_page read_from_swap_file swapped
  swap_in-run va e =
      let inside : ltb j max_total_pages ≡ true = ground (arith, c.small) in
      let kept : (off == no_offset) ≡ false = ground (arith, c.stored) in
      let (got, is, _) = kalloc-taken k p ps c.frees in
      let page : (p == 0) ≡ false = ground (arith, is.nonzero) in
      let room : ltb (k.procs k.current).pages_in_memory max_psyc_pages ≡ true =
        ground (arith, c.room) in
      rw (e, inside) (rw kept (rw got (rw page (rw room (rw (init_aging-run ready j) refl)))))

  -- The words that the later steps read.
  ready-Outside : (a : ℕ) → Outside a p → a ≢ pte → ready.mem a ≡ k.mem a
  ready-Outside a out ne = ground arith

  same : SameBut ready joined
  same = queued-SameBut ready j k.selection

  swapped-proc :
      swapped.procs k.current
      ≡ more (change_meta j (fill (first_age k.selection)) (joined.procs k.current))
  unfolding swapped
  swapped-proc =
      let q = change_meta j (fill (first_age k.selection)) (joined.procs k.current) in
      update_self (update joined.procs k.current q) k.current
        (more (update joined.procs k.current q k.current))
      ∙ ap more (update_self joined.procs k.current q)

  swapped-mem : swapped.mem ≡ ready.mem
  unfolding swapped
  swapped-mem = same.mem

  swapped-current : swapped.current ≡ k.current
  unfolding swapped
  swapped-current = same.current

  swapped-loaded : (a : ℕ) → a < pgsize → swapped.mem (p + a) ≡ k.swap k.current (off + a)
  swapped-loaded a h =
      let ne : (pte == (p + a)) ≡ false = ground (arith, c.entry_apart) in
      let inside : (leb p (p + a) && ltb (p + a) (p + pgsize)) ≡ true = ground arith in
      let at : p + a - p ≡ a = omega arith in rw swapped-mem (rw ne (rw (inside, at)))

  even : with_bit (pa2pte p) pte_v ≡ pa2pte p + pte_v
  even = ground arith

  swapped-SwappedIn : SwappedIn k swapped j t1 t0 p
  swapped-SwappedIn =
      let t = c.table in
      let pt = (k.procs k.current).pagetable in
      let here =
        changed_self (joined.procs k.current) j (fill (first_age k.selection))
          (omega (arith, c.entries, c.small, ap length same.meta)) in
      record {
        loaded = swapped-loaded;
        word =
            rw swapped-mem (update_self (back k p off).mem pte (with_bit (pa2pte p) pte_v) ∙ even);
        table = rw swapped-proc (
            rw same.pagetable (
              LowTable-frame k.mem swapped.mem t
                (rw swapped-mem (ready-Outside pt c.root_apart (omega (arith, t, c.small))))
                (rw swapped-mem (ready-Outside t1 c.mid_apart (omega (arith, t, c.small))))));
        offset = rw swapped-proc (ap (λ m. m.offset) here);
        in_use = rw swapped-proc (ap (λ m. m.in_use) here);
        count = rw swapped-proc (ap inc32 same.count);
        current = swapped-current;
      }

-- A page fault of the current process at an address of a page in the swap file, below the limit of
-- resident pages and with a free page, returns with the page's words in that free page, its PTE
-- valid, its entry in use and one more resident page.
pub page_fault-SwappedIn :
    (k : Kernel) (va t1 t0 p : ℕ) (ps : List ℕ)
    → CanSwapIn k (va / pgsize) t1 t0 p ps
    → (k' : Kernel) × (page_fault k.current va k ≡ ok tt k') × SwappedIn k k' (va / pgsize) t1 t0 p
unfolding page_fault
page_fault-SwappedIn k va t1 t0 p ps c =
    let j = va / pgsize in
    let there : (entry t0 j == 0) ≡ false = ground (arith, c.table.nonzero) in
    (
      swapped k j t1 t0 p ps c,
      rw (walk-low k va c.table (omega (arith, c.small)))
          (rw there (rw c.paged (swap_in-run k j t1 t0 p ps c va (omega arith)))),
      swapped-SwappedIn k j t1 t0 p ps c,
    )

-- After that fault the PTE has no flag but PTE_V: `walkaddr` takes the page for unmapped, and the
-- next fault at an address of the page kills the process.
pub SwappedIn-killed :
    (k k' : Kernel) (va t1 t0 p : ℕ)
    → va < max_total_pages * pgsize
    → SwappedIn k k' (va / pgsize) t1 t0 p
    → (walkaddr (k'.procs k.current).pagetable va k' ≡ ok 0 k')
      × (page_fault k.current va k'
          ≡ ok tt (record k' {
            procs = update k'.procs k.current (record (k'.procs k.current) { killed = 1 });
          }))
unfolding page_fault walkaddr
SwappedIn-killed k k' va t1 t0 p low s =
    let j = va / pgsize in
    let there : (entry t0 j == 0) ≡ false = ground (arith, s.table.nonzero) in
    let below : leb maxva va ≡ false = ground arith in
    let user : has (pa2pte p + pte_v) pte_u ≡ false = ground arith in
    let valid : has (pa2pte p + pte_v) pte_v ≡ true = ground arith in
    let paged : has (pa2pte p + pte_v) pte_pg ≡ false = ground arith in
    let found = walk-low k' va s.table (omega arith) in
    (
      rw below (rw found (rw there (rw s.word (rw (valid, user))))),
      rw found (rw there (rw s.word (rw paged))),
    )
