-- ===== src/Swap/Tests.antt =====
-- The theorems about swapping in kernel/vm.c and kernel/trap.c at concrete states.
use os_212_assignment.Base.{◌≡◌, refl, [], ◌∷◌, arith, if◌then◌else◌, ◌==◌}
use os_212_assignment.Base.Int.{pos}
use os_212_assignment.Proc.{Selection, max_total_pages}
use os_212_assignment.Kernel.{Kernel, ok, update}
use os_212_assignment.Sample.{kernel, proc, memory}
use os_212_assignment.Ring.Remove.{Holds}
use os_212_assignment.Policy.{nfua, nfua_loop}
use os_212_assignment.Memory.{walkaddr}
use os_212_assignment.Memory.FreeList.{nil, cons, Frees}
use os_212_assignment.Memory.Lookup.{LowTable}
use os_212_assignment.Swap.{
  choose, get_index_to_remove, page_to_file, scfifo, offset_used, offset_loop, get_offset_of,
  update_aging, page_fault,
}
use os_212_assignment.Swap.Aging.{AgedIn, update_aging-AgedIn}
use os_212_assignment.Swap.Evict.{CanEvict, Evicted, page_to_file-Evicted}
use os_212_assignment.Swap.Fault.{CanSwapIn, SwappedIn, page_fault-SwappedIn, SwappedIn-killed}
use os_212_assignment.Swap.Victim.{Chosen, scfifo-second_chance}

abbrev k : Kernel
k = kernel Selection.nfua

k-LowTable : LowTable memory 0x1000 0x2000 0x3000
k-LowTable = record {
  root = refl;
  root_next = refl;
  mid = refl;
  mid_next = refl;
  nonzero = omega arith;
  pt_apart = omega arith;
  t1_apart = omega arith;
}

k-Frees : Frees k (0x5000 ∷ [])
k-Frees = cons (omega arith) refl nil

proc-Holds : Holds (pos 4 ∷ pos 3 ∷ []) proc
proc-Holds = record {
  ring = record {
    size = refl;
    head_in = omega arith;
    count = refl;
    few = omega arith;
    tail_in = omega arith;
    tail_low = omega arith;
    last = refl;
  };
  holds = refl;
}

offset_proc : get_offset_of proc ≡ 0
unfolding get_offset_of offset_loop offset_used
offset_proc = refl

update_aging-AgedIn_example :
    (k' : Kernel) × (update_aging k ≡ ok tt k') × AgedIn k k' 2 0x3000 0 max_total_pages
update_aging-AgedIn_example = update_aging-AgedIn k refl k-LowTable refl

victim : get_index_to_remove k ≡ ok (pos 4) k
unfolding get_index_to_remove choose nfua nfua_loop
victim = refl

k-CanEvict : CanEvict k 2 4 0x2000 0x3000 (0x5000 ∷ [])
k-CanEvict = record {
  table = k-LowTable;
  entries = refl;
  small = omega arith;
  page = omega arith;
  resident = refl;
  frees = k-Frees;
  aligned = refl;
  table_kept = refl;
  table_apart = omega arith;
  disk = refl;
}

page_to_file-Evicted_example :
    (k' : Kernel) × (page_to_file 2 4096 k ≡ ok tt k') × Evicted k k' 2 4 0x3000 4096 (0x5000 ∷ [])
page_to_file-Evicted_example =
    page_to_file-Evicted k k 2 4 0x2000 0x3000 4096 (0x5000 ∷ []) victim k-CanEvict

k-CanSwapIn : CanSwapIn k 5 0x2000 0x3000 0x5000 []
k-CanSwapIn = record {
  table = k-LowTable;
  entries = refl;
  small = omega arith;
  stored = omega arith;
  frees = k-Frees;
  room = omega arith;
  entry_apart = omega arith;
  root_apart = omega arith;
  mid_apart = omega arith;
  paged = refl;
}

page_fault-SwappedIn_example :
    (k' : Kernel) × (page_fault 2 20999 k ≡ ok tt k') × SwappedIn k k' 5 0x2000 0x3000 0x5000
page_fault-SwappedIn_example = page_fault-SwappedIn k 20999 0x2000 0x3000 0x5000 [] k-CanSwapIn

-- The state after that fault.
faulted : (k' : Kernel) × (page_fault 2 20999 k ≡ ok tt k') × SwappedIn k k' 5 0x2000 0x3000 0x5000
faulted = page_fault-SwappedIn k 20999 0x2000 0x3000 0x5000 [] k-CanSwapIn

abbrev after : Kernel
after = faulted.0

SwappedIn-killed_example :
    (walkaddr (after.procs 2).pagetable 20999 after ≡ ok 0 after)
    × (page_fault 2 20999 after
        ≡ ok tt
            (record after { procs = update after.procs 2 (record (after.procs 2) { killed = 1 }) }))
SwappedIn-killed_example =
    SwappedIn-killed k after 20999 0x2000 0x3000 0x5000 (omega arith) faulted.2

scfifo-second_chance_example :
    (k' : Kernel) × (scfifo 2 k ≡ ok (pos 3) k') × Chosen k k' 2 0x3000 (pos 4 ∷ []) (pos 4 ∷ [])
scfifo-second_chance_example =
    scfifo-second_chance k 2 0x2000 0x3000 (pos 4 ∷ []) [] (pos 3) k-LowTable proc-Holds
      ((refl, omega arith), tt) ((refl, omega arith), tt) (tt, tt) (omega arith, tt) (refl, tt) refl

-- The same state with page 3 accessed too.
abbrev hot : Kernel
hot = record k { mem = λ a. if a == 0x3018 then 17495 else memory a }

hot-LowTable : LowTable hot.mem 0x1000 0x2000 0x3000
hot-LowTable = record {
  root = refl;
  root_next = refl;
  mid = refl;
  mid_next = refl;
  nonzero = omega arith;
  pt_apart = omega arith;
  t1_apart = omega arith;
}
