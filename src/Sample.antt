-- ===== src/Sample.antt =====
-- Concrete states for the tests: a process of six pages whose page 3 and 4 are queued (4 first, and
-- accessed) and whose page 5 is in the swap file, and a free list of one page.
use os_212_assignment.Base.{ℕ, ◌+◌, ◌*◌, true, List, if◌then◌else◌, ◌==◌, set, replicate}
use os_212_assignment.Base.Int.{pos, minus_one}
use os_212_assignment.Proc.{Meta, Proc, Selection, State, no_offset}
use os_212_assignment.Kernel.{Kernel}

abbrev pub unused_entry : Meta
unused_entry = record { offset = no_offset; in_use = 0; aging_counter = 0 }

abbrev pub resident : ℕ → Meta
resident counter = record { offset = no_offset; in_use = 1; aging_counter = counter }

abbrev pub entries : List Meta
entries =
    set (set (set (replicate 32 unused_entry) 3 (resident 6)) 4 (resident 5)) 5
      (record { offset = 8192; in_use = 0; aging_counter = 0 })

abbrev pub proc : Proc
proc = record {
  state = State.running;
  parent = 1;
  chan = 0;
  xstate = pos 0;
  trapframe = 0;
  swap_file = 1;
  pid = 3;
  sz = 24576;
  pagetable = 0x1000;
  killed = 0;
  meta = entries;
  pages_in_memory = 2;
  pages = set (set (replicate 32 minus_one) 0 (pos 4)) 1 (pos 3);
  head = 0;
  tail = pos 1;
  num_of_pages = pos 2;
}

-- The tables stand at 0x1000, 0x2000 and 0x3000; page 3 is at 0x11000, page 4 at 0x10000, and
-- 0x5000 is free.
abbrev pub memory : ℕ → ℕ
memory a =
    if a == 0x1000
    then 2049
    else if a == 0x2000
    then 3073
    else if a == 0x3018
    then 17431
    else if a == 0x3020
    then 16471
    else if a == 0x3028
    then 528
    else 0

abbrev pub kernel : Selection → Kernel
kernel s = record {
  mem = memory;
  freelist = 0x5000;
  end = 0x1000;
  procs = λ i. proc;
  current = 2;
  swap = λ i o. o + 7;
  disk = true;
  selection = s;
  next_pid = 4;
}

-- The same process with no room for another page.
abbrev pub large : Kernel
large = record (kernel Selection.scfifo) { procs = λ i. record proc { sz = 33 + 32 * 4096 } }
