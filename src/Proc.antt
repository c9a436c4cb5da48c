-- ===== src/Proc.antt =====
-- kernel/proc.h and kernel/param.h: the process table entry and the bounds on it.
use os_212_assignment.Base.{ℕ, ◌+◌, List}
use os_212_assignment.Base.Int.{ℤ}

-- kernel/param.h
abbrev pub nproc : ℕ
nproc = 64

abbrev pub max_psyc_pages : ℕ
max_psyc_pages = 16

abbrev pub max_total_pages : ℕ
max_total_pages = 32

-- The value of the Makefile's SELECTION.
pub data Selection : Type 0 where
  nfua lapa scfifo none : Selection

-- `enum procstate`
pub data State : Type 0 where
  unused used sleeping runnable running zombie : State

-- `struct paging_meta_data`. The fields are `uint`; an offset of -1 is `no_offset`.
pub record Meta : Type 0 where
  pub offset : ℕ
  pub in_use : ℕ
  pub aging_counter : ℕ

abbrev pub no_offset : ℕ
no_offset = 0xffff_ffff

-- `&proc[i]`, as a pointer and as a channel to sleep on.
abbrev pub ptr : ℕ → ℕ
ptr i = i + 1

-- `struct proc` without its lock, kernel stack, saved registers, name and files. `pagetable` and
-- `trapframe` are physical addresses, `chan` an address; `parent` is 0 for null and `ptr i` for the
-- process at index `i`; `swap_file` is not 0 where there is one. `data` of the source is `meta` here.
pub record Proc : Type 0 where
  pub state : State
  pub parent : ℕ
  pub chan : ℕ
  pub xstate : ℤ
  pub trapframe : ℕ
  pub swap_file : ℕ
  pub pid : ℕ
  pub sz : ℕ
  pub pagetable : ℕ
  pub killed : ℕ
  pub meta : List Meta
  pub pages_in_memory : ℕ
  pub pages : List ℤ
  pub head : ℕ
  pub tail : ℤ
  pub num_of_pages : ℤ
