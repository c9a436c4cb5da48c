-- ===== src/Process.antt =====
-- kernel/proc.c: the memory of a process, `allocproc`, `freeproc`, `proc_pagetable`,
-- `proc_freepagetable` and `fork`; kernel/vm.c: `freewalk` and `uvmfree`; kernel/fs.c:
-- `copySwapFile`. Open files and the current directory are left out.
use os_212_assignment.Base.{
  ℕ, zero, suc, ◌+◌, ◌-◌, ◌/◌, true, false, ◌&&◌, ◌||◌, not, Option, none, some, ltb, leb, ◌==◌,
  if◌then◌else◌, replicate,
}
use os_212_assignment.Base.Int.{pos, minus_one}
use os_212_assignment.Proc.{Proc, State, nproc, no_offset, max_total_pages}
use os_212_assignment.Kernel.{
  pgsize, maxva, Cmd, ok, stuck, pure, fail, leaf_left, ◌>>=◌, ◌>>◌, load, store, get_proc,
  modify_proc, myproc, get_meta,
}
use os_212_assignment.Memory.{
  pgroundup, has, pte_v, pte_r, pte_w, pte_x, pte2pa, kfree, kalloc, mappages,
}
use os_212_assignment.Swap.{read_from_swap_file, write_to_swap_file}
use os_212_assignment.Uvm.{is_none, uvmunmap, uvmcreate, uvmcopy}
use os_212_assignment.Table.{is_unused, unused_entry, cleared, adopted_by, made_runnable}

-- kernel/memlayout.h. `trampoline` is the physical address of trampoline.S.
abbrev pub trampoline_va : ℕ
trampoline_va = maxva - pgsize

abbrev pub trapframe_va : ℕ
trapframe_va = trampoline_va - pgsize

-- The loop of `freewalk` over the `n` PTEs from address `a` on; `child` frees a lower table.
pub free_entries : (ℕ → Cmd (Unit {0})) → ℕ → ℕ → Cmd (Unit {0})
free_entries child zero a = pure tt
free_entries child (suc n) a = do
  w ← load a
  if has w pte_v && not (has w pte_r || (has w pte_w || has w pte_x))
      then (do child (pte2pa w); store a 0)
      else if has w pte_v
      then fail leaf_left
      else pure tt
  free_entries child n (a + 8)

-- `freewalk(pagetable)` on a table with so many levels. A page table has three.
pub freewalk : ℕ → ℕ → Cmd (Unit {0})
unfolding free_entries
freewalk zero pagetable = λ k. stuck
freewalk (suc levels) pagetable = do free_entries (freewalk levels) 512 pagetable; kfree pagetable

-- `uvmfree(pagetable, sz)`
pub uvmfree : ℕ → ℕ → Cmd (Unit {0})
uvmfree pagetable sz = do
  if ltb 0 sz then uvmunmap pagetable 0 (pgroundup sz / pgsize) true else pure tt
  freewalk 3 pagetable

-- `allocpid()`
pub allocpid : Cmd ℕ
allocpid k = ok k.next_pid (record k { next_pid = k.next_pid + 1 })

module _ (trampoline : ℕ) where
  -- `proc_pagetable(p)`
  pub proc_pagetable : ℕ → Cmd ℕ
  proc_pagetable i = do
    pagetable ← uvmcreate
    if pagetable == 0 then pure 0 else do
      code ← mappages pagetable trampoline_va pgsize trampoline (pte_r + pte_x)
      if not code then (do uvmfree pagetable 0; pure 0) else do
        p ← get_proc i
        frame ← mappages pagetable trapframe_va pgsize p.trapframe (pte_r + pte_w)
        if frame
            then pure pagetable
            else do uvmunmap pagetable trampoline_va 1 false; uvmfree pagetable 0; pure 0

-- `proc_freepagetable(pagetable, sz)`
pub proc_freepagetable : ℕ → ℕ → Cmd (Unit {0})
proc_freepagetable pagetable sz = do
  uvmunmap pagetable trampoline_va 1 false
  uvmunmap pagetable trapframe_va 1 false
  uvmfree pagetable sz

-- `freeproc(p)`; the fields are reset together.
pub freeproc : ℕ → Cmd (Unit {0})
freeproc i = do
  p ← get_proc i
  if p.trapframe == 0 then pure tt else kfree p.trapframe
  if p.pagetable == 0 then pure tt else proc_freepagetable p.pagetable p.sz
  modify_proc i cleared

-- The loop of `allocproc` for an unused entry, over the `n` entries from `i` on.
pub find_unused : ℕ → ℕ → (ℕ → Proc) → Option ℕ
find_unused zero i t = none
find_unused (suc n) i t =
    let rest = find_unused n (i + 1) t in if is_unused (t i).state then some i else rest

-- The paging data of a new process.
pub fresh_paging : Proc → Proc
fresh_paging p = record p {
  meta = replicate max_total_pages unused_entry;
  pages = replicate max_total_pages minus_one;
  head = 0;
  num_of_pages = pos 0;
  tail = minus_one;
  pages_in_memory = 0;
}

-- `allocproc()` from `found` on; `none` stands for a null pointer.
pub set_up : ℕ → ℕ → Cmd (Option ℕ)
set_up trampoline i = do
  pid ← allocpid
  modify_proc i (λ p. record p { pid = pid; state = State.used })
  frame ← kalloc
  modify_proc i (λ p. record p { trapframe = frame })
  if frame == 0 then (do freeproc i; pure none) else do
    pagetable ← proc_pagetable trampoline i
    modify_proc i (λ p. record p { pagetable = pagetable })
    if pagetable == 0
        then (do freeproc i; pure none)
        else do modify_proc i fresh_paging; pure (some i)

pub start_proc : ℕ → Option ℕ → Cmd (Option ℕ)
start_proc trampoline none = pure none
start_proc trampoline (some i) = set_up trampoline i

-- `allocproc()`
pub allocproc : ℕ → Cmd (Option ℕ)
unfolding start_proc find_unused
allocproc trampoline k = start_proc trampoline (find_unused nproc 0 k.procs) k

-- The loop of `copySwapFile(np)` over the `n` pages of the caller from `page` on.
pub copy_swap_loop : ℕ → ℕ → ℕ → ℕ → Cmd (Unit {0})
copy_swap_loop zero page me np = pure tt
copy_swap_loop (suc n) page me np = do
  m ← get_meta me page
  let on = copy_swap_loop n (page + 1) me np
  if m.offset == no_offset then on else do
    buff ← kalloc
    if buff == 0 then pure tt else do
      read_from_swap_file me buff m.offset
      write_to_swap_file np buff m.offset
      kfree buff
      on

pub copy_swap_file : ℕ → Cmd (Unit {0})
copy_swap_file np = do
  me ← myproc
  p ← get_proc me
  copy_swap_loop ((p.sz + (pgsize - 1)) / pgsize) 0 me np

-- `*(np->trapframe) = *(p->trapframe)`, of 36 words, and `np->trapframe->a0 = 0`.
pub copy_frame : ℕ → ℕ → Cmd (Unit {0})
copy_frame to from k = ok tt (record k {
  mem = λ a.
      if a == (to + 112)
      then 0
      else if leb to a && ltb a (to + 288)
      then k.mem (from + (a - to))
      else k.mem a;
})

-- The swap file and the paging data of the child of `fork`.
pub copy_paging : ℕ → ℕ → Cmd (Unit {0})
copy_paging me np = do
  c ← get_proc np
  p ← get_proc me
  λ k.
      (if is_none k.selection || not (ltb 2 c.pid) then pure tt else do
        modify_proc np (λ q. record q { swap_file = 1 })
        if p.swap_file == 0 then pure tt else copy_swap_file np)
        k
  if not (ltb 2 p.pid)
      then pure tt
      else modify_proc np (λ q. record q {
        meta = p.meta;
        pages = p.pages;
        head = p.head;
        tail = p.tail;
        num_of_pages = p.num_of_pages;
        pages_in_memory = p.pages_in_memory;
      })

-- `fork()` from `uvmcopy` on, and from its start; `none` is the result -1.
pub fork_into : Option ℕ → Cmd (Option ℕ)
fork_into none = pure none
fork_into (some np) = do
  me ← myproc
  p ← get_proc me
  c ← get_proc np
  copied ← uvmcopy p.pagetable c.pagetable p.sz
  if not copied then (do freeproc np; pure none) else do
    modify_proc np (λ q. record q { sz = p.sz })
    copy_frame c.trapframe p.trapframe
    copy_paging me np
    modify_proc np (adopted_by me)
    modify_proc np made_runnable
    pure (some c.pid)

pub fork : ℕ → Cmd (Option ℕ)
unfolding fork_into
fork trampoline = allocproc trampoline >>= fork_into
