-- ===== src/Uvm.antt =====
-- kernel/vm.c: user address spaces, `uvmunmap`, `uvmdealloc`, `uvmalloc`, `uvmcopy` and the like;
-- kernel/proc.c: `growproc`.
pub mod Grow
mod Tests
use os_212_assignment.Base.{
  ℕ, zero, suc, ◌+◌, ◌-◌, ◌*◌, ◌/◌, ◌%◌, ◌^◌, Bool, true, false, ◌&&◌, ◌||◌, not, Option, none,
  some, ltb, leb, ◌==◌, if◌then◌else◌,
}
use os_212_assignment.Base.Int.{ℤ, pos, negsuc, neg_part}
use os_212_assignment.Proc.{Meta, Proc, Selection, no_offset, max_psyc_pages, max_total_pages}
use os_212_assignment.Kernel.{
  pgsize, Kernel, Cmd, ok, stuck, pure, fail, not_aligned, not_leaf, ◌>>=◌, ◌>>◌, load, store,
  memset_page, get_proc, modify_proc, myproc, get_meta, modify_meta, inc32,
}
use os_212_assignment.Ring
use os_212_assignment.Memory.{
  pgroundup, has, pte_v, pte_r, pte_w, pte_x, pte_u, pte2pa, pte_flags, kfree, kalloc, walk,
  mappages,
}
use os_212_assignment.Swap.{page_to_file, init_aging, get_offset}

-- The new fields of a process, from a loop that has ended.
abbrev pub put_proc : ℕ → Option Proc → Cmd (Unit {0})
put_proc me none = λ k. stuck
put_proc me (some p) = modify_proc me (λ _. p)

-- `removePage(page)` on `myproc()`
pub remove_page : ℕ → Cmd (Unit {0})
remove_page page = do me ← myproc; p ← get_proc me; put_proc me (Ring.remove_page (pos page) p)

-- The bookkeeping of `uvmunmap` for a page of `myproc()` that leaves memory.
pub forget_page : ℕ → Cmd (Unit {0})
forget_page page = do
  me ← myproc
  modify_meta me page (λ m. record m { in_use = 0 })
  modify_proc me (λ p. record p { pages_in_memory = p.pages_in_memory - 1 })
  modify_meta me page (λ m. record m { offset = no_offset })
  remove_page page

-- Whether the policy keeps data on page `page`: `#if SELECTION != NONE`, and the test behind it.
abbrev pub is_none : Selection → Bool
is_none Selection.none = true
is_none _ = false

pub tracked : ℕ → Kernel → Bool
tracked page k = not (is_none k.selection) && ltb page max_total_pages

pub if_tracked : ℕ → Cmd (Unit {0}) → Cmd (Unit {0})
if_tracked page c k = (if tracked page k then c else pure tt) k

-- One round of the loop of `uvmunmap`, at a PTE that exists.
pub unmap_pte : ℕ → ℕ → Bool → Cmd (Unit {0})
unmap_pte a pte do_free = do
  w ← load pte
  let page = a / pgsize
  if has w pte_v
      then (if pte_flags w == pte_v
          then fail not_leaf
          else if not do_free
          then pure tt
          else do kfree (pte2pa w); if_tracked page (forget_page page))
      else if_tracked page
          (do me ← myproc; modify_meta me page (λ m. record m { offset = no_offset }))
  store pte 0

-- The loop of `uvmunmap` over the `n` pages from `a` on.
pub unmap_loop : ℕ → ℕ → ℕ → Bool → Cmd (Unit {0})
unmap_loop zero pagetable a do_free = pure tt
unmap_loop (suc n) pagetable a do_free = do
  pte ← walk pagetable a false
  if pte == 0 then pure tt else unmap_pte a pte do_free
  unmap_loop n pagetable (a + pgsize) do_free

-- `uvmunmap(pagetable, va, npages, do_free)`
pub uvmunmap : ℕ → ℕ → ℕ → Bool → Cmd (Unit {0})
uvmunmap pagetable va npages do_free =
    if not ((va % pgsize) == 0) then fail not_aligned else unmap_loop npages pagetable va do_free

-- `uvmdealloc(pagetable, oldsz, newsz)`
pub uvmdealloc : ℕ → ℕ → ℕ → Cmd ℕ
uvmdealloc pagetable oldsz newsz =
    if leb oldsz newsz
    then pure oldsz
    else if not (ltb (pgroundup newsz) (pgroundup oldsz))
    then pure newsz
    else do
      let npages = (pgroundup oldsz - pgroundup newsz) / pgsize
      uvmunmap pagetable (pgroundup newsz) npages true
      pure newsz

abbrev pub user_perm : ℕ
user_perm = pte_w + pte_x + pte_r + pte_u

-- What a round of `uvmalloc` does: go on, or return a value.
pub data Step : Type 0 where
  next : Step
  return : ℕ → Step

-- The error path of the loops: drop what was mapped from `first` up to `top`, and return 0.
pub give_up : ℕ → ℕ → ℕ → Cmd Step
give_up pagetable top first = do uvmdealloc pagetable top first; pure (return 0)

-- A page without bookkeeping: the body of the loop of `NONE_uvmalloc`, and of `uvmalloc` for the
-- processes 0 and 1. `first` is the rounded old size.
pub alloc_plain : ℕ → ℕ → ℕ → Cmd Step
alloc_plain pagetable a first = do
  mem ← kalloc
  if mem == 0 then give_up pagetable a first else do
    memset_page mem 0
    mapped ← mappages pagetable a pgsize mem user_perm
    if mapped then pure next else do kfree mem; give_up pagetable a first

-- The counters of a page that `uvmalloc` has mapped.
pub count_page : ℕ → ℕ → Cmd (Unit {0})
count_page i page = do
  modify_meta i page (λ m. record m { in_use = 1 })
  modify_proc i (λ p. record p { pages_in_memory = inc32 p.pages_in_memory })

pub age_new : ℕ → ℕ → Cmd (Unit {0})
age_new i page = do
  age ← init_aging page
  modify_meta i page (λ m. record m { aging_counter = age })

-- The branch of `uvmalloc` for a process that has its limit of pages in memory. The result of
-- `kalloc` is not tested there.
pub alloc_swapping : ℕ → ℕ → ℕ → ℕ → ℕ → Cmd Step
alloc_swapping i pagetable a first newsz = do
  let page = a / pgsize
  off ← get_offset
  page_to_file i off
  mem ← kalloc
  mapped ← mappages pagetable a pgsize mem user_perm
  if not mapped then give_up pagetable newsz first else do
    count_page i page
    modify_meta i page (λ m. record m { offset = no_offset })
    age_new i page
    pure next

-- The branch for a process that may have another page in memory.
pub alloc_tracked : ℕ → ℕ → ℕ → ℕ → Cmd Step
alloc_tracked i pagetable a first = do
  step ← alloc_plain pagetable a first
  elim step [
    | return v ↦ pure (return v)
    | next ↦ do count_page i (a / pgsize); age_new i (a / pgsize); pure next
  ]

-- One round of the loop of `uvmalloc` for `myproc()`, at index `i`. At page 32 the writes to
-- `p->data[32]` are outside of the array, which C leaves undefined: here they are a fault.
pub alloc_round : ℕ → ℕ → ℕ → ℕ → ℕ → Cmd Step
alloc_round i pagetable a first newsz = do
  p ← get_proc i
  if not (ltb 1 p.pid)
      then alloc_plain pagetable a first
      else if ltb max_total_pages (a / pgsize)
      then pure (return (2 ^ 64 - 1))
      else if leb max_psyc_pages p.pages_in_memory
      then alloc_swapping i pagetable a first newsz
      else alloc_tracked i pagetable a first

-- The loops over the `n` pages from `a` on.
pub none_loop : ℕ → ℕ → ℕ → ℕ → ℕ → Cmd ℕ
none_loop zero pagetable a first newsz = pure newsz
none_loop (suc n) pagetable a first newsz = do
  step ← alloc_plain pagetable a first
  elim step [ return v ↦ pure v | next ↦ none_loop n pagetable (a + pgsize) first newsz ]

pub alloc_loop : ℕ → ℕ → ℕ → ℕ → ℕ → ℕ → Cmd ℕ
alloc_loop zero i pagetable a first newsz = pure newsz
alloc_loop (suc n) i pagetable a first newsz = do
  step ← alloc_round i pagetable a first newsz
  elim step [ return v ↦ pure v | next ↦ alloc_loop n i pagetable (a + pgsize) first newsz ]

-- The rounds of `for(a = oldsz; a < newsz; a += PGSIZE)`
abbrev pub rounds : ℕ → ℕ → ℕ
rounds a newsz = (newsz - a + (pgsize - 1)) / pgsize

-- `NONE_uvmalloc(pagetable, oldsz, newsz)`
pub none_uvmalloc : ℕ → ℕ → ℕ → Cmd ℕ
none_uvmalloc pagetable oldsz newsz =
    if ltb newsz oldsz
    then pure oldsz
    else let first = pgroundup oldsz in none_loop (rounds first newsz) pagetable first first newsz

-- `uvmalloc(pagetable, oldsz, newsz)`
pub tracked_uvmalloc : ℕ → ℕ → ℕ → Cmd ℕ
tracked_uvmalloc pagetable oldsz newsz = do
  me ← myproc
  if ltb newsz oldsz
      then pure oldsz
      else let first = pgroundup oldsz in
        alloc_loop (rounds first newsz) me pagetable first first newsz

pub uvmalloc : ℕ → ℕ → ℕ → Cmd ℕ
uvmalloc pagetable oldsz newsz k =
    (if is_none k.selection
        then none_uvmalloc pagetable oldsz newsz
        else tracked_uvmalloc pagetable oldsz newsz)
      k

-- `sz + n` for a `uint sz` and an `int n`.
pub add32 : ℕ → ℤ → ℕ
add32 sz (pos n) = (sz + n) % 2 ^ 32
add32 sz (negsuc n) = (sz + (2 ^ 32 - (n + 1) % 2 ^ 32)) % 2 ^ 32

-- `growproc(n)`; true is the result 0, false is -1. The local `sz` is a `uint`.
pub set_size : ℕ → ℕ → Cmd Bool
set_size me sz = do modify_proc me (λ p. record p { sz = sz }); pure true

pub grow : ℕ → Proc → ℤ → Cmd Bool
grow me p (pos zero) = set_size me (p.sz % 2 ^ 32)
grow me p (pos (suc n)) = do
  let old = p.sz % 2 ^ 32
  got ← uvmalloc p.pagetable old (add32 old (pos (suc n)))
  if (got % 2 ^ 32) == 0 then pure false else set_size me (got % 2 ^ 32)
grow me p (negsuc n) = do
  let old = p.sz % 2 ^ 32
  got ← uvmdealloc p.pagetable old (add32 old (negsuc n))
  set_size me (got % 2 ^ 32)

pub growproc : ℤ → Cmd Bool
growproc n = do me ← myproc; p ← get_proc me; grow me p n

-- `uvmcreate()`
pub uvmcreate : Cmd ℕ
uvmcreate = do
  pagetable ← kalloc
  if pagetable == 0 then pure 0 else do memset_page pagetable 0; pure pagetable

-- `memmove(mem, pa, PGSIZE)`
abbrev pub copy_page : ℕ → ℕ → Cmd (Unit {0})
copy_page mem pa k = ok tt (record k {
  mem = λ a. if leb mem a && ltb a (mem + pgsize) then k.mem (pa + (a - mem)) else k.mem a;
})

-- The loop of `uvmcopy` over the `n` pages from `a` on; true is the result 0, false is -1.
pub copy_loop : ℕ → ℕ → ℕ → ℕ → Cmd Bool
copy_loop zero old new a = pure true
copy_loop (suc n) old new a = do
  let undo = do uvmunmap new 0 (a / pgsize) true; pure false
  let on = copy_loop n old new (a + pgsize)
  pte ← walk old a false
  if pte == 0 then on else do
    w ← load pte
    if not (has w pte_v) then on else do
      mem ← kalloc
      if mem == 0 then undo else do
        copy_page mem (pte2pa w)
        mapped ← mappages new a pgsize mem (pte_flags w)
        if mapped then on else do kfree mem; undo

-- `uvmcopy(old, new, sz)`
pub uvmcopy : ℕ → ℕ → ℕ → Cmd Bool
uvmcopy old new sz = copy_loop ((sz + (pgsize - 1)) / pgsize) old new 0
