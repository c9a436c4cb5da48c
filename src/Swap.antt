-- ===== src/Swap.antt =====
-- kernel/vm.c: SCFIFO, the choice of a victim, `page_to_file`, `swap_in`, the aging counters and
-- `getOffset`; kernel/trap.c: the page-fault branch of `usertrap`. A process is named by its index
-- in the process table.
pub mod Offset
pub mod Evict
pub mod Fault
pub mod Scfifo
pub mod Victim
pub mod Aging
mod Tests
use os_212_assignment.Base.{
  ℕ, zero, suc, ◌+◌, ◌-◌, ◌*◌, ◌/◌, ◌%◌, ◌^◌, Bool, true, false, ◌&&◌, ◌||◌, not, List, [], ◌∷◌,
  ltb, leb, ◌==◌, if◌then◌else◌,
}
use os_212_assignment.Base.Int.{ℤ, pos, negsuc, ltb_ℤ}
use os_212_assignment.Proc.{Meta, Proc, Selection, no_offset, max_psyc_pages, max_total_pages}
use os_212_assignment.Kernel.{
  pgsize, Kernel, Cmd, ok, pure, fail, write_failed, no_swap_copy, no_page, ◌>>=◌, ◌>>◌, load,
  store, update, get_proc, modify_proc, myproc, get_meta, modify_meta, inc32, dec32,
}
use os_212_assignment.Ring
use os_212_assignment.Ring.{place, front}
use os_212_assignment.Policy.{nfua, lapa}
use os_212_assignment.Memory.{
  pgrounddown, has, with_bit, without, pte_v, pte_a, pte_pg, pte2pa, pa2pte, pte_flags, kfree,
  kalloc, walk, load_pte, store_pte,
}

-- `page*PGSIZE` as a virtual address: an `int` product that is converted to `uint64`.
abbrev pub va_of_page : ℤ → ℕ
va_of_page (pos n) = n * pgsize
va_of_page (negsuc n) = 2 ^ 64 - (n + 1) * pgsize

-- The page at the head leaves the queue: the end of the loop, and of `scfifo` behind it.
pub evict_front : ℕ → Cmd ℤ
evict_front me = do p ← get_proc me; modify_proc me Ring.out; pure (front p)

-- The loop of `scfifo` from round `i` on; the queue does not grow, so its length bounds the rounds.
pub scfifo_loop : ℕ → ℕ → ℕ → Cmd ℤ
scfifo_loop zero me i = evict_front me
scfifo_loop (suc rounds) me i = do
  p ← get_proc me
  let page = front p
  let again = scfifo_loop rounds me (i + 1)
  if not (ltb_ℤ (pos i) p.num_of_pages) then evict_front me else do
    pte ← walk p.pagetable (va_of_page page) false
    w ← load_pte pte
    if not (has w pte_a) then evict_front me else do
      store_pte pte (without w pte_a)
      modify_proc me Ring.out
      modify_proc me (Ring.in_ page)
      again

-- `scfifo(p)`
pub scfifo : ℕ → Cmd ℤ
scfifo me = do p ← get_proc me; scfifo_loop (place p.num_of_pages) me 0

-- `getIndexToRemove()`, which asks for `myproc()`.
pub choose : Selection → ℕ → Cmd ℤ
choose Selection.nfua me = do p ← get_proc me; pure (nfua p)
choose Selection.lapa me = do p ← get_proc me; pure (lapa p)
choose Selection.scfifo me = scfifo me
choose Selection.none me = pure (pos 0)

pub get_index_to_remove : Cmd ℤ
unfolding choose
get_index_to_remove k = choose k.selection k.current k

-- `writeToSwapFile(p, pha, off, PGSIZE)` and `readFromSwapFile(p, buff, off, PGSIZE)`, as what they
-- do to the words of the file and of memory where the file layer succeeds.
pub write_to_swap_file : ℕ → ℕ → ℕ → Cmd Bool
write_to_swap_file i pha off k =
    if k.disk
    then ok true (record k {
      swap =
          update k.swap i (λ o.
            if leb off o && ltb o (off + pgsize) then k.mem (pha + (o - off)) else k.swap i o);
    })
    else ok false k

pub read_from_swap_file : ℕ → ℕ → ℕ → Cmd (Unit {0})
read_from_swap_file i buff off k = ok tt (record k {
  mem = λ a. if leb buff a && ltb a (buff + pgsize) then k.swap i (off + (a - buff)) else k.mem a;
})

-- `page_to_file(p, pageOffset)`
pub page_to_file : ℕ → ℕ → Cmd (Unit {0})
page_to_file i page_offset = do
  index ← get_index_to_remove
  p ← get_proc i
  pte ← walk p.pagetable (va_of_page index) false
  w ← load_pte pte
  let pha = pte2pa w
  wrote ← write_to_swap_file i pha page_offset
  if not wrote then fail write_failed else do
    kfree pha
    w' ← load pte
    store pte (with_bit (without w' pte_v) pte_pg)
    modify_meta i (place index) (λ m. record m { offset = page_offset; in_use = 0 })
    modify_proc i (λ q. record q { pages_in_memory = dec32 q.pages_in_memory })

-- `initAging(page)`, which also queues the page under SCFIFO
pub init_aging_as : Selection → ℕ → Cmd ℕ
init_aging_as Selection.nfua page = pure 0
init_aging_as Selection.lapa page = pure 0xffff_ffff
init_aging_as Selection.scfifo page = do me ← myproc; modify_proc me (Ring.in_ (pos page)); pure 0
init_aging_as Selection.none page = pure 0

pub init_aging : ℕ → Cmd ℕ
unfolding init_aging_as
init_aging page k = init_aging_as k.selection page k

-- One round of the loop of `updateAging`, for page `j` of process `i`.
pub age_page : ℕ → ℕ → Cmd (Unit {0})
age_page i j = do
  p ← get_proc i
  pte ← walk p.pagetable (j * pgsize) false
  w ← load_pte pte
  if not (has w pte_v) then pure tt else do
    modify_meta i j (λ m. record m { aging_counter = m.aging_counter / 2 })
    if not (has w pte_a) then pure tt else do
      modify_meta i j (λ m. record m { aging_counter = with_bit m.aging_counter (2 ^ 31) })
      store pte (without w pte_a)

-- The loop over the pages from `j` on.
pub age_pages : ℕ → ℕ → ℕ → Cmd (Unit {0})
age_pages zero i j = pure tt
age_pages (suc n) i j = do age_page i j; age_pages n i (j + 1)

-- `updateAging()`, empty under the other policies
pub update_aging_as : Selection → Cmd (Unit {0})
update_aging_as Selection.nfua = do me ← myproc; age_pages max_total_pages me 0
update_aging_as Selection.lapa = do me ← myproc; age_pages max_total_pages me 0
update_aging_as Selection.scfifo = pure tt
update_aging_as Selection.none = pure tt

pub update_aging : Cmd (Unit {0})
unfolding update_aging_as
update_aging k = update_aging_as k.selection k

-- The inner loop of `getOffset`: is `off` the offset of some page?
pub offset_used : List Meta → ℕ → Bool
offset_used [] off = false
offset_used (m ∷ ms) off = (m.offset == off) || offset_used ms off

-- The outer loop, from `off` on, over the multiples of PGSIZE below the size of the process.
pub offset_loop : ℕ → List Meta → ℕ → ℕ
offset_loop zero ms off = 0
offset_loop (suc n) ms off =
    let rest = offset_loop n ms (off + pgsize) in if offset_used ms off then rest else off

-- `getOffset()`. 0 stands for "not found".
pub get_offset_of : Proc → ℕ
get_offset_of p = offset_loop ((p.sz + (pgsize - 1)) / pgsize) p.meta 0

pub get_offset : Cmd ℕ
get_offset k = ok (get_offset_of (k.procs k.current)) k

-- The branch of `swap_in` that sets the PTE: below the limit of resident pages, or in exchange for
-- another page.
pub place_page : ℕ → ℕ → ℕ → ℕ → Bool → Cmd (Unit {0})
place_page i page_offset pte buff room =
    if room then store pte (with_bit (pa2pte buff) pte_v) else do
      page_to_file i page_offset
      w ← load pte
      store pte (with_bit (pa2pte buff + without (pte_flags w) pte_pg) pte_v)

-- `swap_in(p, va, pte)`
pub swap_in : ℕ → ℕ → ℕ → Cmd (Unit {0})
swap_in i va pte = do
  let index = pgrounddown va / pgsize
  m ← get_meta i index
  if m.offset == no_offset then fail no_swap_copy else do
    buff ← kalloc
    if buff == 0 then fail no_page else do
      read_from_swap_file i buff m.offset
      p ← get_proc i
      place_page i m.offset pte buff (ltb p.pages_in_memory max_psyc_pages)
      age ← init_aging index
      modify_meta i index (λ n. record n { aging_counter = age; offset = no_offset; in_use = 1 })
      modify_proc i (λ q. record q { pages_in_memory = inc32 q.pages_in_memory })

-- The page-fault branch of `usertrap`
pub page_fault : ℕ → ℕ → Cmd (Unit {0})
page_fault i va = do
  p ← get_proc i
  pte ← walk p.pagetable va false
  if pte == 0 then modify_proc i (λ q. record q { killed = 1 }) else do
    w ← load pte
    if has w pte_pg then swap_in i va pte else modify_proc i (λ q. record q { killed = 1 })
