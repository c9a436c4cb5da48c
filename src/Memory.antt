-- ===== src/Memory.antt =====
-- kernel/kalloc.c and the page-table code of kernel/vm.c: the allocator of physical pages, `walk`,
-- `walkaddr`, `mappages`, `uvmclear`.
pub mod FreeList
pub mod Lookup
mod Tests
use os_212_assignment.Base.{
  ℕ, zero, suc, ◌+◌, ◌-◌, ◌*◌, ◌/◌, ◌%◌, ◌^◌, Bool, true, false, ◌&&◌, ◌||◌, not, ltb, leb, ◌==◌,
  if◌then◌else◌,
}
use os_212_assignment.Kernel.{
  pgsize, maxva, phystop, Kernel, walk_va, remap, kfree_page, null, Cmd, ok, stuck, pure, fail,
  ◌>>=◌, ◌>>◌, load, store, memset_page,
}

-- PGROUNDDOWN and PGROUNDUP, on 64-bit numbers.
abbrev pub pgrounddown : ℕ → ℕ
pgrounddown a = a - a % pgsize

abbrev pub pgroundup : ℕ → ℕ
pgroundup a = pgrounddown ((a + (pgsize - 1)) % 2 ^ 64)

-- PX(level, va)
abbrev pub px : ℕ → ℕ → ℕ
px level va = va / 2 ^ (12 + 9 * level) % 512

-- Bits of a PTE, by their values: PTE_V, PTE_R, PTE_W, PTE_X, PTE_U, PTE_A and PTE_PG.
abbrev pub pte_v : ℕ
pte_v = 1

abbrev pub pte_r : ℕ
pte_r = 2

abbrev pub pte_w : ℕ
pte_w = 4

abbrev pub pte_x : ℕ
pte_x = 8

abbrev pub pte_u : ℕ
pte_u = 16

abbrev pub pte_a : ℕ
pte_a = 64

abbrev pub pte_pg : ℕ
pte_pg = 512

-- `pte & bit`, `pte | bit` and `pte & ~bit`, for one bit of a word.
abbrev pub has : ℕ → ℕ → Bool
has w bit = (w / bit % 2) == 1

abbrev pub with_bit : ℕ → ℕ → ℕ
with_bit w bit = if has w bit then w else w + bit

abbrev pub without : ℕ → ℕ → ℕ
without w bit = if has w bit then w - bit else w

-- PTE2PA, PA2PTE and PTE_FLAGS. The low ten bits of PA2PTE are 0, so `|` with flags adds them.
abbrev pub pte2pa : ℕ → ℕ
pte2pa w = w / 2 ^ 10 * 2 ^ 12 % 2 ^ 64

abbrev pub pa2pte : ℕ → ℕ
pa2pte pa = pa / 2 ^ 12 * 2 ^ 10 % 2 ^ 64

abbrev pub pte_flags : ℕ → ℕ
pte_flags w = w % 1024

-- `kfree(pa)`
pub kfree : ℕ → Cmd (Unit {0})
kfree pa k =
    if not ((pa % pgsize) == 0) || ltb pa k.end || leb phystop pa
    then fail kfree_page k
    else (do
      memset_page pa 0x0101010101010101
      store pa k.freelist
      λ k'. ok tt (record k' { freelist = pa }))
        k

-- `kalloc()`, which is 0 if no page is left
unfoldable pub kalloc : Cmd ℕ
kalloc k =
    let r = k.freelist in
    if r == 0
    then ok 0 k
    else (memset_page r 0x0505050505050505 >> pure r) (record k { freelist = k.mem r })

-- The loop of `freerange`, over the `n` pages from `p` on.
pub free_pages : ℕ → ℕ → Cmd (Unit {0})
free_pages zero p = pure tt
free_pages (suc n) p = do kfree p; free_pages n (p + pgsize)

-- `freerange(pa_start, pa_end)`: `p + PGSIZE <= pa_end` holds of as many pages as fit.
pub freerange : ℕ → ℕ → Cmd (Unit {0})
freerange pa_start pa_end = free_pages ((pa_end - pgroundup pa_start) / pgsize) (pgroundup pa_start)

-- `kinit()`
pub kinit : Cmd (Unit {0})
kinit k = freerange k.end phystop k

-- The loop of `walk`, from `level` down to 1.
unfoldable pub walk_down : ℕ → ℕ → ℕ → Bool → Cmd ℕ
walk_down zero pagetable va alloc = pure (pagetable + 8 * px 0 va)
walk_down (suc level) pagetable va alloc = do
  let pte = pagetable + 8 * px (suc level) va
  w ← load pte
  if has w pte_v then walk_down level (pte2pa w) va alloc else if not alloc then pure 0 else do
    page ← kalloc
    if page == 0 then pure 0 else do
      memset_page page 0
      store pte (with_bit (pa2pte page) pte_v)
      walk_down level page va alloc

-- `walk(pagetable, va, alloc)`: the address of the PTE, or 0
unfoldable pub walk : ℕ → ℕ → Bool → Cmd ℕ
walk pagetable va alloc = if leb maxva va then fail walk_va else walk_down 2 pagetable va alloc

-- `*pte` and `*pte = w`, which fault if `pte` is null.
abbrev pub load_pte : ℕ → Cmd ℕ
load_pte pte = if pte == 0 then fail null else load pte

abbrev pub store_pte : ℕ → ℕ → Cmd (Unit {0})
store_pte pte w = if pte == 0 then fail null else store pte w

-- `walkaddr(pagetable, va)`
unfoldable pub walkaddr : ℕ → ℕ → Cmd ℕ
walkaddr pagetable va = if leb maxva va then pure 0 else do
  pte ← walk pagetable va false
  if pte == 0 then pure 0 else do
    w ← load pte
    pure (if not (has w pte_v) then 0 else if not (has w pte_u) then 0 else pte2pa w)

-- The loop of `mappages`; true is the result 0, false is -1.
unfoldable pub map_loop : ℕ → ℕ → ℕ → ℕ → ℕ → ℕ → Cmd Bool
map_loop zero pagetable a last pa perm = λ k. stuck
map_loop (suc fuel) pagetable a last pa perm = do
  pte ← walk pagetable a true
  if pte == 0 then pure false else do
    w ← load pte
    if has w pte_v then fail remap else do
      store pte (with_bit (pa2pte pa + perm) pte_v)
      if a == last then pure true else map_loop fuel pagetable (a + pgsize) last (pa + pgsize) perm

-- `mappages(pagetable, va, size, pa, perm)`, with a round for each page of the range
unfoldable pub mappages : ℕ → ℕ → ℕ → ℕ → ℕ → Cmd Bool
mappages pagetable va size pa perm =
    let a = pgrounddown va in
    let last = pgrounddown ((va + size + 2 ^ 64 - 1) % 2 ^ 64) in
    map_loop ((last - a) / pgsize + 1) pagetable a last pa perm

-- `uvmclear(pagetable, va)`. The call of `panic` on a null PTE is a fault here too.
pub uvmclear : ℕ → ℕ → Cmd (Unit {0})
uvmclear pagetable va = do
  pte ← walk pagetable va false
  w ← load_pte pte
  store_pte pte (without w pte_u)
