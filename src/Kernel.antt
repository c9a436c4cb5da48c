-- ===== src/Kernel.antt =====
-- The state that the kernel's memory code works on, and commands over it. Physical memory is read
-- and written in 64-bit words at addresses that are multiples of 8.
use os_212_assignment.Base.{
  ℕ, ◌+◌, ◌-◌, ◌*◌, ◌%◌, ◌^◌, Bool, ◌&&◌, ltb, leb, ◌==◌, if◌then◌else◌, get_or, set,
}
use os_212_assignment.Proc.{Meta, Proc, Selection, max_total_pages}

-- kernel/riscv.h and kernel/memlayout.h
abbrev pub pgsize : ℕ
pgsize = 4096

abbrev pub maxva : ℕ
maxva = 2 ^ 38

abbrev pub phystop : ℕ
phystop = 0x80000000 + 128 * 1024 * 1024

-- `mem` is physical memory, `freelist` is `kmem.freelist`, `end` the first address after the kernel,
-- `procs` the process table, and `current` the index of `myproc()` in it. `swap i` holds the words
-- of the swap file of process `i` by their offset. `disk` says whether the file layer succeeds in
-- writing to a swap file. `next_pid` is `nextpid`.
pub record Kernel : Type 0 where
  pub mem : ℕ → ℕ
  pub freelist : ℕ
  pub end : ℕ
  pub procs : ℕ → Proc
  pub current : ℕ
  pub swap : ℕ → ℕ → ℕ
  pub disk : Bool
  pub selection : Selection
  pub next_pid : ℕ

-- The calls of `panic` in the modelled code, and the uses of a null pointer or of an index outside
-- an array.
pub data Fault : Type 0 where
  walk_va remap kfree_page not_aligned not_leaf write_failed no_swap_copy no_page leaf_left null
        bad_index :
      Fault

-- `panic` never returns. `stuck` stands for a loop that has used up its fuel.
pub data Run (A : Type 0) : Type 0 where
  ok : A → Kernel → Run A
  panic : Fault → Run A
  stuck : Run A

abbrev pub Cmd : Type 0 → Type 0
Cmd A = Kernel → Run A

abbrev pub pure : {A : Type 0} → A → Cmd A
pure = ok

abbrev pub fail : {A : Type 0} → Fault → Cmd A
fail f k = panic f

module _ {A B : Type 0} where
  abbrev pub and_then : Run A → (A → Cmd B) → Run B
  and_then (ok a k) f = f a k
  and_then (panic e) f = panic e
  and_then stuck f = stuck

  infixl 5 ◌>>=◌ ◌>>◌
  abbrev pub ◌>>=◌ : Cmd A → (A → Cmd B) → Cmd B
  m >>= f = λ k. and_then (m k) f

  abbrev pub ◌>>◌ : Cmd A → Cmd B → Cmd B
  m >> n = m >>= λ _. n

abbrev pub update {ℓ} : {A : Type ℓ} → (ℕ → A) → ℕ → A → ℕ → A
update f i v j = if i == j then v else f j

-- `*a`
abbrev pub load : ℕ → Cmd ℕ
load a k = ok (k.mem a) k

-- `*a = w`
abbrev pub store : ℕ → ℕ → Cmd (Unit {0})
store a w k = ok tt (record k { mem = update k.mem a w })

-- `memset(page, c, PGSIZE)`, for a word `w` of eight bytes `c`.
abbrev pub filled : (ℕ → ℕ) → ℕ → ℕ → ℕ → ℕ
filled mem page w a = if leb page a && ltb a (page + pgsize) then w else mem a

abbrev pub memset_page : ℕ → ℕ → Cmd (Unit {0})
memset_page page w k = ok tt (record k { mem = filled k.mem page w })

-- The process at an index, and a change of its fields.
abbrev pub get_proc : ℕ → Cmd Proc
get_proc i k = ok (k.procs i) k

abbrev pub modify_proc : ℕ → (Proc → Proc) → Cmd (Unit {0})
modify_proc i f k = ok tt (record k { procs = update k.procs i (f (k.procs i)) })

-- `myproc()`
abbrev pub myproc : Cmd ℕ
myproc k = ok k.current k

-- `p->data[j]` and a change of it. An index outside the array is a fault.
abbrev pub blank : Meta
blank = record { offset = 0; in_use = 0; aging_counter = 0 }

abbrev pub change_meta : ℕ → (Meta → Meta) → Proc → Proc
change_meta j f p = record p { meta = set p.meta j (f (get_or p.meta j blank)) }

abbrev pub get_meta : ℕ → ℕ → Cmd Meta
get_meta i j =
    if ltb j max_total_pages then (λ k. ok (get_or (k.procs i).meta j blank) k) else fail bad_index

abbrev pub modify_meta : ℕ → ℕ → (Meta → Meta) → Cmd (Unit {0})
modify_meta i j f =
    if ltb j max_total_pages then modify_proc i (change_meta j f) else fail bad_index

-- `++` and `--` of a `uint`.
abbrev pub inc32 : ℕ → ℕ
inc32 n = (n + 1) % 2 ^ 32

abbrev pub dec32 : ℕ → ℕ
dec32 n = (n + (2 ^ 32 - 1)) % 2 ^ 32
