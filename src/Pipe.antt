-- ===== src/Pipe.antt =====
-- kernel/pipe.c: the bytes of a pipe between `pipewrite` and `piperead`, and who sleeps on it. A
-- turn is what a process does to the pipe while it holds `pi->lock`, from `acquire` or the return
-- of `sleep` up to `release` or the next `sleep`.
pub mod Window
pub mod Order
pub mod Fifo
pub mod Wake
mod Tests
use os_212_assignment.Base.{
  ℕ, zero, suc, ◌+◌, ◌%◌, ◌^◌, Bool, true, false, ◌&&◌, ◌||◌, not, Option, none, some, List, [],
  ◌∷◌, ◌==◌, if◌then◌else◌,
}
use os_212_assignment.Base.Int.{ℤ, pos, negsuc, minus_one}
use os_212_assignment.Kernel.{update, inc32}

abbrev pub pipesize : ℕ
pipesize = 512

-- `struct pipe`. `nread` and `nwrite` are `uint` counters that wrap around.
pub record Pipe : Type 0 where
  pub data_ : ℕ → ℕ
  pub nread : ℕ
  pub nwrite : ℕ
  pub readopen : ℕ
  pub writeopen : ℕ

-- How a turn ends: the call returns, or sleeps with `i` bytes done.
pub data Outcome : Type 0 where
  returns : ℤ → Outcome
  sleeps : ℕ → Outcome

-- `bytes` are those that went into the pipe, or out of it to the user, in the turn.
pub record Turn : Type 0 where
  pub outcome : Outcome
  pub bytes : List ℕ
  pub pipe : Pipe

abbrev pub ended : Outcome → Pipe → Turn
ended o pi = record { outcome = o; bytes = []; pipe = pi }

abbrev pub moved : ℕ → Turn → Turn
moved ch t = record t { bytes = ch ∷ t.bytes }

-- What `pipealloc` sets in the page that it gets for the pipe.
abbrev pub opened : (ℕ → ℕ) → Pipe
opened d = record { data_ = d; nread = 0; nwrite = 0; readopen = 1; writeopen = 1 }

-- `pi->nwrite == pi->nread + PIPESIZE` and `pi->nread == pi->nwrite`
abbrev pub is_full : Pipe → Bool
is_full pi = pi.nwrite == ((pi.nread + pipesize) % 2 ^ 32)

abbrev pub is_empty : Pipe → Bool
is_empty pi = pi.nread == pi.nwrite

-- `pi->data[pi->nwrite++ % PIPESIZE] = ch`
abbrev pub put : ℕ → Pipe → Pipe
put ch pi = record pi {
  data_ = update pi.data_ (pi.nwrite % pipesize) ch;
  nwrite = inc32 pi.nwrite;
}

-- `ch = pi->data[pi->nread++ % PIPESIZE]`
abbrev pub next_byte : Pipe → ℕ
next_byte pi = pi.data_ (pi.nread % pipesize)

abbrev pub taken : Pipe → Pipe
taken pi = record pi { nread = inc32 pi.nread }

-- `int n` as the number of rounds of `i < n` from 0.
abbrev pub rounds : ℤ → ℕ
rounds (pos n) = n
rounds (negsuc n) = 0

-- The loop of `pipewrite` at index `i` with `left` bytes to go. `user a` is the byte that `copyin`
-- reads at the user address `a`, `killed i` the value of `pr->killed` at the test before byte `i`.
module _ (user : ℕ → Option ℕ) (killed : ℕ → Bool) where
  pub write_loop : ℕ → ℕ → ℕ → Pipe → Turn
  write_loop zero addr i pi = ended (Outcome.returns (pos i)) pi
  write_loop (suc left) addr i pi = elim ((pi.readopen == 0) || killed i) [
    | true ↦ ended (Outcome.returns minus_one) pi
    | false ↦ elim (is_full pi) [
      | true ↦ ended (Outcome.sleeps i) pi
      | false ↦ elim (user (addr + i)) [
        | none ↦ ended (Outcome.returns (pos i)) pi
        | some ch ↦ moved ch (write_loop left addr (i + 1) (put ch pi))
      ]
    ]
  ]

  -- `pipewrite(pi, addr, n)` up to its first sleep.
  pub pipewrite : Pipe → ℕ → ℤ → Turn
  pipewrite pi addr n = write_loop (rounds n) addr 0 pi

-- The copying loop of `piperead`. `writable a` says whether `copyout` succeeds at `a`.
module _ (writable : ℕ → Bool) (killed : Bool) where
  pub read_loop : ℕ → ℕ → ℕ → Pipe → Turn
  read_loop zero addr i pi = ended (Outcome.returns (pos i)) pi
  read_loop (suc left) addr i pi = elim (is_empty pi) [
    | true ↦ ended (Outcome.returns (pos i)) pi
    | false ↦ elim (writable (addr + i)) [
      | true ↦ moved (next_byte pi) (read_loop left addr (i + 1) (taken pi))
      | false ↦ ended (Outcome.returns (pos i)) (taken pi)
    ]
  ]

  -- A turn of `piperead(pi, addr, n)`. It starts over when it wakes up.
  pub piperead : Pipe → ℕ → ℤ → Turn
  piperead pi addr n =
      if is_empty pi && not (pi.writeopen == 0)
      then (if killed then ended (Outcome.returns minus_one) pi else ended (Outcome.sleeps 0) pi)
      else read_loop (rounds n) addr 0 pi

-- A pipe with the numbers of the processes asleep on `&pi->nread` and on `&pi->nwrite`.
pub record Chan : Type 0 where
  pub pipe : Pipe
  pub readers : ℕ
  pub writers : ℕ

-- The calls of `wakeup` and `sleep` at the end of a turn of `pipewrite`. There is no `wakeup` in
-- front of `return -1`.
pub after_write : Outcome → Pipe → Chan → Chan
after_write (Outcome.returns (pos n)) pi c = record c { pipe = pi; readers = 0 }
after_write (Outcome.returns (negsuc n)) pi c = record c { pipe = pi }
after_write (Outcome.sleeps i) pi c = record { pipe = pi; readers = 0; writers = c.writers + 1 }

pub after_read : Outcome → Pipe → Chan → Chan
after_read (Outcome.returns (pos n)) pi c = record c { pipe = pi; writers = 0 }
after_read (Outcome.returns (negsuc n)) pi c = record c { pipe = pi }
after_read (Outcome.sleeps i) pi c = record c { pipe = pi; readers = c.readers + 1 }

pub write_turn : (ℕ → Option ℕ) → (ℕ → Bool) → ℕ → ℕ → ℕ → Chan → Chan
unfolding after_write
write_turn user killed left addr i c =
    let t = write_loop user killed left addr i c.pipe in after_write t.outcome t.pipe c

pub read_turn : (ℕ → Bool) → Bool → ℕ → ℤ → Chan → Chan
unfolding after_read
read_turn writable killed addr n c =
    let t = piperead writable killed c.pipe addr n in after_read t.outcome t.pipe c

-- `pipeclose(pi, writable)`; `none` when the page of the pipe is freed.
pub closed_end : Bool → Chan → Chan
closed_end true c = record c { pipe = record c.pipe { writeopen = 0 }; readers = 0 }
closed_end false c = record c { pipe = record c.pipe { readopen = 0 }; writers = 0 }

pub pipeclose : Bool → Chan → Option Chan
pipeclose writable c =
    let d = closed_end writable c in
    if (d.pipe.readopen == 0) && (d.pipe.writeopen == 0) then none else some d
