-- ===== src/Table.antt =====
-- kernel/proc.c: the process table, with `sleep`, `wakeup`, `kill`, `yield`, the choice of the
-- scheduler, `reparent`, `exit` and `wait`. A function is what a call does to the table while it
-- holds the locks it takes, up to where it gives up the CPU; `me` is the index of `myproc()`.
pub mod Quiet
pub mod Change
pub mod Exit
pub mod Wait
pub mod Fork
pub mod Reach
pub mod Kill
mod Tests
use os_212_assignment.Base.{
  ℕ, zero, suc, ◌+◌, Bool, true, false, ◌&&◌, ◌||◌, not, Option, none, some, ◌==◌, if◌then◌else◌,
  replicate,
}
use os_212_assignment.Base.Int.{ℤ, pos, minus_one}
use os_212_assignment.Proc.{nproc, max_total_pages, no_offset, ptr, State, Meta, Proc}
use os_212_assignment.Kernel.{update}

abbrev pub Table : Type 0
Table = ℕ → Proc

abbrev pub is_unused : State → Bool
is_unused State.unused = true
is_unused _ = false

abbrev pub is_sleeping : State → Bool
is_sleeping State.sleeping = true
is_sleeping _ = false

abbrev pub is_zombie : State → Bool
is_zombie State.zombie = true
is_zombie _ = false

abbrev pub is_runnable : State → Bool
is_runnable State.runnable = true
is_runnable _ = false

-- `sleep(chan, lk)` up to `sched()`, and the tidying after it.
pub sleep : ℕ → ℕ → Table → Table
sleep me chan t = update t me (record (t me) { chan = chan; state = State.sleeping })

pub tidy : ℕ → Table → Table
tidy me t = update t me (record (t me) { chan = 0 })

-- The body of the loop of `wakeup`, for the process `p` at index `i`.
pub woken : ℕ → ℕ → ℕ → Proc → Proc
woken me chan i p =
    if not (i == me) && (is_sleeping p.state && (p.chan == chan))
    then record p { state = State.runnable }
    else p

-- The loop over the `n` processes from index `i` on.
pub wakeup_loop : ℕ → ℕ → ℕ → ℕ → Table → Table
wakeup_loop zero i me chan t = t
wakeup_loop (suc n) i me chan t = wakeup_loop n (i + 1) me chan (update t i (woken me chan i (t i)))

-- `wakeup(chan)`
pub wakeup : ℕ → ℕ → Table → Table
wakeup me chan t = wakeup_loop nproc 0 me chan t

-- `kill(pid)`, with its loop; the result is false for -1.
pub killed : Proc → Proc
killed p = record p { killed = 1; state = if is_sleeping p.state then State.runnable else p.state }

pub kill_loop : ℕ → ℕ → ℕ → Table → Table × Bool
unfolding killed
kill_loop zero i pid t = (t, false)
kill_loop (suc n) i pid t =
    let rest = kill_loop n (i + 1) pid t in
    if (t i).pid == pid then (update t i (killed (t i)), true) else rest

pub kill : ℕ → Table → Table × Bool
kill pid t = kill_loop nproc 0 pid t

-- `yield()` up to `sched()`, and what the scheduler does with a process that it looks at.
pub yield_ : ℕ → Table → Table
yield_ me t = update t me (record (t me) { state = State.runnable })

pub schedule : ℕ → Table → Table
schedule i t =
    if is_runnable (t i).state then update t i (record (t i) { state = State.running }) else t

-- `reparent(p)`, with its loop.
pub reparent_loop : ℕ → ℕ → ℕ → ℕ → Table → Table
unfolding wakeup
reparent_loop zero i me init t = t
reparent_loop (suc n) i me init t = reparent_loop n (i + 1) me init (
    if (t i).parent == ptr me
    then wakeup me (ptr init) (update t i (record (t i) { parent = ptr init }))
    else t)

pub reparent : ℕ → ℕ → Table → Table
reparent me init t = reparent_loop nproc 0 me init t

-- `exit(status)` from `acquire(&wait_lock)` to `sched()`; `none` is the panic of the first process.
-- What it does to open files before belongs to the file system.
pub exit : ℕ → ℕ → ℤ → Table → Option Table
exit me init status t =
    let t1 = reparent me init t in
    let t2 = wakeup me (t1 me).parent t1 in
    if me == init
    then none
    else some (update t2 me (record (t2 me) { xstate = status; state = State.zombie }))

-- `freeproc(p)` on the entry itself.
abbrev pub unused_entry : Meta
unused_entry = record { offset = no_offset; in_use = 0; aging_counter = 0 }

pub cleared : Proc → Proc
cleared p = record p {
  trapframe = 0;
  pagetable = 0;
  sz = 0;
  pid = 0;
  parent = 0;
  chan = 0;
  killed = 0;
  xstate = pos 0;
  meta = replicate max_total_pages unused_entry;
  pages = replicate max_total_pages minus_one;
  head = 0;
  num_of_pages = pos 0;
  tail = minus_one;
  pages_in_memory = 0;
  state = State.unused;
}

-- The end of `fork`: `np->parent = p` under `wait_lock`, and then `np->state = RUNNABLE` under the
-- lock of the child, for the child at index `np`.
unfoldable pub adopted_by : ℕ → Proc → Proc
adopted_by me p = record p { parent = ptr me }

unfoldable pub made_runnable : Proc → Proc
made_runnable p = record p { state = State.runnable }

pub adopt : ℕ → ℕ → Table → Table
unfolding adopted_by
adopt me np t = update t np (adopted_by me (t np))

pub launch : ℕ → Table → Table
unfolding made_runnable
launch np t = update t np (made_runnable (t np))

-- What the loop of `wait` finds from index `i` on: an exited child, or whether there are children.
pub data Scan : Type 0 where
  exited : ℕ → Scan
  children : Bool → Scan

pub wait_loop : ℕ → ℕ → ℕ → Bool → Table → Scan
wait_loop zero i me have t = Scan.children have
wait_loop (suc n) i me have t =
    let rest = wait_loop n (i + 1) me (have || ((t i).parent == ptr me)) t in
    if ((t i).parent == ptr me) && is_zombie (t i).state then Scan.exited i else rest

-- A turn of `wait(addr)`, from `acquire(&wait_lock)` or a return of `sleep` on: it returns a value, or
-- sleeps. `copied` says whether `copyout` of the status succeeds.
pub data WaitTurn : Type 0 where
  returns : ℤ → Table → WaitTurn
  sleeps : Table → WaitTurn

pub reap : Scan → ℕ → ℕ → Bool → Table → WaitTurn
unfolding cleared sleep
reap (Scan.exited i) me addr copied t =
    if not (addr == 0) && not copied
    then WaitTurn.returns minus_one t
    else WaitTurn.returns (pos (t i).pid) (update t i (cleared (t i)))
reap (Scan.children have) me addr copied t =
    if not have || not ((t me).killed == 0)
    then WaitTurn.returns minus_one t
    else WaitTurn.sleeps (sleep me (ptr me) t)

pub wait : ℕ → ℕ → Bool → Table → WaitTurn
unfolding reap wait_loop
wait me addr copied t = reap (wait_loop nproc 0 me false t) me addr copied t
