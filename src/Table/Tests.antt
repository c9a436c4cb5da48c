-- ===== src/Table/Tests.antt =====
-- The process table in small runs.
use os_212_assignment.Base.{ℕ, ◌≡◌, ◌≢◌, refl, arith, true, Option, none, some}
use os_212_assignment.Base.Int.{pos}
use os_212_assignment.Proc.{nproc, State}
use os_212_assignment.Kernel.{update}
use os_212_assignment.Sample.{proc}
use os_212_assignment.Table.{
  Table, is_unused, wakeup, wakeup_loop, woken, kill, kill_loop, sleep, reparent, reparent_loop,
  adopt, launch, exit, wait, wait_loop, reap,
}
use os_212_assignment.Table.Quiet.{IsTree}
use os_212_assignment.Table.Reach.{Reach, Reach-IsTree}
use os_212_assignment.Table.Wait.{table_of}
use os_212_assignment.Table.Kill.{KillEnds, kill-KillEnds}

-- The first process runs, and all other entries are unused.
abbrev first : Table
first =
    update (λ i. record proc { state = State.unused; pid = 0; parent = 0 }) 0
      (record proc { pid = 1; parent = 0; state = State.running })

-- It makes process 1 and waits for it.
abbrev made : Table
made = update first 1 (record proc { pid = 2; parent = 0; state = State.used })

abbrev waiting : Table
waiting = table_of (wait 0 0 true (launch 1 (adopt 0 1 made)))

first-Reach : Reach 0 first
first-Reach = Reach.start first (omega arith) refl (λ i l n. other i n)
  where
    other : (i : ℕ) → i ≢ 0 → is_unused (first i).state ≡ true
    other i n = ground arith

made-Reach : Reach 0 made
made-Reach =
    Reach.prepares 1 (record proc { pid = 2; parent = 0; state = State.used }) first-Reach refl refl

waiting-Reach : Reach 0 waiting
unfolding adopt launch
waiting-Reach =
    Reach.waits 0 0 true (Reach.launches 0 1 made-Reach (omega arith) refl refl) (omega arith) refl

Reach-IsTree_example : IsTree 0 waiting
Reach-IsTree_example = Reach-IsTree waiting-Reach

-- The first process sleeps, and the exit of its child wakes it.
is_asleep : (waiting 0).state ≡ State.sleeping
unfolding adopt launch wait wait_loop reap sleep
is_asleep = refl

abbrev state_of : Option Table → ℕ → State
state_of none i = State.unused
state_of (some t) i = (t i).state

is_woken : state_of (exit 1 0 (pos 7) waiting) 0 ≡ State.runnable
unfolding adopt launch wait wait_loop reap sleep exit reparent reparent_loop wakeup wakeup_loop
    woken
is_woken = refl

kill-KillEnds_example : KillEnds 0 nproc 2 waiting (kill 2 waiting)
kill-KillEnds_example = kill-KillEnds 2 waiting

-- kill(0) marks an unused entry.
kill_unused : (kill 0 first).1 ≡ true
unfolding kill kill_loop
kill_unused = refl
