-- ===== src/Table/Reach.antt =====
-- Any run of `fork`, `exit`, `wait`, `sleep`, `wakeup`, `kill`, `yield` and the scheduler.
use os_212_assignment.Base.{
  ℕ, ◌<◌, ◌≡◌, ◌≢◌, refl, ap, ◌∙◌, Bool, true, inl, inr, ◌==◌, Bool-cases, ==_iff, ne_of_false,
  some,
}
use os_212_assignment.Base.Int.{ℤ}
use os_212_assignment.Proc.{nproc, State, Proc}
use os_212_assignment.Kernel.{update}
use os_212_assignment.Table.{
  Table, is_unused, adopt, launch, sleep, tidy, wakeup, kill, yield_, schedule, exit, cleared, wait,
}
use os_212_assignment.Table.Exit.{exit-IsTree}
use os_212_assignment.Table.Quiet.{
  is_idle, is_alive, IsTree, IsTree-calmer, wakeup-AllCalmer, kill-AllCalmer, yield-AllCalmer,
  schedule-AllCalmer, sleep-AllCalmer, tidy-AllCalmer,
}
use os_212_assignment.Table.Wait.{table_of, zombie_dead, zombie_used, alive_used, wait-IsTree}
use os_212_assignment.Table.Fork.{unused_idle, idle-IsTree, drop-IsTree, adopt-launch-IsTree}

-- The calls of running processes and of the scheduler, in any order. A sleep is on an address that
-- is none of a process. fork is taken in steps, between which other calls may come, since it gives
-- up the lock of the child and may sleep in createSwapFile: `prepares` is what allocproc, and fork
-- before the end, write to the entry of a child that is USED; `drops` is freeproc where fork fails;
-- `adopts` and `launches` are its end. Nobody but fork writes the parent of a child that is USED and
-- was adopted, so that in a run `launches`, which writes it again, comes down to the last assignment.
pub data Reach (init : ℕ) : Table → Type 0 where
  start :
      (t : Table)
      → init < nproc
      → is_alive (t init).state ≡ true
      → ((i : ℕ) → i < nproc → i ≢ init → is_unused (t i).state ≡ true)
      → Reach init t
  prepares :
      {t : Table} (c : ℕ) (p : Proc)
      → Reach init t
      → is_idle (t c).state ≡ true
      → p.state ≡ State.used
      → Reach init (update t c p)
  drops :
      {t : Table} (c : ℕ)
      → Reach init t
      → (t c).state ≡ State.used
      → Reach init (update t c (cleared (t c)))
  adopts :
      {t : Table} (me c : ℕ)
      → Reach init t
      → me < nproc
      → (t me).state ≡ State.running
      → (t c).state ≡ State.used
      → Reach init (adopt me c t)
  launches :
      {t : Table} (me c : ℕ)
      → Reach init t
      → me < nproc
      → (t me).state ≡ State.running
      → (t c).state ≡ State.used
      → Reach init (launch c (adopt me c t))
  exits :
      {t u : Table} (me : ℕ) (status : ℤ)
      → Reach init t
      → me < nproc
      → (t me).state ≡ State.running
      → exit me init status t ≡ some u
      → Reach init u
  waits :
      {t : Table} (me addr : ℕ) (copied : Bool)
      → Reach init t
      → me < nproc
      → (t me).state ≡ State.running
      → Reach init (table_of (wait me addr copied t))
  sleeps :
      {t : Table} (me chan : ℕ)
      → Reach init t
      → (t me).state ≡ State.running
      → nproc < chan
      → Reach init (sleep me chan t)
  tidies :
      {t : Table} (me : ℕ) → Reach init t → (t me).state ≡ State.running → Reach init (tidy me t)
  wakes : {t : Table} (me chan : ℕ) → Reach init t → Reach init (wakeup me chan t)
  kills : {t : Table} (pid : ℕ) → Reach init t → Reach init (kill pid t).0
  yields :
      {t : Table} (me : ℕ) → Reach init t → (t me).state ≡ State.running → Reach init (yield_ me t)
  schedules : {t : Table} (i : ℕ) → Reach init t → Reach init (schedule i t)

running_alive : (s : State) → s ≡ State.running → is_alive s ≡ true
running_alive s e = rw e refl

-- In every state that these calls, with fork in steps, lead to from a table with only the first
-- process: each other process that fork has made runnable, up to where wait frees it, has a parent
-- that was started and has not exited, the first process has not exited, and no process sleeps in
-- wait while a child of it has exited: the wakeup of exit is never lost.
pub Reach-IsTree : {init : ℕ} {t : Table} → Reach init t → IsTree init t
Reach-IsTree {init} (Reach.start t l a u) = record {
  parents = λ i k e. elim (Bool-cases (i == init)) [
    | inl q ↦ inl ((==_iff i init).0 q)
    | inr q ↦ let f = unused_idle (t i).state (u i k (ne_of_false i init q)) in absurd cc
  ];
  root = (l, a);
  heard = λ i j k b q z s. elim (Bool-cases (i == init)) [
    | inl e ↦
        let same = (==_iff i init).0 e in
        let f = zombie_dead (t i).state z in let g = ap (λ x. is_alive (t x).state) same ∙ a in cc
    | inr e ↦
        let f = zombie_used (t i).state z in
        let g = unused_idle (t i).state (u i k (ne_of_false i init e)) in cc
  ];
}
Reach-IsTree {init} (Reach.prepares {t} c p r e s) =
    idle-IsTree init c t p (Reach-IsTree r) e (ap is_idle s)
Reach-IsTree {init} (Reach.drops {t} c r s) = drop-IsTree init c t (Reach-IsTree r) (ap is_idle s)
Reach-IsTree {init} (Reach.adopts {t} me c r l s u) =
    (adopt-launch-IsTree init me c t (Reach-IsTree r) l (running_alive (t me).state s)
      (ap is_idle u)).0
Reach-IsTree {init} (Reach.launches {t} me c r l s u) =
    (adopt-launch-IsTree init me c t (Reach-IsTree r) l (running_alive (t me).state s)
      (ap is_idle u)).1
Reach-IsTree {init} (Reach.exits {t} {u} me status r l s e) =
    exit-IsTree me init status t u (Reach-IsTree r) l
      (alive_used (t me).state (running_alive (t me).state s)) e
Reach-IsTree {init} (Reach.waits {t} me addr copied r l s) =
    wait-IsTree init me addr copied t (Reach-IsTree r) l (running_alive (t me).state s)
Reach-IsTree {init} (Reach.sleeps {t} me chan r s c) =
    IsTree-calmer init t _ (Reach-IsTree r)
      (sleep-AllCalmer me chan t (running_alive (t me).state s) c)
Reach-IsTree {init} (Reach.tidies {t} me r s) =
    IsTree-calmer init t _ (Reach-IsTree r) (tidy-AllCalmer me t (running_alive (t me).state s))
Reach-IsTree {init} (Reach.wakes {t} me chan r) =
    IsTree-calmer init t _ (Reach-IsTree r) (wakeup-AllCalmer me chan t)
Reach-IsTree {init} (Reach.kills {t} pid r) =
    IsTree-calmer init t _ (Reach-IsTree r) (kill-AllCalmer pid t)
Reach-IsTree {init} (Reach.yields {t} me r s) =
    IsTree-calmer init t _ (Reach-IsTree r) (yield-AllCalmer me t (running_alive (t me).state s))
Reach-IsTree {init} (Reach.schedules {t} i r) =
    IsTree-calmer init t _ (Reach-IsTree r) (schedule-AllCalmer i t)
