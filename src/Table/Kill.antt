-- ===== src/Table/Kill.antt =====
-- What `kill` does to the process table.
use os_212_assignment.Base.{
  ℕ, zero, suc, ◌+◌, ◌≤◌, ◌<◌, ◌≡◌, ◌≢◌, Bool, true, false, inl, inr, arith, ◌==◌, Bool-cases,
  ==_iff, ne_of_false, refl, ap, if◌then◌else◌,
}
use os_212_assignment.Proc.{nproc, State, Proc}
use os_212_assignment.Kernel.{update}
use os_212_assignment.Table.{Table, is_sleeping, killed, kill_loop, kill}

-- Where a process is after a kill that it sleeps through or not.
abbrev pub awake : State → State
awake State.sleeping = State.runnable
awake s = s

awake_if : (s : State) → (if is_sleeping s then State.runnable else s) ≡ awake s
awake_if State.unused = refl
awake_if State.used = refl
awake_if State.sleeping = refl
awake_if State.runnable = refl
awake_if State.running = refl
awake_if State.zombie = refl

killed_lem : (p : Proc) → killed p ≡ record p { killed = 1; state = awake p.state }
unfolding killed
killed_lem p = ap (λ s. record p { killed = 1; state = s }) (awake_if p.state)

-- The process `k` is the first from `lo` on with the pid; or there is none from `lo` up to `hi`.
pub data KillEnds (lo hi pid : ℕ) (t : Table) : Table × Bool → Type 0 where
  hit :
      (k : ℕ)
      → lo ≤ k
      → k < hi
      → (t k).pid ≡ pid
      → ((j : ℕ) → lo ≤ j → j < k → (t j).pid ≢ pid)
      → KillEnds lo hi pid t
          (update t k (record (t k) { killed = 1; state = awake (t k).state }), true)
  none_such : ((j : ℕ) → lo ≤ j → j < hi → (t j).pid ≢ pid) → KillEnds lo hi pid t (t, false)

KillEnds-later :
    (i hi pid : ℕ) (t : Table) (r : Table × Bool)
    → (t i).pid ≢ pid
    → KillEnds (i + 1) hi pid t r
    → KillEnds i hi pid t r
KillEnds-later i hi pid t _ n (KillEnds.hit k a b e f) = KillEnds.hit k (omega arith) b e (λ j c d.
    elim (Bool-cases (i == j)) [
      | inl q ↦ rw (← (==_iff i j).0 q) n
      | inr q ↦ let ne = ne_of_false i j q in f j (omega (arith, ne)) d
    ])
KillEnds-later i hi pid t _ n (KillEnds.none_such f) = KillEnds.none_such (λ j c d.
    elim (Bool-cases (i == j)) [
      | inl q ↦ rw (← (==_iff i j).0 q) n
      | inr q ↦ let ne = ne_of_false i j q in f j (omega (arith, ne)) d
    ])

kill_loop-KillEnds :
    (n i hi pid : ℕ) (t : Table) → i + n ≡ hi → KillEnds i hi pid t (kill_loop n i pid t)
unfolding kill_loop
kill_loop-KillEnds zero i hi pid t e = KillEnds.none_such (λ j a b. absurd (omega arith))
kill_loop-KillEnds (suc n) i hi pid t e = elim (Bool-cases ((t i).pid == pid)) [
  | inl q ↦
      rw (q, kill_loop, killed_lem (t i))
        (KillEnds.hit i (omega arith) (omega arith) ((==_iff (t i).pid pid).0 q)
          (λ j a b. absurd (omega arith)))
  | inr q ↦
      rw (q, kill_loop)
        (KillEnds-later i hi pid t _ (ne_of_false (t i).pid pid q)
          (kill_loop-KillEnds n (i + 1) hi pid t (omega arith)))
]

-- kill(pid) marks the first process of the table with the pid, wakes it if it sleeps, changes no
-- other one and returns 0; where no process has the pid it changes nothing and returns -1. The state
-- of the process is not looked at, so that an unused entry is hit by its pid 0.
pub kill-KillEnds : (pid : ℕ) (t : Table) → KillEnds 0 nproc pid t (kill pid t)
unfolding kill
kill-KillEnds pid t = kill_loop-KillEnds nproc 0 nproc pid t (omega arith)
