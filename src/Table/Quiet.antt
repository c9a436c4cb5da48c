-- ===== src/Table/Quiet.antt =====
-- Calls that wake processes, or move a process between states in which it lives, keep the tree of
-- processes.
use os_212_assignment.Base.{
  ℕ, zero, suc, ◌+◌, ◌≤◌, ◌<◌, ◌≡◌, ◌≢◌, refl, sym, ◌∙◌, Bool, true, false, ◌&&◌, not, ◌⊎◌, inl,
  inr, arith, ◌==◌, Bool-cases, ==_iff, and_true, ne_of_false,
}
use mathlib.Core.Path.{subst}
use os_212_assignment.Proc.{nproc, ptr, State, Proc}
use os_212_assignment.Kernel.{update}
use os_212_assignment.Table.{
  Table, is_sleeping, is_zombie, is_runnable, woken, wakeup_loop, wakeup, killed, kill_loop, kill,
  sleep, tidy, yield_, schedule,
}

-- Not in use, or still in the making by `fork`.
abbrev pub is_idle : State → Bool
is_idle State.unused = true
is_idle State.used = true
is_idle _ = false

-- Started and not exited.
abbrev pub is_alive : State → Bool
is_alive State.unused = false
is_alive State.used = false
is_alive State.zombie = false
is_alive _ = true

-- The process sleeps in `wait`, on its own address, if it is process `j`.
abbrev pub Asleep : ℕ → Proc → Type 0
Asleep j p = (is_sleeping p.state ≡ true) × (p.chan ≡ ptr j)

-- Every process that fork has started, but the first one, has a parent that lives, the first one
-- lives, and no process sleeps in `wait` while a child of it has exited.
pub record IsTree (init : ℕ) (t : Table) : Type 0 where
  pub parents :
      (i : ℕ)
      → i < nproc
      → is_idle (t i).state ≡ false
      → (i ≡ init)
        ⊎ ((j : ℕ) × (j < nproc) × ((t i).parent ≡ ptr j) × (is_alive (t j).state ≡ true))
  pub root : (init < nproc) × (is_alive (t init).state ≡ true)
  pub heard :
      (i j : ℕ)
      → i < nproc
      → j < nproc
      → (t i).parent ≡ ptr j
      → is_zombie (t i).state ≡ true
      → ¬ Asleep j (t j)

-- One process, and the table, after a change that wakes at most.
pub record IsCalmer (p q : Proc) : Type 0 where
  pub parent : q.parent ≡ p.parent
  pub idle : is_idle q.state ≡ is_idle p.state
  pub alive : is_alive q.state ≡ is_alive p.state
  pub zombie : is_zombie q.state ≡ is_zombie p.state
  pub asleep : (j : ℕ) → j < nproc → Asleep j q → Asleep j p

abbrev pub AllCalmer : Table → Table → Type 0
AllCalmer t u = (i : ℕ) → IsCalmer (t i) (u i)

pub IsCalmer-refl : (p : Proc) → IsCalmer p p
IsCalmer-refl p = record {
  parent = refl;
  idle = refl;
  alive = refl;
  zombie = refl;
  asleep = λ j l a. a;
}

pub AllCalmer-trans : (t u v : Table) → AllCalmer t u → AllCalmer u v → AllCalmer t v
AllCalmer-trans t u v f g i = record {
  parent = (g i).parent ∙ (f i).parent;
  idle = (g i).idle ∙ (f i).idle;
  alive = (g i).alive ∙ (f i).alive;
  zombie = (g i).zombie ∙ (f i).zombie;
  asleep = λ j l a. (f i).asleep j l ((g i).asleep j l a);
}

pub here : (t : Table) (i : ℕ) (p : Proc) → update t i p i ≡ p
here t i p = ground arith

pub at : (t : Table) (i j : ℕ) (p : Proc) → i ≡ j → update t i p j ≡ p
at t i j p e = ground arith

pub other : (t : Table) (i j : ℕ) (p : Proc) → i ≢ j → update t i p j ≡ t j
other t i j p e = ground arith

pub AllCalmer-update :
    (t : Table) (i : ℕ) (p : Proc) → IsCalmer (t i) p → AllCalmer t (update t i p)
AllCalmer-update t i p c j = elim (Bool-cases (i == j)) [
  | inl e ↦
      let same : i ≡ j = omega (arith, (==_iff i j).0 e) in
      rw e (subst (λ k. IsCalmer (t k) p) same c)
  | inr e ↦ rw e (IsCalmer-refl (t j))
]

pub IsTree-calmer : (init : ℕ) (t u : Table) → IsTree init t → AllCalmer t u → IsTree init u
IsTree-calmer init t u w c = record {
  parents = λ i l e. elim (w.parents i l (sym (c i).idle ∙ e)) [
    | inl q ↦ inl q
    | inr (j, m, q, a) ↦ inr (j, m, (c i).parent ∙ q, (c j).alive ∙ a)
  ];
  root = (w.root.0, (c init).alive ∙ w.root.1);
  heard = λ i j l m q z a.
      w.heard i j l m (sym (c i).parent ∙ q) (sym (c i).zombie ∙ z) ((c j).asleep j m a);
}

sleeping_alive : (s : State) → is_sleeping s ≡ true → s ≡ State.sleeping
sleeping_alive State.sleeping e = refl
sleeping_alive State.unused e = cc
sleeping_alive State.used e = cc
sleeping_alive State.runnable e = cc
sleeping_alive State.running e = cc
sleeping_alive State.zombie e = cc

-- From a state to another one that lives and does not sleep.
pub moved-IsCalmer :
    (p q : Proc)
    → q.parent ≡ p.parent
    → is_alive p.state ≡ true
    → is_idle q.state ≡ false
    → is_alive q.state ≡ true
    → is_zombie q.state ≡ false
    → (is_sleeping q.state ≡ false) ⊎ ((j : ℕ) → j < nproc → q.chan ≢ ptr j)
    → IsCalmer p q
moved-IsCalmer p q e a u b z s = record {
  parent = e;
  idle = u ∙ sym (alive_used p.state a);
  alive = b ∙ sym a;
  zombie = z ∙ sym (alive_not_zombie p.state a);
  asleep = λ j l k. elim s [ inl n ↦ absurd (let f = k.0 in cc) | inr n ↦ absurd (n j l k.1) ];
}
  where
    alive_used : (s : State) → is_alive s ≡ true → is_idle s ≡ false
    alive_used State.unused a = cc
    alive_used State.used a = cc
    alive_used _ a = refl

    alive_not_zombie : (s : State) → is_alive s ≡ true → is_zombie s ≡ false
    alive_not_zombie State.zombie a = cc
    alive_not_zombie _ a = refl

woken-IsCalmer : (me chan i : ℕ) (p : Proc) → IsCalmer p (woken me chan i p)
unfolding woken
woken-IsCalmer me chan i p =
    elim (Bool-cases (not (i == me) && (is_sleeping p.state && (p.chan == chan)))) [
      | inl e ↦
          let s =
            sleeping_alive p.state
              (and_true (is_sleeping p.state) (p.chan == chan)
                (and_true (not (i == me)) _ e).1).0 in
          rw e (
            moved-IsCalmer p (record p { state = State.runnable }) refl (rw s refl) refl refl refl
              (inl refl))
      | inr e ↦ rw e (IsCalmer-refl p)
    ]

wakeup_loop-AllCalmer : (n i me chan : ℕ) (t : Table) → AllCalmer t (wakeup_loop n i me chan t)
unfolding wakeup_loop
wakeup_loop-AllCalmer zero i me chan t = λ j. IsCalmer-refl (t j)
wakeup_loop-AllCalmer (suc n) i me chan t =
    AllCalmer-trans t (update t i (woken me chan i (t i))) _
      (AllCalmer-update t i _ (woken-IsCalmer me chan i (t i)))
      (wakeup_loop-AllCalmer n (i + 1) me chan _)

pub wakeup-AllCalmer : (me chan : ℕ) (t : Table) → AllCalmer t (wakeup me chan t)
unfolding wakeup
wakeup-AllCalmer me chan t = wakeup_loop-AllCalmer nproc 0 me chan t

woken-heard : (me j : ℕ) (p : Proc) → j ≢ me → ¬ Asleep j (woken me (ptr j) j p)
unfolding woken
woken-heard me j p n (s, c) =
    elim (Bool-cases (not (j == me) && (is_sleeping p.state && (p.chan == ptr j)))) [
      | inl e ↦ let f = (rw e at s) in cc
      | inr e ↦
          let s' = (rw e at s) in
          let c' = (==_iff p.chan (ptr j)).1 (rw e at c) in
          let g : not (j == me) ≡ true = ground arith in let f = (rw (g, s', c') at e) in cc
    ]

wakeup_loop-heard :
    (n i me j : ℕ) (t : Table)
    → i ≤ j
    → j < i + n
    → j < nproc
    → j ≢ me
    → ¬ Asleep j (wakeup_loop n i me (ptr j) t j)
unfolding wakeup_loop
wakeup_loop-heard zero i me j t a b l n k = absurd (omega arith)
wakeup_loop-heard (suc n) i me j t a b l ne k = elim (Bool-cases (i == j)) [
  | inl e ↦
      let same : i ≡ j = omega (arith, (==_iff i j).0 e) in
      let rest =
        (wakeup_loop-AllCalmer n (i + 1) me (ptr j) (update t i (woken me (ptr j) i (t i)))
            j).asleep
          j l k in
      subst (λ m. ¬ Asleep j (woken me (ptr j) m (t m))) (sym same) (woken-heard me j (t j) ne)
        (subst (Asleep j) (at t i j (woken me (ptr j) i (t i)) same) rest)
  | inr e ↦
      let apart = ne_of_false i j e in
      wakeup_loop-heard n (i + 1) me j _ (omega (arith, apart)) (omega arith) l ne k
]

-- After wakeup(p) no process but the caller sleeps in wait as p.
pub wakeup-heard : (me j : ℕ) (t : Table) → j < nproc → j ≢ me → ¬ Asleep j (wakeup me (ptr j) t j)
unfolding wakeup
wakeup-heard me j t l n = wakeup_loop-heard nproc 0 me j t (omega arith) (omega arith) l n

killed-IsCalmer : (p : Proc) → IsCalmer p (killed p)
unfolding killed
killed-IsCalmer p = elim (Bool-cases (is_sleeping p.state)) [
  | inl e ↦
      let s = sleeping_alive p.state e in
      rw e (
        moved-IsCalmer p (record p { killed = 1; state = State.runnable }) refl (rw s refl) refl
          refl refl (inl refl))
  | inr e ↦
      rw e (record { parent = refl; idle = refl; alive = refl; zombie = refl; asleep = λ j l a. a })
]

kill_loop-AllCalmer : (n i pid : ℕ) (t : Table) → AllCalmer t (kill_loop n i pid t).0
unfolding kill_loop
kill_loop-AllCalmer zero i pid t = λ j. IsCalmer-refl (t j)
kill_loop-AllCalmer (suc n) i pid t = elim (Bool-cases ((t i).pid == pid)) [
  | inl e ↦ rw e (AllCalmer-update t i (killed (t i)) (killed-IsCalmer (t i)))
  | inr e ↦ rw e (kill_loop-AllCalmer n (i + 1) pid t)
]

pub kill-AllCalmer : (pid : ℕ) (t : Table) → AllCalmer t (kill pid t).0
unfolding kill
kill-AllCalmer pid t = kill_loop-AllCalmer nproc 0 pid t

-- The running process gives up the CPU, or is chosen: both keep the tree.
pub yield-AllCalmer :
    (me : ℕ) (t : Table) → is_alive (t me).state ≡ true → AllCalmer t (yield_ me t)
unfolding yield_
yield-AllCalmer me t a =
    AllCalmer-update t me _ (moved-IsCalmer (t me) _ refl a refl refl refl (inl refl))

runnable_alive : (s : State) → is_runnable s ≡ true → is_alive s ≡ true
runnable_alive State.runnable e = refl
runnable_alive State.unused e = cc
runnable_alive State.used e = cc
runnable_alive State.sleeping e = refl
runnable_alive State.running e = refl
runnable_alive State.zombie e = cc

pub schedule-AllCalmer : (i : ℕ) (t : Table) → AllCalmer t (schedule i t)
unfolding schedule
schedule-AllCalmer i t = elim (Bool-cases (is_runnable (t i).state)) [
  | inl e ↦ rw e (
      AllCalmer-update t i _ (
        moved-IsCalmer (t i) (record (t i) { state = State.running }) refl
          (runnable_alive (t i).state e) refl refl refl (inl refl)))
  | inr e ↦ rw e (λ j. IsCalmer-refl (t j))
]

-- A sleep on another channel than the address of a process, and the return from a sleep.
pub sleep-AllCalmer :
    (me chan : ℕ) (t : Table)
    → is_alive (t me).state ≡ true
    → nproc < chan
    → AllCalmer t (sleep me chan t)
unfolding sleep
sleep-AllCalmer me chan t a l =
    AllCalmer-update t me _
      (moved-IsCalmer (t me) _ refl a refl refl refl (inr (λ j k e. omega (arith, e))))

pub tidy-AllCalmer : (me : ℕ) (t : Table) → is_alive (t me).state ≡ true → AllCalmer t (tidy me t)
unfolding tidy
tidy-AllCalmer me t a = AllCalmer-update t me _ record {
  parent = refl;
  idle = refl;
  alive = refl;
  zombie = refl;
  asleep = λ j l k. absurd (let e = k.1 in omega (arith, e));
}
