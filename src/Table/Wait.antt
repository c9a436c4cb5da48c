-- ===== src/Table/Wait.antt =====
-- A turn of `wait` keeps the tree of processes, and misses no exited child.
use os_212_assignment.Base.{
  ℕ, zero, suc, ◌+◌, ◌≤◌, ◌<◌, ◌≡◌, refl, sym, ap, ◌∙◌, Bool, true, false, ◌&&◌, ◌||◌, not, inl,
  inr, arith, ◌==◌, Bool-cases, ==_iff, ne_of_false, and_true,
}
use mathlib.Core.Path.{subst}
use os_212_assignment.Proc.{nproc, ptr, State}
use os_212_assignment.Table.{
  Table, is_zombie, sleep, cleared, Scan, wait_loop, WaitTurn, reap, wait,
}
use os_212_assignment.Table.Change.{changed-IsTree}
use os_212_assignment.Table.Quiet.{is_idle, is_alive, IsTree}

-- What the loop of `wait` says about the processes it has looked at.
abbrev Scanned : ℕ → ℕ → ℕ → Table → Scan → Type 0
Scanned n i me t (Scan.exited k) =
    (k < i + n) × ((t k).parent ≡ ptr me) × (is_zombie (t k).state ≡ true)
Scanned n i me t (Scan.children have) =
    (j : ℕ) → i ≤ j → j < i + n → (t j).parent ≡ ptr me → is_zombie (t j).state ≡ false

Scanned-later :
    (n i me : ℕ) (t : Table) (s : Scan)
    → ((t i).parent ≡ ptr me → is_zombie (t i).state ≡ false)
    → Scanned n (i + 1) me t s
    → Scanned (suc n) i me t s
Scanned-later n i me t (Scan.exited k) h (l, p, z) = (omega arith, p, z)
Scanned-later n i me t (Scan.children have) h f = λ j a b p. elim (Bool-cases (i == j)) [
  | inl e ↦
      let same : i ≡ j = omega (arith, (==_iff i j).0 e) in
      subst (λ k. is_zombie (t k).state ≡ false) same (h (ap (λ k. (t k).parent) same ∙ p))
  | inr e ↦ let ne = ne_of_false i j e in f j (omega (arith, ne)) (omega arith) p
]

wait_loop-Scanned :
    (n i me : ℕ) (have : Bool) (t : Table) → Scanned n i me t (wait_loop n i me have t)
unfolding wait_loop
wait_loop-Scanned zero i me have t = λ j a b p. absurd (omega arith)
wait_loop-Scanned (suc n) i me have t =
    elim (Bool-cases (((t i).parent == ptr me) && is_zombie (t i).state)) [
      | inl e ↦
          let (p, z) = and_true ((t i).parent == ptr me) (is_zombie (t i).state) e in
          rw (e, wait_loop) (omega arith, (==_iff (t i).parent (ptr me)).0 p, z)
      | inr e ↦
          rw (e, wait_loop)
            (Scanned-later n i me t _
              (λ p. let q = (==_iff (t i).parent (ptr me)).1 p in (rw (q) at e))
              (wait_loop-Scanned n (i + 1) me (have || ((t i).parent == ptr me)) t))
    ]

-- The states that a turn of `wait` ends in.
abbrev pub table_of : WaitTurn → Table
table_of (WaitTurn.returns r t) = t
table_of (WaitTurn.sleeps t) = t

pub zombie_dead : (s : State) → is_zombie s ≡ true → is_alive s ≡ false
zombie_dead State.zombie e = refl
zombie_dead State.unused e = cc
zombie_dead State.used e = cc
zombie_dead State.sleeping e = cc
zombie_dead State.runnable e = cc
zombie_dead State.running e = cc

pub zombie_used : (s : State) → is_zombie s ≡ true → is_idle s ≡ false
zombie_used State.zombie e = refl
zombie_used State.unused e = cc
zombie_used State.used e = cc
zombie_used State.sleeping e = cc
zombie_used State.runnable e = cc
zombie_used State.running e = cc

pub alive_used : (s : State) → is_alive s ≡ true → is_idle s ≡ false
alive_used State.unused a = cc
alive_used State.used a = cc
alive_used State.sleeping a = refl
alive_used State.runnable a = refl
alive_used State.running a = refl
alive_used State.zombie a = refl

reap-IsTree :
    (init me addr : ℕ) (copied : Bool) (t : Table) (s : Scan)
    → IsTree init t
    → me < nproc
    → is_alive (t me).state ≡ true
    → Scanned nproc 0 me t s
    → IsTree init (table_of (reap s me addr copied t))
unfolding reap cleared sleep
reap-IsTree init me addr copied t (Scan.exited k) w l a (b, p, z) =
    elim (Bool-cases (not (addr == 0) && not copied)) [
      | inl e ↦ rw e w
      | inr e ↦ rw e (
          changed-IsTree init k t (cleared (t k)) w record {
            no_orphans = inr (λ i c n first u q. elim (w.parents i c u) [
              | inl d ↦ first d
              | inr (j, d, r, al) ↦
                  let same : j ≡ k = (let f = sym r ∙ q in omega (arith, f)) in
                  let dead = zombie_dead (t k).state z in
                  let f = ap (λ x. is_alive (t x).state) same ∙ dead in cc
            ]);
            own_parent = inl refl;
            root = inl (λ q.
                let f = zombie_dead (t k).state z in
                let g = ap (λ x. is_alive (t x).state) (sym q) ∙ w.root.1 in cc);
            told = inl refl;
            listens = inl (λ x. let f = x.0 in cc);
          })
    ]
reap-IsTree init me addr copied t (Scan.children have) w l a f =
    elim (Bool-cases (not have || not ((t me).killed == 0))) [
      | inl e ↦ rw e w
      | inr e ↦ rw e (
          changed-IsTree init me t (record (t me) { chan = ptr me; state = State.sleeping }) w
            record {
              no_orphans = inl refl;
              own_parent = elim (w.parents me l (alive_used (t me).state a)) [
                | inl q ↦ inr (inl q)
                | inr (j, b, q, al) ↦ inr (inr (j, b, q, al, inr refl))
              ];
              root = inr refl;
              told = inl refl;
              listens = inr (λ i c n p. f i (omega arith) (omega (arith, c)) p);
            })
    ]

pub wait-IsTree :
    (init me addr : ℕ) (copied : Bool) (t : Table)
    → IsTree init t
    → me < nproc
    → is_alive (t me).state ≡ true
    → IsTree init (table_of (wait me addr copied t))
unfolding wait
wait-IsTree init me addr copied t w l a =
    reap-IsTree init me addr copied t _ w l a (wait_loop-Scanned nproc 0 me false t)
