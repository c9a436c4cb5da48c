-- ===== src/Spinlock/Mutex.antt =====
-- No two CPUs hold a spinlock, in any order of their steps.
use mathlib.Core.Path.{subst}
use os_212_assignment.Base.{
  if_true, if_false, ℕ, ◌≡◌, ◌≢◌, sym, refl, arith, Bool, true, false, Option, none, some, ◌↔◌,
  Bool-cases, inl, inr, ==_iff,
}
use os_212_assignment.Kernel.{update}
use os_212_assignment.Spinlock.{
  Cpu, Run, ok, panic, Place, outside, spinning, taken, inside, leaving, System, holding, enter,
  spin, own, leave, unlock, unlocked, pop_off, push_off, initlock, release_free, acquire_held,
}

-- The CPU has the lock, from the swap that took it to the one that gives it back.
abbrev pub has_lock : Place → Bool
has_lock outside = false
has_lock spinning = false
has_lock taken = true
has_lock inside = true
has_lock leaving = true

-- A step of a CPU. The CPU of `outside` may turn to the lock at any time.
pub data Step (s : System) (t : System) : Type 0 where
  enters : (i : ℕ) → s.places i ≡ outside → enter i s ≡ ok t → Step s t
  spins : (i : ℕ) → s.places i ≡ spinning → t ≡ spin i s → Step s t
  owns : (i : ℕ) → s.places i ≡ taken → t ≡ own i s → Step s t
  leaves : (i : ℕ) → s.places i ≡ inside → leave i s ≡ ok t → Step s t
  unlocks : (i : ℕ) → s.places i ≡ leaving → unlock i s ≡ ok t → Step s t

pub data Reach (s : System) : System → Type 0 where
  here : Reach s s
  next : {t u : System} → Reach s t → Step t u → Reach s u

record IsOwned (s : System) : Type 0 where
  alone : (i j : ℕ) → has_lock (s.places i) ≡ true → has_lock (s.places j) ≡ true → i ≡ j
  held : (i : ℕ) → has_lock (s.places i) ≡ true → s.lock.locked ≡ true
  named : (i : ℕ) → s.places i ≡ inside → s.lock.cpu ≡ some i
  names : (i : ℕ) → s.lock.cpu ≡ some i → s.places i ≡ inside

place_self : (f : ℕ → Place) (k : ℕ) (p : Place) → update f k p k ≡ p
place_self f k p = ground arith

place_other : (f : ℕ → Place) (k i : ℕ) (p : Place) → k ≢ i → update f k p i ≡ f i
place_other f k i p h = ground arith

-- What the other branches of the operations make of the state.
abbrev swapped : System → ℕ → System
swapped s k = record s {
  lock = record { locked = true; cpu = s.lock.cpu };
  places = update s.places k taken;
}

abbrev entered : System → ℕ → System
entered s k = record s {
  cpus = update s.cpus k (push_off (s.cpus k));
  places = update s.places k spinning;
}

abbrev left : System → ℕ → System
left s k = record s {
  lock = record { locked = s.lock.locked; cpu = none };
  places = update s.places k leaving;
}

enter_ok : (s t : System) (k : ℕ) → enter k s ≡ ok t → t ≡ entered s k
unfolding enter
enter_ok s t k e = elim (Bool-cases (holding k s.lock)) [
  | inl h ↦ ground arith
  | inr h ↦ ground arith
]

leave_ok : (s t : System) (k : ℕ) → leave k s ≡ ok t → t ≡ left s k
unfolding leave
leave_ok s t k e = elim (Bool-cases (holding k s.lock)) [
  | inl h ↦ ground arith
  | inr h ↦ ground arith
]

unlock_ok : (s t : System) (k : ℕ) → unlock k s ≡ ok t → (c : Cpu) × (t ≡ unlocked k s c)
unfolding unlock
unlock_ok s t k e = go (pop_off (s.cpus k)) refl
  where
    go : (r : Run Cpu) → pop_off (s.cpus k) ≡ r → (c : Cpu) × (t ≡ unlocked k s c)
    go (ok c) q = (c, ground arith)
    go (panic p) q = absurd (ground arith)

module _ (s : System) (v : IsOwned s) (k : ℕ) where
  -- CPU k goes to a place without the lock from one without it.
  still-IsOwned :
      (cpus : ℕ → Cpu) (p : Place)
      → has_lock (s.places k) ≡ false
      → has_lock p ≡ false
      → IsOwned (record s { cpus = cpus; places = update s.places k p })
  still-IsOwned cpus p a b = record {
    alone = λ i j. ground (arith, v.alone i j);
    held = λ i. ground (arith, v.held i);
    named = λ i. ground (arith, v.named i);
    names = λ i. ground (arith, v.names i);
  }

  spin-IsOwned : s.places k ≡ spinning → IsOwned (spin k s)
  unfolding spin
  spin-IsOwned a = elim (Bool-cases s.lock.locked) [
    | inl e ↦ subst IsOwned (sym (if_true s.lock.locked s (swapped s k) e)) v
    | inr e ↦ subst IsOwned (sym (if_false s.lock.locked s (swapped s k) e)) record {
      alone = λ i j. ground (arith, v.held i, v.held j);
      held = λ i h. refl;
      named = λ i. ground (arith, v.named i);
      names = λ i. ground (arith, v.names i);
    }
  ]

  own-IsOwned : s.places k ≡ taken → IsOwned (own k s)
  unfolding own
  own-IsOwned a = record {
    alone = λ i j. ground (arith, v.alone i j, v.alone i k, v.alone k j);
    held = λ i. ground (arith, v.held i, v.held k);
    named = λ i. ground (arith, v.alone i k);
    names = λ i. ground arith;
  }

  leave-IsOwned :
      s.places k ≡ inside
      → IsOwned (record s {
        lock = record { locked = s.lock.locked; cpu = none };
        places = update s.places k leaving;
      })
  leave-IsOwned a = record {
    alone = λ i j. ground (arith, v.alone i j, v.alone i k, v.alone k j);
    held = λ i. ground (arith, v.held i, v.held k);
    named = λ i. ground (arith, v.alone i k);
    names = λ i. ground arith;
  }

  unlock-IsOwned : (c : Cpu) → s.places k ≡ leaving → IsOwned (unlocked k s c)
  unlock-IsOwned c a = record {
    alone = λ i j. ground (arith, v.alone i j, v.alone i k, v.alone k j);
    held = λ i. ground (arith, v.alone i k);
    named = λ i. ground (arith, v.named i);
    names = λ i. ground (arith, v.names i);
  }

Step-IsOwned : {s t : System} → IsOwned s → Step s t → IsOwned t
Step-IsOwned {s} {t} v (enters k a e) =
    let h : has_lock (s.places k) ≡ false = rw a refl in
    subst IsOwned (sym (enter_ok s t k e)) (still-IsOwned s v k (entered s k).cpus spinning h refl)
Step-IsOwned {s} {t} v (spins k a e) = subst IsOwned (sym e) (spin-IsOwned s v k a)
Step-IsOwned {s} {t} v (owns k a e) = subst IsOwned (sym e) (own-IsOwned s v k a)
Step-IsOwned {s} {t} v (leaves k a e) =
    subst IsOwned (sym (leave_ok s t k e)) (leave-IsOwned s v k a)
Step-IsOwned {s} {t} v (unlocks k a e) =
    let r = unlock_ok s t k e in subst IsOwned (sym r.1) (unlock-IsOwned s v k r.0 a)

-- A lock after initlock, and no CPU near it.
abbrev pub started : (ℕ → Cpu) → System
started cpus = record { lock = initlock; cpus = cpus; places = λ _. outside }

Reach-IsOwned : (cpus : ℕ → Cpu) {t : System} → Reach (started cpus) t → IsOwned t
Reach-IsOwned cpus here = record {
  alone = λ i j h k. cc;
  held = λ i h. cc;
  named = λ i h. cc;
  names = λ i h. cc;
}
Reach-IsOwned cpus (next r s) = Step-IsOwned (Reach-IsOwned cpus r) s

holding_named :
    (t : System) (i : ℕ) → t.lock.locked ≡ true → t.lock.cpu ≡ some i → holding i t.lock ≡ true
unfolding holding
holding_named t i h e = rw (h, e) ((==_iff i i).1 refl)

named_holding : (t : System) (i : ℕ) → holding i t.lock ≡ true → t.lock.cpu ≡ some i
unfolding holding
named_holding t i h = go t.lock.cpu refl
  where
    go : (o : Option ℕ) → t.lock.cpu ≡ o → t.lock.cpu ≡ some i
    go none e = ground arith
    go (some j) e = ground arith

-- In every state that steps of the CPUs in acquire and release, in any order, lead to from a lock
-- after initlock: at most one CPU is in its critical section, and holding is true on exactly that
-- CPU, so that acquire panics there only and release there never.
pub Reach-IsExclusive :
    (cpus : ℕ → Cpu) {t : System}
    → Reach (started cpus) t
    → ((i j : ℕ) → t.places i ≡ inside → t.places j ≡ inside → i ≡ j)
      × ((i : ℕ) → (holding i t.lock ≡ true) ↔ (t.places i ≡ inside))
      × ((i : ℕ) → (enter i t ≡ panic acquire_held) ↔ (t.places i ≡ inside))
      × ((i : ℕ) → t.places i ≡ inside → leave i t ≢ panic release_free)
unfolding enter leave
Reach-IsExclusive cpus {t} r =
    let v = Reach-IsOwned cpus r in
    (
      λ i j a b. v.alone i j (rw a refl) (rw b refl),
      λ i. (
        λ h. v.names i (named_holding t i h),
        λ a. holding_named t i (v.held i (rw a refl)) (v.named i a),
      ),
      λ i. (
        λ h. elim (Bool-cases (holding i t.lock)) [
          | inl q ↦ v.names i (named_holding t i q)
          | inr q ↦ absurd (ground arith)
        ],
        λ a. rw (holding_named t i (v.held i (rw a refl)) (v.named i a)) refl,
      ),
      λ i a h. let q = holding_named t i (v.held i (rw a refl)) (v.named i a) in ground arith,
    )
