-- ===== src/Table/Fork.antt =====
-- The steps of `fork` keep the tree of processes.
use os_212_assignment.Base.{ℕ, ◌<◌, ◌≡◌, ◌≢◌, refl, sym, ap, ◌∙◌, true, false, inl, inr, arith}
use os_212_assignment.Proc.{nproc, ptr, State, Proc}
use os_212_assignment.Kernel.{update}
use os_212_assignment.Table.{
  Table, is_unused, is_zombie, is_sleeping, adopted_by, made_runnable, adopt, launch, cleared,
}
use os_212_assignment.Table.Change.{changed-IsTree}
use os_212_assignment.Table.Quiet.{is_idle, is_alive, here, other, IsTree}
use os_212_assignment.Table.Wait.{alive_used}

pub unused_idle : (s : State) → is_unused s ≡ true → is_idle s ≡ true
unused_idle State.unused e = refl
unused_idle State.used e = refl
unused_idle State.sleeping e = cc
unused_idle State.runnable e = cc
unused_idle State.running e = cc
unused_idle State.zombie e = cc

alive_busy : (s : State) → is_alive s ≡ true → is_idle s ≡ true → ⊥
alive_busy s a b = let f = alive_used s a in cc

-- An entry that is not in use, or in the making, has no children and may become another such one.
pub idle-IsTree :
    (init c : ℕ) (t : Table) (p : Proc)
    → IsTree init t
    → is_idle (t c).state ≡ true
    → is_idle p.state ≡ true
    → IsTree init (update t c p)
idle-IsTree init c t p w e h = changed-IsTree init c t p w record {
  no_orphans = inr (λ i l n first u q. elim (w.parents i l u) [
    | inl d ↦ first d
    | inr (j, b, r, a) ↦
        let same : j ≡ c = (let f = sym r ∙ q in omega (arith, f)) in
        alive_busy (t c).state (ap (λ x. is_alive (t x).state) (sym same) ∙ a) e
  ]);
  own_parent = inl h;
  root = inl (λ q. alive_busy (t c).state (ap (λ x. is_alive (t x).state) (sym q) ∙ w.root.1) e);
  told = inl (idle_running p.state h).0;
  listens = inl (λ x. let f = x.0 in let g = (idle_running p.state h).1 in cc);
}
  where
    idle_running : (s : State) → is_idle s ≡ true → (is_zombie s ≡ false) × (is_sleeping s ≡ false)
    idle_running State.unused h = (refl, refl)
    idle_running State.used h = (refl, refl)
    idle_running State.sleeping h = cc
    idle_running State.runnable h = cc
    idle_running State.running h = cc
    idle_running State.zombie h = cc

pub drop-IsTree :
    (init c : ℕ) (t : Table)
    → IsTree init t
    → is_idle (t c).state ≡ true
    → IsTree init (update t c (cleared (t c)))
unfolding cleared
drop-IsTree init c t w e = idle-IsTree init c t (cleared (t c)) w e refl

launch-IsTree :
    (init me c : ℕ) (t : Table)
    → IsTree init t
    → me < nproc
    → is_alive (t me).state ≡ true
    → (t c).parent ≡ ptr me
    → IsTree init (launch c t)
unfolding launch made_runnable
launch-IsTree init me c t w l a e = changed-IsTree init c t (made_runnable (t c)) w record {
  no_orphans = inl refl;
  own_parent = inr (inr (me, l, e, a, inr refl));
  root = inr refl;
  told = inl refl;
  listens = inl (λ x. let f = x.0 in cc);
}

-- The child gets its parent, and then becomes runnable.
pub adopt-launch-IsTree :
    (init me c : ℕ) (t : Table)
    → IsTree init t
    → me < nproc
    → is_alive (t me).state ≡ true
    → is_idle (t c).state ≡ true
    → IsTree init (adopt me c t) × IsTree init (launch c (adopt me c t))
unfolding adopt adopted_by
adopt-launch-IsTree init me c t w l a e =
    let p = adopted_by me (t c) in
    let w' = idle-IsTree init c t p w e e in
    let apart : c ≢ me = λ q. alive_busy (t c).state (ap (λ x. is_alive (t x).state) q ∙ a) e in
    let still = ap (λ x. is_alive x.state) (other t c me p apart) ∙ a in
    (w', launch-IsTree init me c (update t c p) w' l still (ap (λ x. x.parent) (here t c p)))
