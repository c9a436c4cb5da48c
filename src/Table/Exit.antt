-- ===== src/Table/Exit.antt =====
-- `exit` gives the children of the process to the first one and wakes who waits for them and for
-- it, so that it keeps the tree of processes.
use os_212_assignment.Base.{
  ℕ, zero, suc, ◌+◌, ◌≤◌, ◌<◌, ◌≡◌, ◌≢◌, refl, sym, ap, ◌∙◌, false, ◌⊎◌, inl, inr, arith, ◌==◌,
  Bool-cases, ==_iff, ne_of_false, some,
}
use mathlib.Core.Path.{subst}
use os_212_assignment.Base.Int.{ℤ}
use os_212_assignment.Proc.{nproc, ptr, State}
use os_212_assignment.Kernel.{update}
use os_212_assignment.Table.{Table, is_zombie, is_sleeping, wakeup, reparent_loop, reparent, exit}
use os_212_assignment.Table.Change.{changed-IsTree}
use os_212_assignment.Table.Quiet.{
  is_idle, is_alive, Asleep, IsTree, here, at, other, IsTree-calmer, wakeup-AllCalmer, wakeup-heard,
}

-- Some children of `me` have become children of `init`, which then does not sleep in `wait`.
record IsMoved (me init : ℕ) (t u : Table) : Type 0 where
  idle : (i : ℕ) → is_idle (u i).state ≡ is_idle (t i).state
  alive : (i : ℕ) → is_alive (u i).state ≡ is_alive (t i).state
  zombie : (i : ℕ) → is_zombie (u i).state ≡ is_zombie (t i).state
  asleep : (i j : ℕ) → j < nproc → Asleep j (u i) → Asleep j (t i)
  parent :
      (i : ℕ)
      → ((u i).parent ≡ (t i).parent)
        ⊎ (((t i).parent ≡ ptr me) × ((u i).parent ≡ ptr init) × ¬ Asleep init (u init))

IsMoved-refl : (me init : ℕ) (t : Table) → IsMoved me init t t
IsMoved-refl me init t = record {
  idle = λ i. refl;
  alive = λ i. refl;
  zombie = λ i. refl;
  asleep = λ i j l a. a;
  parent = λ i. inl refl;
}

IsMoved-trans :
    (me init : ℕ) (t u v : Table)
    → init < nproc
    → IsMoved me init t u
    → IsMoved me init u v
    → IsMoved me init t v
IsMoved-trans me init t u v l f g = record {
  idle = λ i. g.idle i ∙ f.idle i;
  alive = λ i. g.alive i ∙ f.alive i;
  zombie = λ i. g.zombie i ∙ f.zombie i;
  asleep = λ i j m a. f.asleep i j m (g.asleep i j m a);
  parent = λ i. elim (g.parent i) [
    | inl e ↦ elim (f.parent i) [
      | inl d ↦ inl (e ∙ d)
      | inr (p, q, n) ↦ inr (p, e ∙ q, λ a. n (g.asleep init init l a))
    ]
    | inr (p, q, n) ↦ elim (f.parent i) [
      | inl d ↦ inr (sym d ∙ p, q, n)
      | inr (p', q', n') ↦ inr (p', q, n)
    ]
  ];
}

adopted : Table → ℕ → ℕ → Table
adopted t i q = update t i (record (t i) { parent = q })

same_state : (t : Table) (i q j : ℕ) → (adopted t i q j).state ≡ (t j).state
unfolding adopted
same_state t i q j = elim (Bool-cases (i == j)) [
  | inl e ↦ rw e (ap (λ k. (t k).state) (omega (arith, (==_iff i j).0 e)))
  | inr e ↦ rw e refl
]

same_chan : (t : Table) (i q j : ℕ) → (adopted t i q j).chan ≡ (t j).chan
unfolding adopted
same_chan t i q j = elim (Bool-cases (i == j)) [
  | inl e ↦ rw e (ap (λ k. (t k).chan) (omega (arith, (==_iff i j).0 e)))
  | inr e ↦ rw e refl
]

round-IsMoved :
    (me init i : ℕ) (t : Table)
    → init < nproc
    → init ≢ me
    → (t i).parent ≡ ptr me
    → IsMoved me init t (wakeup me (ptr init) (update t i (record (t i) { parent = ptr init })))
unfolding adopted
round-IsMoved me init i t l n e =
    let u = update t i (record (t i) { parent = ptr init }) in
    let c = wakeup-AllCalmer me (ptr init) u in
    let quiet = wakeup-heard me init u l n in
    record {
      idle = λ j. (c j).idle ∙ ap is_idle (same_state t i (ptr init) j);
      alive = λ j. (c j).alive ∙ ap is_alive (same_state t i (ptr init) j);
      zombie = λ j. (c j).zombie ∙ ap is_zombie (same_state t i (ptr init) j);
      asleep = λ j k m a.
          let k' = (c j).asleep k m a in
          (
            ap is_sleeping (sym (same_state t i (ptr init) j)) ∙ k'.0,
            sym (same_chan t i (ptr init) j) ∙ k'.1,
          );
      parent = λ j. elim (Bool-cases (i == j)) [
        | inl q ↦
            let same : i ≡ j = omega (arith, (==_iff i j).0 q) in
            inr (
              ap (λ k. (t k).parent) (sym same) ∙ e,
              (c j).parent
                  ∙ ap (λ p. p.parent) (at t i j (record (t i) { parent = ptr init }) same),
              quiet,
            )
        | inr q ↦ inl ((c j).parent ∙ ap (λ p. p.parent) (other t i j _ (ne_of_false i j q)))
      ];
    }

reparent_loop-IsMoved :
    (n i me init : ℕ) (t : Table)
    → init < nproc
    → init ≢ me
    → IsMoved me init t (reparent_loop n i me init t)
unfolding reparent_loop
reparent_loop-IsMoved zero i me init t l ne = IsMoved-refl me init t
reparent_loop-IsMoved (suc n) i me init t l ne = elim (Bool-cases ((t i).parent == ptr me)) [
  | inl e ↦ rw e (
      IsMoved-trans me init t _ _ l
        (round-IsMoved me init i t l ne ((==_iff (t i).parent (ptr me)).0 e))
        (reparent_loop-IsMoved n (i + 1) me init _ l ne))
  | inr e ↦ rw e (reparent_loop-IsMoved n (i + 1) me init t l ne)
]

-- A process that is no child stays so.
stays :
    (me init i : ℕ) (t u : Table)
    → init ≢ me
    → IsMoved me init t u
    → (t i).parent ≢ ptr me
    → (u i).parent ≢ ptr me
stays me init i t u ne m n e = elim (m.parent i) [
  | inl p ↦ n (sym p ∙ e)
  | inr (p, q, k) ↦ ne (let d = sym q ∙ e in omega (arith, d))
]

reparent_loop-childless :
    (n i me init j : ℕ) (t : Table)
    → init < nproc
    → init ≢ me
    → i ≤ j
    → j < i + n
    → (reparent_loop n i me init t j).parent ≢ ptr me
unfolding reparent_loop adopted
reparent_loop-childless zero i me init j t l ne a b = absurd (omega arith)
reparent_loop-childless (suc n) i me init j t l ne a b = elim (Bool-cases (i == j)) [
  | inl q ↦
      let same : i ≡ j = omega (arith, (==_iff i j).0 q) in
      subst (λ k. (reparent_loop (suc n) i me init t k).parent ≢ ptr me) same
        (elim (Bool-cases ((t i).parent == ptr me)) [
          | inl e ↦
              let u = adopted t i (ptr init) in
              let c = wakeup-AllCalmer me (ptr init) u in
              rw (e, reparent_loop)
                (stays me init i (wakeup me (ptr init) u) _ ne
                  (reparent_loop-IsMoved n (i + 1) me init _ l ne)
                  (λ d. ne (
                    let f =
                      sym (ap (λ p. p.parent) (here t i (record (t i) { parent = ptr init })))
                      ∙ sym (c i).parent
                      ∙ d in
                    omega (arith, f))))
          | inr e ↦
              rw (e, reparent_loop)
                (stays me init i t _ ne (reparent_loop-IsMoved n (i + 1) me init t l ne)
                  (ne_of_false (t i).parent (ptr me) e))
        ])
  | inr q ↦
      let apart = ne_of_false i j q in
      reparent_loop-childless n (i + 1) me init j _ l ne (omega (arith, apart)) (omega arith)
]

IsTree-moved : (me init : ℕ) (t u : Table) → IsTree init t → IsMoved me init t u → IsTree init u
IsTree-moved me init t u w m = record {
  parents = λ i l e. elim (w.parents i l (sym (m.idle i) ∙ e)) [
    | inl q ↦ inl q
    | inr (j, k, q, a) ↦ elim (m.parent i) [
      | inl p ↦ inr (j, k, p ∙ q, m.alive j ∙ a)
      | inr (p, p', n) ↦ inr (init, w.root.0, p', m.alive init ∙ w.root.1)
    ]
  ];
  root = (w.root.0, m.alive init ∙ w.root.1);
  heard = λ i j l k q z a. elim (m.parent i) [
    | inl p ↦ w.heard i j l k (sym p ∙ q) (sym (m.zombie i) ∙ z) (m.asleep j j k a)
    | inr (p, p', n) ↦
        let same : init ≡ j = omega (arith, sym p' ∙ q) in
        n (subst (λ x. Asleep x (u x)) (sym same) a)
  ];
}

-- A process that no process has for its parent, and whose own parent does not sleep in `wait`,
-- becomes a zombie.
zombie-IsTree :
    (me init : ℕ) (t : Table) (status : ℤ)
    → IsTree init t
    → is_idle (t me).state ≡ false
    → me < nproc
    → init ≢ me
    → ((i : ℕ) → i < nproc → (t i).parent ≢ ptr me)
    → ((j : ℕ) → j < nproc → (t me).parent ≡ ptr j → ¬ Asleep j (t j))
    → IsTree init (update t me (record (t me) { xstate = status; state = State.zombie }))
zombie-IsTree me init t status w used me_in ne childless quiet =
    changed-IsTree init me t _ w record {
      no_orphans = inr (λ i l n f u. childless i l);
      own_parent = elim (w.parents me me_in used) [
        | inl q ↦ absurd (ne (sym q))
        | inr (j, b, q, a) ↦ inr (inr (j, b, q, a, inl (λ s. childless me me_in (q ∙ ap ptr s))))
      ];
      root = inl ne;
      told = inr (λ j b n q. quiet j b q);
      listens = inl (λ a. let f = a.0 in cc);
    }

-- exit keeps the tree of processes: the children go to the first process, and no process is left
-- asleep in wait with a child that has exited.
pub exit-IsTree :
    (me init : ℕ) (status : ℤ) (t u : Table)
    → IsTree init t
    → me < nproc
    → is_idle (t me).state ≡ false
    → exit me init status t ≡ some u
    → IsTree init u
unfolding exit reparent
exit-IsTree me init status t u w l used e = elim (Bool-cases (me == init)) [
  | inl q ↦ let f = (rw q at e) in absurd cc
  | inr q ↦
      let ne = λ (x : init ≡ me). ne_of_false me init q (sym x) in
      let t1 = reparent_loop nproc 0 me init t in
      let t2 = wakeup me (t1 me).parent t1 in
      let m = reparent_loop-IsMoved nproc 0 me init t w.root.0 ne in
      let w1 = IsTree-moved me init t t1 w m in
      let c = wakeup-AllCalmer me (t1 me).parent t1 in
      let w2 = IsTree-calmer init t1 t2 w1 c in
      let childless = λ (i : ℕ) (k : i < nproc) (x : (t2 i).parent ≡ ptr me).
        reparent_loop-childless nproc 0 me init i t w.root.0 ne (omega arith) (omega (arith, k))
          (sym (c i).parent ∙ x) in
      let quiet = λ (j : ℕ) (k : j < nproc) (x : (t2 me).parent ≡ ptr j).
        let away = λ (y : j ≡ me). childless me l (x ∙ ap ptr y) in
        let same : (t1 me).parent ≡ ptr j = sym (c me).parent ∙ x in
        subst (λ r. ¬ Asleep j (wakeup me r t1 j)) (sym same) (wakeup-heard me j t1 k away) in
      let z =
        zombie-IsTree me init t2 status w2 ((c me).idle ∙ m.idle me ∙ used) l ne childless quiet in
      let f = (rw q at e) in subst (IsTree init) (cc) z
]
