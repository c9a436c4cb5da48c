-- ===== src/Table/Change.antt =====
-- When a change of one process keeps the tree of processes.
use os_212_assignment.Base.{
  ℕ, ◌<◌, ◌≡◌, ◌≢◌, refl, sym, ap, ◌∙◌, true, false, ◌⊎◌, inl, inr, arith, ◌==◌, Bool-cases, ==_iff,
  ne_of_false,
}
use mathlib.Core.Path.{subst}
use os_212_assignment.Proc.{nproc, ptr, State, Proc}
use os_212_assignment.Kernel.{update}
use os_212_assignment.Table.{Table, is_sleeping, is_zombie}
use os_212_assignment.Table.Quiet.{is_idle, is_alive, Asleep, IsTree, at, other}

-- The process at index `k` may become `p`.
pub record MayBecome (init k : ℕ) (t : Table) (p : Proc) : Type 0 where
  pub no_orphans :
      (is_alive p.state ≡ true)
      ⊎ ((i : ℕ)
          → i < nproc
          → i ≢ k
          → i ≢ init
          → is_idle (t i).state ≡ false
          → (t i).parent ≢ ptr k)
  pub own_parent :
      (is_idle p.state ≡ true)
      ⊎ ((k ≡ init)
          ⊎ ((j : ℕ) × (j < nproc)
              × (p.parent ≡ ptr j)
              × (is_alive (t j).state ≡ true)
              × ((j ≢ k) ⊎ (is_alive p.state ≡ true))))
  pub root : (init ≢ k) ⊎ (is_alive p.state ≡ true)
  pub told :
      (is_zombie p.state ≡ false)
      ⊎ ((j : ℕ) → j < nproc → j ≢ k → p.parent ≡ ptr j → ¬ Asleep j (t j))
  pub listens :
      (¬ Asleep k p)
      ⊎ ((i : ℕ) → i < nproc → i ≢ k → (t i).parent ≡ ptr k → is_zombie (t i).state ≡ false)

zombie_awake : (s : State) → is_zombie s ≡ true → is_sleeping s ≡ false
zombie_awake State.zombie e = refl
zombie_awake State.unused e = cc
zombie_awake State.used e = cc
zombie_awake State.sleeping e = cc
zombie_awake State.runnable e = cc
zombie_awake State.running e = cc

-- Where the process at `i` is after the change.
data Place (k i : ℕ) (t : Table) (p : Proc) : Type 0 where
  is_it : k ≡ i → update t k p i ≡ p → Place k i t p
  is_not : i ≢ k → update t k p i ≡ t i → Place k i t p

place : (k i : ℕ) (t : Table) (p : Proc) → Place k i t p
place k i t p = elim (Bool-cases (k == i)) [
  | inl e ↦ let same : k ≡ i = omega (arith, (==_iff k i).0 e) in Place.is_it same (at t k i p same)
  | inr e ↦ let ne = ne_of_false k i e in Place.is_not (λ q. ne (sym q)) (other t k i p ne)
]

module _ (init k : ℕ) (t : Table) (p : Proc) (w : IsTree init t) (m : MayBecome init k t p) where
  alive_after :
      (j : ℕ)
      → is_alive (t j).state ≡ true
      → (j ≢ k) ⊎ (is_alive p.state ≡ true)
      → is_alive (update t k p j).state ≡ true
  alive_after j a n = elim (place k j t p) [
    | is_it e u ↦ elim n [ inl d ↦ absurd (d (sym e)) | inr b ↦ ap (λ q. is_alive q.state) u ∙ b ]
    | is_not e u ↦ ap (λ q. is_alive q.state) u ∙ a
  ]

  parents_after :
      (i : ℕ)
      → i < nproc
      → is_idle (update t k p i).state ≡ false
      → (i ≡ init)
        ⊎ ((j : ℕ) × (j < nproc)
            × ((update t k p i).parent ≡ ptr j)
            × (is_alive (update t k p j).state ≡ true))
  parents_after i l e = elim (place k i t p) [
    | is_it s u ↦ elim m.own_parent [
      | inl q ↦ let f = sym (ap (λ x. is_idle x.state) u) ∙ e in absurd cc
      | inr o ↦ elim o [
        | inl q ↦ inl (sym s ∙ q)
        | inr (j, b, q, a, n) ↦ inr (j, b, ap (λ x. x.parent) u ∙ q, alive_after j a n)
      ]
    ]
    | is_not n u ↦
        let used = sym (ap (λ x. is_idle x.state) u) ∙ e in
        elim (Bool-cases (i == init)) [
          | inl first ↦ inl ((==_iff i init).0 first)
          | inr later ↦ elim (w.parents i l used) [
            | inl q ↦ inl q
            | inr (j, b, q, a) ↦ inr (
              j,
              b,
              ap (λ x. x.parent) u ∙ q,
              alive_after j a (elim m.no_orphans [
                | inl y ↦ inr y
                | inr y ↦ inl (λ s. y i l n (ne_of_false i init later) used (q ∙ ap ptr s))
              ]),
            )
          ]
        ]
  ]

  heard_after :
      (i j : ℕ)
      → i < nproc
      → j < nproc
      → (update t k p i).parent ≡ ptr j
      → is_zombie (update t k p i).state ≡ true
      → ¬ Asleep j (update t k p j)
  heard_after i j l b q z a = elim (place k i t p) [
    | is_it s u ↦
        let z' = sym (ap (λ x. is_zombie x.state) u) ∙ z in
        elim (place k j t p) [
          | is_it r v ↦
              let f = zombie_awake p.state z' in
              let g = ap (λ x. is_sleeping x.state) (sym v) ∙ a.0 in cc
          | is_not r v ↦ elim m.told [
            | inl y ↦ cc
            | inr y ↦ y j b r (sym (ap (λ x. x.parent) u) ∙ q) (subst (Asleep j) v a)
          ]
        ]
    | is_not n u ↦
        let q' = sym (ap (λ x. x.parent) u) ∙ q in
        let z' = sym (ap (λ x. is_zombie x.state) u) ∙ z in
        elim (place k j t p) [
          | is_it r v ↦ elim m.listens [
            | inl y ↦ y (subst (λ x. Asleep x p) (sym r) (subst (Asleep j) v a))
            | inr y ↦ let f = y i l n (q' ∙ ap ptr (sym r)) in cc
          ]
          | is_not r v ↦ w.heard i j l b q' z' (subst (Asleep j) v a)
        ]
  ]

  pub changed-IsTree : IsTree init (update t k p)
  changed-IsTree = record {
    parents = parents_after;
    root = (
      w.root.0,
      elim (place k init t p) [
        | is_it s u ↦ elim m.root [
          | inl n ↦ absurd (n (sym s))
          | inr y ↦ ap (λ x. is_alive x.state) u ∙ y
        ]
        | is_not n u ↦ ap (λ x. is_alive x.state) u ∙ w.root.1
      ],
    );
    heard = heard_after;
  }
