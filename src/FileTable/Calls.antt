-- ===== src/FileTable/Calls.antt =====
-- kernel/file.c: filealloc, filedup and fileclose on each of their branches.
use os_212_assignment.Base.{
  ℕ, zero, suc, ◌+◌, ◌-◌, ◌≤◌, ◌<◌, ◌≡◌, ◌≢◌, ◌↔◌, ap, ◌∙◌, sym, refl, arith, ◌==◌, ltb,
  if◌then◌else◌, Bool-cases, inl, inr, Option, none, some, ne_of_false, ==_iff,
}
use os_212_assignment.Kernel.{update}
use os_212_assignment.FileTable.{
  nfile, File, Table, Closing, nothing, with_ref, alloc_loop, filedup, closing, fileclose, fd_none,
}

some_pair :
    {A B : Type 0} (a c : A) (b d : B)
    → ◌≡◌ {A = Option (A × B)} (some (a, b)) (some (c, d))
    → (a ≡ c) × (b ≡ d)
some_pair a c b d e =
    (λ i. elim (e i) [ none ↦ a | some p ↦ p.0 ], λ i. elim (e i) [ none ↦ b | some p ↦ p.1 ])

pub alloc_loop_lem :
    (r i : ℕ) (tb : Table) (j : ℕ) (tb' : Table)
    → i + r ≡ nfile
    → alloc_loop r i tb ≡ some (j, tb')
    → (j < nfile) × ((tb j).ref ≡ 0) × (tb' ≡ update tb j (with_ref 1 (tb j)))
unfolding alloc_loop
alloc_loop_lem zero i tb j tb' h e = absurd (ground arith)
alloc_loop_lem (suc r) i tb j tb' h e = elim (Bool-cases ((tb i).ref == 0)) [
  | inl z ↦
      let q = some_pair i j (update tb i (with_ref 1 (tb i))) tb' (rw z at e) in
      let w : (tb i).ref ≡ 0 = (==_iff (tb i).ref 0).0 z in
      (
        let p = q.0 in omega arith,
        ap (λ (x : ℕ). (tb x).ref) (sym q.0) ∙ w,
        sym q.1 ∙ ap (λ (x : ℕ). update tb x (with_ref 1 (tb x))) q.0,
      )
  | inr n ↦ alloc_loop_lem r (i + 1) tb j tb' (omega arith) (rw n at e)
]

pub alloc_none :
    (r i : ℕ) (tb : Table)
    → i + r ≡ nfile
    → (alloc_loop r i tb ≡ none) ↔ ((j : ℕ) → i ≤ j → j < nfile → 0 < (tb j).ref)
unfolding alloc_loop
alloc_none zero i tb h = (λ e j a b. absurd (omega arith), λ f. refl)
alloc_none (suc r) i tb h = elim (Bool-cases ((tb i).ref == 0)) [
  | inl z ↦ (
    λ e. absurd (let q = (rw z at e) in ground arith),
    λ f. absurd (let q = f i (omega arith) (omega arith) in ground arith),
  )
  | inr n ↦
      let k = alloc_none r (i + 1) tb (omega arith) in
      let p = ne_of_false (tb i).ref 0 n in
      (
        λ e j a b. elim (Bool-cases (i == j)) [
          | inl q ↦ let w : i ≡ j = (==_iff i j).0 q in rw (← w) (omega arith)
          | inr q ↦ let w = ne_of_false i j q in k.0 (rw n at e) j (omega arith) b
        ],
        λ f. rw n (k.1 (λ j a b. f j (omega arith) b)),
      )
]

-- The counts of a table after a change of one entry.
pub changed_ref :
    (tb : Table) (j i : ℕ) (f : File)
    → (update tb j f i).ref ≡ (if j == i then f.ref else (tb i).ref)
changed_ref tb j i f = ground arith

pub filedup_lem :
    (i : ℕ) (tb tb' : Table)
    → filedup i tb ≡ some tb'
    → (0 < (tb i).ref) × (tb' ≡ update tb i (with_ref ((tb i).ref + 1) (tb i)))
unfolding filedup
filedup_lem i tb tb' e = elim (Bool-cases (ltb (tb i).ref 1)) [
  | inl z ↦ absurd (ground arith)
  | inr n ↦ (ground arith, sym (λ k. elim ((rw n at e) k) [ none ↦ tb' | some x ↦ x ]))
]

-- The last handle is given up, or another one.
pub fileclose_lem :
    (i : ℕ) (tb tb' : Table) (c : Closing)
    → fileclose i tb ≡ some (tb', c)
    → (0 < (tb i).ref)
      × ((j : ℕ) → (tb' j).ref ≡ (if i == j then (tb i).ref - 1 else (tb j).ref))
      × (c ≡ (if (tb i).ref == 1 then closing (tb i) else nothing))
unfolding fileclose closing
fileclose_lem i tb tb' c e = elim (Bool-cases (ltb (tb i).ref 1)) [
  | inl z ↦ absurd (ground arith)
  | inr n ↦ elim (Bool-cases (ltb 0 ((tb i).ref - 1))) [
    | inl m ↦
        let f = with_ref ((tb i).ref - 1) (tb i) in
        let q = some_pair (update tb i f) tb' nothing c (rw (n, m) at e) in
        (
          ground arith,
          λ j. ap (λ (x : Table). (x j).ref) (sym q.0) ∙ changed_ref tb i j f,
          sym q.1 ∙ ground arith,
        )
    | inr m ↦
        let f = record (tb i) { ref = 0; type = fd_none } in
        let q =
          some_pair (update tb i f) tb' (closing (with_ref ((tb i).ref - 1) (tb i))) c
            (rw (n, m) at e) in
        let z : 0 ≡ (tb i).ref - 1 = ground arith in
        (
          ground arith,
          λ j.
              ap (λ (x : Table). (x j).ref) (sym q.0)
              ∙ changed_ref tb i j f
              ∙ ap (λ (x : ℕ). if i == j then x else (tb j).ref) z,
          sym q.1 ∙ ground arith,
        )
  ]
]

pub filedup_held : (i : ℕ) (tb : Table) → 0 < (tb i).ref → filedup i tb ≢ none
unfolding filedup
filedup_held i tb h e = ground arith

pub fileclose_held : (i : ℕ) (tb : Table) → 0 < (tb i).ref → fileclose i tb ≢ none
unfolding fileclose
fileclose_held i tb h e = ground arith
