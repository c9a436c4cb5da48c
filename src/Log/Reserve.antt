-- ===== src/Log/Reserve.antt =====
-- The space that `begin_op` reserves is enough: `log_write` finds room for every block.
use os_212_assignment.Base.{
  ℕ, zero, suc, ◌+◌, ◌-◌, ◌*◌, ◌≤◌, ◌<◌, ◌≡◌, refl, ◌∙◌, sym, true, false, inl, inr, List, [], ◌∷◌,
  length, ltb, leb, ◌==◌, ◌||◌, arith, Bool-cases, lt→leb_false, le→ltb_false, length-set, ==_iff,
  set, get_or,
}
use mathlib.Core.Path.{subst}
use os_212_assignment.Log.{
  Log, Reply, begin_op, absorb, log_write, end_op, committed, logsize, maxopblocks,
}

-- The number of blocks that an operation may still write is its budget.
abbrev pub sum : List ℕ → ℕ
sum [] = 0
sum (x ∷ xs) = x + sum xs

abbrev pub AllAtMost : ℕ → List ℕ → Type 0
AllAtMost n [] = Unit {0}
AllAtMost n (x ∷ xs) = (x ≤ n) × AllAtMost n xs

abbrev pub without_at : ℕ → List ℕ → List ℕ
without_at i [] = []
without_at zero (x ∷ xs) = xs
without_at (suc i) (x ∷ xs) = x ∷ without_at i xs

-- File system calls in any order: each begins, writes at most MAXOPBLOCKS blocks, and ends; the
-- list has the budgets of those that have begun.
pub data Run (size : ℕ) : List ℕ → Log → Type 0 where
  start : Run size [] (record { size = size; outstanding = 0; committing = false; lh = [] })
  begins :
      {bs : List ℕ} {l m : Log}
      → Run size bs l
      → begin_op l ≡ Reply.goes m
      → Run size (maxopblocks ∷ bs) m
  writes :
      {bs : List ℕ} {l m : Log} (b i r : ℕ)
      → Run size bs l
      → i < length bs
      → get_or bs i 0 ≡ suc r
      → log_write b l ≡ Reply.goes m
      → Run size (set bs i r) m
  ends :
      {bs : List ℕ} {l m : Log} (i : ℕ)
      → Run size bs l
      → i < length bs
      → end_op l ≡ Reply.goes m
      → Run size (without_at i bs) m
  commits :
      {bs : List ℕ} {l : Log} → Run size bs l → l.committing ≡ true → Run size bs (committed l)

record IsReserved (size : ℕ) (bs : List ℕ) (l : Log) : Type 0 where
  same_size : l.size ≡ size
  each : AllAtMost 10 bs
  count : l.outstanding ≡ length bs
  room : length l.lh + sum bs ≤ 30
  idle : (l.committing ≡ true) → length bs ≡ 0

length-absorb : (b : ℕ) (xs : List ℕ) → length (absorb b xs) ≤ suc (length xs)
unfolding absorb
length-absorb b [] = omega arith
length-absorb b (x ∷ xs) = elim (Bool-cases (x == b)) [
  | inl e ↦ rw e (omega arith)
  | inr e ↦ rw e (omega (arith, length-absorb b xs))
]

sum_le : (bs : List ℕ) → AllAtMost 10 bs → sum bs ≤ length bs * 10
sum_le [] a = omega arith
sum_le (x ∷ bs) (a, r) = omega (arith, sum_le bs r)

sum-set :
    (bs : List ℕ) (i r : ℕ)
    → i < length bs
    → get_or bs i 0 ≡ suc r
    → sum bs ≡ suc (sum (set bs i r))
sum-set [] i r l e = absurd (omega arith)
sum-set (x ∷ bs) zero r l e = omega arith
sum-set (x ∷ bs) (suc i) r l e = omega (arith, sum-set bs i r (omega arith) e)

AllAtMost-set :
    (bs : List ℕ) (i r : ℕ) → AllAtMost 10 bs → get_or bs i 0 ≡ suc r → AllAtMost 10 (set bs i r)
AllAtMost-set [] i r a e = tt
AllAtMost-set (x ∷ bs) zero r (a, h) e = (omega arith, h)
AllAtMost-set (x ∷ bs) (suc i) r (a, h) e = (a, AllAtMost-set bs i r h e)

without_at_lem :
    (bs : List ℕ) (i : ℕ)
    → AllAtMost 10 bs
    → i < length bs
    → AllAtMost 10 (without_at i bs)
      × (length bs ≡ suc (length (without_at i bs)))
      × (sum (without_at i bs) ≤ sum bs)
without_at_lem [] i a l = absurd (omega arith)
without_at_lem (x ∷ bs) zero (a, h) l = (h, refl, omega arith)
without_at_lem (x ∷ bs) (suc i) (a, h) l =
    let (p, q, r) = without_at_lem bs i h (omega arith) in ((a, p), omega arith, omega arith)

begin_lem :
    (l m : Log)
    → begin_op l ≡ Reply.goes m
    → (m ≡ record l { outstanding = l.outstanding + 1 })
      × (l.committing ≡ false)
      × (length l.lh + (l.outstanding + 1) * 10 ≤ 30)
unfolding begin_op
begin_lem l m e = elim (Bool-cases l.committing) [
  | inl c ↦ let f = (rw c at e) in absurd cc
  | inr c ↦ elim (Bool-cases (ltb logsize (length l.lh + (l.outstanding + 1) * maxopblocks))) [
    | inl h ↦ let f = (rw (c, h) at e) in absurd cc
    | inr h ↦ let f = (rw (c, h) at e) in (cc, c, ground arith)
  ]
]

write_lem : (b : ℕ) (l m : Log) → log_write b l ≡ Reply.goes m → m ≡ record l { lh = absorb b l.lh }
unfolding log_write
write_lem b l m e =
    elim (Bool-cases (leb logsize (length l.lh) || leb (l.size - 1) (length l.lh))) [
      | inl c ↦ let f = (rw c at e) in absurd cc
      | inr c ↦ elim (Bool-cases (ltb l.outstanding 1)) [
        | inl h ↦ let f = (rw (c, h) at e) in absurd cc
        | inr h ↦ let f = (rw (c, h) at e) in cc
      ]
    ]

end_lem :
    (l m : Log)
    → end_op l ≡ Reply.goes m
    → m ≡ record l { outstanding = l.outstanding - 1; committing = (l.outstanding - 1) == 0 }
unfolding end_op
end_lem l m e = elim (Bool-cases l.committing) [
  | inl c ↦ let f = (rw c at e) in absurd cc
  | inr c ↦ let f = (rw c at e) in cc
]

Run-IsReserved : {size : ℕ} {bs : List ℕ} {l : Log} → Run size bs l → IsReserved size bs l
unfolding committed
Run-IsReserved (Run.start) = record {
  same_size = refl;
  each = tt;
  count = refl;
  room = omega arith;
  idle = λ c. refl;
}
Run-IsReserved {size} (Run.begins {bs} {l} {m} w e) =
    let q = Run-IsReserved w in
    let (s, c, f) = begin_lem l m e in
    subst (IsReserved size (maxopblocks ∷ bs)) (sym s) record {
      same_size = q.same_size;
      each = (omega arith, q.each);
      count = omega (arith, q.count);
      room = omega (arith, q.count, f, sum_le bs q.each);
      idle = λ h. absurd cc;
    }
Run-IsReserved {size} (Run.writes {bs} {l} {m} b i r w lt g e) =
    let q = Run-IsReserved w in
    subst (IsReserved size (set bs i r)) (sym (write_lem b l m e)) record {
      same_size = q.same_size;
      each = AllAtMost-set bs i r q.each g;
      count = q.count ∙ sym (length-set bs i r);
      room = omega (arith, q.room, sum-set bs i r lt g, length-absorb b l.lh);
      idle = λ h. length-set bs i r ∙ q.idle h;
    }
Run-IsReserved {size} (Run.ends {bs} {l} {m} i w lt e) =
    let q = Run-IsReserved w in
    let (a, n, s) = without_at_lem bs i q.each lt in
    subst (IsReserved size (without_at i bs)) (sym (end_lem l m e)) record {
      same_size = q.same_size;
      each = a;
      count = omega (arith, q.count, n);
      room = omega (arith, q.room, s);
      idle = λ h. omega (arith, q.count, n, (==_iff (l.outstanding - 1) 0).0 h);
    }
Run-IsReserved {size} (Run.commits {bs} {l} w c) =
    let q = Run-IsReserved w in
    record {
      same_size = q.same_size;
      each = q.each;
      count = q.count;
      room = omega (arith, q.idle c, sum_le bs q.each);
      idle = λ h. absurd cc;
    }

-- In every state that file system calls lead to, each of at most MAXOPBLOCKS writes, `log_write` by
-- a call that has begun, has not ended and may still write goes on and does not panic, if the log
-- on disk has at least LOGSIZE + 1 blocks.
pub log_write-goes :
    {size : ℕ} {bs : List ℕ} {l : Log} (b i r : ℕ)
    → Run size bs l
    → logsize < size
    → i < length bs
    → get_or bs i 0 ≡ suc r
    → log_write b l ≡ Reply.goes (record l { lh = absorb b l.lh })
unfolding log_write
log_write-goes {size} {bs} {l} b i r w big lt g =
    let q = Run-IsReserved w in
    let s = sum-set bs i r lt g in
    let a : leb logsize (length l.lh) ≡ false =
      lt→leb_false logsize (length l.lh) (omega (arith, q.room, s)) in
    let c : leb (l.size - 1) (length l.lh) ≡ false =
      lt→leb_false (l.size - 1) (length l.lh) (omega (arith, q.room, q.same_size, s, big)) in
    let o : ltb l.outstanding 1 ≡ false =
      le→ltb_false l.outstanding 1 (omega (arith, q.count, lt)) in
    rw (a, c, o) refl

-- In every such state `end_op` of a call that has begun and not ended does not panic: it takes one
-- from the calls that are outstanding and starts a commit exactly when none is left.
end_op-goes :
    {size : ℕ} {bs : List ℕ} {l : Log} (i : ℕ)
    → Run size bs l
    → i < length bs
    → end_op l
      ≡ Reply.goes
          (record l { outstanding = l.outstanding - 1; committing = (l.outstanding - 1) == 0 })
unfolding end_op
end_op-goes {size} {bs} {l} i w lt =
    let q = Run-IsReserved w in
    elim (Bool-cases l.committing) [
      | inl c ↦ absurd (omega (arith, lt, q.idle c))
      | inr c ↦ rw c refl
    ]
