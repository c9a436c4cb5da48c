-- ===== src/Swap/Victim.antt =====
-- The victim that `scfifo` of kernel/vm.c returns, and the queue and PTEs that it leaves.
use mathlib.Core.Path.{subst}
use os_212_assignment.Base.{
  ℕ, suc, ◌+◌, ◌-◌, ◌≤◌, ◌<◌, ◌≡◌, ◌≢◌, refl, sym, ap, ◌∙◌, false, List, [], ◌∷◌, ◌++◌, append-nil,
  append_assoc, arith, length, length-append,
}
use os_212_assignment.Base.Int.{ℤ}
use os_212_assignment.Proc.{Proc}
use os_212_assignment.Kernel.{Kernel, ok, update}
use os_212_assignment.Ring
use os_212_assignment.Ring.{place}
use os_212_assignment.Ring.Remove.{Holds, Holds-count, out-Holds}
use os_212_assignment.Memory.{has, pte_a}
use os_212_assignment.Memory.Lookup.{LowTable, entry, LowTable-frame}
use os_212_assignment.Swap.{evict_front, scfifo_loop, scfifo}
use os_212_assignment.Swap.Aging.{update_self}
use os_212_assignment.Swap.Scfifo.{
  All, word_of, AreLow, AreDistinct, AreAccessed, Cleared, passed, passed-proc, passed-Holds,
  scfifo_loop-pass, scfifo_loop-victim, evict_front-run,
}

All-map :
    {A : Type 0} {P Q : A → Type 0} (xs : List A) → ((x : A) → P x → Q x) → All P xs → All Q xs
All-map [] f h = tt
All-map (x ∷ xs) f h = (f x h.0, All-map xs f h.1)

All-zip :
    {A : Type 0} {P Q R : A → Type 0} (xs : List A)
    → ((x : A) → P x → Q x → R x)
    → All P xs
    → All Q xs
    → All R xs
All-zip [] f h g = tt
All-zip (x ∷ xs) f h g = (f x h.0 g.0, All-zip xs f h.1 g.1)

-- Other entries than that of `x` are as before a round at `x`.
passed-word :
    (k : Kernel) (me t0 : ℕ) (x y : ℤ)
    → place x ≢ place y
    → word_of (passed k me t0 x) t0 y ≡ word_of k t0 y
passed-word k me t0 x y ne =
    let far : entry t0 (place x) ≢ entry t0 (place y) = omega arith in
    other (entry t0 (place y)) far
  where
    other : (a : ℕ) → entry t0 (place x) ≢ a → (passed k me t0 x).mem a ≡ k.mem a
    other a h = ground arith

passed-LowTable :
    (k : Kernel) (me t1 t0 : ℕ) (x : ℤ) (xs : List ℤ)
    → Holds (x ∷ xs) (k.procs me)
    → LowTable k.mem (k.procs me).pagetable t1 t0
    → place x < 512
    → LowTable (passed k me t0 x).mem ((passed k me t0 x).procs me).pagetable t1 t0
unfolding Ring.in_ Ring.out
passed-LowTable k me t1 t0 x xs h t low =
    let pt = (k.procs me).pagetable in
    rw (ap (λ p. p.pagetable) (passed-proc k me t x xs h)) (
      LowTable-frame k.mem (passed k me t0 x).mem t (other pt (omega (arith, t)))
        (other t1 (omega (arith, t))))
  where
    other : (a : ℕ) → entry t0 (place x) ≢ a → (passed k me t0 x).mem a ≡ k.mem a
    other a ne = ground arith

Cleared-none : (k : Kernel) (me t0 : ℕ) → Cleared k k me t0 []
Cleared-none k me t0 = record { words = tt; others = λ a h. refl; table = refl }

Cleared-cons :
    (k k' : Kernel) (me t1 t0 : ℕ) (x : ℤ) (xs ys : List ℤ)
    → LowTable k.mem (k.procs me).pagetable t1 t0
    → Holds (x ∷ ys) (k.procs me)
    → All (λ y. place x ≢ place y) xs
    → Cleared (passed k me t0 x) k' me t0 xs
    → Cleared k k' me t0 (x ∷ xs)
unfolding Ring.in_ Ring.out
Cleared-cons k k' me t1 t0 x xs ys t h apart c = record {
  words = (
    c.others (entry t0 (place x)) (All-map xs (λ y ne e. omega arith) apart)
        ∙ update_self k.mem (entry t0 (place x)) (word_of k t0 x - pte_a),
    All-zip xs (λ y ne e. e ∙ ap (λ w. w - pte_a) (passed-word k me t0 x y ne)) apart c.words,
  );
  others = λ a out. c.others a out.1 ∙ other a (λ e. out.0 (sym e));
  table = c.table ∙ ap (λ p. p.pagetable) (passed-proc k me t x ys h);
}
  where
    other : (a : ℕ) → entry t0 (place x) ≢ a → (passed k me t0 x).mem a ≡ k.mem a
    other a ne = ground arith

-- Accessed pages in front go behind the others, with the bit cleared.
scfifo_loop-passes :
    (xs ys : List ℤ) (k : Kernel) (me i r t1 t0 : ℕ)
    → LowTable k.mem (k.procs me).pagetable t1 t0
    → Holds (xs ++ ys) (k.procs me)
    → AreLow xs
    → AreDistinct xs
    → AreAccessed k t0 xs
    → i ≤ length ys
    → (k' : Kernel) × (scfifo_loop (length xs + r) me i k ≡ scfifo_loop r me (i + length xs) k')
      × Holds (ys ++ xs) (k'.procs me)
      × LowTable k'.mem (k'.procs me).pagetable t1 t0
      × Cleared k k' me t0 xs
scfifo_loop-passes [] ys k me i r t1 t0 t h low apart acc le =
    let a : 0 + r ≡ r = omega arith in
    let b : i + 0 ≡ i = omega arith in (k, rw (a, b) refl, rw append-nil h, t, Cleared-none k me t0)
scfifo_loop-passes (x ∷ xs) ys k me i r t1 t0 t h low apart acc le =
    let k1 = passed k me t0 x in
    let a : suc (length xs) + r ≡ suc (length xs + r) = omega arith in
    let b : i + suc (length xs) ≡ i + 1 + length xs = omega arith in
    let once =
      scfifo_loop-pass k me t x (xs ++ ys) h (length xs + r) i (omega (arith, length-append xs ys))
        (low.0, tt) acc.0 in
    let turned =
      subst (λ l. Holds l (k1.procs me)) (append_assoc xs ys (x ∷ []))
        (passed-Holds k me t x (xs ++ ys) h) in
    let acc' =
      All-zip xs (λ y ne e. ap (λ w. has w pte_a) (passed-word k me t0 x y ne) ∙ e) apart.0 acc.1 in
    let (k', run, held, t', cleared) =
      scfifo_loop-passes xs (ys ++ (x ∷ [])) k1 me (i + 1) r t1 t0
        (passed-LowTable k me t1 t0 x (xs ++ ys) h t low.0.1) turned low.1 apart.1 acc'
        (omega (arith, length-append ys (x ∷ []))) in
    (
      k',
      rw (a, b) (once ∙ run),
      subst (λ l. Holds l (k'.procs me)) (append_assoc ys (x ∷ []) xs) held,
      t',
      Cleared-cons k k' me t1 t0 x xs (xs ++ ys) t h apart.0 cleared,
    )

-- What `scfifo` has done when it returns the page at the front of `v ∷ rest`.
pub record Chosen (k k' : Kernel) (me t0 : ℕ) (passed_by rest : List ℤ) : Type 0 where
  pub queue : Holds rest (k'.procs me)
  pub cleared : Cleared k k' me t0 passed_by

Chosen-out :
    (k k' : Kernel) (me t0 : ℕ) (v : ℤ) (rest passed_by : List ℤ)
    → Holds (v ∷ rest) (k'.procs me)
    → Cleared k k' me t0 passed_by
    → Chosen k
        (record k' { procs = update k'.procs me (Ring.out (k'.procs me)) })
        me
        t0
        passed_by
        rest
unfolding Ring.out
Chosen-out k k' me t0 v rest passed_by h c =
    let new = update_self k'.procs me (Ring.out (k'.procs me)) in
    let (_, left) = out-Holds v rest h in
    record {
      queue = rw new left;
      cleared = record { words = c.words; others = c.others; table = rw new c.table };
    }

scfifo_loop-zero : (me i : ℕ) (k : Kernel) → scfifo_loop 0 me i k ≡ evict_front me k
unfolding scfifo_loop
scfifo_loop-zero me i k = refl

place-count : (l : List ℤ) {p : Proc} → Holds l p → place p.num_of_pages ≡ length l
place-count l h = ap place (Holds-count l h)

-- Where the queue is `xs`, `v`, `ys`, the pages `xs` were accessed and `v` was not, `scfifo` returns
-- `v` and leaves the queue `ys`, `xs`; the accessed bits of `xs` are cleared, and no other word of
-- memory is changed.
pub scfifo-second_chance :
    (k : Kernel) (me t1 t0 : ℕ) (xs ys : List ℤ) (v : ℤ)
    → LowTable k.mem (k.procs me).pagetable t1 t0
    → Holds (xs ++ (v ∷ ys)) (k.procs me)
    → AreLow xs
    → AreLow (v ∷ [])
    → AreDistinct xs
    → All (λ x. place x ≢ place v) xs
    → AreAccessed k t0 xs
    → has (word_of k t0 v) pte_a ≡ false
    → (k' : Kernel) × (scfifo me k ≡ ok v k') × Chosen k k' me t0 xs (ys ++ xs)
unfolding scfifo
scfifo-second_chance k me t1 t0 xs ys v t h low low_v apart apart_v acc new =
    let r = suc (length ys) in
    let rounds : place (k.procs me).num_of_pages ≡ length xs + r =
      place-count (xs ++ (v ∷ ys)) h ∙ length-append xs (v ∷ ys) in
    let (k1, run, held, t', cleared) =
      scfifo_loop-passes xs (v ∷ ys) k me 0 r t1 t0 t h low apart acc (omega arith) in
    let same = cleared.others (entry t0 (place v)) (All-map xs (λ x ne e. omega arith) apart_v) in
    let still : has (word_of k1 t0 v) pte_a ≡ false = ap (λ w. has w pte_a) same ∙ new in
    (
      record k1 { procs = update k1.procs me (Ring.out (k1.procs me)) },
      ap (λ n. scfifo_loop n me 0 k) rounds
          ∙ run
          ∙ scfifo_loop-victim k1 me t' v (ys ++ xs) held r (0 + length xs) low_v still,
      Chosen-out k k1 me t0 v (ys ++ xs) xs held cleared,
    )

-- Where every page of the queue was accessed, `scfifo` clears all accessed bits and returns the page
-- that was at the head; the others stay in order.
pub scfifo-all_accessed :
    (k : Kernel) (me t1 t0 : ℕ) (x : ℤ) (xs : List ℤ)
    → LowTable k.mem (k.procs me).pagetable t1 t0
    → Holds (x ∷ xs) (k.procs me)
    → AreLow (x ∷ xs)
    → AreDistinct (x ∷ xs)
    → AreAccessed k t0 (x ∷ xs)
    → (k' : Kernel) × (scfifo me k ≡ ok x k') × Chosen k k' me t0 (x ∷ xs) xs
unfolding scfifo
scfifo-all_accessed k me t1 t0 x xs t h low apart acc =
    let l = x ∷ xs in
    let rounds : place (k.procs me).num_of_pages ≡ length l + 0 = place-count l h ∙ omega arith in
    let whole = subst (λ l. Holds l (k.procs me)) (sym (append-nil l)) h in
    let (k1, run, held, t', cleared) =
      scfifo_loop-passes l [] k me 0 0 t1 t0 t whole low apart acc (omega arith) in
    (
      record k1 { procs = update k1.procs me (Ring.out (k1.procs me)) },
      ap (λ n. scfifo_loop n me 0 k) rounds
          ∙ run
          ∙ scfifo_loop-zero me (0 + length l) k1
          ∙ evict_front-run k1 me t' x xs held,
      Chosen-out k k1 me t0 x xs l held cleared,
    )
