-- ===== src/FileTable/Count.antt =====
-- kernel/file.c: the reference count of a file is the number of handles on it.
use os_212_assignment.Base.{
  ℕ, ◌+◌, ◌≤◌, ◌<◌, ◌≡◌, ◌≢◌, ◌↔◌, ap, ◌∙◌, refl, arith, List, [], ◌∷◌, ◌++◌, ◌==◌, if◌then◌else◌,
  none, some, false,
}
use os_212_assignment.Kernel.{update}
use os_212_assignment.FileTable.{
  nfile, File, Table, Closing, nothing, with_ref, filealloc, filedup, closing, fileclose, fd_none,
  fd_pipe, fd_inode, fd_device, close_pipe, put_inode,
}
use os_212_assignment.FileTable.Calls.{
  alloc_loop_lem, alloc_none, changed_ref, filedup_lem, fileclose_lem, filedup_held, fileclose_held,
}

-- The handles on a file: descriptors of processes, and pointers of calls that run.
pub count : ℕ → List ℕ → ℕ
count i [] = 0
count i (j ∷ hs) = count i hs + (if i == j then 1 else 0)

count-append : (i : ℕ) (l r : List ℕ) → count i (l ++ r) ≡ count i l + count i r
unfolding count
count-append i [] r = omega arith
count-append i (j ∷ l) r = omega (arith, count-append i l r)

-- The table with the handles on its files.
pub record State : Type 0 where
  pub table : Table
  pub handles : List ℕ

abbrev pub state : Table → List ℕ → State
state tb hs = record { table = tb; handles = hs }

-- A process opens a file, sets the fields of one that it has a handle on, as pipealloc and sys_open
-- do, copies one of its handles, or gives one up.
pub data Step (s : State) (t : State) : Type 0 where
  opens : (i : ℕ) → filealloc s.table ≡ some (i, t.table) → t.handles ≡ i ∷ s.handles → Step s t
  sets :
      (l r : List ℕ) (i : ℕ) (f : File)
      → s.handles ≡ l ++ (i ∷ r)
      → t.table ≡ update s.table i (with_ref (s.table i).ref f)
      → t.handles ≡ s.handles
      → Step s t
  copies :
      (l r : List ℕ) (i : ℕ)
      → s.handles ≡ l ++ (i ∷ r)
      → filedup i s.table ≡ some t.table
      → t.handles ≡ i ∷ s.handles
      → Step s t
  closes :
      (l r : List ℕ) (i : ℕ) (c : Closing)
      → s.handles ≡ l ++ (i ∷ r)
      → fileclose i s.table ≡ some (t.table, c)
      → t.handles ≡ l ++ r
      → Step s t

pub data Reach (s : State) : State → Type 0 where
  here : Reach s s
  next : {t u : State} → Reach s t → Step t u → Reach s u

-- Each count is the number of handles, and there are no handles outside the table.
abbrev IsCounted : State → Type 0
IsCounted s =
    (i : ℕ)
    → (i < nfile → (s.table i).ref ≡ count i s.handles) × (nfile ≤ i → count i s.handles ≡ 0)

count_middle :
    (k i : ℕ) (l r : List ℕ) → count k (l ++ (i ∷ r)) ≡ count k (l ++ r) + (if k == i then 1 else 0)
unfolding count
count_middle k i l r = omega (arith, count-append k l (i ∷ r), count-append k l r)

opened_counts :
    (s t : State) (i : ℕ)
    → IsCounted s
    → filealloc s.table ≡ some (i, t.table)
    → t.handles ≡ i ∷ s.handles
    → IsCounted t
unfolding filealloc count
opened_counts s t i v e h k =
    let a = alloc_loop_lem nfile 0 s.table i t.table (omega arith) e in
    let b = ap (λ (x : Table). (x k).ref) a.2 ∙ changed_ref s.table i k (with_ref 1 (s.table i)) in
    let c : count k t.handles ≡ count k s.handles + (if k == i then 1 else 0) =
      ap (λ x. count k x) h in
    let p = a.0 in
    let q = a.1 in (λ l. ground (arith, (v k).0 l, (v i).0 p), λ l. ground (arith, (v k).1 l))

copied_counts :
    (s t : State) (i : ℕ)
    → IsCounted s
    → 0 < count i s.handles
    → filedup i s.table ≡ some t.table
    → t.handles ≡ i ∷ s.handles
    → IsCounted t
unfolding count
copied_counts s t i v n e h k =
    let a = filedup_lem i s.table t.table e in
    let b =
      ap (λ (x : Table). (x k).ref) a.1
      ∙ changed_ref s.table i k (with_ref ((s.table i).ref + 1) (s.table i)) in
    let c : count k t.handles ≡ count k s.handles + (if k == i then 1 else 0) =
      ap (λ x. count k x) h in
    (λ l. ground (arith, (v k).0 l), λ l. ground (arith, (v k).1 l))

closed_counts :
    (s t : State) (l r : List ℕ) (i : ℕ) (c : Closing)
    → IsCounted s
    → s.handles ≡ l ++ (i ∷ r)
    → fileclose i s.table ≡ some (t.table, c)
    → t.handles ≡ l ++ r
    → IsCounted t
closed_counts s t l r i c v g e h k =
    let a = fileclose_lem i s.table t.table c e in
    let b = a.1 k in
    let m = ap (λ x. count k x) g ∙ count_middle k i l r in
    let n = ap (λ x. count k x) h in
    (λ p. ground (arith, (v k).0 p), λ p. ground (arith, (v k).1 p))

set_counts :
    (s t : State) (i : ℕ) (f : File)
    → IsCounted s
    → t.table ≡ update s.table i (with_ref (s.table i).ref f)
    → t.handles ≡ s.handles
    → IsCounted t
set_counts s t i f v e h k =
    let b =
      ap (λ (x : Table). (x k).ref) e ∙ changed_ref s.table i k (with_ref (s.table i).ref f) in
    let c : count k t.handles ≡ count k s.handles = ap (λ x. count k x) h in
    (λ l. ground (arith, (v k).0 l), λ l. ground (arith, (v k).1 l))

-- What is left to do for the file f when fileclose has given up a handle, with n before.
pub record IsDue (n : ℕ) (f : File) (c : Closing) : Type 0 where
  pub others : n ≢ 1 → c ≡ nothing
  pub no_type : n ≡ 1 → f.type ≡ fd_none → c ≡ nothing
  pub of_pipe : n ≡ 1 → f.type ≡ fd_pipe → c ≡ close_pipe f.pipe f.writable
  pub of_inode : n ≡ 1 → f.type ≡ fd_inode → c ≡ put_inode f.ip
  pub of_device : n ≡ 1 → f.type ≡ fd_device → c ≡ put_inode f.ip

last_IsDue :
    (n : ℕ) (f : File) (c : Closing) → c ≡ (if n == 1 then closing f else nothing) → IsDue n f c
unfolding closing
last_IsDue n f c e = record {
  others = λ h. let q : (n == 1) ≡ false = ground arith in e ∙ rw q refl;
  no_type = λ h t. e ∙ rw (h, t) refl;
  of_pipe = λ h t. e ∙ rw (h, t) refl;
  of_inode = λ h t. e ∙ rw (h, t) refl;
  of_device = λ h t. e ∙ rw (h, t) refl;
}

Step-IsCounted : {s t : State} → IsCounted s → Step s t → IsCounted t
Step-IsCounted {s} {t} v (opens i e h) = opened_counts s t i v e h
Step-IsCounted {s} {t} v (sets l r i f g e h) = set_counts s t i f v e h
Step-IsCounted {s} {t} v (copies l r i g e h) =
    copied_counts s t i v (let m = ap (λ x. count i x) g ∙ count_middle i i l r in ground arith) e h
Step-IsCounted {s} {t} v (closes l r i c g e h) = closed_counts s t l r i c v g e h

-- No file is open.
abbrev pub IsEmpty : Table → Type 0
IsEmpty tb = (i : ℕ) → (tb i).ref ≡ 0

Reach-IsCounted : (tb : Table) {t : State} → IsEmpty tb → Reach (state tb []) t → IsCounted t
unfolding count
Reach-IsCounted tb z here = λ i. (λ h. z i, λ h. refl)
Reach-IsCounted tb z (next r s) = Step-IsCounted (Reach-IsCounted tb z r) s

-- In every state that filealloc, filedup and fileclose on handles, and calls that set the other
-- fields of a file with a handle, lead to from an empty table, for each file i: its count is the
-- number of handles on it; filealloc fails exactly where every file has a handle; on a file with a
-- handle filedup and fileclose do not panic; and where fileclose has given up the last handle it
-- goes on to pipeclose with the pipe and the writable flag of a pipe, or to iput with the inode of
-- an inode or device, and it does nothing else where other handles are left.
pub Reach-IsRefCounted :
    (tb : Table) {t : State}
    → IsEmpty tb
    → Reach (state tb []) t
    → (i : ℕ) → i < nfile
    → ((t.table i).ref ≡ count i t.handles)
      × ((filealloc t.table ≡ none) ↔ ((j : ℕ) → j < nfile → 0 < count j t.handles))
      × (0 < count i t.handles → (filedup i t.table ≢ none) × (fileclose i t.table ≢ none))
      × ((tb' : Table) (c : Closing)
          → fileclose i t.table ≡ some (tb', c)
          → IsDue (count i t.handles) (t.table i) c)
unfolding filealloc
Reach-IsRefCounted tb {t} z r i l =
    let v = Reach-IsCounted tb z r in
    let e = (v i).0 l in
    let n = alloc_none nfile 0 t.table (omega arith) in
    (
      e,
      (
        λ q j h. let a = n.0 q j (omega arith) h in let b = (v j).0 h in omega arith,
        λ f. n.1 (λ j a h. let b = (v j).0 h in let d = f j h in omega arith),
      ),
      λ h. (filedup_held i t.table (omega arith), fileclose_held i t.table (omega arith)),
      λ tb' c q.
          rw (← e) (last_IsDue (t.table i).ref (t.table i) c (fileclose_lem i t.table tb' c q).2),
    )
