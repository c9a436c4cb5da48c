-- ===== src/Fs/Content.antt =====
-- kernel/fs.c: a file as a map from offsets to bytes, which the blocks of an inode hold.
use os_212_assignment.Base.{
  ℕ, ◌-◌, ◌*◌, ◌/◌, ◌%◌, ◌≤◌, ◌<◌, ◌≡◌, ◌≢◌, ap, ◌∙◌, refl, sym, arith, ltb, ◌==◌, if◌then◌else◌,
  Bool-cases, inl, inr, ==_iff, ne_of_false,
}
use os_212_assignment.Fs.{Super, Disk, Inode, bsize, ndirect, maxfile, get_uint}
use os_212_assignment.Fs.Alloc.{used}
use os_212_assignment.Fs.Used.{IsLaidOut}

-- The address of the nth block of a file, and, behind the blocks, of the indirect block; 0 for none.
unfoldable pub slot : Disk → Inode → ℕ → ℕ
slot d ip n =
    if ltb n ndirect
    then ip.addrs n
    else if ltb n maxfile
    then if ip.addrs ndirect == 0 then 0 else get_uint (d (ip.addrs ndirect)) (4 * (n - ndirect))
    else if n == maxfile
    then ip.addrs ndirect
    else 0

-- The byte of a file at an offset. A block that is not there reads as zeros.
abbrev pub byte_in : Disk → ℕ → ℕ → ℕ
byte_in d a o = if a == 0 then 0 else d a o

unfoldable pub content : Disk → Inode → ℕ → ℕ
content d ip i =
    if ltb (i / bsize) maxfile then byte_in d (slot d ip (i / bsize)) (i % bsize) else 0

pub record Owned (sb : Super) (start : ℕ) (d : Disk) (a : ℕ) : Type 0 where
  pub behind : start ≤ a
  pub inside : a < sb.size
  pub in_use : used sb d a ≢ 0

-- The blocks of a file are marked as used, and no two are the same.
pub record IsSound (sb : Super) (start : ℕ) (d : Disk) (ip : Inode) : Type 0 where
  pub layout : IsLaidOut sb start d
  pub owned : (n : ℕ) → slot d ip n ≢ 0 → Owned sb start d (slot d ip n)
  pub apart : (m n : ℕ) → slot d ip m ≡ slot d ip n → slot d ip m ≢ 0 → m ≡ n

-- A block of data that is in use, but not by this file.
pub record IsForeign (sb : Super) (start : ℕ) (d : Disk) (ip : Inode) (x : ℕ) : Type 0 where
  pub owner : Owned sb start d x
  pub not_here : (n : ℕ) → slot d ip n ≢ x

-- What an operation on a file leaves: the file is sound, of the inode only addresses have changed,
-- the blocks that the file had are where they were, and no block of another file has changed.
pub record Keeps (sb : Super) (start : ℕ) (d : Disk) (ip : Inode) (d' : Disk) (ip' : Inode)
    : Type 0 where
  pub sound : IsSound sb start d' ip'
  pub fields : ip' ≡ record ip { addrs = ip'.addrs }
  pub slots : (n : ℕ) → slot d ip n ≢ 0 → slot d' ip' n ≡ slot d ip n
  pub foreign : (x : ℕ) → IsForeign sb start d ip x → IsForeign sb start d' ip' x × (d' x ≡ d x)

module _ (sb : Super) (start : ℕ) where
  pub Keeps-refl : (d : Disk) (ip : Inode) → IsSound sb start d ip → Keeps sb start d ip d ip
  Keeps-refl d ip s = record {
    sound = s;
    fields = refl;
    slots = λ n h. refl;
    foreign = λ x f. (f, refl);
  }

  pub Keeps-trans :
      (d e f : Disk) (ip jp kp : Inode)
      → Keeps sb start d ip e jp
      → Keeps sb start e jp f kp
      → Keeps sb start d ip f kp
  Keeps-trans d e f ip jp kp a b = record {
    sound = b.sound;
    fields = b.fields ∙ ap (λ (q : Inode). record q { addrs = kp.addrs }) a.fields;
    slots = λ n h. let p = a.slots n h in b.slots n (rw p h) ∙ p;
    foreign = λ x h. let p = a.foreign x h in let q = b.foreign x p.0 in (q.0, q.1 ∙ p.1);
  }

  -- A slot of a file gets a fresh block.
  pub record Grows (d : Disk) (ip : Inode) (d' : Disk) (ip' : Inode) (n t : ℕ) : Type 0 where
    pub alloc_inside : t < sb.size
    pub alloc_behind : start ≤ t
    pub was_free : used sb d t ≡ 0
    pub is_used : used sb d' t ≢ 0
    pub others : (j : ℕ) → j < sb.size → t ≢ j → used sb d' j ≡ used sb d j
    pub layout : IsLaidOut sb start d'
    pub was_empty : slot d ip n ≡ 0
    pub new : slot d' ip' n ≡ t
    pub old : (m : ℕ) → m ≢ n → slot d' ip' m ≡ slot d ip m
    pub zeroed : (o : ℕ) → d' t o ≡ 0
    pub rest : (x : ℕ) → start ≤ x → t ≢ x → slot d ip maxfile ≢ x → d' x ≡ d x
    pub fields : ip' ≡ record ip { addrs = ip'.addrs }

  module _ (d : Disk) (ip : Inode) (d' : Disk) (ip' : Inode) (n t : ℕ) (s : IsSound sb start d ip)
      (g : Grows d ip d' ip' n t) where
    -- A block in use is not the fresh one.
    not_fresh : (a : ℕ) → Owned sb start d a → t ≢ a
    not_fresh a o e = o.in_use (ap (used sb d) (sym e) ∙ g.was_free)

    still_owned : (a : ℕ) → Owned sb start d a → Owned sb start d' a
    still_owned a o = record {
      behind = o.behind;
      inside = o.inside;
      in_use = let e = g.others a o.inside (not_fresh a o) in rw e o.in_use;
    }

    slot_owned : (m : ℕ) → slot d' ip' m ≢ 0 → Owned sb start d' (slot d' ip' m)
    slot_owned m h = elim (Bool-cases (m == n)) [
      | inl same ↦
          let e : m ≡ n = (==_iff m n).0 same in
          let q : slot d' ip' m ≡ t = ap (slot d' ip') e ∙ g.new in
          rw q (record { behind = g.alloc_behind; inside = g.alloc_inside; in_use = g.is_used })
      | inr other ↦
          let q = g.old m (ne_of_false m n other) in
          let h' : slot d ip m ≢ 0 = rw q at h in rw q (still_owned (slot d ip m) (s.owned m h'))
    ]

    -- No slot but the new one has the fresh block.
    fresh_once : (m : ℕ) → m ≢ n → slot d' ip' m ≢ 0 → t ≢ slot d' ip' m
    fresh_once m ne h =
        let q = g.old m ne in
        let h' : slot d ip m ≢ 0 = rw q at h in rw q (not_fresh (slot d ip m) (s.owned m h'))

    slot_apart : (m k : ℕ) → slot d' ip' m ≡ slot d' ip' k → slot d' ip' m ≢ 0 → m ≡ k
    slot_apart m k e h = elim (Bool-cases (m == n)) [
      | inl a ↦ elim (Bool-cases (k == n)) [
        | inl b ↦ ground arith
        | inr b ↦
            let p : m ≡ n = (==_iff m n).0 a in
            let q : slot d' ip' m ≡ t = ap (slot d' ip') p ∙ g.new in
            absurd (fresh_once k (ne_of_false k n b) (rw (← e) h) (sym q ∙ e))
      ]
      | inr a ↦ elim (Bool-cases (k == n)) [
        | inl b ↦
            let p : k ≡ n = (==_iff k n).0 b in
            let q : slot d' ip' k ≡ t = ap (slot d' ip') p ∙ g.new in
            absurd (fresh_once m (ne_of_false m n a) h (sym q ∙ sym e))
        | inr b ↦
            let p = g.old m (ne_of_false m n a) in
            let q = g.old k (ne_of_false k n b) in s.apart m k (sym p ∙ e ∙ q) (rw p at h)
      ]
    ]

    pub Grows-Keeps : Keeps sb start d ip d' ip'
    Grows-Keeps = record {
      sound = record { layout = g.layout; owned = slot_owned; apart = slot_apart };
      fields = g.fields;
      slots = λ m h. g.old m (λ e. h (ap (slot d ip) e ∙ g.was_empty));
      foreign = λ x f. (
        record {
          owner = still_owned x f.owner;
          not_here = λ m e. elim (Bool-cases (m == n)) [
            | inl same ↦
                let p : m ≡ n = (==_iff m n).0 same in
                not_fresh x f.owner (sym g.new ∙ ap (slot d' ip') (sym p) ∙ e)
            | inr other ↦ f.not_here m (sym (g.old m (ne_of_false m n other)) ∙ e)
          ];
        },
        g.rest x f.owner.behind (not_fresh x f.owner) (f.not_here maxfile),
      );
    }

    -- The bytes of a block that the file had are as before.
    old_block : (m : ℕ) → m < maxfile → slot d ip m ≢ 0 → d' (slot d ip m) ≡ d (slot d ip m)
    old_block m l h =
        let o = s.owned m h in
        g.rest (slot d ip m) o.behind (not_fresh (slot d ip m) o)
          (λ e. let q = s.apart m maxfile (sym e) h in omega arith)

    pub content-Grows : (i : ℕ) → content d' ip' i ≡ content d ip i
    unfolding content
    content-Grows i =
        let m = i / bsize in
        elim (Bool-cases (ltb m maxfile)) [
          | inr far ↦ rw far refl
          | inl near ↦ rw near (elim (Bool-cases (m == n)) [
            | inl same ↦
                let p : m ≡ n = (==_iff m n).0 same in
                let a : slot d' ip' m ≡ t = ap (slot d' ip') p ∙ g.new in
                let b : slot d ip m ≡ 0 = ap (slot d ip) p ∙ g.was_empty in
                rw (a, b) (let z = g.zeroed (i % bsize) in ground arith)
            | inr other ↦
                let q = g.old m (ne_of_false m n other) in
                rw q (elim (Bool-cases (slot d ip m == 0)) [
                  | inl none ↦ rw none refl
                  | inr some ↦
                      let b = old_block m (ground arith) (ne_of_false _ 0 some) in
                      rw some (λ j. b j (i % bsize))
                ])
          ])
        ]
