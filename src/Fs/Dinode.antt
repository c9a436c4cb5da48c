-- ===== src/Fs/Dinode.antt =====
-- kernel/fs.c: what iupdate writes is what ilock reads.
use os_212_assignment.Base.{
  ℕ, zero, suc, ◌+◌, ◌*◌, ◌^◌, ◌≤◌, ◌<◌, ◌≡◌, ◌≢◌, ◌∙◌, refl, arith, ◌==◌, sym, ◌%◌, Bool-cases,
  inl, inr, ==_iff, ne_of_false, ◌⊎◌, true, false,
}
use os_212_assignment.Kernel.{update}
use os_212_assignment.Fs.{
  Super, Disk, Inode, iblock, get_uint, put_uint, get_short, put_short, put_addrs, put_dinode,
  get_addrs, iupdate, read_dinode, ilock, ok, ipb,
}
use os_212_assignment.Fs.Uint.{
  put_uint-away, put_short-away, get_uint-put_uint, get_short-put_short, get_uint-same,
  get_short-same,
}

-- The entries that the loop has still to write leave the bytes before them alone.
put_addrs-away :
    (n j : ℕ) (a c : ℕ → ℕ) (o x : ℕ)
    → (x < o + 4 * j) ⊎ (o + 4 * (j + n) ≤ x)
    → put_addrs n j a c o x ≡ c x
unfolding put_addrs
put_addrs-away zero j a c o x h = refl
put_addrs-away (suc n) j a c o x h =
    put_addrs-away n (j + 1) a (put_uint c (o + 4 * j) (a j)) o x (omega arith)
    ∙ put_uint-away c (o + 4 * j) (a j) x (omega arith)

put_addrs-entry :
    (n j k : ℕ) (a c : ℕ → ℕ) (o : ℕ)
    → j ≤ k
    → k < j + n
    → a k < 2 ^ 32
    → get_uint (put_addrs n j a c o) (o + 4 * k) ≡ a k
unfolding put_addrs
put_addrs-entry zero j k a c o l h b = absurd (omega arith)
put_addrs-entry (suc n) j k a c o l h b = elim (Bool-cases (j == k)) [
  | inl same ↦
      let e : j ≡ k = (==_iff j k).0 same in
      get_uint-same (put_uint c (o + 4 * j) (a j))
        (put_addrs n (j + 1) a (put_uint c (o + 4 * j) (a j)) o) (o + 4 * k)
        (λ x p q. put_addrs-away n (j + 1) a (put_uint c (o + 4 * j) (a j)) o x (omega arith))
      ∙ (λ i. get_uint (put_uint c (o + 4 * e i) (a (e i))) (o + 4 * k))
      ∙ get_uint-put_uint c (o + 4 * k) (a k) b
  | inr other ↦
      let e = ne_of_false j k other in
      put_addrs-entry n (j + 1) k a (put_uint c (o + 4 * j) (a j)) o (omega arith) (omega arith) b
]

get_addrs_other : (n j k : ℕ) (a c : ℕ → ℕ) (o : ℕ) → k < j → get_addrs n j a c o k ≡ a k
unfolding get_addrs
get_addrs_other zero j k a c o h = refl
get_addrs_other (suc n) j k a c o h =
    get_addrs_other n (j + 1) k (update a j (get_uint c (o + 4 * j))) c o (omega arith)
    ∙ ground arith

get_addrs_lem :
    (n j k : ℕ) (a c : ℕ → ℕ) (o : ℕ)
    → j ≤ k
    → k < j + n
    → get_addrs n j a c o k ≡ get_uint c (o + 4 * k)
unfolding get_addrs
get_addrs_lem zero j k a c o l h = absurd (omega arith)
get_addrs_lem (suc n) j k a c o l h = elim (Bool-cases (j == k)) [
  | inl same ↦
      let e : j ≡ k = (==_iff j k).0 same in
      get_addrs_other n (j + 1) k (update a j (get_uint c (o + 4 * j))) c o (omega arith)
      ∙ ground arith
  | inr other ↦
      let e = ne_of_false j k other in
      get_addrs_lem n (j + 1) k (update a j (get_uint c (o + 4 * j))) c o (omega arith)
        (omega arith)
]

-- The fields are those that their types hold.
pub record IsInRange (ip : Inode) : Type 0 where
  pub type : ip.type < 2 ^ 16
  pub major : ip.major < 2 ^ 16
  pub minor : ip.minor < 2 ^ 16
  pub nlink : ip.nlink < 2 ^ 16
  pub size : ip.size < 2 ^ 32
  pub addrs : (k : ℕ) → k < 13 → ip.addrs k < 2 ^ 32

-- Two inodes have the same fields on disk.
pub record HasSameFields (jp ip : Inode) : Type 0 where
  pub type : jp.type ≡ ip.type
  pub major : jp.major ≡ ip.major
  pub minor : jp.minor ≡ ip.minor
  pub nlink : jp.nlink ≡ ip.nlink
  pub size : jp.size ≡ ip.size
  pub addrs : (k : ℕ) → k < 13 → jp.addrs k ≡ ip.addrs k

module _ (sb : Super) where
  pub iupdate-away :
      (ip : Inode) (d : Disk) (x : ℕ) → iblock sb ip.inum ≢ x → iupdate sb ip d x ≡ d x
  unfolding iupdate
  iupdate-away ip d x e = ground arith

  written_block :
      (ip : Inode) (d : Disk)
      → iupdate sb ip d (iblock sb ip.inum)
        ≡ put_dinode ip (d (iblock sb ip.inum)) (ip.inum % ipb * 64)
  unfolding iupdate
  written_block ip d = ground arith

  module _ (ip : Inode) (c : ℕ → ℕ) (o : ℕ) where
    abbrev c1 : ℕ → ℕ
    c1 = put_short c o ip.type

    abbrev c2 : ℕ → ℕ
    c2 = put_short c1 (o + 2) ip.major

    abbrev c3 : ℕ → ℕ
    c3 = put_short c2 (o + 4) ip.minor

    abbrev c4 : ℕ → ℕ
    c4 = put_short c3 (o + 6) ip.nlink

    abbrev c5 : ℕ → ℕ
    c5 = put_uint c4 (o + 8) ip.size

    -- Each write leaves the bytes before it alone.
    before4 : (x : ℕ) → x < o + 8 → put_dinode ip c o x ≡ c4 x
    unfolding put_dinode
    before4 x h =
        put_addrs-away 13 0 ip.addrs c5 (o + 12) x (omega arith)
        ∙ put_uint-away c4 (o + 8) ip.size x (omega arith)

    before3 : (x : ℕ) → x < o + 6 → put_dinode ip c o x ≡ c3 x
    before3 x h = before4 x (omega arith) ∙ put_short-away c3 (o + 6) ip.nlink x (omega arith)

    before2 : (x : ℕ) → x < o + 4 → put_dinode ip c o x ≡ c2 x
    before2 x h = before3 x (omega arith) ∙ put_short-away c2 (o + 4) ip.minor x (omega arith)

    before1 : (x : ℕ) → x < o + 2 → put_dinode ip c o x ≡ c1 x
    before1 x h = before2 x (omega arith) ∙ put_short-away c1 (o + 2) ip.major x (omega arith)

    -- The bytes outside the 64 of the inode are as before.
    put_dinode-away : (x : ℕ) → (x < o) ⊎ (o + 64 ≤ x) → put_dinode ip c o x ≡ c x
    unfolding put_dinode
    put_dinode-away x h =
        put_addrs-away 13 0 ip.addrs c5 (o + 12) x (omega arith)
        ∙ put_uint-away c4 (o + 8) ip.size x (omega arith)
        ∙ put_short-away c3 (o + 6) ip.nlink x (omega arith)
        ∙ put_short-away c2 (o + 4) ip.minor x (omega arith)
        ∙ put_short-away c1 (o + 2) ip.major x (omega arith)
        ∙ put_short-away c o ip.type x (omega arith)

    module _ (r : IsInRange ip) where
      read_type : get_short (put_dinode ip c o) o ≡ ip.type
      read_type =
          get_short-same c1 (put_dinode ip c o) o (λ x l h. before1 x (omega arith))
          ∙ get_short-put_short c o ip.type r.type

      read_major : get_short (put_dinode ip c o) (o + 2) ≡ ip.major
      read_major =
          get_short-same c2 (put_dinode ip c o) (o + 2) (λ x l h. before2 x (omega arith))
          ∙ get_short-put_short c1 (o + 2) ip.major r.major

      read_minor : get_short (put_dinode ip c o) (o + 4) ≡ ip.minor
      read_minor =
          get_short-same c3 (put_dinode ip c o) (o + 4) (λ x l h. before3 x (omega arith))
          ∙ get_short-put_short c2 (o + 4) ip.minor r.minor

      read_nlink : get_short (put_dinode ip c o) (o + 6) ≡ ip.nlink
      read_nlink =
          get_short-same c4 (put_dinode ip c o) (o + 6) (λ x l h. before4 x (omega arith))
          ∙ get_short-put_short c3 (o + 6) ip.nlink r.nlink

      read_size : get_uint (put_dinode ip c o) (o + 8) ≡ ip.size
      unfolding put_dinode
      read_size =
          get_uint-same c5 (put_dinode ip c o) (o + 8)
            (λ x l h. put_addrs-away 13 0 ip.addrs c5 (o + 12) x (omega arith))
          ∙ get_uint-put_uint c4 (o + 8) ip.size r.size

      read_addrs :
          (a : ℕ → ℕ) (k : ℕ)
          → k < 13
          → get_addrs 13 0 a (put_dinode ip c o) (o + 12) k ≡ ip.addrs k
      unfolding put_dinode
      read_addrs a k h =
          get_addrs_lem 13 0 k a (put_dinode ip c o) (o + 12) (omega arith) (omega arith)
          ∙ put_addrs-entry 13 0 k ip.addrs c5 (o + 12) (omega arith) (omega arith) (r.addrs k h)

  read_back :
      (ip jp : Inode) (d : Disk)
      → IsInRange ip
      → jp.inum ≡ ip.inum
      → HasSameFields (read_dinode sb jp (iupdate sb ip d)) ip
  unfolding read_dinode
  read_back ip jp d r e =
      let c = d (iblock sb ip.inum) in
      let o = ip.inum % ipb * 64 in
      let w = written_block ip d in
      rw (e, w)
        record {
          type = read_type ip c o r;
          major = read_major ip c o r;
          minor = read_minor ip c o r;
          nlink = read_nlink ip c o r;
          size = read_size ip c o r;
          addrs = λ k h. read_addrs ip c o r jp.addrs k h;
        }

  -- Where the fields of an inode fit their types and its type is not 0, ilock of a reference to the
  -- same inode that is not valid, on the disk after iupdate, returns, and reads the fields that were
  -- written; iupdate changes no byte of the disk outside the 64 bytes of the inode.
  pub ilock-iupdate :
      (ip jp : Inode) (d : Disk)
      → IsInRange ip
      → ip.type ≢ 0
      → jp.inum ≡ ip.inum
      → jp.ref ≢ 0
      → jp.valid ≡ false
      → (kp : Inode) × (ilock sb jp (iupdate sb ip d) ≡ ok kp)
        × HasSameFields kp ip
        × (kp.valid ≡ true)
        × ((x y : ℕ)
            → (x ≢ iblock sb ip.inum) ⊎ ((y < ip.inum % ipb * 64) ⊎ (ip.inum % ipb * 64 + 64 ≤ y))
            → iupdate sb ip d x y ≡ d x y)
  unfolding ilock
  ilock-iupdate ip jp d r t e p v =
      let same = read_back ip jp d r e in
      let z = same.type in
      (
        read_dinode sb jp (iupdate sb ip d),
        ground arith,
        same,
        unfold read_dinode in refl,
        λ x y h. untouched x y h,
      )
    where
      untouched :
          (x y : ℕ)
          → (x ≢ iblock sb ip.inum) ⊎ ((y < ip.inum % ipb * 64) ⊎ (ip.inum % ipb * 64 + 64 ≤ y))
          → iupdate sb ip d x y ≡ d x y
      untouched x y (inl a) = λ i. iupdate-away ip d x (λ q. a (sym q)) i y
      untouched x y (inr a) = elim (Bool-cases (iblock sb ip.inum == x)) [
        | inr n ↦ λ i. iupdate-away ip d x (ne_of_false (iblock sb ip.inum) x n) i y
        | inl m ↦
            let q : iblock sb ip.inum ≡ x = (==_iff (iblock sb ip.inum) x).0 m in
            rw (← q) (
              (λ i. written_block ip d i y)
              ∙ put_dinode-away ip (d (iblock sb ip.inum)) (ip.inum % ipb * 64) y a)
      ]
