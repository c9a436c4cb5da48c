-- ===== src/Inodes/Trunc.antt =====
-- kernel/fs.c: itrunc gives back the blocks of a file and no other ones.
use os_212_assignment.Base.{
  ℕ, zero, suc, ◌+◌, ◌*◌, ◌/◌, ◌≤◌, ◌<◌, ◌≡◌, ◌≢◌, ap, ◌∙◌, sym, refl, ◌⊎◌, inl, inr, arith, ◌==◌,
  ==_iff, ne_of_false, Bool-cases,
}
use os_212_assignment.Fs.{Super, Disk, Inode, ok, bblock, get_uint, bfree, set_addr}
use os_212_assignment.Fs.Alloc.{used}
use os_212_assignment.Fs.Used.{bfree-cleared}
use os_212_assignment.Inodes.{trunc_direct, trunc_entries}

cleared_addr : (ip : Inode) (i : ℕ) → (set_addr ip i 0).addrs i ≡ 0
cleared_addr ip i = ground arith

other_addr : (ip : Inode) (i k : ℕ) → i ≢ k → (set_addr ip i 0).addrs k ≡ ip.addrs k
other_addr ip i k e = ground arith

module _ (sb : Super) (start : ℕ) where
  -- The blocks a j, ..., a (j + n - 1) that are not 0 are in use, and no two are the same.
  pub record IsRun (d : Disk) (a : ℕ → ℕ) (j n : ℕ) : Type 0 where
    pub in_use : (k : ℕ) → j ≤ k → k < j + n → a k ≢ 0 → (used sb d (a k) ≢ 0) × (a k < sb.size)
    pub apart : (k m : ℕ) → j ≤ k → k < j + n → j ≤ m → m < j + n → a k ≡ a m → a k ≢ 0 → k ≡ m

  -- They have been given back.
  pub record AreFreed (d : Disk) (a : ℕ → ℕ) (j n : ℕ) (e : Disk) : Type 0 where
    pub freed : (k : ℕ) → j ≤ k → k < j + n → a k ≢ 0 → used sb e (a k) ≡ 0
    pub others :
        (b : ℕ) → ((k : ℕ) → j ≤ k → k < j + n → a k ≢ 0 → a k ≢ b) → used sb e b ≡ used sb d b
    pub data_same : (x : ℕ) → start ≤ x → e x ≡ d x

  module _ (low : sb.size / 8192 + sb.bmapstart < start) where
    freed_none : (d : Disk) (a : ℕ → ℕ) (j : ℕ) → AreFreed d a j 0 d
    freed_none d a j = record {
      freed = λ k l h z. absurd (omega arith);
      others = λ b h. refl;
      data_same = λ x l. refl;
    }

    -- Entry j is 0, and the others are given back.
    freed_skip :
        (d : Disk) (a : ℕ → ℕ) (j n : ℕ) (e : Disk)
        → a j ≡ 0
        → AreFreed d a (j + 1) n e
        → AreFreed d a j (suc n) e
    freed_skip d a j n e z f = record {
      freed = λ k l h nz. elim (Bool-cases (j == k)) [
        | inl same ↦ absurd (nz (let q : j ≡ k = (==_iff j k).0 same in rw (← q) z))
        | inr other ↦ let q = ne_of_false j k other in f.freed k (omega arith) (omega arith) nz
      ];
      others = λ b h. f.others b (λ k l m nz. h k (omega arith) (omega arith) nz);
      data_same = f.data_same;
    }

    IsRun-tail : (d : Disk) (a : ℕ → ℕ) (j n : ℕ) → IsRun d a j (suc n) → IsRun d a (j + 1) n
    IsRun-tail d a j n r = record {
      in_use = λ k l h nz. r.in_use k (omega arith) (omega arith) nz;
      apart = λ k m l h l' h' e nz.
          r.apart k m (omega arith) (omega arith) (omega arith) (omega arith) e nz;
    }

    module _ (d : Disk) (a : ℕ → ℕ) (j n : ℕ) (r : IsRun d a j (suc n)) (z : a j ≢ 0) where
      -- bfree of entry j.
      abbrev First : Disk → Type 0
      First d1 =
          (bfree sb (a j) d ≡ ok d1)
          × (used sb d1 (a j) ≡ 0)
          × ((b : ℕ) → a j ≢ b → used sb d1 b ≡ used sb d b)
          × ((x : ℕ) → bblock sb (a j) ≢ x → d1 x ≡ d x)

      First-freed : (d1 : Disk) × First d1
      First-freed =
          let f = bfree-cleared sb d (a j) (r.in_use j (omega arith) (omega arith) z).0 in
          (f.0, (f.1, f.2, f.3, f.4))

      module _ (d1 : Disk) (f : First d1) where
        later_ne : (k : ℕ) → j + 1 ≤ k → k < j + 1 + n → a j ≢ a k
        later_ne k l h e =
            let q = r.apart j k (omega arith) (omega arith) (omega arith) (omega arith) e z in
            omega arith

        IsRun-first : IsRun d1 a (j + 1) n
        IsRun-first = record {
          in_use = λ k l h nz.
              let u = r.in_use k (omega arith) (omega arith) nz in
              let q = f.2 (a k) (later_ne k l h) in (rw q u.0, u.1);
          apart = (IsRun-tail d a j n r).apart;
        }

        freed_first : (e : Disk) → AreFreed d1 a (j + 1) n e → AreFreed d a j (suc n) e
        freed_first e g = record {
          freed = λ k l h nz. elim (Bool-cases (j == k)) [
            | inl same ↦
                let q : j ≡ k = (==_iff j k).0 same in
                ap (λ (x : ℕ). used sb e (a x)) (sym q)
                ∙ g.others (a j) (λ m l' h' nz' t. later_ne m l' h' (sym t))
                ∙ f.1
            | inr other ↦ let q = ne_of_false j k other in g.freed k (omega arith) (omega arith) nz
          ];
          others = λ b h.
              g.others b (λ k l m nz. h k (omega arith) (omega arith) nz)
              ∙ f.2 b (h j (omega arith) (omega arith) z);
          data_same = λ x l.
              g.data_same x l
              ∙ f.3 x (let u = (r.in_use j (omega arith) (omega arith) z).1 in omega arith);
        }

    pub trunc_entries_lem :
        (n j : ℕ) (c : ℕ → ℕ) (d : Disk)
        → IsRun d (λ k. get_uint c (4 * k)) j n
        → (e : Disk) × (trunc_entries sb n j c d ≡ ok e)
          × AreFreed d (λ k. get_uint c (4 * k)) j n e
    unfolding trunc_entries
    trunc_entries_lem zero j c d r = (d, refl, freed_none d (λ k. get_uint c (4 * k)) j)
    trunc_entries_lem (suc n) j c d r = elim (Bool-cases (get_uint c (4 * j) == 0)) [
      | inl none ↦
          let z = (==_iff (get_uint c (4 * j)) 0).0 none in
          let a = λ (k : ℕ). get_uint c (4 * k) in
          let k = trunc_entries_lem n (j + 1) c d (IsRun-tail d a j n r) in
          (k.0, rw none k.1, freed_skip d a j n k.0 z k.2)
      | inr some ↦
          let z = ne_of_false (get_uint c (4 * j)) 0 some in
          let a = λ (k : ℕ). get_uint c (4 * k) in
          let f = First-freed d a j n r z in
          let k = trunc_entries_lem n (j + 1) c f.0 (IsRun-first d a j n r z f.0 f.1) in
          (k.0, rw (some, f.1.0) k.1, freed_first d a j n r z f.0 f.1 k.0 k.2)
    ]

    -- The direct blocks from i on; `a` are the addresses at the start.
    pub trunc_direct_lem :
        (n i : ℕ) (a : ℕ → ℕ) (ip : Inode) (d : Disk)
        → IsRun d a i n
        → ((k : ℕ) → i ≤ k → ip.addrs k ≡ a k)
        → (jp : Inode) × (e : Disk) × (trunc_direct sb n i ip d ≡ ok (jp, e))
          × AreFreed d a i n e
          × ((k : ℕ) → i ≤ k → k < i + n → jp.addrs k ≡ 0)
          × ((k : ℕ) → (k < i) ⊎ (i + n ≤ k) → jp.addrs k ≡ ip.addrs k)
          × (jp ≡ record ip { addrs = jp.addrs })
    unfolding trunc_direct
    trunc_direct_lem zero i a ip d r same =
        (ip, d, refl, freed_none d a i, λ k l h. absurd (omega arith), λ k h. refl, refl)
    trunc_direct_lem (suc n) i a ip d r same = elim (Bool-cases (ip.addrs i == 0)) [
      | inl none ↦
          let z : ip.addrs i ≡ 0 = (==_iff (ip.addrs i) 0).0 none in
          let az : a i ≡ 0 = let q = same i (omega arith) in ground arith in
          let k =
            trunc_direct_lem n (i + 1) a ip d (IsRun-tail d a i n r)
              (λ k l. same k (omega arith)) in
          (
            k.0,
            k.1,
            rw none k.2,
            freed_skip d a i n k.1 az k.3,
            λ m l h. elim (Bool-cases (i == m)) [
              | inl e ↦ let q : i ≡ m = (==_iff i m).0 e in rw (← q) (k.5 i (inl (omega arith)) ∙ z)
              | inr e ↦ let q = ne_of_false i m e in k.4 m (omega arith) (omega arith)
            ],
            λ m h. k.5 m (omega arith),
            k.6,
          )
      | inr some ↦
          let z = ne_of_false (ip.addrs i) 0 some in
          let q : ip.addrs i ≡ a i = same i (omega arith) in
          let az : a i ≢ 0 = rw q at z in
          let f = First-freed d a i n r az in
          let jp = set_addr ip i 0 in
          let k =
            trunc_direct_lem n (i + 1) a jp f.0 (IsRun-first d a i n r az f.0 f.1)
              (λ m l. other_addr ip i m (omega arith) ∙ same m (omega arith)) in
          (
            k.0,
            k.1,
            rw (some, q, f.1.0) k.2,
            freed_first d a i n r az f.0 f.1 k.1 k.3,
            λ m l h. elim (Bool-cases (i == m)) [
              | inl e ↦
                  let t : i ≡ m = (==_iff i m).0 e in
                  rw (← t) (k.5 i (inl (omega arith)) ∙ cleared_addr ip i)
              | inr e ↦ let t = ne_of_false i m e in k.4 m (omega arith) (omega arith)
            ],
            λ m h. k.5 m (omega arith) ∙ other_addr ip i m (omega arith),
            k.6,
          )
    ]
