-- ===== src/Inodes/Empty.antt =====
-- kernel/fs.c: what itrunc leaves.
use os_212_assignment.Base.{
  ℕ, ◌+◌, ◌-◌, ◌*◌, ◌/◌, ◌≤◌, ◌<◌, ◌≡◌, ◌≢◌, ap, ◌∙◌, sym, refl, inl, inr, arith, ltb, Bool-cases,
}
use os_212_assignment.Fs.{Super, Disk, Inode, ok, ndirect, bblock, get_uint, iupdate}
use os_212_assignment.Fs.Alloc.{used}
use os_212_assignment.Fs.Used.{used-block}
use os_212_assignment.Fs.Content.{slot, IsSound}
use os_212_assignment.Fs.Dinode.{iupdate-away}
use os_212_assignment.Fs.Grow.{slot_direct, slot_same, kind, table_owned}
use os_212_assignment.Inodes.{itrunc}
use os_212_assignment.Inodes.Trunc.{IsRun, AreFreed, trunc_direct_lem}
use os_212_assignment.Inodes.Release.{IsUpper, TableEnds, trunc_table_lem}

-- The blocks of the file are free, and no other block has become so; the file has no blocks and no
-- bytes, and no block of data is changed.
pub record TruncEnds (sb : Super) (start : ℕ) (d : Disk) (ip : Inode) (d' : Disk) (ip' : Inode)
    : Type 0 where
  pub freed : (n : ℕ) → slot d ip n ≢ 0 → used sb d' (slot d ip n) ≡ 0
  pub others : (b : ℕ) → ((n : ℕ) → slot d ip n ≢ 0 → slot d ip n ≢ b) → used sb d' b ≡ used sb d b
  pub data_same : (x : ℕ) → start ≤ x → d' x ≡ d x
  pub empty : ip'.size ≡ 0
  pub no_blocks : (k : ℕ) → k ≤ ndirect → ip'.addrs k ≡ 0
  pub fields : ip' ≡ record ip { size = 0; addrs = ip'.addrs }

module _ (sb : Super) (start : ℕ) (d : Disk) (ip : Inode) (s : IsSound sb start d ip) where
  low_end : sb.size / 8192 + sb.bmapstart < start
  low_end = s.layout.map_end

  direct-IsRun : IsRun sb start d ip.addrs 0 ndirect
  direct-IsRun = record {
    in_use = λ k l h nz.
        let e = slot_direct d ip k h in
        let o = s.owned k (rw e nz) in (rw (← e) o.in_use, rw (← e) o.inside);
    apart = λ k m l h l' h' e nz.
        s.apart k m (slot_direct d ip k h ∙ e ∙ sym (slot_direct d ip m h'))
          (rw (slot_direct d ip k h) nz);
  }

  module _ (jp : Inode) (e : Disk) (f : AreFreed sb start d ip.addrs 0 ndirect e)
      (same : jp.addrs ndirect ≡ ip.addrs ndirect) where
    upper_same : (n : ℕ) → ndirect ≤ n → slot e jp n ≡ slot d ip n
    upper_same n b =
        slot_same d e ip jp n (kind n) (λ l. absurd (omega arith)) same
          (λ p q r.
            let o = table_owned sb start d ip s r in
            ap (λ c. get_uint c (4 * (n - ndirect))) (f.data_same (ip.addrs ndirect) o.behind))

    -- A direct block is none of the others.
    upper_used :
        (n : ℕ) → ndirect ≤ n → slot d ip n ≢ 0 → used sb e (slot d ip n) ≡ used sb d (slot d ip n)
    upper_used n b nz = f.others (slot d ip n) (λ k l h z q.
        let t = s.apart k n (slot_direct d ip k h ∙ q) (rw (slot_direct d ip k h) z) in omega arith)

    upper : IsUpper sb start low_end e jp
    upper = record {
      own = λ n b nz.
          let q = upper_same n b in
          let nz' : slot d ip n ≢ 0 = rw q at nz in
          let o = s.owned n nz' in
          let u = upper_used n b nz' in rw q (rw u o.in_use, o.inside, o.behind);
      apart = λ m n a b p nz.
          s.apart m n (sym (upper_same m a) ∙ p ∙ upper_same n b) (rw (upper_same m a) at nz);
    }

    -- The inode is written outside the bitmap.
    update_used :
        (kp : Inode) (g : Disk) (b : ℕ)
        → kp.inum ≡ ip.inum
        → ip.inum < sb.ninodes
        → used sb (iupdate sb kp g) b ≡ used sb g b
    update_used kp g b q l =
        used-block sb g (iupdate sb kp g) b
          (iupdate-away sb kp g (bblock sb b) (let w = s.layout.inodes_end in λ t. omega arith))

    module _ (kp : Inode) (g : Disk) (t : TableEnds sb start low_end e jp g kp)
        (q : kp.inum ≡ ip.inum) (l : ip.inum < sb.ninodes)
        (size_same : jp ≡ record ip { addrs = jp.addrs })
        (zeros : (k : ℕ) → 0 ≤ k → k < 0 + ndirect → jp.addrs k ≡ 0) where
      abbrev ended : Inode
      ended = record kp { size = 0 }

      end_freed : (n : ℕ) → slot d ip n ≢ 0 → used sb (iupdate sb ended g) (slot d ip n) ≡ 0
      end_freed n nz = update_used ended g (slot d ip n) q l ∙ elim (Bool-cases (ltb n ndirect)) [
        | inl low ↦
            let h : n < ndirect = ground arith in
            let p = slot_direct d ip n h in
            t.others (slot d ip n) (λ m b z w.
              let v = s.apart m n (sym (upper_same m b) ∙ w) (rw (upper_same m b) at z) in
              omega arith)
            ∙ ap (used sb e) p
            ∙ f.freed n (omega arith) h (rw p at nz)
        | inr high ↦
            let h : ndirect ≤ n = ground arith in
            let p = upper_same n h in ap (used sb g) (sym p) ∙ t.freed n h (rw p nz)
      ]

      trunc_ends : TruncEnds sb start d ip (iupdate sb ended g) ended
      trunc_ends = record {
        freed = end_freed;
        others = λ b h.
            update_used ended g b q l
            ∙ t.others b (λ m c z w. h m (rw (upper_same m c) at z) (sym (upper_same m c) ∙ w))
            ∙ f.others b
                (λ k c m z w. h k (rw (slot_direct d ip k m) z) (slot_direct d ip k m ∙ w));
        data_same = λ x b.
            iupdate-away sb ended g x
              (let w = s.layout.inodes_end in let v = s.layout.map_end in λ r. omega arith)
            ∙ t.data_same x b
            ∙ f.data_same x b;
        empty = refl;
        no_blocks = λ k b. elim (Bool-cases (ltb k ndirect)) [
          | inl low ↦ t.addr_others k (λ w. ground arith) ∙ zeros k (omega arith) (ground arith)
          | inr high ↦ let w : k ≡ ndirect = ground arith in rw w t.addr_table
        ];
        fields = (λ i. record (t.fields i) { size = 0 }) ∙ λ i. record (size_same i) {
          size = 0;
          addrs = kp.addrs;
        };
      }

  -- itrunc of a sound file returns: exactly the blocks of the file, its indirect block among them,
  -- are free that were not, no byte of a block of data is changed, and the file has size 0 and no
  -- blocks.
  pub itrunc-TruncEnds :
      ip.inum < sb.ninodes
      → (ip' : Inode) × (d' : Disk) × (itrunc sb ip d ≡ ok (ip', d'))
        × TruncEnds sb start d ip d' ip'
  unfolding itrunc
  itrunc-TruncEnds l =
      let r =
        trunc_direct_lem sb start low_end ndirect 0 ip.addrs ip d direct-IsRun (λ k b. refl) in
      let same = r.5 ndirect (inr (omega arith)) in
      let t = trunc_table_lem sb start low_end r.0 r.1 (upper r.0 r.1 r.3 same) in
      let q = ap (λ (x : Inode). x.inum) t.3.fields ∙ ap (λ (x : Inode). x.inum) r.6 in
      (
        record (t.0) { size = 0 },
        iupdate sb (record (t.0) { size = 0 }) t.1,
        rw (r.2, t.2) refl,
        trunc_ends r.0 r.1 r.3 same t.0 t.1 t.3 q l r.6 r.4,
      )
