-- ===== src/Inodes/Release.antt =====
-- kernel/fs.c: itrunc as a whole.
use os_212_assignment.Base.{
  ℕ, ◌+◌, ◌-◌, ◌*◌, ◌/◌, ◌≤◌, ◌<◌, ◌≡◌, ◌≢◌, ap, ◌∙◌, sym, refl, inl, inr, arith, ◌==◌, ==_iff,
  ne_of_false, Bool-cases,
}
use os_212_assignment.Fs.{
  Super, Disk, Inode, ok, ndirect, nindirect, maxfile, bblock, get_uint, set_addr,
}
use os_212_assignment.Fs.Alloc.{used}
use os_212_assignment.Fs.Used.{bfree-cleared}
use os_212_assignment.Fs.Content.{slot}
use os_212_assignment.Fs.Grow.{
  slot_table, slot_entry, slot_no_table, slot_beyond, kind, Kind, direct, indirect, table, beyond,
}
use os_212_assignment.Inodes.{trunc_table}
use os_212_assignment.Inodes.Trunc.{IsRun, AreFreed, trunc_entries_lem}

module _ (sb : Super) (start : ℕ) (low : sb.size / 8192 + sb.bmapstart < start) where
  -- The indirect block and its entries are in use and distinct.
  pub record IsUpper (d : Disk) (ip : Inode) : Type 0 where
    pub own :
        (n : ℕ)
        → ndirect ≤ n
        → slot d ip n ≢ 0
        → (used sb d (slot d ip n) ≢ 0) × (slot d ip n < sb.size) × (start ≤ slot d ip n)
    pub apart :
        (m n : ℕ) → ndirect ≤ m → ndirect ≤ n → slot d ip m ≡ slot d ip n → slot d ip m ≢ 0 → m ≡ n

  pub record TableEnds (d : Disk) (ip : Inode) (d' : Disk) (ip' : Inode) : Type 0 where
    pub freed : (n : ℕ) → ndirect ≤ n → slot d ip n ≢ 0 → used sb d' (slot d ip n) ≡ 0
    pub others :
        (b : ℕ)
        → ((n : ℕ) → ndirect ≤ n → slot d ip n ≢ 0 → slot d ip n ≢ b)
        → used sb d' b ≡ used sb d b
    pub data_same : (x : ℕ) → start ≤ x → d' x ≡ d x
    pub addr_table : ip'.addrs ndirect ≡ 0
    pub addr_others : (k : ℕ) → k ≢ ndirect → ip'.addrs k ≡ ip.addrs k
    pub fields : ip' ≡ record ip { addrs = ip'.addrs }

  module _ (d : Disk) (ip : Inode) (u : IsUpper d ip) (h : ip.addrs ndirect ≢ 0) where
    abbrev entries : ℕ → ℕ
    entries k = get_uint (d (ip.addrs ndirect)) (4 * k)

    entry_slot : (k : ℕ) → k < nindirect → slot d ip (k + ndirect) ≡ entries k
    entry_slot k l =
        slot_entry d ip (k + ndirect) (omega arith) (omega arith) h ∙ ap entries (omega arith)

    entries-IsRun : IsRun sb start d entries 0 nindirect
    entries-IsRun = record {
      in_use = λ k l b nz.
          let e = entry_slot k b in
          let o = u.own (k + ndirect) (omega arith) (rw e nz) in
          let o' : (used sb d (entries k) ≢ 0) × (entries k < sb.size) × (start ≤ entries k) =
            rw e at o in
          (o'.0, o'.1);
      apart = λ k m l b l' b' e nz.
          let p = entry_slot k b in
          let q =
            u.apart (k + ndirect) (m + ndirect) (omega arith) (omega arith)
              (p ∙ e ∙ sym (entry_slot m b')) (rw p nz) in
          omega arith;
    }

    -- The indirect block is none of its entries.
    table_ne : (k : ℕ) → k < nindirect → entries k ≢ 0 → entries k ≢ ip.addrs ndirect
    table_ne k b nz e =
        let p = entry_slot k b in
        let q =
          u.apart (k + ndirect) maxfile (omega arith) (omega arith) (p ∙ e ∙ sym (slot_table d ip))
            (rw p nz) in
        omega arith

    table_own :
        (used sb d (ip.addrs ndirect) ≢ 0)
        × (ip.addrs ndirect < sb.size)
        × (start ≤ ip.addrs ndirect)
    table_own = rw (slot_table d ip) at (u.own maxfile (omega arith) (rw (slot_table d ip) h))

    module _ (d1 : Disk) (f : AreFreed sb start d entries 0 nindirect d1) (d2 : Disk)
        (z : used sb d2 (ip.addrs ndirect) ≡ 0)
        (o : (j : ℕ) → ip.addrs ndirect ≢ j → used sb d2 j ≡ used sb d1 j)
        (s : (x : ℕ) → bblock sb (ip.addrs ndirect) ≢ x → d2 x ≡ d1 x) where
      slot_freed : (n : ℕ) → Kind n → ndirect ≤ n → slot d ip n ≢ 0 → used sb d2 (slot d ip n) ≡ 0
      slot_freed n (direct l) b nz = absurd (omega arith)
      slot_freed n (indirect l m) b nz =
          let e : slot d ip n ≡ entries (n - ndirect) = slot_entry d ip n l m h in
          let nz' : entries (n - ndirect) ≢ 0 = rw e at nz in
          rw e (
            o (entries (n - ndirect)) (λ q. table_ne (n - ndirect) (omega arith) nz' (sym q))
            ∙ f.freed (n - ndirect) (omega arith) (omega arith) nz')
      slot_freed n (table e) b nz =
          let q : slot d ip n ≡ ip.addrs ndirect = ap (slot d ip) e ∙ slot_table d ip in rw q z
      slot_freed n (beyond l) b nz = absurd (nz (slot_beyond d ip n l))

      table_ends : TableEnds d ip d2 (set_addr ip ndirect 0)
      table_ends = record {
        freed = λ n b nz. slot_freed n (kind n) b nz;
        others = λ b q.
            o b (λ e. q maxfile (omega arith) (rw (slot_table d ip) h) (slot_table d ip ∙ e))
            ∙ f.others b (λ k l m nz e.
              let p = entry_slot k m in q (k + ndirect) (omega arith) (rw p nz) (p ∙ e));
        data_same = λ x l. s x (let t = table_own.1 in omega arith) ∙ f.data_same x l;
        addr_table = ground arith;
        addr_others = λ k e. ground arith;
        fields = refl;
      }

  no_table :
      (d : Disk) (ip : Inode)
      → ip.addrs ndirect ≡ 0
      → (n : ℕ) → Kind n
      → ndirect ≤ n
      → slot d ip n ≡ 0
  no_table d ip z n (direct l) b = absurd (omega arith)
  no_table d ip z n (indirect l m) b = slot_no_table d ip n l m z
  no_table d ip z n (table e) b = ap (slot d ip) e ∙ slot_table d ip ∙ z
  no_table d ip z n (beyond l) b = slot_beyond d ip n l

  pub trunc_table_lem :
      (ip : Inode) (d : Disk)
      → IsUpper d ip
      → (ip' : Inode) × (d' : Disk) × (trunc_table sb ip d ≡ ok (ip', d')) × TableEnds d ip d' ip'
  unfolding trunc_table
  trunc_table_lem ip d u = elim (Bool-cases (ip.addrs ndirect == 0)) [
    | inl none ↦
        let z : ip.addrs ndirect ≡ 0 = (==_iff (ip.addrs ndirect) 0).0 none in
        (
          ip,
          d,
          rw none refl,
          record {
            freed = λ n b nz. absurd (nz (no_table d ip z n (kind n) b));
            others = λ b q. refl;
            data_same = λ x l. refl;
            addr_table = z;
            addr_others = λ k e. refl;
            fields = refl;
          },
        )
    | inr some ↦
        let h = ne_of_false (ip.addrs ndirect) 0 some in
        let e =
          trunc_entries_lem sb start low nindirect 0 (d (ip.addrs ndirect)) d
            (entries-IsRun d ip u h) in
        let o = e.2.others (ip.addrs ndirect) (λ k l b nz. table_ne d ip u h k b nz) in
        let f = bfree-cleared sb e.0 (ip.addrs ndirect) (rw o (table_own d ip u h).0) in
        (
          set_addr ip ndirect 0,
          f.0,
          rw (some, e.1, f.1) refl,
          table_ends d ip u h e.0 e.2 f.0 f.2 f.3 f.4,
        )
  ]
