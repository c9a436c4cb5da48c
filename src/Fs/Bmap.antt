-- ===== src/Fs/Bmap.antt =====
-- kernel/fs.c: bmap as a whole.
use os_212_assignment.Base.{
  ℕ, ◌+◌, ◌-◌, ◌*◌, ◌≤◌, ◌<◌, ◌≡◌, ◌≢◌, ◌∙◌, arith, ltb, ◌==◌, Bool-cases, inl, inr, ne_of_false,
  ==_iff, true, ◌⊎◌,
}
use os_212_assignment.Fs.{
  ◌>>=◌, Super, Disk, Inode, Run, ok, ndirect, nindirect, maxfile, get_uint, set_addr, own, entry,
  bmap,
}
use os_212_assignment.Fs.Used.{free_below}
use os_212_assignment.Fs.Fresh.{balloc-IsAllocated}
use os_212_assignment.Fs.Content.{slot, IsSound, Grows-Keeps, content-Grows, Keeps-trans}
use os_212_assignment.Fs.Grow.{
  slot_direct, slot_entry, slot_no_table, fresh_pos, direct-Grows, table-Grows,
}
use os_212_assignment.Fs.Map.{
  BmapEnds, HasRoom, own-found, own-fresh, entry-found, entry-fresh, ends_found, ends_fresh,
  written, entry-Grows, count_written,
}

module _ (sb : Super) (start : ℕ) where
  -- How `own`, `entry` and `bmap` end.
  abbrev Returns : Disk → Inode → ℕ → Run (ℕ × Inode × Disk) → Type 0
  Returns d ip n r =
      (a : ℕ) × (ip' : Inode) × (d' : Disk) × (r ≡ ok (a, ip', d'))
      × BmapEnds sb start d ip n a d' ip'

  bmap_direct :
      (d : Disk) (ip : Inode) (n : ℕ)
      → IsSound sb start d ip
      → n < ndirect
      → HasRoom sb d ip n
      → Returns d ip n (own sb ip n d)
  bmap_direct d ip n s h room = elim (Bool-cases (ip.addrs n == 0)) [
    | inr some ↦
        let e = ne_of_false (ip.addrs n) 0 some in
        (
          ip.addrs n,
          ip,
          d,
          own-found sb ip n d e,
          ends_found sb start d ip n _ s (slot_direct d ip n h) e,
        )
    | inl none ↦
        let z : ip.addrs n ≡ 0 = (==_iff (ip.addrs n) 0).0 none in
        let q = slot_direct d ip n h in
        let r = balloc-IsAllocated sb start d s.layout (omega arith) in
        let c = r.3.count in
        (
          r.0,
          set_addr ip n r.0,
          r.1,
          own-fresh sb ip n d r.0 r.1 z r.2,
          ends_fresh sb start d ip n r.0 r.1 (set_addr ip n r.0) s
              (direct-Grows sb start d ip s r.1 r.0 r.3 n h z)
              (fresh_pos sb start d ip s r.1 r.0 r.3) (omega arith),
        )
  ]

  -- The entry of an indirect block that is there.
  bmap_entry :
      (d : Disk) (ip : Inode) (n : ℕ)
      → IsSound sb start d ip
      → ndirect ≤ n
      → n < maxfile
      → ip.addrs ndirect ≢ 0
      → (slot d ip n ≢ 0) ⊎ (1 ≤ free_below sb d sb.size)
      → (a : ℕ) × (d' : Disk) × (entry sb ip (ip.addrs ndirect) (n - ndirect) d ≡ ok (a, ip, d'))
        × BmapEnds sb start d ip n a d' ip
        × (free_below sb d sb.size ≤ free_below sb d' sb.size + 1)
  unfolding written
  bmap_entry d ip n s a b h room =
      elim (Bool-cases (get_uint (d (ip.addrs ndirect)) (4 * (n - ndirect)) == 0)) [
        | inr some ↦
            let e = ne_of_false (get_uint (d (ip.addrs ndirect)) (4 * (n - ndirect))) 0 some in
            (
              get_uint (d (ip.addrs ndirect)) (4 * (n - ndirect)),
              d,
              entry-found sb ip (ip.addrs ndirect) (n - ndirect) d e,
              ends_found sb start d ip n _ s (slot_entry d ip n a b h) e,
              omega arith,
            )
        | inl none ↦
            let z : get_uint (d (ip.addrs ndirect)) (4 * (n - ndirect)) ≡ 0 = (==_iff _ 0).0 none in
            let q = slot_entry d ip n a b h in
            let r = balloc-IsAllocated sb start d s.layout (omega arith) in
            let c = r.3.count in
            let k = count_written sb start d ip s h n r.0 r.1 r.3 in
            (
              r.0,
              written sb start d ip s h n r.0 r.1 r.3,
              entry-fresh sb ip (ip.addrs ndirect) (n - ndirect) d r.0 r.1 z r.2,
              ends_fresh sb start d ip n r.0 (written sb start d ip s h n r.0 r.1 r.3) ip s
                  (entry-Grows sb start d ip s h n r.0 r.1 r.3 a b z)
                  (fresh_pos sb start d ip s r.1 r.0 r.3) (omega arith),
              omega arith,
            )
      ]

  bmap_indirect :
      (d : Disk) (ip : Inode) (n : ℕ)
      → IsSound sb start d ip
      → ndirect ≤ n
      → n < maxfile
      → HasRoom sb d ip n
      → Returns d ip n (own sb ip ndirect d >>= λ r. entry sb r.1 r.0 (n - ndirect) r.2)
  bmap_indirect d ip n s a b room = elim (Bool-cases (ip.addrs ndirect == 0)) [
    | inr some ↦
        let e = ne_of_false (ip.addrs ndirect) 0 some in
        let r = bmap_entry d ip n s a b e (omega arith) in
        (r.0, ip, r.1, rw (own-found sb ip ndirect d e) r.2, r.3)
    | inl none ↦
        let z : ip.addrs ndirect ≡ 0 = (==_iff (ip.addrs ndirect) 0).0 none in
        let q = slot_no_table d ip n a b z in
        let t = balloc-IsAllocated sb start d s.layout (omega arith) in
        let c = t.3.count in
        let jp = set_addr ip ndirect t.0 in
        let g = table-Grows sb start d ip s t.1 t.0 t.3 z in
        let k = Grows-Keeps sb start d ip t.1 jp maxfile t.0 s g in
        let p = fresh_pos sb start d ip s t.1 t.0 t.3 in
        let r = bmap_entry t.1 jp n k.sound a b p (omega arith) in
        let m = r.4 in
        (
          r.0,
          jp,
          r.1,
          rw (own-fresh sb ip ndirect d t.0 t.1 z t.2) r.2,
          record {
            keeps = Keeps-trans sb start d t.1 r.1 ip jp jp k r.3.keeps;
            same = λ i. r.3.same i ∙ content-Grows sb start d ip t.1 jp maxfile t.0 s g i;
            address = r.3.address;
            there = r.3.there;
            count = omega arith;
            found = λ f. absurd (f q);
          },
        )
  ]

  -- Let the blocks of a file be marked as used, no two the same, and the blocks before the data
  -- marked too, and let its nth block be there or two blocks be free: bmap(ip, n) for n below
  -- MAXFILE returns the address that the nth block then has, all bytes of the file are as before
  -- (a block that was missing reads as zeros), the file is still sound, no block of another file is
  -- changed, and nothing at all is where the block was there.
  pub bmap-BmapEnds :
      (d : Disk) (ip : Inode) (n : ℕ)
      → IsSound sb start d ip
      → n < maxfile
      → HasRoom sb d ip n
      → (a : ℕ) × (ip' : Inode) × (d' : Disk) × (bmap sb ip n d ≡ ok (a, ip', d'))
        × BmapEnds sb start d ip n a d' ip'
  unfolding bmap
  bmap-BmapEnds d ip n s h room = elim (Bool-cases (ltb n ndirect)) [
    | inl low ↦ rw low (bmap_direct d ip n s (ground arith) room)
    | inr high ↦
        let t : ltb (n - ndirect) nindirect ≡ true = ground arith in
        rw (high, t) (bmap_indirect d ip n s (ground arith) h room)
  ]
