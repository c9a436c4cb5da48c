-- ===== src/Fs/Map.antt =====
-- kernel/fs.c: bmap gives the address of a block of a file, and allocates what is missing.
use os_212_assignment.Base.{
  ℕ, ◌+◌, ◌-◌, ◌*◌, ◌≤◌, ◌<◌, ◌≡◌, ◌≢◌, ap, ◌∙◌, refl, sym, arith, ==_iff, ◌⊎◌,
}
use os_212_assignment.Kernel.{update}
use os_212_assignment.Fs.{
  Super, Disk, Inode, ok, ndirect, maxfile, get_uint, put_uint, set_addr, balloc, own, entry,
}
use os_212_assignment.Fs.Alloc.{used}
use os_212_assignment.Fs.Used.{used-data, free_below, free_below-same}
use os_212_assignment.Fs.Uint.{get_uint-put_uint, get_uint-put_uint_ne}
use os_212_assignment.Fs.Fresh.{IsAllocated}
use os_212_assignment.Fs.Content.{
  slot, content, Owned, IsSound, Grows, Grows-Keeps, content-Grows, Keeps, Keeps-refl,
}
use os_212_assignment.Fs.Grow.{slot_table, slot_entry, slot_same, kind, table_owned, table_kept}

-- The address of the nth block, which the file now has; its bytes are as before, where a block that
-- was missing read as zeros. At most two blocks are allocated, and none where the block was there.
pub record BmapEnds (sb : Super) (start : ℕ) (d : Disk) (ip : Inode) (n a : ℕ) (d' : Disk)
    (ip' : Inode) : Type 0 where
  pub keeps : Keeps sb start d ip d' ip'
  pub same : (i : ℕ) → content d' ip' i ≡ content d ip i
  pub address : slot d' ip' n ≡ a
  pub there : a ≢ 0
  pub count : free_below sb d sb.size ≤ free_below sb d' sb.size + 2
  pub found : slot d ip n ≢ 0 → (d' ≡ d) × (ip' ≡ ip)

-- Room for what a missing block needs.
abbrev pub HasRoom : Super → Disk → Inode → ℕ → Type 0
HasRoom sb d ip n = (slot d ip n ≢ 0) ⊎ (2 ≤ free_below sb d sb.size)

module _ (sb : Super) where
  pub own-found :
      (ip : Inode) (k : ℕ) (d : Disk) → ip.addrs k ≢ 0 → own sb ip k d ≡ ok (ip.addrs k, ip, d)
  unfolding own
  own-found ip k d h = ground arith

  pub own-fresh :
      (ip : Inode) (k : ℕ) (d : Disk) (t : ℕ) (d' : Disk)
      → ip.addrs k ≡ 0
      → balloc sb d ≡ ok (t, d')
      → own sb ip k d ≡ ok (t, set_addr ip k t, d')
  unfolding own
  own-fresh ip k d t d' z e = rw ((==_iff (ip.addrs k) 0).1 z, e) refl

  pub entry-found :
      (ip : Inode) (table bn : ℕ) (d : Disk)
      → get_uint (d table) (4 * bn) ≢ 0
      → entry sb ip table bn d ≡ ok (get_uint (d table) (4 * bn), ip, d)
  unfolding entry
  entry-found ip table bn d h = ground arith

  pub entry-fresh :
      (ip : Inode) (table bn : ℕ) (d : Disk) (t : ℕ) (d' : Disk)
      → get_uint (d table) (4 * bn) ≡ 0
      → balloc sb d ≡ ok (t, d')
      → entry sb ip table bn d ≡ ok (t, ip, update d' table (put_uint (d' table) (4 * bn) t))
  unfolding entry
  entry-fresh ip table bn d t d' z e = rw ((==_iff (get_uint (d table) (4 * bn)) 0).1 z, e) refl

  module _ (start : ℕ) where
    pub ends_found :
        (d : Disk) (ip : Inode) (n a : ℕ)
        → IsSound sb start d ip
        → slot d ip n ≡ a
        → a ≢ 0
        → BmapEnds sb start d ip n a d ip
    ends_found d ip n a s e h = record {
      keeps = Keeps-refl sb start d ip s;
      same = λ i. refl;
      address = e;
      there = h;
      count = omega arith;
      found = λ q. (refl, refl);
    }

    pub ends_fresh :
        (d : Disk) (ip : Inode) (n t : ℕ) (d' : Disk) (ip' : Inode)
        → IsSound sb start d ip
        → Grows sb start d ip d' ip' n t
        → t ≢ 0
        → free_below sb d sb.size ≤ free_below sb d' sb.size + 2
        → BmapEnds sb start d ip n t d' ip'
    ends_fresh d ip n t d' ip' s g p c = record {
      keeps = Grows-Keeps sb start d ip d' ip' n t s g;
      same = content-Grows sb start d ip d' ip' n t s g;
      address = g.new;
      there = p;
      count = c;
      found = λ q. absurd (q g.was_empty);
    }

    module _ (d : Disk) (ip : Inode) (s : IsSound sb start d ip) (h : ip.addrs ndirect ≢ 0) where
      owner : Owned sb start d (ip.addrs ndirect)
      owner = table_owned sb start d ip s h

      module _ (n t : ℕ) (d' : Disk) (al : IsAllocated sb start d d' t) where
        unfoldable pub written : Disk
        written =
            update d' (ip.addrs ndirect) (put_uint (d' (ip.addrs ndirect)) (4 * (n - ndirect)) t)

        not_table : t ≢ ip.addrs ndirect
        not_table e = owner.in_use (ap (used sb d) (sym e) ∙ al.was_free)

        written_ne : (x : ℕ) → ip.addrs ndirect ≢ x → written x ≡ d' x
        unfolding written
        written_ne x e = ground arith

        used-written : (j : ℕ) → j < sb.size → used sb written j ≡ used sb d' j
        used-written j b =
            used-data sb d' written start j al.layout b
              (λ x l. written_ne x (let o = owner.behind in omega arith))

        written_table :
            written (ip.addrs ndirect) ≡ put_uint (d' (ip.addrs ndirect)) (4 * (n - ndirect)) t
        unfolding written
        written_table = ground arith

        entry_other :
            (m : ℕ)
            → ndirect ≤ m
            → ndirect ≤ n
            → m ≢ n
            → get_uint (written (ip.addrs ndirect)) (4 * (m - ndirect))
              ≡ get_uint (d (ip.addrs ndirect)) (4 * (m - ndirect))
        entry_other m a b e =
            ap (λ f. get_uint f (4 * (m - ndirect))) written_table
            ∙ get_uint-put_uint_ne (d' (ip.addrs ndirect)) (4 * (n - ndirect)) t (4 * (m - ndirect))
                (omega arith)
            ∙ ap (λ f. get_uint f (4 * (m - ndirect))) (table_kept sb start d ip s d' t al h)

        pub entry-Grows :
            ndirect ≤ n
            → n < maxfile
            → get_uint (d (ip.addrs ndirect)) (4 * (n - ndirect)) ≡ 0
            → Grows sb start d ip written ip n t
        entry-Grows a b z = record {
          alloc_inside = al.inside;
          alloc_behind = al.behind;
          was_free = al.was_free;
          is_used = let e = used-written t al.inside in rw e al.is_used;
          others = λ j l e. used-written j l ∙ al.others j l e;
          layout = record {
            map_end = al.layout.map_end;
            inodes_end = al.layout.inodes_end;
            start_inside = al.layout.start_inside;
            small = al.layout.small;
            reserved = λ x l.
                let e = used-written x (let q = al.layout.start_inside in omega arith) in
                rw e (al.layout.reserved x l);
          };
          was_empty = slot_entry d ip n a b h ∙ z;
          new =
              slot_entry written ip n a b h
              ∙ ap (λ f. get_uint f (4 * (n - ndirect))) written_table
              ∙ get_uint-put_uint (d' (ip.addrs ndirect)) (4 * (n - ndirect)) t
                  (let q = al.inside in let r = al.layout.small in omega arith);
          old = λ m e.
              slot_same d written ip ip m (kind m) (λ l. refl) refl (λ p q r. entry_other m p a e);
          zeroed = λ o. (λ i. written_ne t (λ e. not_table (sym e)) i o) ∙ al.zeroed o;
          rest = λ x l e f. written_ne x (λ q. f (slot_table d ip ∙ q)) ∙ al.rest x l e;
          fields = refl;
        }

        pub count_written : free_below sb written sb.size ≡ free_below sb d' sb.size
        count_written = free_below-same sb d' written used-written
