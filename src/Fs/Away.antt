-- ===== src/Fs/Away.antt =====
-- kernel/fs.c: writes to an inode on disk, and changes of other fields than the addresses, keep a file.
use os_212_assignment.Base.{
  ℕ, ◌-◌, ◌*◌, ◌/◌, ◌%◌, ◌≤◌, ◌<◌, ◌≡◌, ◌≢◌, ◌∙◌, refl, sym, arith, ltb, ◌==◌, if◌then◌else◌,
  Bool-cases, inl, inr, ne_of_false,
}
use os_212_assignment.Fs.{bblock, Super, Disk, Inode, bsize, ndirect, maxfile, get_uint}
use os_212_assignment.Fs.Alloc.{used}
use os_212_assignment.Fs.Used.{used-block}
use os_212_assignment.Fs.Content.{slot, content, Owned, IsSound, IsForeign, Keeps}

-- The inode on disk lies outside what a file owns: a write there changes no byte of the file.
module _ (sb : Super) (start : ℕ) (d d' : Disk) (ip : Inode) (k : ℕ) (s : IsSound sb start d ip)
    (b : k < sb.bmapstart) (same : (x : ℕ) → k ≢ x → d' x ≡ d x) where
  used_away : (j : ℕ) → used sb d' j ≡ used sb d j
  used_away j = used-block sb d d' j (same (bblock sb j) (omega arith))

  data_away : (x : ℕ) → start ≤ x → d' x ≡ d x
  data_away x l = same x (let m = s.layout.map_end in omega arith)

  slot_away : (n : ℕ) → slot d' ip n ≡ slot d ip n
  unfolding slot
  slot_away n = elim (Bool-cases (ip.addrs ndirect == 0)) [
    | inl none ↦ rw none refl
    | inr some ↦
        let o = s.owned maxfile (ne_of_false (ip.addrs ndirect) 0 some) in
        let q = data_away (ip.addrs ndirect) o.behind in
        λ i.
          if ltb n ndirect
          then ip.addrs n
          else if ltb n maxfile
          then if ip.addrs ndirect == 0 then 0 else get_uint (q i) (4 * (n - ndirect))
          else if n == maxfile
          then ip.addrs ndirect
          else 0
  ]

  owned_away : (x : ℕ) → Owned sb start d x → Owned sb start d' x
  owned_away x o = record {
    behind = o.behind;
    inside = o.inside;
    in_use = let q = used_away x in rw q o.in_use;
  }

  pub Keeps-inode_block : Keeps sb start d ip d' ip
  Keeps-inode_block = record {
    sound = record {
      layout = record {
        map_end = s.layout.map_end;
        inodes_end = s.layout.inodes_end;
        start_inside = s.layout.start_inside;
        small = s.layout.small;
        reserved = λ x l. let q = used_away x in rw q (s.layout.reserved x l);
      };
      owned = λ m h.
          let q = slot_away m in
          let h' : slot d ip m ≢ 0 = rw q at h in rw q (owned_away (slot d ip m) (s.owned m h'));
      apart = λ m n p h. s.apart m n (sym (slot_away m) ∙ p ∙ slot_away n) (rw (slot_away m) at h);
    };
    fields = refl;
    slots = λ n h. slot_away n;
    foreign = λ x f. (
      record {
        owner = owned_away x f.owner;
        not_here = λ m q. f.not_here m (sym (slot_away m) ∙ q);
      },
      data_away x f.owner.behind,
    );
  }

  pub content_inode_block : (i : ℕ) → content d' ip i ≡ content d ip i
  unfolding content
  content_inode_block i =
      let q = slot_away (i / bsize) in
      rw q (elim (Bool-cases (slot d ip (i / bsize) == 0)) [
        | inl none ↦ rw none refl
        | inr some ↦
            let o = s.owned (i / bsize) (ne_of_false (slot d ip (i / bsize)) 0 some) in
            let r = data_away (slot d ip (i / bsize)) o.behind in
            λ j.
              if ltb (i / bsize) maxfile
              then if slot d ip (i / bsize) == 0 then 0 else r j (i % bsize)
              else 0
      ])

-- Only the addresses of an inode say what its file holds.
module _ (sb : Super) (start : ℕ) (d : Disk) (ip jp : Inode) (e : jp.addrs ≡ ip.addrs) where
  pub slot_fields : (n : ℕ) → slot d jp n ≡ slot d ip n
  unfolding slot
  slot_fields n = rw e refl

  pub content_fields : (i : ℕ) → content d jp i ≡ content d ip i
  unfolding content
  content_fields i = rw (slot_fields (i / bsize)) refl

  pub IsSound-fields : IsSound sb start d ip → IsSound sb start d jp
  IsSound-fields s = record {
    layout = s.layout;
    owned =
        λ n h. let q = slot_fields n in let h' : slot d ip n ≢ 0 = rw q at h in rw q (s.owned n h');
    apart =
        λ m n p h. s.apart m n (sym (slot_fields m) ∙ p ∙ slot_fields n) (rw (slot_fields m) at h);
  }

  pub IsForeign-fields : (x : ℕ) → IsForeign sb start d ip x → IsForeign sb start d jp x
  IsForeign-fields x f = record {
    owner = f.owner;
    not_here = λ n q. f.not_here n (sym (slot_fields n) ∙ q);
  }
