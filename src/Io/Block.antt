-- ===== src/Io/Block.antt =====
-- kernel/fs.c: a write into a block of a file.
use os_212_assignment.Base.{
  ℕ, ◌-◌, ◌*◌, ◌/◌, ◌%◌, ◌≤◌, ◌<◌, ◌≡◌, ◌≢◌, ap, ◌∙◌, sym, refl, inl, inr, arith, ltb, ◌==◌, ==_iff,
  ne_of_false, Bool-cases, lt→ltb,
}
use os_212_assignment.Kernel.{update}
use os_212_assignment.Fs.{Super, Disk, Inode, bsize, ndirect, maxfile, get_uint}
use os_212_assignment.Fs.Alloc.{used}
use os_212_assignment.Fs.Used.{IsLaidOut, used-data, free_below, free_below-same}
use os_212_assignment.Fs.Content.{slot, content, Owned, IsSound, Keeps, byte_in}
use os_212_assignment.Fs.Grow.{slot_table, slot_same, kind}
use os_212_assignment.Io.Copy.{patched, place, inside, outside, patched_in, patched_out}

-- The bytes of a file are those of its blocks.
pub content_there :
    (d : Disk) (ip : Inode) (i a : ℕ)
    → i / bsize < maxfile
    → slot d ip (i / bsize) ≡ a
    → a ≢ 0
    → content d ip i ≡ d a (i % bsize)
unfolding content
content_there d ip i a h e z =
    rw (lt→ltb (i / bsize) maxfile h) (ap (λ x. byte_in d x (i % bsize)) e ∙ ground arith)

content_beyond : (d : Disk) (ip : Inode) (i : ℕ) → maxfile ≤ i / bsize → content d ip i ≡ 0
unfolding content
content_beyond d ip i h = ground arith

pub content_hole : (d : Disk) (ip : Inode) (i : ℕ) → slot d ip (i / bsize) ≡ 0 → content d ip i ≡ 0
unfolding content
content_hole d ip i e = rw e (ground arith)

module _ (sb : Super) (start : ℕ) where
  -- The laid out disk stays so where no block before the data is written.
  pub layout_kept :
      (d d' : Disk)
      → IsLaidOut sb start d
      → ((x : ℕ) → x < start → d' x ≡ d x)
      → IsLaidOut sb start d'
  layout_kept d d' l h = record {
    map_end = l.map_end;
    inodes_end = l.inodes_end;
    start_inside = l.start_inside;
    small = l.small;
    reserved = λ b q.
        let e = used-data sb d d' start b l (let k = l.start_inside in omega arith) h in
        rw e (l.reserved b q);
  }

  module _ (d : Disk) (ip : Inode) (n a : ℕ) (c : ℕ → ℕ) (s : IsSound sb start d ip)
      (b : n < maxfile) (e : slot d ip n ≡ a) (z : a ≢ 0) where
    abbrev written : Disk
    written = update d a c

    owner : Owned sb start d a
    owner = rw e at (s.owned n (rw e z))

    other : (x : ℕ) → a ≢ x → written x ≡ d x
    other x ne = ground arith

    low : (x : ℕ) → x < start → written x ≡ d x
    low x l = other x (let o = owner.behind in omega arith)

    used_same : (j : ℕ) → j < sb.size → used sb written j ≡ used sb d j
    used_same j l = used-data sb d written start j s.layout l low

    -- The indirect block is no block of bytes.
    table_other : ip.addrs ndirect ≢ 0 → written (ip.addrs ndirect) ≡ d (ip.addrs ndirect)
    table_other h =
        other (ip.addrs ndirect)
          (λ q. let k = s.apart n maxfile (e ∙ q ∙ sym (slot_table d ip)) (rw e z) in omega arith)

    slots_same : (m : ℕ) → slot written ip m ≡ slot d ip m
    slots_same m =
        slot_same d written ip ip m (kind m) (λ l. refl) refl
          (λ p q r. ap (λ f. get_uint f (4 * (m - ndirect))) (table_other r))

    owned_same : (x : ℕ) → Owned sb start d x → Owned sb start written x
    owned_same x o = record {
      behind = o.behind;
      inside = o.inside;
      in_use = let q = used_same x o.inside in rw q o.in_use;
    }

    pub write-Keeps : Keeps sb start d ip written ip
    write-Keeps = record {
      sound = record {
        layout = layout_kept d written s.layout low;
        owned = λ m h.
            let q = slots_same m in
            let h' : slot d ip m ≢ 0 = rw q at h in rw q (owned_same (slot d ip m) (s.owned m h'));
        apart =
            λ m k p h. s.apart m k (sym (slots_same m) ∙ p ∙ slots_same k) (rw (slots_same m) at h);
      };
      fields = refl;
      slots = λ m h. slots_same m;
      foreign = λ x f. (
        record {
          owner = owned_same x f.owner;
          not_here = λ m q. f.not_here m (sym (slots_same m) ∙ q);
        },
        other x (λ q. f.not_here n (e ∙ q)),
      );
    }

    pub write_count : free_below sb written sb.size ≡ free_below sb d sb.size
    write_count = free_below-same sb d written used_same

    content_here : (i : ℕ) → i / bsize ≡ n → content written ip i ≡ c (i % bsize)
    content_here i q =
        content_there written ip i a (omega arith) (slots_same (i / bsize) ∙ ap (slot d ip) q ∙ e) z
        ∙ ground arith

    content_same : (i : ℕ) → i / bsize ≢ n → content written ip i ≡ content d ip i
    content_same i q = elim (Bool-cases (ltb (i / bsize) maxfile)) [
      | inr far ↦
          content_beyond written ip i (ground arith) ∙ sym (content_beyond d ip i (ground arith))
      | inl near ↦ elim (Bool-cases (slot d ip (i / bsize) == 0)) [
        | inl none ↦
            let t : slot d ip (i / bsize) ≡ 0 = (==_iff (slot d ip (i / bsize)) 0).0 none in
            content_hole written ip i (slots_same (i / bsize) ∙ t) ∙ sym (content_hole d ip i t)
        | inr some ↦
            let t = ne_of_false (slot d ip (i / bsize)) 0 some in
            let l : i / bsize < maxfile = ground arith in
            content_there written ip i (slot d ip (i / bsize)) l (slots_same (i / bsize)) t
            ∙ (λ j.
                other (slot d ip (i / bsize)) (λ p. q (s.apart (i / bsize) n (sym p ∙ sym e) t)) j
                  (i % bsize))
            ∙ sym (content_there d ip i (slot d ip (i / bsize)) l refl t)
      ]
    ]

  -- m bytes of v written at off, within its block.
  pub content-write :
      (d : Disk) (ip : Inode) (off m a : ℕ) (v : ℕ → ℕ)
      → IsSound sb start d ip
      → off / bsize < maxfile
      → slot d ip (off / bsize) ≡ a
      → a ≢ 0
      → m ≤ bsize - off % bsize
      → (i : ℕ)
      → content (update d a (patched (d a) (off % bsize) m v)) ip i
        ≡ patched (content d ip) off m v i
  content-write d ip off m a v s b e z h i =
      let c = patched (d a) (off % bsize) m v in
      elim (place off m i) [
        | inside l r ↦
            content_here d ip (off / bsize) a c s b e z i (omega arith)
            ∙ patched_in (d a) (off % bsize) m v (i % bsize) (omega arith) (omega arith)
            ∙ ap v (omega arith)
            ∙ sym (patched_in (content d ip) off m v i l r)
        | outside o ↦
            elim (Bool-cases ((i / bsize) == (off / bsize))) [
              | inl same ↦
                  let q : i / bsize ≡ off / bsize = (==_iff (i / bsize) (off / bsize)).0 same in
                  content_here d ip (off / bsize) a c s b e z i q
                  ∙ patched_out (d a) (off % bsize) m v (i % bsize) (omega arith)
                  ∙ sym (content_there d ip i a (omega arith) (ap (slot d ip) q ∙ e) z)
              | inr other_block ↦
                  content_same d ip (off / bsize) a c s b e z i
                    (ne_of_false (i / bsize) (off / bsize) other_block)
            ]
            ∙ sym (patched_out (content d ip) off m v i o)
      ]
