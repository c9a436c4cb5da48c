-- ===== src/Fs/Grow.antt =====
-- kernel/fs.c: the three places where bmap puts the address of a block that it allocates.
use os_212_assignment.Base.{
  ℕ, ◌-◌, ◌*◌, ◌≤◌, ◌<◌, ◌≡◌, ◌≢◌, ap, ◌∙◌, refl, sym, arith, ltb, ◌==◌, Bool-cases, inl, inr,
  ne_of_false, lt→ltb, ==_iff,
}
use os_212_assignment.Fs.{Super, Disk, Inode, ndirect, maxfile, get_uint, set_addr}
use os_212_assignment.Fs.Alloc.{used}
use os_212_assignment.Fs.Uint.{get_uint-zero}
use os_212_assignment.Fs.Fresh.{IsAllocated}
use os_212_assignment.Fs.Content.{slot, Owned, IsSound, Grows}

-- The three kinds of slots.
pub slot_direct : (d : Disk) (ip : Inode) (n : ℕ) → n < ndirect → slot d ip n ≡ ip.addrs n
unfolding slot
slot_direct d ip n h = rw (lt→ltb n ndirect h) refl

pub slot_table : (d : Disk) (ip : Inode) → slot d ip maxfile ≡ ip.addrs ndirect
unfolding slot
slot_table d ip = refl

pub slot_entry :
    (d : Disk) (ip : Inode) (n : ℕ)
    → ndirect ≤ n
    → n < maxfile
    → ip.addrs ndirect ≢ 0
    → slot d ip n ≡ get_uint (d (ip.addrs ndirect)) (4 * (n - ndirect))
unfolding slot
slot_entry d ip n h l e = ground arith

pub slot_no_table :
    (d : Disk) (ip : Inode) (n : ℕ)
    → ndirect ≤ n
    → n < maxfile
    → ip.addrs ndirect ≡ 0
    → slot d ip n ≡ 0
unfolding slot
slot_no_table d ip n h l e = ground arith

pub slot_beyond : (d : Disk) (ip : Inode) (n : ℕ) → maxfile < n → slot d ip n ≡ 0
unfolding slot
slot_beyond d ip n h = ground arith

pub data Kind (n : ℕ) : Type 0 where
  direct : n < ndirect → Kind n
  indirect : ndirect ≤ n → n < maxfile → Kind n
  table : n ≡ maxfile → Kind n
  beyond : maxfile < n → Kind n

pub kind : (n : ℕ) → Kind n
kind n = elim (Bool-cases (ltb n ndirect)) [
  | inl a ↦ direct (ground arith)
  | inr a ↦ elim (Bool-cases (ltb n maxfile)) [
    | inl b ↦ indirect (ground arith) (ground arith)
    | inr b ↦ elim (Bool-cases (n == maxfile)) [
      | inl c ↦ table ((==_iff n maxfile).0 c)
      | inr c ↦ beyond (let e = ne_of_false n maxfile c in ground arith)
    ]
  ]
]

-- Slots are equal where the addresses and the entries of the indirect block are.
pub slot_same :
    (d d' : Disk) (ip ip' : Inode) (n : ℕ) (k : Kind n)
    → (n < ndirect → ip'.addrs n ≡ ip.addrs n)
    → ip'.addrs ndirect ≡ ip.addrs ndirect
    → (ndirect ≤ n
        → n < maxfile
        → ip.addrs ndirect ≢ 0
        → get_uint (d' (ip.addrs ndirect)) (4 * (n - ndirect))
          ≡ get_uint (d (ip.addrs ndirect)) (4 * (n - ndirect)))
    → slot d' ip' n ≡ slot d ip n
slot_same d d' ip ip' n (direct h) a t b = slot_direct d' ip' n h ∙ a h ∙ sym (slot_direct d ip n h)
slot_same d d' ip ip' n (indirect h l) a t b = elim (Bool-cases (ip.addrs ndirect == 0)) [
  | inl none ↦
      let z : ip.addrs ndirect ≡ 0 = (==_iff _ 0).0 none in
      slot_no_table d' ip' n h l (t ∙ z) ∙ sym (slot_no_table d ip n h l z)
  | inr some ↦
      let e = ne_of_false (ip.addrs ndirect) 0 some in
      slot_entry d' ip' n h l (rw t e) ∙ rw t (b h l e) ∙ sym (slot_entry d ip n h l e)
]
slot_same d d' ip ip' n (table e) a t b =
    ap (slot d' ip') e ∙ slot_table d' ip' ∙ t ∙ sym (slot_table d ip) ∙ ap (slot d ip) (sym e)
slot_same d d' ip ip' n (beyond h) a t b = slot_beyond d' ip' n h ∙ sym (slot_beyond d ip n h)

module _ (sb : Super) (start : ℕ) where
  module _ (d : Disk) (ip : Inode) (s : IsSound sb start d ip) where
    pub table_owned : ip.addrs ndirect ≢ 0 → Owned sb start d (ip.addrs ndirect)
    table_owned h = rw (slot_table d ip) at (s.owned maxfile (rw (slot_table d ip) h))

    module _ (d' : Disk) (t : ℕ) (al : IsAllocated sb start d d' t) where
      pub fresh_pos : t ≢ 0
      fresh_pos e = let b = al.behind in let m = s.layout.map_end in omega arith

      pub table_kept : ip.addrs ndirect ≢ 0 → d' (ip.addrs ndirect) ≡ d (ip.addrs ndirect)
      table_kept h =
          let o = table_owned h in
          al.rest (ip.addrs ndirect) o.behind (λ e. o.in_use (ap (used sb d) (sym e) ∙ al.was_free))

      pub direct-Grows :
          (n : ℕ) → n < ndirect → ip.addrs n ≡ 0 → Grows sb start d ip d' (set_addr ip n t) n t
      direct-Grows n h z =
          let jp = set_addr ip n t in
          record {
            alloc_inside = al.inside;
            alloc_behind = al.behind;
            was_free = al.was_free;
            is_used = al.is_used;
            others = al.others;
            layout = al.layout;
            was_empty = slot_direct d ip n h ∙ z;
            new = slot_direct d' jp n h ∙ ground arith;
            old = λ m e.
                slot_same d d' ip jp m (kind m) (λ l. ground arith) (ground arith)
                  (λ a b c. ap (λ f. get_uint f (4 * (m - ndirect))) (table_kept c));
            zeroed = al.zeroed;
            rest = λ x b e f. al.rest x b e;
            fields = refl;
          }

      -- The fresh block has no entries yet.
      table_old :
          (m : ℕ) (k : Kind m)
          → ip.addrs ndirect ≡ 0
          → m ≢ maxfile
          → slot d' (set_addr ip ndirect t) m ≡ slot d ip m
      table_old m (direct h) z e =
          slot_direct d' (set_addr ip ndirect t) m h ∙ ground arith ∙ sym (slot_direct d ip m h)
      table_old m (indirect h l) z e =
          slot_entry d' (set_addr ip ndirect t) m h l fresh_pos
          ∙ get_uint-zero (d' t) (4 * (m - ndirect)) al.zeroed
          ∙ sym (slot_no_table d ip m h l z)
      table_old m (table q) z e = absurd (e q)
      table_old m (beyond h) z e =
          slot_beyond d' (set_addr ip ndirect t) m h ∙ sym (slot_beyond d ip m h)

      pub table-Grows :
          ip.addrs ndirect ≡ 0 → Grows sb start d ip d' (set_addr ip ndirect t) maxfile t
      table-Grows z = record {
        alloc_inside = al.inside;
        alloc_behind = al.behind;
        was_free = al.was_free;
        is_used = al.is_used;
        others = al.others;
        layout = al.layout;
        was_empty = slot_table d ip ∙ z;
        new = slot_table d' (set_addr ip ndirect t);
        old = λ m e. table_old m (kind m) z e;
        zeroed = al.zeroed;
        rest = λ x b e f. al.rest x b e;
        fields = refl;
      }
