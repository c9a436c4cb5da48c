-- ===== src/Fs/Fresh.antt =====
-- kernel/fs.c: the disk after balloc, where the blocks before the data are marked as used.
use os_212_assignment.Base.{ℕ, suc, ◌≤◌, ◌<◌, ◌≡◌, ◌≢◌, ◌∙◌, arith, ltb, Bool-cases, inl, inr}
use os_212_assignment.Kernel.{update}
use os_212_assignment.Fs.{Super, Disk, ok, balloc}
use os_212_assignment.Fs.Alloc.{used, mark, taken, IsFirstFree, balloc-taken}
use os_212_assignment.Fs.Used.{
  IsLaidOut, used-mark_self, used-mark_ne, used-data, free_below, first_free, free_below-taken,
}

-- Block t is allocated between two states of the disk.
pub record IsAllocated (sb : Super) (start : ℕ) (d d' : Disk) (t : ℕ) : Type 0 where
  pub inside : t < sb.size
  pub behind : start ≤ t
  pub was_free : used sb d t ≡ 0
  pub is_used : used sb d' t ≢ 0
  pub others : (j : ℕ) → j < sb.size → t ≢ j → used sb d' j ≡ used sb d j
  pub zeroed : (o : ℕ) → d' t o ≡ 0
  pub rest : (x : ℕ) → start ≤ x → t ≢ x → d' x ≡ d x
  pub layout : IsLaidOut sb start d'
  pub count : free_below sb d sb.size ≡ suc (free_below sb d' sb.size)

module _ (sb : Super) (start : ℕ) where
  update_ne : (d : Disk) (t x : ℕ) (v : ℕ → ℕ) → t ≢ x → update d t v x ≡ d x
  update_ne d t x v e = ground arith

  mark_data :
      (d : Disk) (t x : ℕ) → IsLaidOut sb start d → t < sb.size → start ≤ x → mark sb t d x ≡ d x
  unfolding mark
  mark_data d t x l h b = let m = l.map_end in ground arith

  module _ (d : Disk) (l : IsLaidOut sb start d) (t : ℕ) (f : IsFirstFree sb d t) where
    behind : start ≤ t
    behind = elim (Bool-cases (ltb t start)) [
      | inl low ↦ absurd (l.reserved t (ground arith) f.free)
      | inr high ↦ ground arith
    ]

    -- The block that is cleared holds no bits of the bitmap.
    used-taken : (j : ℕ) → j < sb.size → used sb (taken sb t d) j ≡ used sb (mark sb t d) j
    used-taken j h =
        used-data sb (mark sb t d) (taken sb t d) start j
          record {
            map_end = l.map_end;
            inodes_end = l.inodes_end;
            start_inside = l.start_inside;
            small = l.small;
            reserved = λ b q.
                let e = used-mark_ne sb d t b f.free (omega (arith, behind)) in
                rw e (l.reserved b q);
          }
          h (λ x q. update_ne (mark sb t d) t x (λ _. 0) (omega (arith, behind)))

    taken_others : (j : ℕ) → j < sb.size → t ≢ j → used sb (taken sb t d) j ≡ used sb d j
    taken_others j h e = used-taken j h ∙ used-mark_ne sb d t j f.free e

    taken_self : used sb (taken sb t d) t ≢ 0
    taken_self = let e = used-taken t f.inside ∙ used-mark_self sb d t f.free in omega arith

    pub taken-IsAllocated : IsAllocated sb start d (taken sb t d) t
    taken-IsAllocated = record {
      inside = f.inside;
      behind = behind;
      was_free = f.free;
      is_used = taken_self;
      others = taken_others;
      zeroed = λ o. ground arith;
      rest = λ x b e. update_ne (mark sb t d) t x (λ _. 0) e ∙ mark_data d t x l f.inside b;
      layout = record {
        map_end = l.map_end;
        inodes_end = l.inodes_end;
        start_inside = l.start_inside;
        small = l.small;
        reserved = λ b q.
            let e = taken_others b (omega (arith, l.start_inside)) (omega (arith, behind)) in
            rw e (l.reserved b q);
      };
      count =
          free_below-taken sb d (taken sb t d) t sb.size f.free taken_self taken_others f.inside;
    }

  -- With a free block balloc returns.
  pub balloc-IsAllocated :
      (d : Disk)
      → IsLaidOut sb start d
      → 0 < free_below sb d sb.size
      → (t : ℕ) × (d' : Disk) × (balloc sb d ≡ ok (t, d')) × IsAllocated sb start d d' t
  balloc-IsAllocated d l h =
      let r = first_free sb d h in
      (r.0, taken sb r.0 d, balloc-taken sb d r.0 r.1, taken-IsAllocated d l r.0 r.1)
