-- ===== src/Fs/Used.antt =====
-- kernel/fs.c: the bitmap after balloc and bfree, and the number of free blocks.
use os_212_assignment.Base.{
  ℕ, zero, suc, ◌+◌, ◌-◌, ◌/◌, ◌%◌, ◌^◌, ◌≤◌, ◌<◌, ◌≡◌, ◌≢◌, ap, ◌∙◌, refl, sym, arith, ltb, ◌==◌,
  if◌then◌else◌, Bool-cases, inl, inr, ==_iff, ne_of_false, ◌⊎◌,
}
use os_212_assignment.Fs.{Super, Disk, ok, bit, put, bpb, bblock, bfree}
use os_212_assignment.Fs.Bits.{bit-set_ne, bit-set_self, bit-clear_ne, bit-clear_self}
use os_212_assignment.Fs.Alloc.{used, mark, IsFirstFree}

pub put_self : (d : Disk) (b i v : ℕ) → put d b i v b i ≡ v
put_self d b i v = ground arith

pub put_ne : (d : Disk) (b i v x y : ℕ) → (b ≢ x) ⊎ (i ≢ y) → put d b i v x y ≡ d x y
put_ne d b i v x y e = ground arith

-- The first block of data, behind the bitmap. All blocks before it are marked as used.
pub record IsLaidOut (sb : Super) (start : ℕ) (d : Disk) : Type 0 where
  pub map_end : sb.size / bpb + sb.bmapstart < start
  pub inodes_end : sb.ninodes / 16 + sb.inodestart < sb.bmapstart
  pub start_inside : start ≤ sb.size
  pub small : sb.size ≤ 2 ^ 32
  pub reserved : (b : ℕ) → b < start → used sb d b ≢ 0

module _ (sb : Super) where
  -- Two blocks with the same byte of the bitmap have different bits of it.
  apart :
      (t j : ℕ)
      → t ≢ j
      → (bblock sb t ≢ bblock sb j)
        ⊎ (t % bpb / 8 ≢ j % bpb / 8)
        ⊎ ((bblock sb t ≡ bblock sb j) × (t % bpb / 8 ≡ j % bpb / 8) × (t % bpb % 8 ≢ j % bpb % 8))
  apart t j e = omega arith

  pub used-mark_self : (d : Disk) (t : ℕ) → used sb d t ≡ 0 → used sb (mark sb t d) t ≡ 1
  unfolding used mark
  used-mark_self d t h =
      ap (λ x. bit x (t % bpb % 8)) (put_self d (bblock sb t) (t % bpb / 8) _)
      ∙ bit-set_self (t % bpb % 8) _ h

  -- A changed byte with the bits of other blocks as they were.
  other_bit :
      (d : Disk) (t j v : ℕ)
      → t ≢ j
      → (t % bpb % 8 ≢ j % bpb % 8
          → bit v (j % bpb % 8) ≡ bit (d (bblock sb t) (t % bpb / 8)) (j % bpb % 8))
      → used sb (put d (bblock sb t) (t % bpb / 8) v) j ≡ used sb d j
  unfolding used
  other_bit d t j v e h = elim (apart t j e) [
    | inl b ↦ ap (λ x. bit x (j % bpb % 8)) (put_ne d _ _ v _ _ (inl b))
    | inr (inl b) ↦ ap (λ x. bit x (j % bpb % 8)) (put_ne d _ _ v _ _ (inr b))
    | inr (inr (p, q, r)) ↦
        ap (λ x. bit x (j % bpb % 8)) (λ i. put d (bblock sb t) (t % bpb / 8) v (sym p i) (sym q i))
        ∙ ap (λ x. bit x (j % bpb % 8)) (put_self d (bblock sb t) (t % bpb / 8) v)
        ∙ h r
        ∙ λ i. bit (d (p i) (q i)) (j % bpb % 8)
  ]

  pub used-mark_ne :
      (d : Disk) (t j : ℕ) → used sb d t ≡ 0 → t ≢ j → used sb (mark sb t d) j ≡ used sb d j
  unfolding used mark
  used-mark_ne d t j h e = other_bit d t j _ e (λ r. bit-set_ne _ _ _ h r)

  -- A block of data is no block of the bitmap.
  pub used-data :
      (d d' : Disk) (start j : ℕ)
      → IsLaidOut sb start d
      → j < sb.size
      → ((x : ℕ) → x < start → d' x ≡ d x)
      → used sb d' j ≡ used sb d j
  unfolding used
  used-data d d' start j l h same =
      let below : bblock sb j < start = omega arith in
      λ i. bit (same (bblock sb j) below i (j % bpb / 8)) (j % bpb % 8)

  -- bfree of a block in use clears its bit and no other one.
  pub bfree-cleared :
      (d : Disk) (t : ℕ)
      → used sb d t ≢ 0
      → (d' : Disk) × (bfree sb t d ≡ ok d')
        × (used sb d' t ≡ 0)
        × ((j : ℕ) → t ≢ j → used sb d' j ≡ used sb d j)
        × ((x : ℕ) → bblock sb t ≢ x → d' x ≡ d x)
  unfolding used bfree
  bfree-cleared d t h =
      let v = d (bblock sb t) (t % bpb / 8) - 2 ^ (t % bpb % 8) in
      (
        put d (bblock sb t) (t % bpb / 8) v,
        ground arith,
        ap (λ x. bit x (t % bpb % 8)) (put_self d (bblock sb t) (t % bpb / 8) _)
            ∙ bit-clear_self (t % bpb % 8) _ h,
        λ j e. other_bit d t j v e (λ r. bit-clear_ne _ _ _ h r),
        λ x e. ground arith,
      )

  -- The number of free blocks below n.
  unfoldable pub free_below : Disk → ℕ → ℕ
  free_below d zero = 0
  free_below d (suc n) = free_below d n + (if used sb d n == 0 then 1 else 0)

  none_free : (d : Disk) (n j : ℕ) → free_below d n ≡ 0 → j < n → used sb d j ≢ 0
  unfolding free_below
  none_free d zero j e h = absurd (omega arith)
  none_free d (suc n) j e h = elim (Bool-cases (j == n)) [
    | inl same ↦
        let p : j ≡ n = (==_iff j n).0 same in let nz : used sb d n ≢ 0 = ground arith in rw p nz
    | inr other ↦ let ne = ne_of_false j n other in none_free d n j (omega arith) (omega arith)
  ]

  -- Where a block is free there is a first one.
  least_free : (d : Disk) (n : ℕ) → n ≤ sb.size → 0 < free_below d n → (t : ℕ) × IsFirstFree sb d t
  unfolding free_below
  least_free d zero l h = absurd (omega arith)
  least_free d (suc n) l h = elim (Bool-cases (ltb 0 (free_below d n))) [
    | inl more ↦ least_free d n (omega arith) (ground arith)
    | inr done ↦ (
      n,
      record { inside = l; free = ground arith; first = λ j b. none_free d n j (ground arith) b },
    )
  ]

  pub first_free : (d : Disk) → 0 < free_below d sb.size → (t : ℕ) × IsFirstFree sb d t
  first_free d h = least_free d sb.size (omega arith) h

  same_count :
      (d d' : Disk) (n : ℕ)
      → ((j : ℕ) → j < n → used sb d' j ≡ used sb d j)
      → free_below d' n ≡ free_below d n
  unfolding free_below
  same_count d d' zero h = refl
  same_count d d' (suc n) h =
      let ih = same_count d d' n (λ j b. h j (omega arith)) in
      let e = h n (omega arith) in rw (ih, e)

  -- A block that is no longer free is one less.
  pub free_below-taken :
      (d d' : Disk) (t n : ℕ)
      → used sb d t ≡ 0
      → used sb d' t ≢ 0
      → ((j : ℕ) → j < n → t ≢ j → used sb d' j ≡ used sb d j)
      → t < n
      → free_below d n ≡ suc (free_below d' n)
  unfolding free_below
  free_below-taken d d' t zero z u h l = absurd (omega arith)
  free_below-taken d d' t (suc n) z u h l = elim (Bool-cases (t == n)) [
    | inl same ↦
        let p : t ≡ n = (==_iff t n).0 same in
        let c = same_count d d' n (λ j b. h j (omega arith) (omega arith)) in
        let z' : used sb d n ≡ 0 = rw p at z in
        let u' : used sb d' n ≢ 0 = rw p at u in ground arith
    | inr other ↦
        let ne = ne_of_false t n other in
        let c = free_below-taken d d' t n z u (λ j b. h j (omega arith)) (omega arith) in
        let e = h n (omega arith) ne in rw (e, c) (omega arith)
  ]

  pub free_below-same :
      (d d' : Disk)
      → ((j : ℕ) → j < sb.size → used sb d' j ≡ used sb d j)
      → free_below d' sb.size ≡ free_below d sb.size
  free_below-same d d' h = same_count d d' sb.size h

  pub used-block :
      (d d' : Disk) (j : ℕ) → d' (bblock sb j) ≡ d (bblock sb j) → used sb d' j ≡ used sb d j
  unfolding used
  used-block d d' j e = λ i. bit (e i (j % bpb / 8)) (j % bpb % 8)
