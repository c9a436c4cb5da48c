-- ===== src/Fs/Alloc.antt =====
-- kernel/fs.c: which block balloc takes, and what it and bfree change.
use os_212_assignment.Base.{
  ℕ, zero, suc, ◌+◌, ◌-◌, ◌*◌, ◌/◌, ◌%◌, ◌^◌, ◌≤◌, ◌<◌, ◌≡◌, ◌≢◌, ap, ◌∙◌, refl, arith, ltb, ◌==◌,
  Bool-cases, inl, inr, none, some, lt→ltb, ==_iff, ne_of_false, true, false,
}
use os_212_assignment.Fs.{
  Super, Disk, ok, bit, put, bzero, bpb, bblock, bits_loop, balloc_loop, balloc,
}

module _ (sb : Super) where
  -- The bit of a block in the bitmap.
  unfoldable pub used : Disk → ℕ → ℕ
  used d b = bit (d (bblock sb b) (b % bpb / 8)) (b % bpb % 8)

  unfoldable pub mark : ℕ → Disk → Disk
  mark t d = put d (bblock sb t) (t % bpb / 8) (d (bblock sb t) (t % bpb / 8) + 2 ^ (t % bpb % 8))

  abbrev pub taken : ℕ → Disk → Disk
  taken t d = bzero t (mark t d)

  -- The first block that is free.
  pub record IsFirstFree (d : Disk) (t : ℕ) : Type 0 where
    pub inside : t < sb.size
    pub free : used d t ≡ 0
    pub first : (j : ℕ) → j < t → used d j ≢ 0

  -- The test of a round is the bit of block b + bi.
  round_used :
      (d : Disk) (b bi : ℕ)
      → b % bpb ≡ 0
      → bi < bpb
      → bit (d (bblock sb b) (bi / 8)) (bi % 8) ≡ used d (b + bi)
  unfolding used
  round_used d b bi e h =
      let q : b / bpb ≡ (b + bi) / bpb = omega arith in
      let r : bi ≡ (b + bi) % bpb = omega arith in
      λ i. bit (d (q i + sb.bmapstart) (r i / 8)) (r i % 8)

  round_taken :
      (d : Disk) (b bi : ℕ)
      → b % bpb ≡ 0
      → bi < bpb
      → bzero (b + bi) (put d (bblock sb b) (bi / 8) (d (bblock sb b) (bi / 8) + 2 ^ (bi % 8)))
        ≡ taken (b + bi) d
  unfolding mark
  round_taken d b bi e h =
      let q : b / bpb ≡ (b + bi) / bpb = omega arith in
      let r : bi ≡ (b + bi) % bpb = omega arith in
      λ i.
        bzero (b + bi)
          (put d (q i + sb.bmapstart) (r i / 8) (d (q i + sb.bmapstart) (r i / 8) + 2 ^ (r i % 8)))

  module _ (d : Disk) (t : ℕ) (f : IsFirstFree d t) where
    -- The loop of a block of the bitmap finds the first free block, if it is one of its blocks.
    bits_found :
        (r b bi : ℕ)
        → b % bpb ≡ 0
        → bi + r ≡ bpb
        → b + bi ≤ t
        → t < b + bpb
        → bits_loop sb r b bi d ≡ some (t, taken t d)
    unfolding bits_loop
    bits_found zero b bi e s l h = absurd (omega arith)
    bits_found (suc r) b bi e s l h =
        let lt : ltb (b + bi) sb.size ≡ true = lt→ltb (b + bi) sb.size (omega (arith, f.inside)) in
        let u = round_used d b bi e (omega arith) in
        elim (Bool-cases ((b + bi) == t)) [
          | inl same ↦
              let q : b + bi ≡ t = (==_iff (b + bi) t).0 same in
              let z : (bit (d (bblock sb b) (bi / 8)) (bi % 8) == 0) ≡ true =
                (==_iff _ 0).1 (u ∙ ap (used d) q ∙ f.free) in
              rw (lt, z) (rw (round_taken d b bi e (omega arith)) (rw q refl))
          | inr other ↦
              let ne : b + bi ≢ t = ne_of_false (b + bi) t other in
              let nz = f.first (b + bi) (omega arith) in
              let z : (bit (d (bblock sb b) (bi / 8)) (bi % 8) == 0) ≡ false =
                rw u (ground (arith, nz)) in
              rw (lt, z) (bits_found r b (bi + 1) e (omega arith) (omega arith) h)
        ]

    bits_none :
        (r b bi : ℕ) → b % bpb ≡ 0 → bi + r ≡ bpb → b + bpb ≤ t → bits_loop sb r b bi d ≡ none
    unfolding bits_loop
    bits_none zero b bi e s h = refl
    bits_none (suc r) b bi e s h =
        let lt : ltb (b + bi) sb.size ≡ true = lt→ltb (b + bi) sb.size (omega (arith, f.inside)) in
        let u = round_used d b bi e (omega arith) in
        let nz = f.first (b + bi) (omega arith) in
        let z : (bit (d (bblock sb b) (bi / 8)) (bi % 8) == 0) ≡ false =
          rw u (ground (arith, nz)) in
        rw (lt, z) (bits_none r b (bi + 1) e (omega arith) h)

    balloc_loop_lem :
        (r b : ℕ) → b % bpb ≡ 0 → b ≤ t → t < b + r * bpb → balloc_loop sb r b d ≡ ok (t, taken t d)
    unfolding balloc_loop
    balloc_loop_lem zero b e l h = absurd (omega arith)
    balloc_loop_lem (suc r) b e l h = elim (Bool-cases (ltb t (b + bpb))) [
      | inl here ↦ rw (bits_found bpb b 0 e (omega arith) (omega arith) (ground arith), balloc_loop)
      | inr later ↦
          let past : b + bpb ≤ t = ground arith in
          rw (bits_none bpb b 0 e (omega arith) past, balloc_loop)
            (balloc_loop_lem r (b + bpb) (omega arith) past (omega arith))
    ]

    pub balloc-taken : balloc sb d ≡ ok (t, taken t d)
    unfolding balloc
    balloc-taken =
        balloc_loop_lem ((sb.size + (bpb - 1)) / bpb) 0 (omega arith) (omega arith)
          (omega (arith, f.inside))
