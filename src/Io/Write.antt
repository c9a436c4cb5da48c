-- ===== src/Io/Write.antt =====
-- kernel/fs.c: what writei does to the bytes of a file.
use os_212_assignment.Base.{
  ℕ, zero, suc, ◌+◌, ◌-◌, ◌*◌, ◌/◌, ◌%◌, ◌^◌, ◌≤◌, ◌<◌, ◌≡◌, ◌≢◌, ap, ◌∙◌, sym, refl, ◌⊎◌, inl, inr,
  arith, ltb, if◌then◌else◌, Bool-cases, lt→ltb, Option, some, false, ◌||◌,
}
use os_212_assignment.Base.Int.{pos}
use os_212_assignment.Kernel.{update}
use os_212_assignment.Fs.{Super, Disk, Inode, ok, bsize, maxfile, iblock, iupdate}
use os_212_assignment.Fs.Used.{free_below}
use os_212_assignment.Fs.Content.{slot, content, IsSound, IsForeign, Keeps, Keeps-refl, Keeps-trans}
use os_212_assignment.Fs.Away.{
  Keeps-inode_block, content_inode_block, content_fields, IsSound-fields, IsForeign-fields,
  slot_fields,
}
use os_212_assignment.Fs.Bmap.{bmap-BmapEnds}
use os_212_assignment.Fs.Dinode.{iupdate-away}
use os_212_assignment.Io.{Progress, chunk, write_loop, writei}
use os_212_assignment.Io.Copy.{patched, patched_join, copy_in-patched}
use os_212_assignment.Io.Block.{write-Keeps, write_count, content-write}

-- The number of blocks that n bytes from off on lie in.
abbrev pub blocks_of : ℕ → ℕ → ℕ
blocks_of off n = (off % bsize + n + (bsize - 1)) / bsize

module _ (sb : Super) (start : ℕ) where
  record RoundEnds (d : Disk) (ip : Inode) (off m : ℕ) (v : ℕ → ℕ) (e : Disk) (jp : Inode)
      : Type 0 where
    keeps : Keeps sb start d ip e jp
    bytes : (i : ℕ) → content e jp i ≡ patched (content d ip) off m v i
    count : free_below sb d sb.size ≤ free_below sb e sb.size + 2
    there : slot e jp (off / bsize) ≢ 0

  -- A round of the loop where the addresses are good.
  write_round :
      (f : ℕ) (user : ℕ → Option ℕ) (src off n tot : ℕ) (ip : Inode) (d : Disk) (v : ℕ → ℕ)
      → IsSound sb start d ip
      → tot < n
      → off / bsize < maxfile
      → 2 ≤ free_below sb d sb.size
      → ((k : ℕ) → k < n - tot → user (src + k) ≡ some (v k))
      → (e : Disk) × (jp : Inode) × (write_loop sb (suc f) user src off n tot ip d
          ≡ write_loop sb f user
              (src + chunk n tot off)
              (off + chunk n tot off)
              n
              (tot + chunk n tot off)
              jp
              e)
        × RoundEnds d ip off (chunk n tot off) v e jp
  unfolding write_loop
  write_round f user src off n tot ip d v s h l room good =
      let r = bmap-BmapEnds sb start d ip (off / bsize) s l (inr room) in
      let m = chunk n tot off in
      let b = r.4 in
      let c = patched (r.2 r.0) (off % bsize) m v in
      let t = lt→ltb tot n h in
      let q = copy_in-patched m user src (r.2 r.0) (off % bsize) v (λ k p. good k (omega arith)) in
      let k = write-Keeps sb start r.2 r.1 (off / bsize) r.0 c b.keeps.sound l b.address b.there in
      let w = write_count sb start r.2 r.1 (off / bsize) r.0 c b.keeps.sound l b.address b.there in
      let u = b.count in
      (
        update r.2 r.0 c,
        r.1,
        rw (t, r.3, q) refl,
        record {
          keeps = Keeps-trans sb start d r.2 (update r.2 r.0 c) ip r.1 r.1 b.keeps k;
          bytes = λ i.
              content-write sb start r.2 r.1 off m r.0 v b.keeps.sound l b.address b.there
                (omega arith) i
              ∙ λ j. patched (λ x. b.same x j) off m v i;
          count = omega arith;
          there = let q = k.slots (off / bsize) (rw b.address b.there) ∙ b.address in rw q b.there;
        },
      )

  record LoopEnds (d : Disk) (ip : Inode) (off m n : ℕ) (v : ℕ → ℕ) (p : Progress) : Type 0 where
    all : p.tot ≡ n
    last : p.off ≡ off + m
    keeps : Keeps sb start d ip p.disk p.ip
    bytes : (i : ℕ) → content p.disk p.ip i ≡ patched (content d ip) off m v i
    there : (j : ℕ) → j < m → slot p.disk p.ip ((off + j) / bsize) ≢ 0

  write_loop_lem :
      (f : ℕ) (user : ℕ → Option ℕ) (src off n tot : ℕ) (ip : Inode) (d : Disk) (v : ℕ → ℕ)
      → IsSound sb start d ip
      → tot ≤ n
      → n - tot ≤ f
      → off + (n - tot) ≤ maxfile * bsize
      → (n ≤ tot) ⊎ (2 * blocks_of off (n - tot) ≤ free_below sb d sb.size)
      → ((k : ℕ) → k < n - tot → user (src + k) ≡ some (v k))
      → (p : Progress) × (write_loop sb f user src off n tot ip d ≡ ok p)
        × LoopEnds d ip off (n - tot) n v p
  unfolding write_loop
  write_loop_lem zero user src off n tot ip d v s h fuel l room good = (
    record { tot = tot; off = off; ip = ip; disk = d },
    refl,
    record {
      all = omega arith;
      last = omega arith;
      keeps = Keeps-refl sb start d ip s;
      bytes = λ i. ground arith;
      there = λ j q. absurd (omega arith);
    },
  )
  write_loop_lem (suc f) user src off n tot ip d v s h fuel l room good =
      elim (Bool-cases (ltb tot n)) [
        | inr done ↦ (
          record { tot = tot; off = off; ip = ip; disk = d },
          rw done refl,
          record {
            all = ground arith;
            last = ground arith;
            keeps = Keeps-refl sb start d ip s;
            bytes = λ i. ground arith;
            there = λ j q. absurd (ground arith);
          },
        )
        | inl more ↦
            let t : tot < n = ground arith in
            let m = chunk n tot off in
            let r = write_round f user src off n tot ip d v s t (omega arith) (omega arith) good in
            let c = r.3.count in
            let k =
              write_loop_lem f user (src + m) (off + m) n (tot + m) r.1 r.0 (λ j. v (j + m))
                r.3.keeps.sound (omega arith) (omega arith) (omega arith) (omega arith)
                (λ j b. ap user (omega arith) ∙ good (j + m) (omega arith)) in
            (
              k.0,
              r.2 ∙ k.1,
              record {
                all = k.2.all;
                last = let z = k.2.last in omega arith;
                keeps = Keeps-trans sb start d r.0 k.0.disk ip r.1 k.0.ip r.3.keeps k.2.keeps;
                bytes = λ i.
                    k.2.bytes i
                    ∙ (λ j.
                        patched (λ x. r.3.bytes x j) (off + m) (n - (tot + m)) (λ x. v (x + m)) i)
                    ∙ (λ j.
                        patched (patched (content d ip) off m v) (off + m) (rest_of n tot m j)
                          (λ x. v (x + m)) i)
                    ∙ patched_join (content d ip) off m (n - tot - m) v i
                    ∙ ap (λ (x : ℕ). patched (content d ip) off x v i) (omega arith);
                there = λ j q. elim (Bool-cases (ltb j m)) [
                  | inl first ↦
                      let e : (off + j) / bsize ≡ off / bsize = ground arith in
                      let w = k.2.keeps.slots (off / bsize) r.3.there in rw (e, w) r.3.there
                  | inr later ↦
                      let e : (off + j) / bsize ≡ (off + m + (j - m)) / bsize = ground arith in
                      rw e (k.2.there (j - m) (ground arith))
                ];
              },
            )
      ]
    where
      rest_of : (n tot m : ℕ) → n - (tot + m) ≡ n - tot - m
      rest_of n tot m = omega arith

  -- What writei leaves of a file: its bytes with those that are written, its size, the rest of its
  -- inode, and other files.
  pub record WriteEnds (d : Disk) (ip : Inode) (off n : ℕ) (v : ℕ → ℕ) (d' : Disk) (ip' : Inode)
      : Type 0 where
    pub bytes : (i : ℕ) → content d' ip' i ≡ patched (content d ip) off n v i
    pub size : ip'.size ≡ (if ltb ip.size (off + n) then off + n else ip.size)
    pub fields : ip' ≡ record ip { size = ip'.size; addrs = ip'.addrs }
    pub there : (j : ℕ) → j < n → slot d' ip' ((off + j) / bsize) ≢ 0
    pub sound : IsSound sb start d' ip'
    pub foreign : (x : ℕ) → IsForeign sb start d ip x → IsForeign sb start d' ip' x × (d' x ≡ d x)

  abbrev grown : Progress → Inode
  grown p = if ltb p.ip.size p.off then record (p.ip) { size = p.off } else p.ip

  grown_addrs : (p : Progress) → (grown p).addrs ≡ p.ip.addrs
  grown_addrs p = ground arith

  grown_inum : (p : Progress) → (grown p).inum ≡ p.ip.inum
  grown_inum p = ground arith

  grown_size : (p : Progress) → (grown p).size ≡ (if ltb p.ip.size p.off then p.off else p.ip.size)
  grown_size p = ground arith

  grown_fields : (p : Progress) → grown p ≡ record (p.ip) { size = (grown p).size }
  grown_fields p = ground arith

  module _ (d : Disk) (ip : Inode) (off n : ℕ) (v : ℕ → ℕ) (l : ip.inum < sb.ninodes) (p : Progress)
      (k : LoopEnds d ip off n n v p) where
    update_end : Disk
    update_end = iupdate sb (grown p) p.disk

    same_inum : (grown p).inum ≡ ip.inum
    same_inum = grown_inum p ∙ ap (λ (q : Inode). q.inum) k.keeps.fields

    same_size : p.ip.size ≡ ip.size
    same_size = ap (λ (q : Inode). q.size) k.keeps.fields

    end-IsSound : IsSound sb start p.disk (grown p)
    end-IsSound = IsSound-fields sb start p.disk p.ip (grown p) (grown_addrs p) k.keeps.sound

    end_low : iblock sb (grown p).inum < sb.bmapstart
    end_low = let e = same_inum in let q = k.keeps.sound.layout.inodes_end in rw e (omega arith)

    end-Keeps : Keeps sb start p.disk (grown p) update_end (grown p)
    unfolding update_end
    end-Keeps =
        Keeps-inode_block sb start p.disk (iupdate sb (grown p) p.disk) (grown p)
          (iblock sb (grown p).inum) end-IsSound end_low
          (λ x e. iupdate-away sb (grown p) p.disk x e)

    write_ends : WriteEnds d ip off n v update_end (grown p)
    unfolding update_end
    write_ends = record {
      bytes = λ i.
          content_inode_block sb start p.disk (iupdate sb (grown p) p.disk) (grown p)
            (iblock sb (grown p).inum) end-IsSound end_low
            (λ x e. iupdate-away sb (grown p) p.disk x e) i
          ∙ content_fields sb start p.disk p.ip (grown p) (grown_addrs p) i
          ∙ k.bytes i;
      size = let e = same_size in let q = k.last in grown_size p ∙ rw (e, q) refl;
      fields =
          grown_fields p
          ∙ (λ i. record (k.keeps.fields i) { size = (grown p).size })
          ∙ (λ i. record ip { size = (grown p).size; addrs = sym (grown_addrs p) i });
      there = λ j q.
          let a = slot_fields sb start p.disk p.ip (grown p) (grown_addrs p) ((off + j) / bsize) in
          let h : slot p.disk (grown p) ((off + j) / bsize) ≢ 0 = rw a (k.there j q) in
          let b = end-Keeps.slots ((off + j) / bsize) h in rw b h;
      sound = end-Keeps.sound;
      foreign = λ x f.
          let a = k.keeps.foreign x f in
          let b =
            end-Keeps.foreign x
              (IsForeign-fields sb start p.disk p.ip (grown p) (grown_addrs p) x a.0) in
          (b.0, b.1 ∙ a.1);
    }

  writei_done :
      (user : ℕ → Option ℕ) (src off n : ℕ) (ip : Inode) (d : Disk) (p : Progress)
      → (ltb ip.size off || ltb ((off + n) % 2 ^ 32) off) ≡ false
      → ltb (maxfile * bsize) ((off + n) % 2 ^ 32) ≡ false
      → write_loop sb n user src off n 0 ip d ≡ ok p
      → p.tot ≡ n
      → writei sb user src off n ip d ≡ ok (pos n, grown p, iupdate sb (grown p) p.disk)
  unfolding writei
  writei_done user src off n ip d p a b e t = rw (a, b, e, t) refl

  -- Let a file be sound, the n bytes v of the caller be readable, the write start inside the file
  -- and end below the largest file size, and two blocks be free for each block that it touches:
  -- writei returns n; the file then holds v from off on and its other bytes as before, its size is
  -- off + n where that is larger, it is still sound, and no block of another file is changed.
  pub writei-WriteEnds :
      (user : ℕ → Option ℕ) (src off n : ℕ) (ip : Inode) (d : Disk) (v : ℕ → ℕ)
      → IsSound sb start d ip
      → ip.inum < sb.ninodes
      → off ≤ ip.size
      → off + n ≤ maxfile * bsize
      → 2 * blocks_of off n ≤ free_below sb d sb.size
      → ((k : ℕ) → k < n → user (src + k) ≡ some (v k))
      → (d' : Disk) × (ip' : Inode) × (writei sb user src off n ip d ≡ ok (pos n, ip', d'))
        × WriteEnds d ip off n v d' ip'
  unfolding update_end
  writei-WriteEnds user src off n ip d v s l at_ fits room good =
      let z : n - 0 ≡ n = omega arith in
      let r = rw z at (
        write_loop_lem n user src off n 0 ip d v s (omega arith) (omega arith) (omega arith)
          (inr (omega arith)) (λ k b. good k (omega arith))) in
      let a : (ltb ip.size off || ltb ((off + n) % 2 ^ 32) off) ≡ false = ground arith in
      let b : ltb (maxfile * bsize) ((off + n) % 2 ^ 32) ≡ false = ground arith in
      (
        update_end d ip off n v l r.0 r.2,
        grown r.0,
        writei_done user src off n ip d r.0 a b r.1 r.2.all,
        write_ends d ip off n v l r.0 r.2,
      )
