-- ===== src/Io/Read.antt =====
-- kernel/fs.c: what readi gives of the bytes of a file, and readi after writei.
use os_212_assignment.Base.{
  ℕ, zero, suc, ◌+◌, ◌-◌, ◌*◌, ◌/◌, ◌%◌, ◌^◌, min, ◌≤◌, ◌<◌, ◌≡◌, ◌≢◌, ap, ◌∙◌, sym, refl, inl, inr,
  arith, ltb, if◌then◌else◌, Bool-cases, lt→ltb, Option, some, true, false, ◌||◌, fun_ext, Bool,
}
use os_212_assignment.Base.Int.{ℤ, pos}
use os_212_assignment.Fs.{Super, Disk, Inode, Run, ok, bsize, maxfile, bmap}
use os_212_assignment.Fs.Used.{free_below}
use os_212_assignment.Fs.Content.{slot, content, IsSound}
use os_212_assignment.Fs.Bmap.{bmap-BmapEnds}
use os_212_assignment.Io.{chunk, read_loop, readi, writei}
use os_212_assignment.Io.Copy.{
  patched, patched_join, copy_out-patched, place, inside, outside, patched_in, patched_out,
}
use os_212_assignment.Io.Block.{content_there}
use os_212_assignment.Io.Write.{writei-WriteEnds, blocks_of}

patched-same :
    (c : ℕ → ℕ) (o m : ℕ) (b e : ℕ → ℕ) (x : ℕ)
    → ((k : ℕ) → k < m → b k ≡ e k)
    → patched c o m b x ≡ patched c o m e x
patched-same c o m b e x h = elim (place o m x) [
  | inside l r ↦ patched_in c o m b x l r ∙ h (x - o) (omega arith) ∙ sym (patched_in c o m e x l r)
  | outside q ↦ patched_out c o m b x q ∙ sym (patched_out c o m e x q)
]

-- The bytes of a file from off on.
abbrev pub bytes_from : Disk → Inode → ℕ → ℕ → ℕ
bytes_from d ip off k = content d ip (off + k)

module _ (sb : Super) (start : ℕ) (ip : Inode) (d : Disk) (s : IsSound sb start d ip) where
  bmap_found : (n : ℕ) → n < maxfile → slot d ip n ≢ 0 → bmap sb ip n d ≡ ok (slot d ip n, ip, d)
  bmap_found n l h =
      let r = bmap-BmapEnds sb start d ip n s l (inl h) in
      let f = r.4.found h in
      r.3
      ∙ (λ i. ok (sym r.4.address i, r.1, r.2))
      ∙ (λ i. ok (slot (f.0 i) (f.1 i) n, f.1 i, f.0 i))

  -- A first chunk of the bytes, and those behind it.
  bytes_join :
      (mem : ℕ → ℕ) (dst off m a b : ℕ)
      → m + a ≡ b
      → patched (patched mem dst m (bytes_from d ip off)) (dst + m) a (bytes_from d ip (off + m))
        ≡ patched mem dst b (bytes_from d ip off)
  bytes_join mem dst off m a b e =
      let c = patched mem dst m (bytes_from d ip off) in
      fun_ext λ x.
        patched-same c (dst + m) a (bytes_from d ip (off + m)) (λ k. bytes_from d ip off (k + m)) x
          (λ k h. ap (content d ip) (omega arith))
        ∙ patched_join mem dst m a (bytes_from d ip off) x
        ∙ ap (λ (k : ℕ). patched mem dst k (bytes_from d ip off) x) e

  module _ (good : ℕ → Bool) where
    read_round :
        (f dst off n tot : ℕ) (mem : ℕ → ℕ)
        → tot < n
        → off / bsize < maxfile
        → slot d ip (off / bsize) ≢ 0
        → ((k : ℕ) → k < n - tot → good (dst + k) ≡ true)
        → read_loop sb (suc f) good dst off n tot mem ip d
          ≡ read_loop sb f good
              (dst + chunk n tot off)
              (off + chunk n tot off)
              n
              (tot + chunk n tot off)
              (patched mem dst
                (chunk n tot off)
                (λ k. d (slot d ip (off / bsize)) (off % bsize + k)))
              ip
              d
    unfolding read_loop
    read_round f dst off n tot mem h l there addresses =
        let t = lt→ltb tot n h in
        let b = bmap_found (off / bsize) l there in
        let c =
          copy_out-patched (chunk n tot off) good (d (slot d ip (off / bsize))) (off % bsize) dst
            mem (λ k p. addresses k (omega arith)) in
        rw (t, b, c) refl

    chunk_bytes :
        (off m k : ℕ)
        → m ≤ bsize - off % bsize
        → k < m
        → off / bsize < maxfile
        → slot d ip (off / bsize) ≢ 0
        → d (slot d ip (off / bsize)) (off % bsize + k) ≡ bytes_from d ip off k
    chunk_bytes off m k b h l there =
        let q : (off + k) / bsize ≡ off / bsize = omega arith in
        ap (d (slot d ip (off / bsize))) (omega arith)
        ∙ sym (
            content_there d ip (off + k) (slot d ip (off / bsize)) (omega arith) (ap (slot d ip) q)
              there)

    -- The loop has nothing left to do.
    nothing_left :
        (mem : ℕ → ℕ) (dst off n tot : ℕ)
        → tot ≡ n
        → ◌≡◌ {A = Run (ℤ × (ℕ → ℕ) × Inode × Disk)}
            (ok (pos tot, mem, ip, d))
            (ok (pos n, patched mem dst (n - tot) (bytes_from d ip off), ip, d))
    nothing_left mem dst off n tot e =
        let g : mem ≡ patched mem dst (n - tot) (bytes_from d ip off) =
          fun_ext
            (λ x. sym (patched_out mem dst (n - tot) (bytes_from d ip off) x (omega arith))) in
        λ i. ok (pos (e i), g i, ip, d)

    read_loop_lem :
        (f dst off n tot : ℕ) (mem : ℕ → ℕ)
        → tot ≤ n
        → n - tot ≤ f
        → off + (n - tot) ≤ maxfile * bsize
        → ((j : ℕ) → j < n - tot → slot d ip ((off + j) / bsize) ≢ 0)
        → ((k : ℕ) → k < n - tot → good (dst + k) ≡ true)
        → read_loop sb f good dst off n tot mem ip d
          ≡ ok (pos n, patched mem dst (n - tot) (bytes_from d ip off), ip, d)
    unfolding read_loop
    read_loop_lem zero dst off n tot mem h fuel l there addresses =
        nothing_left mem dst off n tot (omega arith)
    read_loop_lem (suc f) dst off n tot mem h fuel l there addresses =
        elim (Bool-cases (ltb tot n)) [
          | inr done ↦ rw done (nothing_left mem dst off n tot (ground arith))
          | inl more ↦
              let t : tot < n = ground arith in
              let m = chunk n tot off in
              let first : slot d ip (off / bsize) ≢ 0 = λ q.
                there 0 (omega arith) (ap (λ (x : ℕ). slot d ip (x / bsize)) (omega arith) ∙ q) in
              read_round f dst off n tot mem t (omega arith) first addresses
              ∙ (λ i.
                  read_loop sb f good (dst + m) (off + m) n (tot + m)
                    (fun_ext
                      (λ x.
                        patched-same mem dst m (λ k. d (slot d ip (off / bsize)) (off % bsize + k))
                          (bytes_from d ip off) x
                          (λ k b. chunk_bytes off m k (omega arith) b (omega arith) first))
                      i)
                    ip d)
              ∙ read_loop_lem f (dst + m) (off + m) n (tot + m)
                  (patched mem dst m (bytes_from d ip off)) (omega arith) (omega arith)
                  (omega arith)
                  (λ j b q.
                    there (m + j) (omega arith)
                      (ap (λ (x : ℕ). slot d ip (x / bsize)) (omega arith) ∙ q))
                  (λ k b. ap good (omega arith) ∙ addresses (m + k) (omega arith))
              ∙ λ i.
                  ok (
                    pos n,
                    bytes_join mem dst off m (n - (tot + m)) (n - tot) (omega arith) i,
                    ip,
                    d,
                  )
        ]

    readi_done :
        (dst off n m : ℕ) (mem : ℕ → ℕ)
        → (ltb ip.size off || ltb ((off + n) % 2 ^ 32) off) ≡ false
        → (if ltb ip.size ((off + n) % 2 ^ 32) then ip.size - off else n) ≡ m
        → read_loop sb m good dst off m 0 mem ip d
          ≡ ok (pos m, patched mem dst m (bytes_from d ip off), ip, d)
        → readi sb good dst off n mem ip d
          ≡ ok (pos m, patched mem dst m (bytes_from d ip off), ip, d)
    unfolding readi
    readi_done dst off n m mem a b e = rw (a, b, e) refl

    -- Let a file be sound, the read start inside the file, the blocks of the bytes that it asks for
    -- be there as far as the file goes, and the addresses be good: readi returns the number m of
    -- bytes up to the end of the file, n at most, and puts the bytes of the file from off on at dst;
    -- no other byte of memory, nothing of the disk and nothing of the inode is changed.
    pub readi-bytes :
        (dst off n m : ℕ) (mem : ℕ → ℕ)
        → off ≤ ip.size
        → ip.size ≤ maxfile * bsize
        → off + n < 2 ^ 32
        → m ≡ min n (ip.size - off)
        → ((j : ℕ) → j < m → slot d ip ((off + j) / bsize) ≢ 0)
        → ((k : ℕ) → k < m → good (dst + k) ≡ true)
        → readi sb good dst off n mem ip d
          ≡ ok (pos m, patched mem dst m (bytes_from d ip off), ip, d)
    readi-bytes dst off n m mem h b l e there addresses =
        let z : m - 0 ≡ m = omega arith in
        readi_done dst off n m mem (ground arith) (ground arith) (
          rw z at (
            read_loop_lem m dst off m 0 mem (omega arith) (omega arith) (omega arith)
              (λ j q. there j (omega arith)) (λ k q. addresses k (omega arith))))

module _ (sb : Super) (start : ℕ) where
  -- Under the conditions of writei above, and good addresses to read to: readi of the range that
  -- writei has written returns n, and gives the bytes v that were written.
  pub readi-writei :
      (user : ℕ → Option ℕ) (src off n : ℕ) (ip : Inode) (d : Disk) (v : ℕ → ℕ) (good : ℕ → Bool)
      (dst : ℕ) (mem : ℕ → ℕ)
      → IsSound sb start d ip
      → ip.inum < sb.ninodes
      → off ≤ ip.size
      → ip.size ≤ maxfile * bsize
      → off + n ≤ maxfile * bsize
      → 2 * blocks_of off n ≤ free_below sb d sb.size
      → ((k : ℕ) → k < n → user (src + k) ≡ some (v k))
      → ((k : ℕ) → k < n → good (dst + k) ≡ true)
      → (d' : Disk) × (ip' : Inode) × (writei sb user src off n ip d ≡ ok (pos n, ip', d'))
        × (readi sb good dst off n mem ip' d' ≡ ok (pos n, patched mem dst n v, ip', d'))
  readi-writei user src off n ip d v good dst mem s l h b fits room source target =
      let w = writei-WriteEnds sb start user src off n ip d v s l h fits room source in
      let e = w.3 in
      let z = e.size in
      (
        w.0,
        w.1,
        w.2,
        readi-bytes sb start w.1 w.0 e.sound good dst off n n mem (ground arith) (ground arith)
              (omega arith) (ground arith) e.there target
            ∙ λ i. ok (
              pos n,
              fun_ext
                  (λ x.
                    patched-same mem dst n (λ k. content w.0 w.1 (off + k)) v x
                      (λ k q.
                        e.bytes (off + k)
                        ∙ patched_in (content d ip) off n v (off + k) (omega arith) (omega arith)
                        ∙ ap v (omega arith)))
                  i,
              w.1,
              w.0,
            ),
      )
