-- ===== src/Io.antt =====
-- kernel/fs.c: readi, writei and stati, on an inode that the caller holds locked. A buffer holds the
-- current bytes of its block. The address space of the caller is a partial map from addresses to
-- bytes where data comes from, and bytes with a test of addresses where it goes to.
pub mod Copy
pub mod Pages
pub mod Block
pub mod Write
pub mod Read
mod Tests
use os_212_assignment.Base.{
  ℕ, zero, suc, ◌+◌, ◌-◌, ◌*◌, ◌/◌, ◌%◌, ◌^◌, min, Bool, true, false, ◌||◌, ltb, if◌then◌else◌,
  Option, none, some,
}
use os_212_assignment.Base.Int.{ℤ, pos, minus_one}
use os_212_assignment.Kernel.{update}
use os_212_assignment.Fs.{Super, Disk, Inode, Run, ok, ◌>>=◌, bsize, maxfile, bmap, iupdate}

-- `either_copyin`: m bytes from address `a` to offset `o` of a block, up to the first address that
-- is not mapped. Io/Pages has the copy by pages. A byte is a number; nothing here needs it below 256.
pub copy_in : ℕ → (ℕ → Option ℕ) → ℕ → (ℕ → ℕ) → ℕ → (ℕ → ℕ) × Bool
copy_in zero user a c o = (c, true)
copy_in (suc m) user a c o = elim (user a) [
  | none ↦ (c, false)
  | some v ↦ copy_in m user (a + 1) (update c o v) (o + 1)
]

-- `either_copyout`: m bytes from offset `o` of a block to address `a`.
pub copy_out : ℕ → (ℕ → Bool) → (ℕ → ℕ) → ℕ → ℕ → (ℕ → ℕ) → (ℕ → ℕ) × Bool
copy_out zero good c o a mem = (mem, true)
copy_out (suc m) good c o a mem = elim (good a) [
  | false ↦ (mem, false)
  | true ↦ copy_out m good c (o + 1) (a + 1) (update mem a (c o))
]

-- The variables of the loop of `writei` that are read after it.
pub record Progress : Type 0 where
  pub tot : ℕ
  pub off : ℕ
  pub ip : Inode
  pub disk : Disk

-- What a round of the loop of `readi` or `writei` moves.
abbrev pub chunk : ℕ → ℕ → ℕ → ℕ
chunk n tot off = min (n - tot) (bsize - off % bsize)

-- `stati(ip, st)`, for the one device that there is.
pub record Stat : Type 0 where
  pub ino : ℕ
  pub type : ℕ
  pub nlink : ℕ
  pub size : ℕ

pub stati : Inode → Stat
stati ip = record { ino = ip.inum; type = ip.type; nlink = ip.nlink; size = ip.size }

module _ (sb : Super) where
  -- The loop of `writei`, with rounds left. Bytes that a failing `either_copyin` has put into the
  -- buffer stay there, but are not given to the log.
  pub write_loop : ℕ → (ℕ → Option ℕ) → ℕ → ℕ → ℕ → ℕ → Inode → Disk → Run Progress
  write_loop zero user src off n tot ip d = ok (record { tot = tot; off = off; ip = ip; disk = d })
  write_loop (suc f) user src off n tot ip d =
      let m = chunk n tot off in
      let round = bmap sb ip (off / bsize) d >>= λ r.
      let c = copy_in m user src (r.2 r.0) (off % bsize) in
      let rest = write_loop f user (src + m) (off + m) n (tot + m) r.1 (update r.2 r.0 c.0) in
      if c.1
      then rest
      else ok (record { tot = tot; off = off; ip = r.1; disk = update r.2 r.0 c.0 }) in
      if ltb tot n then round else ok (record { tot = tot; off = off; ip = ip; disk = d })

  -- `writei(ip, user_src, src, off, n)`
  pub writei : (ℕ → Option ℕ) → ℕ → ℕ → ℕ → Inode → Disk → Run (ℤ × Inode × Disk)
  writei user src off n ip d =
      if ltb ip.size off || ltb ((off + n) % 2 ^ 32) off
      then ok (minus_one, ip, d)
      else if ltb (maxfile * bsize) ((off + n) % 2 ^ 32)
      then ok (minus_one, ip, d)
      else (write_loop n user src off n 0 ip d >>= λ p.
          let ip' = if ltb p.ip.size p.off then record (p.ip) { size = p.off } else p.ip in
          ok (pos p.tot, ip', iupdate sb ip' p.disk))

  -- The loop of `readi`.
  pub read_loop :
      ℕ → (ℕ → Bool) → ℕ → ℕ → ℕ → ℕ → (ℕ → ℕ) → Inode → Disk → Run (ℤ × (ℕ → ℕ) × Inode × Disk)
  read_loop zero good dst off n tot mem ip d = ok (pos tot, mem, ip, d)
  read_loop (suc f) good dst off n tot mem ip d =
      let m = chunk n tot off in
      let round = bmap sb ip (off / bsize) d >>= λ r.
      let c = copy_out m good (r.2 r.0) (off % bsize) dst mem in
      let rest = read_loop f good (dst + m) (off + m) n (tot + m) c.0 r.1 r.2 in
      if c.1 then rest else ok (minus_one, c.0, r.1, r.2) in
      if ltb tot n then round else ok (pos tot, mem, ip, d)

  -- `readi(ip, user_dst, dst, off, n)`
  pub readi : (ℕ → Bool) → ℕ → ℕ → ℕ → (ℕ → ℕ) → Inode → Disk → Run (ℤ × (ℕ → ℕ) × Inode × Disk)
  readi good dst off n mem ip d =
      let n' = if ltb ip.size ((off + n) % 2 ^ 32) then ip.size - off else n in
      if ltb ip.size off || ltb ((off + n) % 2 ^ 32) off
      then ok (pos 0, mem, ip, d)
      else read_loop n' good dst off n' 0 mem ip d
