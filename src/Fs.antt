-- ===== src/Fs.antt =====
-- kernel/fs.c and kernel/fs.h: blocks, the content of a file, and inodes on disk.
-- A disk is a map from blocks to bytes, read and written through the buffer cache; `ip` is the
-- locked inode, which an operation takes and gives back; a panic is a value.
pub mod Bits
pub mod Alloc
pub mod Used
pub mod Fresh
pub mod Content
pub mod Away
pub mod Uint
pub mod Grow
pub mod Map
pub mod Bmap
pub mod Dinode
pub mod Tests
use os_212_assignment.Base.{
  ℕ, zero, suc, ◌+◌, ◌-◌, ◌*◌, ◌/◌, ◌%◌, ◌^◌, min, Bool, true, false, ◌&&◌, ◌||◌, not, ltb, leb,
  ◌==◌, if◌then◌else◌, Option, none, some,
}
use os_212_assignment.Base.Int.{ℤ, pos, negsuc}
use os_212_assignment.Kernel.{update}

-- kernel/fs.h
abbrev pub bsize : ℕ
bsize = 1024

abbrev pub ndirect : ℕ
ndirect = 12

abbrev pub nindirect : ℕ
nindirect = 256

abbrev pub maxfile : ℕ
maxfile = ndirect + nindirect

-- Inodes in a block, and bits of the bitmap in a block.
abbrev pub ipb : ℕ
ipb = 16

abbrev pub bpb : ℕ
bpb = bsize * 8

-- The superblock, as far as the kernel uses it after start-up.
pub record Super : Type 0 where
  pub size : ℕ
  pub ninodes : ℕ
  pub inodestart : ℕ
  pub bmapstart : ℕ

abbrev pub Disk : Type 0
Disk = ℕ → ℕ → ℕ

-- An inode in memory, without its lock. `addrs` has NDIRECT + 1 entries.
pub record Inode : Type 0 where
  pub inum : ℕ
  pub ref : ℕ
  pub valid : Bool
  pub type : ℕ
  pub major : ℕ
  pub minor : ℕ
  pub nlink : ℕ
  pub size : ℕ
  pub addrs : ℕ → ℕ

pub data Panic : Type 0 where
  out_of_blocks freeing_free_block out_of_range no_type no_inodes not_dir dir_read dir_write
        ilock_ref :
      Panic

pub data Run (A : Type 0) : Type 0 where
  ok : A → Run A
  panic : Panic → Run A

infixl 5 ◌>>=◌
abbrev pub ◌>>=◌ : {A B : Type 0} → Run A → (A → Run B) → Run B
ok a >>= f = f a
panic e >>= f = panic e

-- A byte of a block is written.
abbrev pub put : Disk → ℕ → ℕ → ℕ → Disk
put d b i v = update d b (update (d b) i v)

-- A `uint` and a `ushort` in a block, the low byte first.
pub get_uint : (ℕ → ℕ) → ℕ → ℕ
get_uint c o = c o + 256 * c (o + 1) + 65536 * c (o + 2) + 16777216 * c (o + 3)

pub put_uint : (ℕ → ℕ) → ℕ → ℕ → ℕ → ℕ
put_uint c o v =
    update
      (update (update (update c o (v % 256)) (o + 1) (v / 256 % 256)) (o + 2) (v / 65536 % 256))
      (o + 3) (v / 16777216 % 256)

pub get_short : (ℕ → ℕ) → ℕ → ℕ
get_short c o = c o + 256 * c (o + 1)

pub put_short : (ℕ → ℕ) → ℕ → ℕ → ℕ → ℕ
put_short c o v = update (update c o (v % 256)) (o + 1) (v / 256 % 256)

-- (byte >> k) & 1
pub bit : ℕ → ℕ → ℕ
bit b zero = b % 2
bit b (suc k) = bit (b / 2) k

-- `bzero(dev, bno)`
abbrev pub bzero : ℕ → Disk → Disk
bzero b d = update d b (λ _. 0)

abbrev pub set_addr : Inode → ℕ → ℕ → Inode
set_addr ip n a = record ip { addrs = update ip.addrs n a }

-- The loop of `memmove(dip->addrs, ip->addrs, sizeof(ip->addrs))` from entry `j`.
pub put_addrs : ℕ → ℕ → (ℕ → ℕ) → (ℕ → ℕ) → ℕ → ℕ → ℕ
put_addrs zero j addrs c o = c
put_addrs (suc n) j addrs c o = put_addrs n (j + 1) addrs (put_uint c (o + 4 * j) (addrs j)) o

-- The writes of `iupdate` to the `struct dinode` at offset `o` of a block.
pub put_dinode : Inode → (ℕ → ℕ) → ℕ → ℕ → ℕ
put_dinode ip c o =
    let c1 = put_short c o ip.type in
    let c2 = put_short c1 (o + 2) ip.major in
    let c3 = put_short c2 (o + 4) ip.minor in
    let c4 = put_short c3 (o + 6) ip.nlink in
    put_addrs 13 0 ip.addrs (put_uint c4 (o + 8) ip.size) (o + 12)

-- The loop of `memmove(ip->addrs, dip->addrs, sizeof(ip->addrs))` from entry `j`.
pub get_addrs : ℕ → ℕ → (ℕ → ℕ) → (ℕ → ℕ) → ℕ → ℕ → ℕ
get_addrs zero j addrs c o = addrs
get_addrs (suc n) j addrs c o = get_addrs n (j + 1) (update addrs j (get_uint c (o + 4 * j))) c o

module _ (sb : Super) where
  -- `BBLOCK(b, sb)` and `IBLOCK(i, sb)`
  abbrev pub bblock : ℕ → ℕ
  bblock b = b / bpb + sb.bmapstart

  abbrev pub iblock : ℕ → ℕ
  iblock i = i / ipb + sb.inodestart

  -- The inner loop of `balloc` from bit `bi` of the block at `b`. `|=` adds to a byte a bit that it
  -- does not have.
  pub bits_loop : ℕ → ℕ → ℕ → Disk → Option (ℕ × Disk)
  bits_loop zero b bi d = none
  bits_loop (suc r) b bi d =
      let rest = bits_loop r b (bi + 1) d in
      let byte = d (bblock b) (bi / 8) in
      if ltb (b + bi) sb.size
      then if bit byte (bi % 8) == 0
        then some (b + bi, bzero (b + bi) (put d (bblock b) (bi / 8) (byte + 2 ^ (bi % 8))))
        else rest
      else none

  pub balloc_loop : ℕ → ℕ → Disk → Run (ℕ × Disk)
  balloc_loop zero b d = panic out_of_blocks
  balloc_loop (suc r) b d =
      let rest = balloc_loop r (b + bpb) d in
      elim (bits_loop bpb b 0 d) [ some x ↦ ok x | none ↦ rest ]

  -- `balloc(dev)`
  pub balloc : Disk → Run (ℕ × Disk)
  balloc d = balloc_loop ((sb.size + (bpb - 1)) / bpb) 0 d

  -- `bfree(dev, b)`. `&= ~m` takes away a bit that the byte has.
  pub bfree : ℕ → Disk → Run Disk
  bfree b d =
      let byte = d (bblock b) (b % bpb / 8) in
      if bit byte (b % bpb % 8) == 0
      then panic freeing_free_block
      else ok (put d (bblock b) (b % bpb / 8) (byte - 2 ^ (b % bpb % 8)))

  -- The block of `ip->addrs[n]`, allocated where there is none.
  pub own : Inode → ℕ → Disk → Run (ℕ × Inode × Disk)
  own ip n d =
      if ip.addrs n == 0
      then (balloc d >>= λ r. ok (r.0, set_addr ip n r.0, r.1))
      else ok (ip.addrs n, ip, d)

  -- The entry of the indirect block `table`, allocated where there is none.
  pub entry : Inode → ℕ → ℕ → Disk → Run (ℕ × Inode × Disk)
  entry ip table bn d =
      if get_uint (d table) (4 * bn) == 0
      then (balloc d >>= λ r. ok (r.0, ip, update r.1 table (put_uint (r.1 table) (4 * bn) r.0)))
      else ok (get_uint (d table) (4 * bn), ip, d)

  -- `bmap(ip, bn)`
  pub bmap : Inode → ℕ → Disk → Run (ℕ × Inode × Disk)
  bmap ip bn d =
      if ltb bn ndirect
      then own ip bn d
      else if ltb (bn - ndirect) nindirect
      then (own ip ndirect d >>= λ r. entry r.1 r.0 (bn - ndirect) r.2)
      else panic out_of_range

  -- `iupdate(ip)`
  pub iupdate : Inode → Disk → Disk
  iupdate ip d = update d (iblock ip.inum) (put_dinode ip (d (iblock ip.inum)) (ip.inum % ipb * 64))

  -- What `ilock(ip)` reads from the disk into an inode that is not valid.
  pub read_dinode : Inode → Disk → Inode
  read_dinode ip d =
      let o = ip.inum % ipb * 64 in
      let c = d (iblock ip.inum) in
      record ip {
        valid = true;
        type = get_short c o;
        major = get_short c (o + 2);
        minor = get_short c (o + 4);
        nlink = get_short c (o + 6);
        size = get_uint c (o + 8);
        addrs = get_addrs 13 0 ip.addrs c (o + 12);
      }

  -- `ilock(ip)`, for a process that gets the sleep lock.
  pub ilock : Inode → Disk → Run Inode
  unfolding read_dinode
  ilock ip d =
      let jp = read_dinode ip d in
      if ip.ref == 0
      then panic ilock_ref
      else if ip.valid
      then ok ip
      else if jp.type == 0
      then panic no_type
      else ok jp
