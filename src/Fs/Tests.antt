-- ===== src/Fs/Tests.antt =====
-- The blocks and inodes of kernel/fs.c on a small disk.
use os_212_assignment.Base.{
  ℕ, zero, suc, ◌+◌, ◌*◌, ◌<◌, ◌%◌, ◌≡◌, ◌≢◌, refl, arith, inr, ◌==◌, if◌then◌else◌, true, false,
  ◌⊎◌, ◌≤◌,
}
use os_212_assignment.Kernel.{update}
use os_212_assignment.Fs.{
  Super, Disk, Inode, Run, ok, bit, balloc, balloc_loop, bits_loop, bmap, own, entry, get_uint,
  put_uint, iblock, ipb, iupdate, ilock, bfree, panic, freeing_free_block,
}
use os_212_assignment.Fs.Alloc.{used, taken, IsFirstFree, balloc-taken}
use os_212_assignment.Fs.Used.{free_below}
use os_212_assignment.Fs.Content.{slot, IsSound}
use os_212_assignment.Fs.Map.{BmapEnds}
use os_212_assignment.Fs.Bmap.{bmap-BmapEnds}
use os_212_assignment.Fs.Dinode.{IsInRange, HasSameFields, ilock-iupdate}

-- 40 blocks: inodes from block 2, the bitmap in block 4, data from block 5.
abbrev pub sb : Super
sb = record { size = 40; ninodes = 16; inodestart = 2; bmapstart = 4 }

-- Blocks 0 to 4 and block 6 are in use; block 6 is full of ones.
abbrev pub disk : Disk
disk b o = if b == 4 then (if o == 0 then 95 else 0) else if b == 6 then 1 else 0

-- A file with one block.
abbrev pub file : Inode
file = record {
  inum = 3;
  ref = 1;
  valid = true;
  type = 2;
  major = 0;
  minor = 0;
  nlink = 1;
  size = 100;
  addrs = update (λ _. 0) 0 6;
}

pub disk_free : free_below sb disk 40 ≡ 34
unfolding free_below used bit
disk_free = refl

reserved : (b : ℕ) → b < 5 → used sb disk b ≢ 0
unfolding used bit
reserved zero h = omega arith
reserved (suc zero) h = omega arith
reserved (suc (suc zero)) h = omega arith
reserved (suc (suc (suc zero))) h = omega arith
reserved (suc (suc (suc (suc zero)))) h = omega arith
reserved (suc (suc (suc (suc (suc b))))) h = absurd (omega arith)

used_six : used sb disk 6 ≢ 0
unfolding used bit
used_six = omega arith

slots : (n : ℕ) → slot disk file n ≡ (if n == 0 then 6 else 0)
unfolding slot
slots n = ground arith

only_first : (n : ℕ) → slot disk file n ≢ 0 → n ≡ 0
only_first n h = let e = slots n in ground arith

pub file-IsSound : IsSound sb 5 disk file
file-IsSound = record {
  layout = record {
    map_end = omega arith;
    inodes_end = omega arith;
    start_inside = omega arith;
    small = omega arith;
    reserved = reserved;
  };
  owned = λ n h.
      let e : slot disk file n ≡ 6 = let z = only_first n h in let q = slots n in ground arith in
      rw e (record { behind = omega arith; inside = omega arith; in_use = used_six });
  apart = λ m n e h.
      let a = only_first m h in let b = only_first n (λ q. h (ground arith)) in ground arith;
}

bmap-BmapEnds_example :
    (a : ℕ) × (ip' : Inode) × (d' : Disk) × (bmap sb file 20 disk ≡ ok (a, ip', d'))
    × BmapEnds sb 5 disk file 20 a d' ip'
bmap-BmapEnds_example =
    bmap-BmapEnds sb 5 disk file 20 file-IsSound (omega arith) (inr (omega (arith, disk_free)))

-- The first free block is 5.
first : IsFirstFree sb disk 5
unfolding used bit
first = record { inside = omega arith; free = refl; first = reserved }

balloc-taken_example : balloc sb disk ≡ ok (5, taken sb 5 disk)
balloc-taken_example = balloc-taken sb disk 5 first

-- A file without an indirect block gets it and the entry.
indirect : Run ℕ → Run (ℕ × Inode × Disk) → Run ℕ
indirect e (ok (a, ip, d)) = ok a
indirect e (panic p) = panic p

second_taken : indirect (ok 0) (bmap sb file 20 disk) ≡ ok 7
unfolding indirect bmap own entry balloc balloc_loop bits_loop bit get_uint put_uint
second_taken = refl

free_free : bfree sb 20 disk ≡ panic freeing_free_block
unfolding bfree bit
free_free = refl

file-IsInRange : IsInRange file
file-IsInRange = record {
  type = omega arith;
  major = omega arith;
  minor = omega arith;
  nlink = omega arith;
  size = omega arith;
  addrs = λ k h. ground arith;
}

abbrev stale : Inode
stale = record file { valid = false; type = 0; size = 0; addrs = λ _. 9 }

ilock-iupdate_example :
    (kp : Inode) × (ilock sb stale (iupdate sb file disk) ≡ ok kp)
    × HasSameFields kp file
    × (kp.valid ≡ true)
    × ((x y : ℕ)
        → (x ≢ iblock sb file.inum) ⊎ ((y < file.inum % ipb * 64) ⊎ (file.inum % ipb * 64 + 64 ≤ y))
        → iupdate sb file disk x y ≡ disk x y)
ilock-iupdate_example =
    ilock-iupdate sb file stale disk file-IsInRange (omega arith) refl (omega arith) refl
