-- ===== src/Io/Tests.antt =====
-- readi and writei of kernel/fs.c on a small disk.
use os_212_assignment.Base.{
  ℕ, ◌+◌, ◌<◌, ◌≡◌, refl, arith, ◌≢◌, ◌/◌, Option, none, some, true, false, Bool, ◌==◌,
  if◌then◌else◌,
}
use os_212_assignment.Base.Int.{pos}
use os_212_assignment.Kernel.{pgsize}
use os_212_assignment.Fs.{Disk, Inode, ok}
use os_212_assignment.Fs.Content.{slot}
use os_212_assignment.Fs.Tests.{sb, disk, file, disk_free, file-IsSound}
use os_212_assignment.Io.{readi, writei, copy_in, copy_out}
use os_212_assignment.Io.Pages.{copyin, copyout, byte_at, copies_lem}
use os_212_assignment.Io.Copy.{patched}
use os_212_assignment.Io.Write.{WriteEnds, writei-WriteEnds}
use os_212_assignment.Io.Read.{readi-bytes, readi-writei, bytes_from}

-- The caller's byte at an address is the address itself.
abbrev user : ℕ → Option ℕ
user a = some a

abbrev bytes : ℕ → ℕ
bytes k = 500 + k

abbrev good : ℕ → Bool
good a = true

-- 2000 bytes from offset 50 lie in two blocks, one of which is there.
writei-WriteEnds_example :
    (d' : Disk) × (ip' : Inode) × (writei sb user 500 50 2000 file disk ≡ ok (pos 2000, ip', d'))
    × WriteEnds sb 5 disk file 50 2000 bytes d' ip'
writei-WriteEnds_example =
    writei-WriteEnds sb 5 user 500 50 2000 file disk bytes file-IsSound (omega arith) (omega arith)
      (omega arith) (omega (arith, disk_free)) (λ k h. refl)

readi-writei_example :
    (d' : Disk) × (ip' : Inode) × (writei sb user 500 50 2000 file disk ≡ ok (pos 2000, ip', d'))
    × (readi sb good 9000 50 2000 (λ _. 0) ip' d'
        ≡ ok (pos 2000, patched (λ _. 0) 9000 2000 bytes, ip', d'))
readi-writei_example =
    readi-writei sb 5 user 500 50 2000 file disk bytes good 9000 (λ _. 0) file-IsSound (omega arith)
      (omega arith) (omega arith) (omega arith) (omega (arith, disk_free)) (λ k h. refl)
      (λ k h. refl)

first_there : (j : ℕ) → j < 60 → slot disk file ((40 + j) / 1024) ≢ 0
unfolding slot
first_there j h = ground arith

-- 100 bytes from offset 40 of a file of 100 bytes are 60.
readi-bytes_example :
    readi sb good 9000 40 100 (λ _. 0) file disk
    ≡ ok (pos 60, patched (λ _. 0) 9000 60 (bytes_from disk file 40), file, disk)
readi-bytes_example =
    readi-bytes sb 5 file disk file-IsSound good 9000 40 100 60 (λ _. 0) (omega arith) (omega arith)
      (omega arith) (omega arith) first_there (λ k h. refl)

-- Page 1 is mapped and holds sevens, page 2 is not.
abbrev user_page : ℕ → Option (ℕ → ℕ)
user_page p = if p == 1 then some (λ i. 7) else none

-- Of four bytes from the last two of page 1 on, two are copied.
copies_lem_example :
    (copyin 4 user_page 4 8190 (λ i. 9) 5 ≡ copy_in 4 (byte_at user_page) 8190 (λ i. 9) 5)
    × (copyout 4 (λ p. p == 1) 4 (λ i. 9) 5 8190 (λ x. 0)
        ≡ copy_out 4 (λ x. (x / pgsize) == 1) (λ i. 9) 5 8190 (λ x. 0))
copies_lem_example = copies_lem user_page (λ p. p == 1) 4 4 8190 (λ i. 9) 5 (λ x. 0) (omega arith)

two_copied : (copyin 4 user_page 4 8190 (λ i. 0) 5).0 6 ≡ 7
unfolding copyin
two_copied = refl

then_fails : (copyin 4 user_page 4 8190 (λ i. 0) 5).1 ≡ false
unfolding copyin
then_fails = refl
