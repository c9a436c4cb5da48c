-- ===== src/Inodes/Tests.antt =====
-- The inode table and the end of a file on a small disk.
use os_212_assignment.Base.{◌+◌, ◌≡◌, arith, if◌then◌else◌, ltb}
use os_212_assignment.Fs.{Disk, Inode, ok}
use os_212_assignment.Fs.Tests.{sb, disk, file, file-IsSound}
use os_212_assignment.Inodes.{Table, itrunc, iget}
use os_212_assignment.Inodes.Get.{GetEnds, IsUnique, iget-GetEnds}
use os_212_assignment.Inodes.Empty.{TruncEnds, itrunc-TruncEnds}

itrunc-TruncEnds_example :
    (ip' : Inode) × (d' : Disk) × (itrunc sb file disk ≡ ok (ip', d'))
    × TruncEnds sb 5 disk file d' ip'
itrunc-TruncEnds_example = itrunc-TruncEnds sb 5 disk file file-IsSound (omega arith)

-- Entries 0, 1 and 2 are in use, by the inodes 10, 11 and 12.
abbrev table : Table
table i = record file { inum = i + 10; ref = if ltb i 3 then 1 else 0 }

table-IsUnique : IsUnique table
table-IsUnique i j a b p q e = omega arith

iget-GetEnds_example : GetEnds 12 table (iget 12 table)
iget-GetEnds_example = iget-GetEnds 12 table table-IsUnique
