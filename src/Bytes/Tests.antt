-- ===== src/Bytes/Tests.antt =====
-- The functions of kernel/string.c on small inputs.
use os_212_assignment.Base.{ℕ, ◌+◌, ◌≡◌, refl}
use os_212_assignment.Base.Int.{negsuc}
use os_212_assignment.Bytes.{
  memset, set_loop, memcmp, byte_diff, copy_up, copy_down, memmove, memcpy,
}
use os_212_assignment.Bytes.Copy.{moved, memmove-moved}

abbrev mem : ℕ → ℕ
mem a = a + 1

overlap : memmove 12 10 4 mem 14 ≡ 13
unfolding memmove copy_down copy_up
overlap = refl

copied : memcpy 30 10 4 mem 33 ≡ 14
unfolding memcpy memmove copy_down copy_up
copied = refl

set_byte : memset 5 300 2 mem 6 ≡ 44
unfolding memset set_loop
set_byte = refl

compared : memcmp 5 6 3 mem ≡ negsuc 0
unfolding memcmp byte_diff
compared = refl

memmove-moved_example : memmove 12 10 4 mem 14 ≡ moved 12 10 4 mem 14
memmove-moved_example = memmove-moved 12 10 4 mem 14
