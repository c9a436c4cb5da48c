-- ===== src/Bytes.antt =====
-- kernel/string.c: memset, memcmp, memmove and memcpy on memory as a map from addresses to bytes.
-- An address is a number, so that no object reaches the end of the address space.
pub mod Copy
pub mod Compare
mod Tests
use os_212_assignment.Base.{
  ℕ, zero, suc, ◌+◌, ◌-◌, ◌%◌, Bool, ◌&&◌, not, ltb, leb, ◌==◌, if◌then◌else◌,
}
use os_212_assignment.Base.Int.{ℤ, pos, negsuc}
use os_212_assignment.Kernel.{update}

-- The loop of `memset` with `n` bytes to go.
pub set_loop : ℕ → ℕ → ℕ → (ℕ → ℕ) → ℕ → ℕ
set_loop zero dst c mem = mem
set_loop (suc n) dst c mem = set_loop n (dst + 1) c (update mem dst c)

-- `memset(dst, c, n)`, which stores the `int` c as a char.
pub memset : ℕ → ℕ → ℕ → (ℕ → ℕ) → ℕ → ℕ
memset dst c n mem = set_loop n dst (c % 256) mem

-- The difference of two bytes.
pub byte_diff : ℕ → ℕ → ℤ
byte_diff a b = if leb b a then pos (a - b) else negsuc (b - a - 1)

-- `memcmp(v1, v2, n)`
pub memcmp : ℕ → ℕ → ℕ → (ℕ → ℕ) → ℤ
memcmp v1 v2 zero mem = pos 0
memcmp v1 v2 (suc n) mem =
    let rest = memcmp (v1 + 1) (v2 + 1) n mem in
    if not (mem v1 == mem v2) then byte_diff (mem v1) (mem v2) else rest

-- The two loops of `memmove`: from the last byte down, and from the first one up.
pub copy_down : ℕ → ℕ → ℕ → (ℕ → ℕ) → ℕ → ℕ
copy_down zero d s mem = mem
copy_down (suc n) d s mem = copy_down n d s (update mem (d + n) (mem (s + n)))

pub copy_up : ℕ → ℕ → ℕ → (ℕ → ℕ) → ℕ → ℕ
copy_up zero d s mem = mem
copy_up (suc n) d s mem = copy_up n (d + 1) (s + 1) (update mem d (mem s))

-- `memmove(dst, src, n)`
pub memmove : ℕ → ℕ → ℕ → (ℕ → ℕ) → ℕ → ℕ
memmove dst src n mem =
    if ltb src dst && ltb dst (src + n) then copy_down n dst src mem else copy_up n dst src mem

-- `memcpy(dst, src, n)`
pub memcpy : ℕ → ℕ → ℕ → (ℕ → ℕ) → ℕ → ℕ
unfolding memmove
memcpy dst src n mem = memmove dst src n mem
