-- ===== src/Swap/Offset.antt =====
-- `getOffset` of kernel/vm.c finds a free place in the swap file.
use os_212_assignment.Base.{
  ℕ, ◌+◌, ◌%◌, ◌≤◌, ◌<◌, ◌≡◌, false, ◌&&◌, List, [], ◌∷◌, ltb, leb, if◌then◌else◌,
}
use os_212_assignment.Proc.{Meta, Proc}
use os_212_assignment.Kernel.{pgsize}
use os_212_assignment.Swap.{offset_used}

-- How many entries have an offset from `low` on, below `high`.
unfoldable pub offsets_in : ℕ → ℕ → List Meta → ℕ
offsets_in low high [] = 0
offsets_in low high (m ∷ ms) =
    (if leb low m.offset && ltb m.offset high then 1 else 0) + offsets_in low high ms

-- The result is a free multiple of the page size, the first from `off` on.
record Free (ms : List Meta) (off high r : ℕ) : Type 0 where
  unused : offset_used ms r ≡ false
  below : r < high
  from : off ≤ r
  aligned : r % pgsize ≡ 0
