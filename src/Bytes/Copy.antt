-- ===== src/Bytes/Copy.antt =====
-- `memmove` copies the bytes as they were, also where source and destination overlap.
use os_212_assignment.Base.{
  ℕ, zero, suc, ◌+◌, ◌-◌, ◌≤◌, ◌<◌, ◌≡◌, ◌≢◌, ap, ◌∙◌, sym, ◌&&◌, ◌⊎◌, inl, inr, arith, ltb, leb,
  if◌then◌else◌, Bool-cases,
}
use os_212_assignment.Kernel.{update}
use os_212_assignment.Bytes.{copy_down, copy_up, memmove}

-- The memory with the `n` bytes from `src` of `mem` at `dst`.
abbrev pub moved : ℕ → ℕ → ℕ → (ℕ → ℕ) → ℕ → ℕ
moved dst src n mem x = if leb dst x && ltb x (dst + n) then mem (src + (x - dst)) else mem x

other : (f : ℕ → ℕ) (i j v : ℕ) → i ≢ j → update f i v j ≡ f j
other f i j v e = ground arith

here : (f : ℕ → ℕ) (i j v : ℕ) → i ≡ j → update f i v j ≡ v
here f i j v e = ground arith

inside :
    (d s n : ℕ) (mem : ℕ → ℕ) (x : ℕ) → d ≤ x → x < d + n → moved d s n mem x ≡ mem (s + (x - d))
inside d s n mem x l h = ground arith

outside : (d s n : ℕ) (mem : ℕ → ℕ) (x : ℕ) → (x < d) ⊎ (d + n ≤ x) → moved d s n mem x ≡ mem x
outside d s n mem x (inl l) = ground arith
outside d s n mem x (inr l) = ground arith

place : (d n x : ℕ) → ((d ≤ x) × (x < d + n)) ⊎ ((x < d) ⊎ (d + n ≤ x))
place d n x = omega arith

decide : (a b : ℕ) → (a ≡ b) ⊎ ((a < b) ⊎ (b < a))
decide a b = omega arith

place_nil : (d x : ℕ) → (x < d) ⊎ (d + 0 ≤ x)
place_nil d x = omega arith

-- The byte at one end of the range and those outside it.
last_down :
    (n d s : ℕ) (mem : ℕ → ℕ) (x : ℕ)
    → (x < d) ⊎ (d + n ≤ x)
    → update mem (d + n) (mem (s + n)) x ≡ moved d s (suc n) mem x
last_down n d s mem x o = elim (decide (d + n) x) [
  | inl e ↦
      here mem (d + n) x (mem (s + n)) e
      ∙ ap mem (omega arith)
      ∙ sym (inside d s (suc n) mem x (omega arith) (omega arith))
  | inr ne ↦
      other mem (d + n) x (mem (s + n)) (λ q. omega (arith, q, ne))
      ∙ sym (outside d s (suc n) mem x (omega arith))
]

first_up :
    (n d s : ℕ) (mem : ℕ → ℕ) (x : ℕ)
    → (x < d + 1) ⊎ (d + 1 + n ≤ x)
    → update mem d (mem s) x ≡ moved d s (suc n) mem x
first_up n d s mem x o = elim (decide d x) [
  | inl e ↦
      here mem d x (mem s) e
      ∙ ap mem (omega arith)
      ∙ sym (inside d s (suc n) mem x (omega arith) (omega arith))
  | inr ne ↦
      other mem d x (mem s) (λ q. omega (arith, q, ne))
      ∙ sym (outside d s (suc n) mem x (omega arith))
]

copy_down_lem :
    (n d s : ℕ) (mem : ℕ → ℕ) (x : ℕ) → s < d → copy_down n d s mem x ≡ moved d s n mem x
unfolding copy_down
copy_down_lem zero d s mem x l = sym (outside d s 0 mem x (place_nil d x))
copy_down_lem (suc n) d s mem x l =
    let m = update mem (d + n) (mem (s + n)) in
    copy_down_lem n d s m x l ∙ elim (place d n x) [
      | inl (a, b) ↦
          inside d s n m x a b
          ∙ other mem (d + n) (s + (x - d)) (mem (s + n)) (λ q. omega arith)
          ∙ sym (inside d s (suc n) mem x a (omega arith))
      | inr o ↦ outside d s n m x o ∙ last_down n d s mem x o
    ]

copy_up_lem :
    (n d s : ℕ) (mem : ℕ → ℕ) (x : ℕ)
    → (d ≤ s) ⊎ (s + n ≤ d)
    → copy_up n d s mem x ≡ moved d s n mem x
unfolding copy_up
copy_up_lem zero d s mem x l = sym (outside d s 0 mem x (place_nil d x))
copy_up_lem (suc n) d s mem x l =
    let m = update mem d (mem s) in
    copy_up_lem n (d + 1) (s + 1) m x (omega arith) ∙ elim (place (d + 1) n x) [
      | inl (a, b) ↦
          inside (d + 1) (s + 1) n m x a b
          ∙ other mem d (s + 1 + (x - (d + 1))) (mem s) (λ q. omega arith)
          ∙ ap mem (omega arith)
          ∙ sym (inside d s (suc n) mem x (omega arith) (omega arith))
      | inr o ↦ outside (d + 1) (s + 1) n m x o ∙ first_up n d s mem x o
    ]

-- After memmove(dst, src, n) each of the n bytes from dst on is the byte that stood at the same
-- distance from src before the call, also where the two overlap, and every other byte is as before.
pub memmove-moved :
    (dst src n : ℕ) (mem : ℕ → ℕ) (x : ℕ) → memmove dst src n mem x ≡ moved dst src n mem x
unfolding memmove
memmove-moved dst src n mem x = elim (Bool-cases (ltb src dst && ltb dst (src + n))) [
  | inl e ↦ rw e (copy_down_lem n dst src mem x (ground arith))
  | inr e ↦ rw e (copy_up_lem n dst src mem x (ground arith))
]
