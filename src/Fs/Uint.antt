-- ===== src/Fs/Uint.antt =====
-- Numbers of two and four bytes in the blocks of kernel/fs.c.
use os_212_assignment.Base.{ℕ, ◌+◌, ◌/◌, ◌%◌, ◌^◌, ◌≤◌, ◌<◌, ◌≡◌, ◌≢◌, ◌∙◌, refl, arith, ◌⊎◌}
use os_212_assignment.Kernel.{update}
use os_212_assignment.Fs.{get_uint, put_uint, get_short, put_short}

here : (c : ℕ → ℕ) (o v : ℕ) → update c o v o ≡ v
here c o v = ground arith

away : (c : ℕ → ℕ) (o v x : ℕ) → o ≢ x → update c o v x ≡ c x
away c o v x e = ground arith

-- The bytes that are written, and the others.
pub put_uint-byte0 : (c : ℕ → ℕ) (o v : ℕ) → put_uint c o v o ≡ v % 256
unfolding put_uint
put_uint-byte0 c o v = ground arith

pub put_uint-byte1 : (c : ℕ → ℕ) (o v : ℕ) → put_uint c o v (o + 1) ≡ v / 256 % 256
unfolding put_uint
put_uint-byte1 c o v = ground arith

pub put_uint-byte2 : (c : ℕ → ℕ) (o v : ℕ) → put_uint c o v (o + 2) ≡ v / 65536 % 256
unfolding put_uint
put_uint-byte2 c o v = ground arith

pub put_uint-byte3 : (c : ℕ → ℕ) (o v : ℕ) → put_uint c o v (o + 3) ≡ v / 16777216 % 256
unfolding put_uint
put_uint-byte3 c o v = ground arith

pub put_uint-away : (c : ℕ → ℕ) (o v x : ℕ) → (x < o) ⊎ (o + 4 ≤ x) → put_uint c o v x ≡ c x
unfolding put_uint
put_uint-away c o v x h =
    let c1 = update c o (v % 256) in
    let c2 = update c1 (o + 1) (v / 256 % 256) in
    let c3 = update c2 (o + 2) (v / 65536 % 256) in
    away c3 (o + 3) (v / 16777216 % 256) x (omega arith)
    ∙ away c2 (o + 2) (v / 65536 % 256) x (omega arith)
    ∙ away c1 (o + 1) (v / 256 % 256) x (omega arith)
    ∙ away c o (v % 256) x (omega arith)

pub put_short-away : (c : ℕ → ℕ) (o v x : ℕ) → (x < o) ⊎ (o + 2 ≤ x) → put_short c o v x ≡ c x
unfolding put_short
put_short-away c o v x h =
    away (update c o (v % 256)) (o + 1) (v / 256 % 256) x (omega arith)
    ∙ away c o (v % 256) x (omega arith)

pub get_uint-put_uint : (c : ℕ → ℕ) (o v : ℕ) → v < 2 ^ 32 → get_uint (put_uint c o v) o ≡ v
unfolding get_uint
get_uint-put_uint c o v h =
    omega (
      arith,
      put_uint-byte0 c o v,
      put_uint-byte1 c o v,
      put_uint-byte2 c o v,
      put_uint-byte3 c o v,
    )

pub get_short-put_short : (c : ℕ → ℕ) (o v : ℕ) → v < 2 ^ 16 → get_short (put_short c o v) o ≡ v
unfolding get_short put_short
get_short-put_short c o v h =
    let a =
      away (update c o (v % 256)) (o + 1) (v / 256 % 256) o (omega arith) ∙ here c o (v % 256) in
    let b = here (update c o (v % 256)) (o + 1) (v / 256 % 256) in omega arith

-- Reads of bytes that are the same.
pub get_uint-same :
    (c e : ℕ → ℕ) (o : ℕ) → ((x : ℕ) → o ≤ x → x < o + 4 → e x ≡ c x) → get_uint e o ≡ get_uint c o
unfolding get_uint
get_uint-same c e o h =
    let p = h o (omega arith) (omega arith) in
    let q = h (o + 1) (omega arith) (omega arith) in
    let r = h (o + 2) (omega arith) (omega arith) in
    let s = h (o + 3) (omega arith) (omega arith) in rw (p, q, r, s) refl

pub get_short-same :
    (c e : ℕ → ℕ) (o : ℕ)
    → ((x : ℕ) → o ≤ x → x < o + 2 → e x ≡ c x)
    → get_short e o ≡ get_short c o
unfolding get_short
get_short-same c e o h =
    let p = h o (omega arith) (omega arith) in
    let q = h (o + 1) (omega arith) (omega arith) in rw (p, q) refl

pub get_uint-put_uint_ne :
    (c : ℕ → ℕ) (o v p : ℕ) → (p + 4 ≤ o) ⊎ (o + 4 ≤ p) → get_uint (put_uint c o v) p ≡ get_uint c p
get_uint-put_uint_ne c o v p h =
    get_uint-same c (put_uint c o v) p (λ x l m. put_uint-away c o v x (omega arith))

pub get_uint-zero : (c : ℕ → ℕ) (o : ℕ) → ((x : ℕ) → c x ≡ 0) → get_uint c o ≡ 0
unfolding get_uint
get_uint-zero c o h =
    let p = h o in let q = h (o + 1) in let r = h (o + 2) in let s = h (o + 3) in omega arith
