-- ===== src/Pipe/Window.antt =====
-- The bytes that the circular buffer of a pipe holds, and what one byte in or out does to them.
use os_212_assignment.Base.{
  ℕ, zero, suc, ◌+◌, ◌-◌, ◌%◌, ◌^◌, ◌≤◌, ◌<◌, ◌≡◌, ◌≢◌, refl, ap, List, [], ◌∷◌, ◌++◌, arith, true,
  false,
}
use mathlib.Core.Path.{ap₂}
use os_212_assignment.Kernel.{update, inc32}
use os_212_assignment.Pipe.{Pipe, is_full, is_empty, put, next_byte, taken}

-- The `n` bytes from counter value `h` on.
abbrev pub window : (ℕ → ℕ) → ℕ → ℕ → List ℕ
window d h zero = []
window d h (suc n) = d (h % 512) ∷ window d (h + 1) n

-- The number of bytes in the pipe, which survives a wrap-around of the counters.
abbrev pub size : Pipe → ℕ
size pi = (pi.nwrite + (2 ^ 32 - pi.nread)) % 2 ^ 32

abbrev pub contents : Pipe → List ℕ
contents pi = window pi.data_ pi.nread (size pi)

pub record IsPipe (pi : Pipe) : Type 0 where
  pub read_low : pi.nread < 2 ^ 32
  pub write_low : pi.nwrite < 2 ^ 32
  pub few : size pi ≤ 512

pub window_nil : (d : ℕ → ℕ) (h n : ℕ) → window d h n ≡ [] → n ≡ 0
window_nil d h zero e = refl
window_nil d h (suc n) e = absurd cc

window_cong : (d : ℕ → ℕ) (n h k : ℕ) → h % 512 ≡ k % 512 → window d h n ≡ window d k n
window_cong d zero h k e = refl
window_cong d (suc n) h k e = ap₂ ◌∷◌ (ap d e) (window_cong d n (h + 1) (k + 1) (omega arith))

update_self : (d : ℕ → ℕ) (i j v : ℕ) → i ≡ j → update d i v j ≡ v
update_self d i j v e = ground arith

update_ne : (d : ℕ → ℕ) (i j v : ℕ) → i ≢ j → update d i v j ≡ d j
update_ne d i j v e = ground arith

window-update :
    (d : ℕ → ℕ) (ch n h e : ℕ)
    → n < 512
    → e % 512 ≡ (h + n) % 512
    → window (update d (e % 512) ch) h (suc n) ≡ window d h n ++ (ch ∷ [])
window-update d ch zero h e l m =
    ap (λ y. y ∷ []) (update_self d (e % 512) (h % 512) ch (omega arith))
window-update d ch (suc n) h e l m =
    ap₂ ◌∷◌ (update_ne d (e % 512) (h % 512) ch (omega arith))
      (window-update d ch n (h + 1) e (omega arith) (omega arith))

pub is_full_iff : (pi : Pipe) → IsPipe pi → is_full pi ≡ true → size pi ≡ 512
is_full_iff pi w e = ground arith

pub size_of_room : (pi : Pipe) → IsPipe pi → is_full pi ≡ false → size pi < 512
size_of_room pi w e = ground arith

pub size_of_empty : (pi : Pipe) → IsPipe pi → is_empty pi ≡ true → size pi ≡ 0
size_of_empty pi w e = ground arith

pub size_of_some : (pi : Pipe) → IsPipe pi → is_empty pi ≡ false → 0 < size pi
size_of_some pi w e = ground arith

pub put-IsPipe : (pi : Pipe) (ch : ℕ) → IsPipe pi → size pi < 512 → IsPipe (put ch pi)
put-IsPipe pi ch w l = record {
  read_low = w.read_low;
  write_low = omega (arith, w.write_low);
  few = omega (arith, w.write_low, w.read_low);
}

pub taken-IsPipe : (pi : Pipe) → IsPipe pi → 0 < size pi → IsPipe (taken pi)
taken-IsPipe pi w l = record {
  read_low = omega (arith, w.read_low);
  write_low = w.write_low;
  few = omega (arith, w.write_low, w.read_low, w.few);
}

-- A byte put into a pipe with room goes behind the others.
pub contents-put :
    (pi : Pipe) (ch : ℕ)
    → IsPipe pi
    → size pi < 512
    → contents (put ch pi) ≡ contents pi ++ (ch ∷ [])
contents-put pi ch w l =
    let more : size (put ch pi) ≡ suc (size pi) = omega (arith, w.write_low, w.read_low) in
    rw more (
      window-update pi.data_ ch (size pi) pi.nread pi.nwrite l
        (omega (arith, w.write_low, w.read_low)))

-- The byte taken out of a pipe is the first one.
pub contents-taken :
    (pi : Pipe) → IsPipe pi → 0 < size pi → contents pi ≡ next_byte pi ∷ contents (taken pi)
contents-taken pi w l =
    let less : size pi ≡ suc (size (taken pi)) = omega (arith, w.write_low, w.read_low) in
    rw less (
      ap (λ bs. next_byte pi ∷ bs)
        (window_cong pi.data_ (size (taken pi)) (pi.nread + 1) (inc32 pi.nread) (omega arith)))
