-- ===== src/Ring/Queue.antt =====
-- The array of `in` and `out` holds a queue: what the two do to it, and the invariant they keep.
use os_212_assignment.Base.{
  ℕ, zero, suc, ◌+◌, ◌-◌, ◌%◌, ◌≤◌, ◌<◌, ◌≡◌, refl, ap, ◌∙◌, List, [], ◌∷◌, ◌++◌, arith, ◌==◌,
  if◌then◌else◌, length, get_or, set, length-set, get_or-set_self, get_or-set_ne,
}
use mathlib.Core.Path.{ap₂}
use os_212_assignment.Base.Int.{
  ℤ, pos, negsuc, minus_one, inc, dec, eqb_ℤ, pos_part, neg_part, inc-pos, dec-pos,
}
use os_212_assignment.Proc.{Proc, max_total_pages}
use os_212_assignment.Ring.{place, in_, out, front}

-- The index after `h`, going round at the end of the array.
abbrev pub next : ℕ → ℕ
next h = if h == (max_total_pages - 1) then 0 else h + 1

-- The `n` pages from index `h` on, going round.
abbrev pub window : List ℤ → ℕ → ℕ → List ℤ
window buf h zero = []
window buf h (suc n) = get_or buf h minus_one ∷ window buf (next h) n

pub record IsRing (p : Proc) : Type 0 where
  pub size : length p.pages ≡ max_total_pages
  pub head_in : p.head < max_total_pages
  pub count : p.num_of_pages ≡ pos (place p.num_of_pages)
  pub few : place p.num_of_pages ≤ max_total_pages
  pub tail_in : pos_part p.tail < max_total_pages
  pub tail_low : neg_part p.tail ≤ 1
  pub last : pos_part (inc p.tail) % 32 ≡ (p.head + place p.num_of_pages) % 32

abbrev pub contents : Proc → List ℤ
contents p = window p.pages p.head (place p.num_of_pages)

pub length-window : (buf : List ℤ) (h n : ℕ) → length (window buf h n) ≡ n
length-window buf h zero = refl
length-window buf h (suc n) = ap suc (length-window buf (next h) n)

window_of_pos :
    (buf : List ℤ) (h n : ℕ)
    → 0 < n
    → window buf h n ≡ get_or buf h minus_one ∷ window buf (next h) (n - 1)
window_of_pos buf h zero some = absurd (omega arith)
window_of_pos buf h (suc n) some =
    ap (λ k. get_or buf h minus_one ∷ window buf (next h) k) (omega arith)

next_lem : (h : ℕ) → h < 32 → next h ≡ (h + 1) % 32
next_lem h l = ground arith

-- Writing just past a window extends it by that page.
pub window-set :
    (buf : List ℤ) (x : ℤ) (n h i : ℕ)
    → length buf ≡ 32
    → h < 32
    → n < 32
    → i ≡ (h + n) % 32
    → window (set buf i x) h (suc n) ≡ window buf h n ++ (x ∷ [])
window-set buf x zero h i hs hh hn e =
    let here : i ≡ h = omega arith in
    rw here (ap (λ y. y ∷ []) (get_or-set_self buf h x minus_one (omega arith)))
window-set buf x (suc n) h i hs hh hn e =
    let low : next h < 32 = omega (arith, next_lem h hh) in
    let at : i ≡ (next h + n) % 32 = omega (arith, next_lem h hh) in
    ap₂ ◌∷◌ (get_or-set_ne buf i h x minus_one (omega arith))
      (window-set buf x n (next h) i hs low (omega arith) at)

-- The index that `in` writes: the first one behind the queue.
abbrev pub next_tail : Proc → ℤ
next_tail p = inc (if eqb_ℤ p.tail (pos (max_total_pages - 1)) then minus_one else p.tail)

pub next_tail_lem : {p : Proc} → IsRing p → next_tail p ≡ pos ((p.head + place p.num_of_pages) % 32)
next_tail_lem {p} r = split p.tail r.tail_in r.tail_low r.last
  where
    split :
        (t : ℤ)
        → pos_part t < max_total_pages
        → neg_part t ≤ 1
        → pos_part (inc t) % 32 ≡ (p.head + place p.num_of_pages) % 32
        → inc (if eqb_ℤ t (pos (max_total_pages - 1)) then minus_one else t)
          ≡ pos ((p.head + place p.num_of_pages) % 32)
    split (pos t) a b c = ground arith
    split (negsuc t) a b c = ground arith

pub inc-count : {p : Proc} → IsRing p → inc p.num_of_pages ≡ pos (place p.num_of_pages + 1)
inc-count {p} r = rw r.count (inc-pos (place p.num_of_pages))

pub dec-count :
    {p : Proc}
    → IsRing p
    → 0 < place p.num_of_pages
    → dec p.num_of_pages ≡ pos (place p.num_of_pages - 1)
dec-count {p} r some = rw r.count (dec-pos (place p.num_of_pages) some)

-- `in` keeps the invariant while there is room.
pub in_-IsRing :
    (page : ℤ) {p : Proc} → IsRing p → place p.num_of_pages < max_total_pages → IsRing (in_ page p)
unfolding in_
in_-IsRing page {p} r room = record {
  size = length-set p.pages (place (next_tail p)) page ∙ r.size;
  head_in = r.head_in;
  count = rw (inc-count r);
  few = rw (inc-count r) (omega arith);
  tail_in = rw (next_tail_lem r) (omega arith);
  tail_low = rw (next_tail_lem r) (omega arith);
  last = rw (inc-count r) (rw (next_tail_lem r) (rw inc-pos (omega arith)));
}

pub out-IsRing : {p : Proc} → IsRing p → 0 < place p.num_of_pages → IsRing (out p)
unfolding out
out-IsRing {p} r some = record {
  size = r.size;
  head_in = omega (arith, next_lem p.head r.head_in);
  count = rw (dec-count r some);
  few = rw (dec-count r some) (omega arith);
  tail_in = r.tail_in;
  tail_low = r.tail_low;
  last = rw (dec-count r some) (omega (arith, next_lem p.head r.head_in));
}

pub contents-in_ :
    (page : ℤ) {p : Proc}
    → IsRing p
    → place p.num_of_pages < max_total_pages
    → contents (in_ page p) ≡ contents p ++ (page ∷ [])
unfolding in_
contents-in_ page {p} r room =
    let n = place p.num_of_pages in
    let one : n + 1 ≡ suc n = omega arith in
    rw (inc-count r) (
      rw (next_tail_lem r)
        (rw one (window-set p.pages page n p.head ((p.head + n) % 32) r.size r.head_in room refl)))

pub contents-out :
    {p : Proc} → IsRing p → 0 < place p.num_of_pages → contents p ≡ front p ∷ contents (out p)
unfolding out
contents-out {p} r some =
    let n = place p.num_of_pages in rw (dec-count r some) (window_of_pos p.pages p.head n some)
