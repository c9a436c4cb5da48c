-- ===== src/Io/Pages.antt =====
-- kernel/vm.c, copyin and copyout, which either_copyin and either_copyout of kernel/proc.c call for
-- user addresses: page by page. What walkaddr finds is a parameter: the bytes of a page, or none.
use os_212_assignment.Base.{
  ℕ, zero, suc, ◌+◌, ◌-◌, ◌*◌, ◌/◌, ◌%◌, ◌≤◌, ◌<◌, ◌≡◌, ◌≢◌, refl, sym, ap, ◌∙◌, arith, min, Bool,
  true, false, if◌then◌else◌, ◌==◌, Option, none, some, Option-cases, Bool-cases, inl, inr, ==_iff,
  ne_of_false,
}
use os_212_assignment.Kernel.{update, pgsize}
use os_212_assignment.Io.{copy_in, copy_out}
use os_212_assignment.Io.Copy.{patched, copy_in-patched, copy_out-patched}

-- A run of bytes from address a on that does not leave its page, len at most.
abbrev pub in_page : ℕ → ℕ → ℕ
in_page a len = min len (pgsize - a % pgsize)

abbrev pub next_page : ℕ → ℕ
next_page a = (a / pgsize + 1) * pgsize

-- The loop of `copyin(pagetable, dst, srcva, len)`, with rounds left, to offset o of c.
unfoldable pub copyin : ℕ → (ℕ → Option (ℕ → ℕ)) → ℕ → ℕ → (ℕ → ℕ) → ℕ → (ℕ → ℕ) × Bool
copyin zero page len a c o = (c, true)
copyin (suc rounds) page len a c o =
    let n = in_page a len in
    let moved : (ℕ → ℕ) × Bool = elim (page (a / pgsize)) [
      | none ↦ (c, false)
      | some b ↦
          copyin rounds page (len - n) (next_page a) (patched c o n (λ k. b (a % pgsize + k)))
            (o + n)
    ] in
    if len == 0 then (c, true) else moved

-- The loop of `copyout(pagetable, dstva, src, len)`, from offset o of c.
unfoldable pub copyout : ℕ → (ℕ → Bool) → ℕ → (ℕ → ℕ) → ℕ → ℕ → (ℕ → ℕ) → (ℕ → ℕ) × Bool
copyout zero page len c o a mem = (mem, true)
copyout (suc rounds) page len c o a mem =
    let n = in_page a len in
    let moved =
      copyout rounds page (len - n) c (o + n) (next_page a) (patched mem a n (λ k. c (o + k))) in
    if len == 0 then (mem, true) else if page (a / pgsize) then moved else (mem, false)

-- The byte at an address.
abbrev pub byte_in : Option (ℕ → ℕ) → ℕ → Option ℕ
byte_in none i = none
byte_in (some b) i = some (b i)

abbrev pub byte_at : (ℕ → Option (ℕ → ℕ)) → ℕ → Option ℕ
byte_at page x = byte_in (page (x / pgsize)) (x % pgsize)

-- A copy of n bytes that succeeds, and the rest.
copy_in_split :
    (n m : ℕ) (user : ℕ → Option ℕ) (a : ℕ) (c : ℕ → ℕ) (o : ℕ) (c' : ℕ → ℕ)
    → copy_in n user a c o ≡ (c', true)
    → copy_in (n + m) user a c o ≡ copy_in m user (a + n) c' (o + n)
unfolding copy_in
copy_in_split zero m user a c o c' e =
    let x : 0 + m ≡ m = omega arith in
    let y : a + 0 ≡ a = omega arith in
    let z : o + 0 ≡ o = omega arith in
    rw (x, y, z) (ap (λ (r : (ℕ → ℕ) × Bool). copy_in m user a r.0 o) e)
copy_in_split (suc n) m user a c o c' e = elim (Option-cases (user a)) [
  | inl z ↦ absurd (let f = ap (λ (r : (ℕ → ℕ) × Bool). r.1) (rw (z, copy_in) at e) in cc)
  | inr (v, z) ↦
      let h = copy_in_split n m user (a + 1) (update c o v) (o + 1) c' (rw (z, copy_in) at e) in
      let s : suc n + m ≡ suc (n + m) = omega arith in
      let p : a + 1 + n ≡ a + suc n = omega arith in
      let q : o + 1 + n ≡ o + suc n = omega arith in rw s (rw (z, copy_in) (h ∙ rw (p, q) refl))
]

copy_out_split :
    (n m : ℕ) (good : ℕ → Bool) (c : ℕ → ℕ) (o a : ℕ) (mem mem' : ℕ → ℕ)
    → copy_out n good c o a mem ≡ (mem', true)
    → copy_out (n + m) good c o a mem ≡ copy_out m good c (o + n) (a + n) mem'
unfolding copy_out
copy_out_split zero m good c o a mem mem' e =
    let x : 0 + m ≡ m = omega arith in
    let y : a + 0 ≡ a = omega arith in
    let z : o + 0 ≡ o = omega arith in
    rw (x, y, z) (ap (λ (r : (ℕ → ℕ) × Bool). copy_out m good c o a r.0) e)
copy_out_split (suc n) m good c o a mem mem' e = elim (Bool-cases (good a)) [
  | inr z ↦ absurd (let f = ap (λ (r : (ℕ → ℕ) × Bool). r.1) (rw (z, copy_out) at e) in cc)
  | inl z ↦
      let h =
        copy_out_split n m good c (o + 1) (a + 1) (update mem a (c o)) mem'
          (rw (z, copy_out) at e) in
      let s : suc n + m ≡ suc (n + m) = omega arith in
      let p : a + 1 + n ≡ a + suc n = omega arith in
      let q : o + 1 + n ≡ o + suc n = omega arith in rw s (rw (z, copy_out) (h ∙ rw (p, q) refl))
]

-- The addresses of a run in a page.
same_page : (a len k : ℕ) → k < in_page a len → (a + k) / pgsize ≡ a / pgsize
same_page a len k h = omega arith

same_offset : (a len k : ℕ) → k < in_page a len → (a + k) % pgsize ≡ a % pgsize + k
same_offset a len k h = omega arith

run_ends : (a len : ℕ) → len ≢ 0 → len - in_page a len ≢ 0 → a + in_page a len ≡ next_page a
run_ends a len h g = omega arith

copy_in_stops :
    (m : ℕ) (user : ℕ → Option ℕ) (a : ℕ) (c : ℕ → ℕ) (o : ℕ)
    → m ≢ 0
    → user a ≡ none
    → copy_in m user a c o ≡ (c, false)
unfolding copy_in
copy_in_stops zero user a c o h e = absurd (h refl)
copy_in_stops (suc m) user a c o h e = rw (e, copy_in) refl

copy_out_stops :
    (m : ℕ) (good : ℕ → Bool) (c : ℕ → ℕ) (o a : ℕ) (mem : ℕ → ℕ)
    → m ≢ 0
    → good a ≡ false
    → copy_out m good c o a mem ≡ (mem, false)
unfolding copy_out
copy_out_stops zero good c o a mem h e = absurd (h refl)
copy_out_stops (suc m) good c o a mem h e = rw (e, copy_out) refl

-- Behind a run that ends the copy, it does not matter where the copy would go on.
copy_in_from :
    (m : ℕ) (user : ℕ → Option ℕ) (a a' : ℕ) (c : ℕ → ℕ) (o : ℕ)
    → (m ≢ 0 → a ≡ a')
    → copy_in m user a c o ≡ copy_in m user a' c o
unfolding copy_in
copy_in_from zero user a a' c o h = refl
copy_in_from (suc m) user a a' c o h =
    ap (λ x. copy_in (suc m) user x c o) (h (λ e. absurd (omega arith)))

copy_out_from :
    (m : ℕ) (good : ℕ → Bool) (c : ℕ → ℕ) (o a a' : ℕ) (mem : ℕ → ℕ)
    → (m ≢ 0 → a ≡ a')
    → copy_out m good c o a mem ≡ copy_out m good c o a' mem
unfolding copy_out
copy_out_from zero good c o a a' mem h = refl
copy_out_from (suc m) good c o a a' mem h =
    ap (λ x. copy_out (suc m) good c o x mem) (h (λ e. absurd (omega arith)))

none_left :
    (page : ℕ → Option (ℕ → ℕ)) (a : ℕ) (c : ℕ → ℕ) (o : ℕ)
    → (c, true) ≡ copy_in 0 (byte_at page) a c o
unfolding copy_in
none_left page a c o = refl

copyin_lem :
    (rounds : ℕ) (page : ℕ → Option (ℕ → ℕ)) (len a : ℕ) (c : ℕ → ℕ) (o : ℕ)
    → len ≤ rounds
    → copyin rounds page len a c o ≡ copy_in len (byte_at page) a c o
unfolding copyin
copyin_lem zero page len a c o l = let z : len ≡ 0 = omega arith in rw z (none_left page a c o)
copyin_lem (suc rounds) page len a c o l =
    let n = in_page a len in
    elim (Bool-cases (len == 0)) [
      | inl e ↦ let z : len ≡ 0 = (==_iff len 0).0 e in rw z (none_left page a c o)
      | inr e ↦
          let some_ = ne_of_false len 0 e in
          elim (Option-cases (page (a / pgsize))) [
            | inl p ↦
                rw (e, p)
                  (sym (
                    copy_in_stops len (byte_at page) a c o some_
                      (ap (λ q. byte_in q (a % pgsize)) p)))
            | inr (b, p) ↦
                let whole : len ≡ n + (len - n) = omega arith in
                let run =
                  copy_in-patched n (byte_at page) a c o (λ k. b (a % pgsize + k))
                    (λ k q.
                      ap (λ x. byte_in (page x) ((a + k) % pgsize)) (same_page a len k q)
                      ∙ ap (λ q. byte_in q ((a + k) % pgsize)) p
                      ∙ ap (λ x. some (b x)) (same_offset a len k q)) in
                let c' = patched c o n (λ k. b (a % pgsize + k)) in
                rw (e, p)
                  (copyin_lem rounds page (len - n) (next_page a) c' (o + n) (omega arith)
                    ∙ sym (
                        ap (λ x. copy_in x (byte_at page) a c o) whole
                        ∙ copy_in_split n (len - n) (byte_at page) a c o c' run
                        ∙ copy_in_from (len - n) (byte_at page) (a + n) (next_page a) c' (o + n)
                            (run_ends a len some_)))
          ]
    ]

copyout_lem :
    (rounds : ℕ) (page : ℕ → Bool) (len : ℕ) (c : ℕ → ℕ) (o a : ℕ) (mem : ℕ → ℕ)
    → len ≤ rounds
    → copyout rounds page len c o a mem ≡ copy_out len (λ x. page (x / pgsize)) c o a mem
unfolding copyout copy_out
copyout_lem zero page len c o a mem l = let z : len ≡ 0 = omega arith in rw z refl
copyout_lem (suc rounds) page len c o a mem l =
    let n = in_page a len in
    let good = λ (x : ℕ). page (x / pgsize) in
    elim (Bool-cases (len == 0)) [
      | inl e ↦ let z : len ≡ 0 = (==_iff len 0).0 e in rw z refl
      | inr e ↦
          let some_ = ne_of_false len 0 e in
          elim (Bool-cases (page (a / pgsize))) [
            | inr p ↦ rw (e, p) (sym (copy_out_stops len good c o a mem some_ p))
            | inl p ↦
                let whole : len ≡ n + (len - n) = omega arith in
                let run =
                  copy_out-patched n good c o a mem (λ k q. ap page (same_page a len k q) ∙ p) in
                let mem' = patched mem a n (λ k. c (o + k)) in
                rw (e, p)
                  (copyout_lem rounds page (len - n) c (o + n) (next_page a) mem' (omega arith)
                    ∙ sym (
                        ap (λ x. copy_out x good c o a mem) whole
                        ∙ copy_out_split n (len - n) good c o a mem mem' run
                        ∙ copy_out_from (len - n) good c (o + n) (a + n) (next_page a) mem'
                            (run_ends a len some_)))
          ]
    ]

-- The copies of readi and writei that go byte by byte are those of copyin and copyout, which go
-- page by page, for every length, address and set of mapped pages: the same bytes are moved, also
-- where a later page is not mapped and the copy fails, and as many rounds as bytes suffice.
pub copies_lem :
    (page : ℕ → Option (ℕ → ℕ)) (present : ℕ → Bool) (rounds len a : ℕ) (c : ℕ → ℕ) (o : ℕ)
    (mem : ℕ → ℕ)
    → len ≤ rounds
    → (copyin rounds page len a c o ≡ copy_in len (byte_at page) a c o)
      × (copyout rounds present len c o a mem ≡ copy_out len (λ x. present (x / pgsize)) c o a mem)
copies_lem page present rounds len a c o mem l =
    (copyin_lem rounds page len a c o l, copyout_lem rounds present len c o a mem l)
