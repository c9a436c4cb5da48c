-- ===== src/Grep/Reads.antt =====
-- user/grep.c: the outer loop of grep, with its buffer and the reads of a file.
use os_212_assignment.Base.{
  ℕ, zero, suc, ◌+◌, ◌-◌, ◌≤◌, ◌<◌, ◌≡◌, refl, sym, ap, ◌∙◌, true, false, ◌⊎◌, inl, inr, some, List,
  [], ◌∷◌, ◌++◌, ◌==◌, arith, Bool-cases, ==_iff, length, length-append, min, drop, if◌then◌else◌,
}
use os_212_assignment.Grep.{is_nil, lines_loop, sizeof_buf, taken, with_output, grep_loop, grep}
use os_212_assignment.Grep.Lines.{
  sel, unfinished, NoNul, IsLine, AllFit, text_of, shown_all, lines_loop_lem, sel-append,
  sel-line_append, unfinished-line_append, unfinished-IsLine, sel-text_of,
}

append-NoNul : (xs ys : List ℕ) → NoNul xs → NoNul ys → NoNul (xs ++ ys)
append-NoNul [] ys h k = k
append-NoNul (x ∷ xs) ys h k = (h.0, append-NoNul xs ys h.1 k)

unfinished-NoNul : (acc xs : List ℕ) → NoNul acc → NoNul xs → NoNul (unfinished acc xs)
unfinished-NoNul acc [] h k = h
unfinished-NoNul acc (c ∷ xs) h (k, ks) = elim (Bool-cases (c == b'\n')) [
  | inl e ↦ rw e (unfinished-NoNul [] xs tt ks)
  | inr e ↦ rw e (unfinished-NoNul (acc ++ (c ∷ [])) xs (append-NoNul acc (c ∷ []) h (k, tt)) ks)
]

taken-NoNul : (n : ℕ) (file : List ℕ) → NoNul file → NoNul (taken n file) × NoNul (drop n file)
taken-NoNul zero file h = (tt, h)
taken-NoNul (suc n) [] h = (tt, tt)
taken-NoNul (suc n) (c ∷ file) (h, hs) = let r = taken-NoNul n file hs in ((h, r.0), r.1)

taken-drop : (n : ℕ) (file : List ℕ) → taken n file ++ drop n file ≡ file
taken-drop zero file = refl
taken-drop (suc n) [] = refl
taken-drop (suc n) (c ∷ file) = ap (λ f. c ∷ f) (taken-drop n file)

taken_nothing : (n : ℕ) (file : List ℕ) → is_nil (taken n file) ≡ true → (n ≡ 0) ⊎ (file ≡ [])
taken_nothing zero file e = inl refl
taken_nothing (suc n) [] e = inr refl
taken_nothing (suc n) (c ∷ file) e = cc

taken_shorter :
    (n : ℕ) (file : List ℕ) → is_nil (taken n file) ≡ false → length (drop n file) < length file
taken_shorter zero file e = cc
taken_shorter (suc n) [] e = cc
taken_shorter (suc n) (c ∷ file) e = rest n file
  where
    rest : (n : ℕ) (file : List ℕ) → length (drop n file) < suc (length file)
    rest zero file = omega arith
    rest (suc n) [] = omega arith
    rest (suc n) (c ∷ file) = let h = rest n file in omega arith

-- Behind n characters of a line, each newline stands where the buffer still holds it.
abbrev Short : ℕ → List ℕ → Type 0
Short n [] = Unit {0}
Short n (c ∷ cs) = if c == b'\n' then (n + 1 < sizeof_buf) × Short 0 cs else Short (n + 1) cs

Short-line :
    (n : ℕ) (l cs : List ℕ)
    → IsLine l
    → n + length l + 1 < sizeof_buf
    → Short 0 cs
    → Short n (l ++ (b'\n' ∷ cs))
Short-line n [] cs h b s = (omega arith, s)
Short-line n (c ∷ l) cs (h, hs) b s = elim (Bool-cases (c == b'\n')) [
  | inl e ↦ absurd (h ((==_iff c b'\n').0 e))
  | inr e ↦ rw e (Short-line (n + 1) l cs hs (omega arith) s)
]

Short-tail : (n : ℕ) (l : List ℕ) → IsLine l → Short n l
Short-tail n [] h = tt
Short-tail n (c ∷ l) (h, hs) = elim (Bool-cases (c == b'\n')) [
  | inl e ↦ absurd (h ((==_iff c b'\n').0 e))
  | inr e ↦ rw e (Short-tail (n + 1) l hs)
]

text_of-Short :
    (ls : List (List ℕ)) (tail : List ℕ) → AllFit ls → IsLine tail → Short 0 (text_of ls tail)
text_of-Short [] tail h t = Short-tail 0 tail t
text_of-Short (l ∷ ls) tail (h, hs) t =
    Short-line 0 l (text_of ls tail) h.0 (omega (arith, h.2)) (text_of-Short ls tail hs t)

text_of-NoNul :
    (ls : List (List ℕ)) (tail : List ℕ) → AllFit ls → NoNul tail → NoNul (text_of ls tail)
text_of-NoNul [] tail h t = t
text_of-NoNul (l ∷ ls) tail (h, hs) t =
    append-NoNul l (b'\n' ∷ text_of ls tail) h.1 (omega arith, text_of-NoNul ls tail hs t)

Short-append :
    (acc xs ys : List ℕ) → Short (length acc) (xs ++ ys) → Short (length (unfinished acc xs)) ys
Short-append acc [] ys h = h
Short-append acc (c ∷ xs) ys h = elim (Bool-cases (c == b'\n')) [
  | inl e ↦ let q = (rw e at h) in rw e (Short-append [] xs ys q.1)
  | inr e ↦
      let q = (rw e at h) in
      rw e (Short-append (acc ++ (c ∷ [])) xs ys (rw (length-append acc (c ∷ [])) q))
]

-- Where the buffer is full, no line ends any more.
full_buffer :
    (pattern acc : List ℕ) (n : ℕ) (cs : List ℕ)
    → sizeof_buf ≤ n + 1
    → Short n cs
    → sel pattern acc cs ≡ []
full_buffer pattern acc n [] b h = refl
full_buffer pattern acc n (c ∷ cs) b h = elim (Bool-cases (c == b'\n')) [
  | inl e ↦ let q = (rw e at h) in absurd (let l = q.0 in omega arith)
  | inr e ↦
      let q = (rw e at h) in rw e (full_buffer pattern (acc ++ (c ∷ [])) (n + 1) cs (omega arith) q)
]

module _ (give : ℕ → ℕ) (gives : (i : ℕ) → 0 < give i) (pattern : List ℕ) where
  -- A round of the loop.
  round_lem :
      (n i rounds : ℕ) (buf file : List ℕ)
      → NoNul buf
      → NoNul file
      → IsLine buf
      → (grep_loop give rounds pattern (i + 1) (unfinished buf (taken n file)) (drop n file)
          ≡ some (sel pattern (unfinished buf (taken n file)) (drop n file)))
      → (let got = taken n file in
          let r = lines_loop (length (buf ++ got)) pattern (buf ++ got) in
          with_output r.0 (grep_loop give rounds pattern (i + 1) r.1 (drop n file))
          ≡ some (sel pattern buf file))
  round_lem n i rounds buf file k h line ih =
      let got = taken n file in
      rw
        (
          lines_loop_lem (length (buf ++ got)) pattern (buf ++ got)
              (append-NoNul buf got k (taken-NoNul n file h).0) (omega arith),
          unfinished-line_append [] buf got line,
          ih,
          sel-line_append pattern [] buf got line,
        )
        (ap some (
          sym (sel-append pattern buf got (drop n file))
          ∙ ap (sel pattern buf) (taken-drop n file)))

  grep_loop_lem :
      (rounds i : ℕ) (buf file : List ℕ)
      → length file < rounds
      → NoNul buf
      → NoNul file
      → IsLine buf
      → Short (length buf) file
      → grep_loop give rounds pattern i buf file ≡ some (sel pattern buf file)
  unfolding grep_loop
  grep_loop_lem zero i buf file l k h line s = absurd (omega arith)
  grep_loop_lem (suc rounds) i buf file l k h line s =
      let n = min (give i) (sizeof_buf - length buf - 1) in
      let got = taken n file in
      elim (Bool-cases (is_nil got)) [
        | inl e ↦ rw e (elim (taken_nothing n file e) [
          | inl z ↦
              let p = gives i in
              ap some (sym (full_buffer pattern buf (length buf) file (omega arith) s))
          | inr z ↦ ap (λ x. some (sel pattern buf x)) (sym z)
        ])
        | inr e ↦
            let q = taken_shorter n file e in
            rw e (
              round_lem n i rounds buf file k h line (
                grep_loop_lem rounds (i + 1) (unfinished buf got) (drop n file) (omega arith)
                  (unfinished-NoNul buf got k (taken-NoNul n file h).0) (taken-NoNul n file h).1
                  (unfinished-IsLine buf got line)
                  (Short-append buf got (drop n file) (rw (taken-drop n file) s))))
      ]

-- Let a file have the lines ls, each with its newline, and a tail without one, with no NUL in it, and
-- let each line with its newline fit the buffer and no read fail: grep ends, and has written the
-- lines of ls that match the pattern, in order and each with its newline, however many bytes the
-- reads give. The tail is not looked at, and may be longer than the buffer.
pub grep_lem :
    (give : ℕ → ℕ) (pattern : List ℕ) (ls : List (List ℕ)) (tail : List ℕ)
    → ((i : ℕ) → 0 < give i)
    → AllFit ls
    → IsLine tail
    → NoNul tail
    → grep give pattern (text_of ls tail) ≡ some (shown_all pattern ls)
unfolding grep
grep_lem give pattern ls tail gives h t z =
    let file = text_of ls tail in
    grep_loop_lem give gives pattern (suc (length file)) 0 [] file (omega arith) tt
      (text_of-NoNul ls tail h z) tt (text_of-Short ls tail h t)
    ∙ ap some (sel-text_of pattern ls tail h t)
