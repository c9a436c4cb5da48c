-- ===== src/Grep/Lines.antt =====
-- The loop of grep over the reads of a file, however the reads fall.
use os_212_assignment.Base.{
  ℕ, zero, suc, ◌≤◌, ◌<◌, ◌≡◌, ◌≢◌, refl, sym, ap, ◌∙◌, false, inl, inr, Option, none, some, List,
  [], ◌∷◌, ◌++◌, ◌==◌, if◌then◌else◌, arith, Bool-cases, Option-cases, ==_iff, append_assoc,
  append-nil, length, ◌+◌,
}
use mathlib.Core.Path.{ap₂}
use os_212_assignment.Grep.{match, cut, lines_loop, sizeof_buf}

-- The line with its newline, if it is selected.
abbrev pub shown : List ℕ → List ℕ → List ℕ
shown pattern line = if match pattern line then line ++ (b'\n' ∷ []) else []

-- What is written for a text behind the first part `acc` of a line, and the unfinished line.
abbrev pub sel : List ℕ → List ℕ → List ℕ → List ℕ
sel pattern acc [] = []
sel pattern acc (c ∷ cs) =
    if c == b'\n' then shown pattern acc ++ sel pattern [] cs else sel pattern (acc ++ (c ∷ [])) cs

abbrev pub unfinished : List ℕ → List ℕ → List ℕ
unfinished acc [] = acc
unfinished acc (c ∷ cs) = if c == b'\n' then unfinished [] cs else unfinished (acc ++ (c ∷ [])) cs

some_pair :
    (a b c d : List ℕ)
    → ◌≡◌ {A = Option (List ℕ × List ℕ)} (some (a, b)) (some (c, d))
    → (a ≡ c) × (b ≡ d)
some_pair a b c d e = (cc, cc)

-- No NUL in it.
abbrev pub NoNul : List ℕ → Type 0
NoNul [] = Unit {0}
NoNul (c ∷ cs) = (c ≢ 0) × NoNul cs

not_nul : (c : ℕ) → c ≢ 0 → (c == 0) ≡ false
not_nul c h = ground arith

cut_none :
    (pattern p acc : List ℕ)
    → NoNul p
    → cut p ≡ none
    → (sel pattern acc p ≡ []) × (unfinished acc p ≡ acc ++ p)
unfolding cut
cut_none pattern [] acc z e = (refl, sym (append-nil acc))
cut_none pattern (c ∷ cs) acc (k, ks) e = elim (Bool-cases (c == b'\n')) [
  | inl n ↦ let f = (rw n at e) in absurd cc
  | inr o ↦ elim (Option-cases (cut cs)) [
    | inl z ↦
        let (s, u) = cut_none pattern cs (acc ++ (c ∷ [])) ks z in
        (rw o s, rw o (u ∙ append_assoc acc (c ∷ []) cs))
    | inr (q, z) ↦ let f = (rw (o, not_nul c k, z) at e) in absurd cc
  ]
]

cut-some :
    (pattern p acc line rest : List ℕ)
    → NoNul p
    → cut p ≡ some (line, rest)
    → (sel pattern acc p ≡ shown pattern (acc ++ line) ++ sel pattern [] rest)
      × (unfinished acc p ≡ unfinished [] rest)
      × (length rest < length p)
      × NoNul rest
unfolding cut
cut-some pattern [] acc line rest k e = absurd cc
cut-some pattern (c ∷ cs) acc line rest (k, ks) e = elim (Bool-cases (c == b'\n')) [
  | inl n ↦
      let (x, y) = some_pair [] cs line rest (rw n at e) in
      rw n (rw (← x) (rw (← y, append-nil acc) (refl, refl, omega arith, ks)))
  | inr o ↦ elim (Option-cases (cut cs)) [
    | inl z ↦ let f = (rw (o, not_nul c k, z) at e) in absurd cc
    | inr ((l, r), z) ↦
        let (x, y) = some_pair (c ∷ l) r line rest (rw (o, not_nul c k, z) at e) in
        let (s, u, lt, none_) = cut-some pattern cs (acc ++ (c ∷ [])) l r ks z in
        rw o (
          rw (← x) (
            rw (← y) (
              s ∙ ap (λ q. shown pattern q ++ sel pattern [] r) (append_assoc acc (c ∷ []) l),
              u,
              omega arith,
              none_,
            )))
  ]
]

pub lines_loop_lem :
    (fuel : ℕ) (pattern p : List ℕ)
    → NoNul p
    → length p ≤ fuel
    → lines_loop fuel pattern p ≡ (sel pattern [] p, unfinished [] p)
unfolding lines_loop
lines_loop_lem zero pattern [] k l = refl
lines_loop_lem zero pattern (c ∷ cs) k l = absurd (omega arith)
lines_loop_lem (suc fuel) pattern p k l = elim (Option-cases (cut p)) [
  | inl z ↦
      let (s, u) = cut_none pattern p [] k z in
      rw (z, lines_loop) (ap₂ (λ a b. (a, b)) (sym s) (sym u))
  | inr ((line, rest), z) ↦
      let (s, u, lt, none_) = cut-some pattern p [] line rest k z in
      let ih = lines_loop_lem fuel pattern rest none_ (omega arith) in
      rw (z, lines_loop, ih) (ap₂ (λ a b. (a, b)) (sym s) (sym u))
]

pub sel-append :
    (pattern acc xs ys : List ℕ)
    → sel pattern acc (xs ++ ys) ≡ sel pattern acc xs ++ sel pattern (unfinished acc xs) ys
sel-append pattern acc [] ys = refl
sel-append pattern acc (c ∷ xs) ys = elim (Bool-cases (c == b'\n')) [
  | inl n ↦ rw n (
      ap (λ l. shown pattern acc ++ l) (sel-append pattern [] xs ys)
      ∙ sym (append_assoc (shown pattern acc) (sel pattern [] xs) _))
  | inr o ↦ rw o (sel-append pattern (acc ++ (c ∷ [])) xs ys)
]

-- No newline in it.
abbrev pub IsLine : List ℕ → Type 0
IsLine [] = Unit {0}
IsLine (c ∷ cs) = (c ≢ b'\n') × IsLine cs

-- A line that the buffer holds with its newline.
abbrev pub Fits : List ℕ → Type 0
Fits l = IsLine l × NoNul l × (length l + 1 < sizeof_buf)

abbrev pub AllFit : List (List ℕ) → Type 0
AllFit [] = Unit {0}
AllFit (l ∷ ls) = Fits l × AllFit ls

abbrev pub text_of : List (List ℕ) → List ℕ → List ℕ
text_of [] tail = tail
text_of (l ∷ ls) tail = l ++ (b'\n' ∷ text_of ls tail)

abbrev pub shown_all : List ℕ → List (List ℕ) → List ℕ
shown_all pattern [] = []
shown_all pattern (l ∷ ls) = shown pattern l ++ shown_all pattern ls

sel_line :
    (pattern acc l cs : List ℕ)
    → IsLine l
    → sel pattern acc (l ++ (b'\n' ∷ cs)) ≡ shown pattern (acc ++ l) ++ sel pattern [] cs
sel_line pattern acc [] cs n = rw (append-nil acc) refl
sel_line pattern acc (c ∷ l) cs (n, ns) = elim (Bool-cases (c == b'\n')) [
  | inl e ↦ absurd (n ((==_iff c b'\n').0 e))
  | inr o ↦ rw o (
      sel_line pattern (acc ++ (c ∷ [])) l cs ns
      ∙ ap (λ q. shown pattern q ++ sel pattern [] cs) (append_assoc acc (c ∷ []) l))
]

sel_tail : (pattern acc l : List ℕ) → IsLine l → sel pattern acc l ≡ []
sel_tail pattern acc [] n = refl
sel_tail pattern acc (c ∷ l) (n, ns) = elim (Bool-cases (c == b'\n')) [
  | inl e ↦ absurd (n ((==_iff c b'\n').0 e))
  | inr o ↦ rw o (sel_tail pattern (acc ++ (c ∷ [])) l ns)
]

pub sel-text_of :
    (pattern : List ℕ) (ls : List (List ℕ)) (tail : List ℕ)
    → AllFit ls
    → IsLine tail
    → sel pattern [] (text_of ls tail) ≡ shown_all pattern ls
sel-text_of pattern [] tail h t = sel_tail pattern [] tail t
sel-text_of pattern (l ∷ ls) tail (h, hs) t =
    sel_line pattern [] l (text_of ls tail) h.0
    ∙ ap (λ q. shown pattern l ++ q) (sel-text_of pattern ls tail hs t)

pub sel-line_append :
    (pattern acc l ys : List ℕ) → IsLine l → sel pattern acc (l ++ ys) ≡ sel pattern (acc ++ l) ys
sel-line_append pattern acc [] ys n = rw (append-nil acc) refl
sel-line_append pattern acc (c ∷ l) ys (n, ns) = elim (Bool-cases (c == b'\n')) [
  | inl e ↦ absurd (n ((==_iff c b'\n').0 e))
  | inr o ↦ rw o (
      sel-line_append pattern (acc ++ (c ∷ [])) l ys ns
      ∙ ap (λ q. sel pattern q ys) (append_assoc acc (c ∷ []) l))
]

append-IsLine : (l : List ℕ) (c : ℕ) → IsLine l → c ≢ b'\n' → IsLine (l ++ (c ∷ []))
append-IsLine [] c h n = (n, tt)
append-IsLine (x ∷ l) c (h, hs) n = (h, append-IsLine l c hs n)

pub unfinished-IsLine : (acc xs : List ℕ) → IsLine acc → IsLine (unfinished acc xs)
unfinished-IsLine acc [] h = h
unfinished-IsLine acc (c ∷ xs) h = elim (Bool-cases (c == b'\n')) [
  | inl e ↦ rw e (unfinished-IsLine [] xs tt)
  | inr o ↦ rw o (
      unfinished-IsLine (acc ++ (c ∷ [])) xs
        (append-IsLine acc c h (λ q. let y = (==_iff c b'\n').1 q in cc)))
]

pub unfinished-line_append :
    (acc l ys : List ℕ) → IsLine l → unfinished acc (l ++ ys) ≡ unfinished (acc ++ l) ys
unfinished-line_append acc [] ys n = rw (append-nil acc) refl
unfinished-line_append acc (c ∷ l) ys (n, ns) = elim (Bool-cases (c == b'\n')) [
  | inl e ↦ absurd (n ((==_iff c b'\n').0 e))
  | inr o ↦ rw o (
      unfinished-line_append (acc ++ (c ∷ [])) l ys ns
      ∙ ap (λ q. unfinished q ys) (append_assoc acc (c ∷ []) l))
]
