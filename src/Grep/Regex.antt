-- ===== src/Grep/Regex.antt =====
-- The matcher of grep decides the language of its regular expressions.
use os_212_assignment.Base.{
  ℕ, ◌≡◌, ◌≢◌, refl, sym, ap, ◌∙◌, ◌↔◌, Bool, true, false, ◌&&◌, ◌||◌, ◌⊎◌, inl, inr, List, [], ◌∷◌,
  ◌++◌, ◌==◌, Bool-cases, ==_iff, and_true, or_true, ne_of_false, append_assoc,
}
use os_212_assignment.Grep.{is_nil, matchstar, one, matchhere, match_loop, match}

-- A character of an expression fits one of a text; `.` fits any.
abbrev pub Fits : ℕ → ℕ → Type 0
Fits a c = (a ≡ b'.') ⊎ (a ≡ c)

abbrev pub AllFit : ℕ → List ℕ → Type 0
AllFit a [] = Unit {0}
AllFit a (c ∷ cs) = Fits a c × AllFit a cs

-- `mid` is in the language of the expression, where `post` is behind it in the text.
abbrev pub Denotes : List ℕ → List ℕ → List ℕ → Type 0
Denotes [] mid post = mid ≡ []
Denotes (a ∷ []) mid post =
    ((a ≡ b'$') × (mid ≡ []) × (post ≡ [])) ⊎ ((a ≢ b'$') × (c : ℕ) × (mid ≡ c ∷ []) × Fits a c)
Denotes (a ∷ b ∷ re) mid post =
    ((b ≡ b'*')
      × (xs : List ℕ) × (rest : List ℕ) × (mid ≡ xs ++ rest)
      × AllFit a xs
      × Denotes re rest post)
    ⊎ ((b ≢ b'*')
        × (c : ℕ) × (rest : List ℕ) × (mid ≡ c ∷ rest)
        × Fits a c
        × Denotes (b ∷ re) rest post)

-- Some first part of the text is in the language.
abbrev pub Begins : List ℕ → List ℕ → Type 0
Begins re text = (mid : List ℕ) × (post : List ℕ) × (text ≡ mid ++ post) × Denotes re mid post

-- Some part of the text is.
abbrev pub Occurs : List ℕ → List ℕ → Type 0
Occurs re text = (pre : List ℕ) × (rest : List ℕ) × (text ≡ pre ++ rest) × Begins re rest

or_left : (a b : Bool) → a ≡ true → (a || b) ≡ true
or_left true b e = refl
or_left false b e = cc

or_right : (a b : Bool) → b ≡ true → (a || b) ≡ true
or_right true b e = refl
or_right false b e = e

==_refl : (a b : ℕ) → a ≡ b → (a == b) ≡ true
==_refl a b e = (==_iff a b).1 e

one_sound :
    (a : ℕ) (here : List ℕ → Bool) (text : List ℕ)
    → one a here text ≡ true
    → (c : ℕ) × (rest : List ℕ) × (text ≡ c ∷ rest) × Fits a c × (here rest ≡ true)
unfolding one
one_sound a here [] e = cc
one_sound a here (t ∷ text) e =
    let (f, h) = and_true ((a == b'.') || (a == t)) (here text) e in
    (
      t,
      text,
      refl,
      elim (or_true (a == b'.') (a == t) f) [
        | inl d ↦ inl ((==_iff a b'.').0 d)
        | inr d ↦ inr ((==_iff a t).0 d)
      ],
      h,
    )

one_complete :
    (a c : ℕ) (here : List ℕ → Bool) (rest : List ℕ)
    → Fits a c
    → here rest ≡ true
    → one a here (c ∷ rest) ≡ true
unfolding one
one_complete a c here rest (inl d) h = rw (==_refl a b'.' d, h) refl
one_complete a c here rest (inr d) h =
    rw h (elim (Bool-cases (a == b'.')) [ inl y ↦ rw y refl | inr n ↦ rw (n, ==_refl a c d) refl ])

star_sound :
    (a : ℕ) (here : List ℕ → Bool) (text : List ℕ)
    → matchstar a here text ≡ true
    → (xs : List ℕ) × (rest : List ℕ) × (text ≡ xs ++ rest) × AllFit a xs × (here rest ≡ true)
unfolding matchstar
star_sound a here [] e = ([], [], refl, tt, e)
star_sound a here (t ∷ text) e =
    elim (or_true (here (t ∷ text)) (((t == a) || (a == b'.')) && matchstar a here text) e) [
      | inl h ↦ ([], t ∷ text, refl, tt, h)
      | inr m ↦
          let (f, g) = and_true ((t == a) || (a == b'.')) (matchstar a here text) m in
          let (xs, rest, q, fs, h) = star_sound a here text g in
          let fit : Fits a t = elim (or_true (t == a) (a == b'.') f) [
            | inl d ↦ inr (sym ((==_iff t a).0 d))
            | inr d ↦ inl ((==_iff a b'.').0 d)
          ] in
          (t ∷ xs, rest, ap (λ l. t ∷ l) q, (fit, fs), h)
    ]

star_complete :
    (a : ℕ) (here : List ℕ → Bool) (xs rest : List ℕ)
    → AllFit a xs
    → here rest ≡ true
    → matchstar a here (xs ++ rest) ≡ true
unfolding matchstar
star_complete a here [] [] fs h = h
star_complete a here [] (r ∷ rest) fs h = or_left (here (r ∷ rest)) _ h
star_complete a here (x ∷ xs) rest (f, fs) h = or_right (here (x ∷ (xs ++ rest))) _ (
    rw (star_complete a here xs rest fs h) (elim f [
      | inl d ↦ rw (or_right (x == a) (a == b'.') (==_refl a b'.' d)) refl
      | inr d ↦ rw (or_left (x == a) (a == b'.') (==_refl x a (sym d))) refl
    ]))

is_nil_iff : (l : List ℕ) → is_nil l ≡ true → l ≡ []
is_nil_iff [] e = refl
is_nil_iff (x ∷ l) e = cc

ne_false : (a b : ℕ) → a ≢ b → (a == b) ≡ false
ne_false a b n = elim (Bool-cases (a == b)) [ inl e ↦ absurd (n ((==_iff a b).0 e)) | inr e ↦ e ]

matchhere_sound : (re text : List ℕ) → matchhere re text ≡ true → Begins re text
unfolding matchhere
matchhere_sound [] text e = ([], text, refl, refl)
matchhere_sound (a ∷ []) text e = elim (Bool-cases (a == b'$')) [
  | inl d ↦
      let n = is_nil_iff text (rw d at e) in ([], [], n, inl ((==_iff a b'$').0 d, refl, refl))
  | inr d ↦
      let (c, rest, q, f, h) = one_sound a (matchhere []) text (rw d at e) in
      (c ∷ [], rest, q, inr (ne_of_false a b'$' d, c, refl, f))
]
matchhere_sound (a ∷ b ∷ re) text e = elim (Bool-cases (b == b'*')) [
  | inl d ↦
      let (xs, rest, q, fs, h) = star_sound a (matchhere re) text (rw (d, matchhere) at e) in
      let (mid, post, r, m) = matchhere_sound re rest h in
      (
        xs ++ mid,
        post,
        q ∙ ap (λ l. xs ++ l) r ∙ sym (append_assoc xs mid post),
        inl ((==_iff b b'*').0 d, xs, mid, refl, fs, m),
      )
  | inr d ↦
      let (c, rest, q, f, h) = one_sound a (matchhere (b ∷ re)) text (rw (d, matchhere) at e) in
      let (mid, post, r, m) = matchhere_sound (b ∷ re) rest h in
      (c ∷ mid, post, q ∙ ap (λ l. c ∷ l) r, inr (ne_of_false b b'*' d, c, mid, refl, f, m))
]

matchhere_complete :
    (re mid post : List ℕ) → Denotes re mid post → matchhere re (mid ++ post) ≡ true
unfolding matchhere
matchhere_complete [] mid post d = refl
matchhere_complete (a ∷ []) mid post (inl (d, m, p)) = rw (m, p) (rw (==_refl a b'$' d) refl)
matchhere_complete (a ∷ []) mid post (inr (d, c, m, f)) =
    rw m (rw (ne_false a b'$' d) (one_complete a c (matchhere []) post f refl))
matchhere_complete (a ∷ b ∷ re) mid post (inl (d, xs, rest, m, fs, s)) = rw m (
    rw (append_assoc xs rest post) (
      rw (==_refl b b'*' d, matchhere)
        (star_complete a (matchhere re) xs (rest ++ post) fs (matchhere_complete re rest post s))))
matchhere_complete (a ∷ b ∷ re) mid post (inr (d, c, rest, m, f, s)) = rw m (
    rw (ne_false b b'*' d, matchhere)
      (one_complete a c (matchhere (b ∷ re)) (rest ++ post) f
        (matchhere_complete (b ∷ re) rest post s)))

Begins-matchhere : (re text : List ℕ) → Begins re text → matchhere re text ≡ true
Begins-matchhere re text (mid, post, q, d) = rw q (matchhere_complete re mid post d)

loop_sound : (re text : List ℕ) → match_loop re text ≡ true → Occurs re text
unfolding match_loop
loop_sound re [] e = ([], [], refl, matchhere_sound re [] e)
loop_sound re (t ∷ text) e = elim (or_true (matchhere re (t ∷ text)) (match_loop re text) e) [
  | inl h ↦ ([], t ∷ text, refl, matchhere_sound re (t ∷ text) h)
  | inr m ↦ let (pre, rest, q, b) = loop_sound re text m in (t ∷ pre, rest, ap (λ l. t ∷ l) q, b)
]

loop_complete :
    (re pre rest : List ℕ) → matchhere re rest ≡ true → match_loop re (pre ++ rest) ≡ true
unfolding match_loop
loop_complete re [] [] h = h
loop_complete re [] (r ∷ rest) h = or_left (matchhere re (r ∷ rest)) _ h
loop_complete re (p ∷ pre) rest h =
    or_right (matchhere re (p ∷ (pre ++ rest))) _ (loop_complete re pre rest h)

match_loop_iff : (re text : List ℕ) → (match_loop re text ≡ true) ↔ Occurs re text
match_loop_iff re text = (
  loop_sound re text,
  λ (o : Occurs re text). rw o.2 (loop_complete re o.0 o.1 (Begins-matchhere re o.1 o.3)),
)

-- What an expression asks of a line: with `^` in front, that the rest of it matches a first part.
abbrev pub Selects : List ℕ → List ℕ → Type 0
Selects [] text = Occurs [] text
Selects (a ∷ re) text = ((a ≡ b'^') × Begins re text) ⊎ ((a ≢ b'^') × Occurs (a ∷ re) text)

-- match(re, text) ends, and returns true if and only if the line is selected by the expression:
-- some part of it is in the language of the expression, a first part where it starts with ^, and
-- one at the end of the line where it ends in $.
pub match_iff : (re text : List ℕ) → (match re text ≡ true) ↔ Selects re text
unfolding match
match_iff [] text = match_loop_iff [] text
match_iff (a ∷ re) text = elim (Bool-cases (a == b'^')) [
  | inl d ↦ (
    λ e. inl ((==_iff a b'^').0 d, matchhere_sound re text (rw d at e)),
    λ s. rw d (elim s [
      | inl p ↦ Begins-matchhere re text p.1
      | inr n ↦ absurd (n.0 ((==_iff a b'^').0 d))
    ]),
  )
  | inr d ↦ (
    λ e. inr (ne_of_false a b'^' d, (match_loop_iff (a ∷ re) text).0 (rw d at e)),
    λ s. rw d (elim s [
      | inl p ↦ absurd (ne_of_false a b'^' d p.0)
      | inr n ↦ (match_loop_iff (a ∷ re) text).1 n.1
    ]),
  )
]
