-- ===== src/Shell/Shrink.antt =====
-- user/sh.c: no token is longer than the text that gettoken takes it from.
use os_212_assignment.Base.{
  ℕ, ◌≤◌, ◌<◌, ◌≡◌, refl, ap, ◌∙◌, arith, List, [], ◌∷◌, ◌==◌, true, ◌||◌, Bool-cases, inl, inr,
  length,
}
use os_212_assignment.Shell.{
  Text, skip_space, cut_word, token_at, greater_token, gettoken, peek, starts_with, one_of, symbols,
  is_space,
}

pub skip_le : (s : Text) → length (skip_space s) ≤ length s
unfolding skip_space
skip_le [] = omega arith
skip_le (c ∷ s) =
    let h = skip_le s in
    elim (Bool-cases (is_space c)) [ inl e ↦ rw e (omega arith) | inr e ↦ rw e (omega arith) ]

cut_le : (s : Text) → length (cut_word s).1 ≤ length s
unfolding cut_word
cut_le [] = omega arith
cut_le (c ∷ s) =
    let h = cut_le s in
    elim (Bool-cases (is_space c || one_of symbols c)) [
      | inl e ↦ rw e (omega arith)
      | inr e ↦ rw e (omega arith)
    ]

greater_le : (s : Text) → length (greater_token s).rest ≤ length s
unfolding greater_token
greater_le [] = skip_le []
greater_le (c ∷ s) =
    let h = skip_le s in
    let k = skip_le (c ∷ s) in
    elim (Bool-cases (c == b'>')) [ inl e ↦ rw e (omega arith) | inr e ↦ rw e k ]

token_le : (s : Text) → length (token_at s).rest ≤ length s
unfolding token_at
token_le [] = omega arith
token_le (c ∷ s) =
    let g = greater_le s in
    let h = skip_le s in
    let w = skip_le (cut_word (c ∷ s)).1 in
    let k = cut_le (c ∷ s) in
    elim (Bool-cases (c == b'>')) [
      | inl e ↦ rw e (omega arith)
      | inr e ↦ elim (Bool-cases (one_of symbols c)) [
        | inl i ↦ rw (e, i) (omega arith)
        | inr i ↦ rw (e, i) (omega arith)
      ]
    ]

pub gettoken_le : (s : Text) → length (gettoken s).rest ≤ length s
unfolding gettoken
gettoken_le s = let h = token_le (skip_space s) in let k = skip_le s in omega arith

skip_twice : (s : Text) → skip_space (skip_space s) ≡ skip_space s
unfolding skip_space
skip_twice [] = refl
skip_twice (c ∷ s) = elim (Bool-cases (is_space c)) [
  | inl e ↦ rw e (skip_twice s)
  | inr e ↦ rw (e, e) refl
]

symbol_shrinks :
    (c : ℕ) (s : Text) → one_of symbols c ≡ true → length (token_at (c ∷ s)).rest < length (c ∷ s)
unfolding token_at
symbol_shrinks c s i =
    let g = greater_le s in
    let h = skip_le s in
    elim (Bool-cases (c == b'>')) [ inl e ↦ rw e (omega arith) | inr e ↦ rw (e, i) (omega arith) ]

-- The tests of the parser that a symbol stands next.
abbrev pub AreSymbols : List ℕ → Type 0
AreSymbols toks = (c : ℕ) → one_of toks c ≡ true → one_of symbols c ≡ true

at_shrinks :
    (toks : List ℕ) (s : Text)
    → AreSymbols toks
    → starts_with toks s ≡ true
    → length (token_at s).rest < length s
at_shrinks toks [] all h = cc
at_shrinks toks (c ∷ s) all h = symbol_shrinks c s (all c h)

pub peek_shrinks :
    (toks : List ℕ) (s : Text)
    → AreSymbols toks
    → peek toks s ≡ true
    → length (gettoken (skip_space s)).rest < length s
unfolding gettoken peek
peek_shrinks toks s all h =
    let k = skip_le s in
    let l = at_shrinks toks (skip_space s) all h in rw (skip_twice s) (omega arith)

pub redir-AreSymbols : AreSymbols (b'<' ∷ b'>' ∷ [])
unfolding one_of
redir-AreSymbols c h = ground arith

only_one : (c t : ℕ) → one_of (t ∷ []) c ≡ true → c ≡ t
unfolding one_of
only_one c t e = ground arith

pub one-AreSymbols : (t : ℕ) → one_of symbols t ≡ true → AreSymbols (t ∷ [])
one-AreSymbols t h c e = ap (one_of symbols) (only_one c t e) ∙ h
