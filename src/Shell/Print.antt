-- ===== src/Shell/Print.antt =====
-- user/sh.c: pipelines as text, and what the tokens of such a text are.
use os_212_assignment.Base.{
  ℕ, zero, suc, ◌≤◌, ◌<◌, ◌≡◌, refl, ap, ◌∙◌, sym, arith, List, [], ◌∷◌, ◌++◌, ◌==◌, true, false,
  Bool-cases, inl, inr, length, length-append,
}
use os_212_assignment.Shell.{
  Text, Kind, from_file, to_file, onto_file, Redir, ok, is_space, one_of, symbols, skip_space,
  cut_word, token_at, greater_token, gettoken, peek, redirs_loop, parseredirs, kind_of,
}
use os_212_assignment.Shell.Shrink.{AreSymbols, redir-AreSymbols}

-- A character of a word.
abbrev pub Plain : ℕ → Type 0
Plain c = (is_space c ≡ false) × (one_of symbols c ≡ false)

abbrev pub AllPlain : Text → Type 0
AllPlain [] = Unit {0}
AllPlain (c ∷ s) = Plain c × AllPlain s

abbrev pub IsWord : Text → Type 0
IsWord [] = ⊥
IsWord (c ∷ s) = Plain c × AllPlain s

abbrev pub AllWords : List Text → Type 0
AllWords [] = Unit {0}
AllWords (w ∷ ws) = IsWord w × AllWords ws

abbrev pub AllFiles : List Redir → Type 0
AllFiles [] = Unit {0}
AllFiles (r ∷ rs) = IsWord r.file × AllFiles rs

abbrev pub sign : Kind → Text
sign from_file = b'<' ∷ []
sign to_file = b'>' ∷ []
sign onto_file = b'>' ∷ b'>' ∷ []

-- Words and redirections, each with a space behind it, in front of a text.
unfoldable pub show_word : Text → Text → Text
show_word w rest = w ++ (b' ' ∷ rest)

unfoldable pub show_words : List Text → Text → Text
show_words [] rest = rest
show_words (w ∷ ws) rest = show_word w (show_words ws rest)

unfoldable pub show_redirs : List Redir → Text → Text
show_redirs [] rest = rest
show_redirs (r ∷ rs) rest = sign r.kind ++ (b' ' ∷ show_word r.file (show_redirs rs rest))

-- Nothing, or the bar of a pipe: what stands behind a command of a pipeline.
abbrev pub Stops : Text → Type 0
Stops [] = Unit {0}
Stops (c ∷ s) = c ≡ b'|'

abbrev pub Tight : Text → Type 0
Tight s = skip_space s ≡ s

pub word-Tight : (w k : Text) → IsWord w → Tight (show_word w k)
unfolding show_word skip_space
word-Tight [] k h = absurd h
word-Tight (c ∷ s) k ((p, q), h) = rw p refl

plain_cut : (w k : Text) → AllPlain w → cut_word (w ++ (b' ' ∷ k)) ≡ (w, b' ' ∷ k)
unfolding cut_word
plain_cut [] k h = refl
plain_cut (c ∷ s) k ((p, q), h) = rw (p, q, plain_cut s k h) refl

greater_is : (c : ℕ) → one_of symbols c ≡ false → (c == b'>') ≡ false
unfolding one_of
greater_is c h = ground arith

pub gettoken-word :
    (w k : Text)
    → IsWord w
    → Tight k
    → gettoken (show_word w k) ≡ record { ret = b'a'; word = w; rest = k }
unfolding gettoken token_at show_word skip_space
gettoken-word [] k h t = absurd h
gettoken-word (c ∷ s) k ((p, q), h) t =
    rw (p, greater_is c q, q, plain_cut (c ∷ s) k ((p, q), h), t) refl

not_one_of :
    (toks : List ℕ) (c : ℕ) → AreSymbols toks → one_of symbols c ≡ false → one_of toks c ≡ false
not_one_of toks c all h = elim (Bool-cases (one_of toks c)) [
  | inr e ↦ e
  | inl e ↦ let i = all c e in cc
]

pub peek-word :
    (toks : List ℕ) (w k : Text) → AreSymbols toks → IsWord w → peek toks (show_word w k) ≡ false
unfolding peek show_word skip_space
peek-word toks [] k all h = absurd h
peek-word toks (c ∷ s) k all ((p, q), h) = rw p (not_one_of toks c all q)

pub stop-Tight : (k : Text) → Stops k → Tight k
unfolding skip_space
stop-Tight [] h = refl
stop-Tight (c ∷ s) h = ap (λ x. skip_space (x ∷ s)) h ∙ ap (λ x. x ∷ s) (sym h)

pub peek-stop : (k : Text) → Stops k → peek (b'<' ∷ b'>' ∷ []) k ≡ false
unfolding peek skip_space one_of
peek-stop [] h = refl
peek-stop (c ∷ s) h = ap (λ x. peek (b'<' ∷ b'>' ∷ []) (x ∷ s)) h

sign-Tight : (d : Kind) (k : Text) → Tight (sign d ++ k)
unfolding skip_space
sign-Tight from_file k = refl
sign-Tight to_file k = refl
sign-Tight onto_file k = refl

redirs-Tight : (rs : List Redir) (k : Text) → Stops k → Tight (show_redirs rs k)
unfolding show_redirs
redirs-Tight [] k h = stop-Tight k h
redirs-Tight (r ∷ rs) k h = sign-Tight r.kind (b' ' ∷ show_word r.file (show_redirs rs k))

pub words-Tight :
    (ws : List Text) (rs : List Redir) (k : Text)
    → AllWords ws
    → Stops k
    → Tight (show_words ws (show_redirs rs k))
unfolding show_words
words-Tight [] rs k h t = redirs-Tight rs k t
words-Tight (w ∷ ws) rs k h t = word-Tight w (show_words ws (show_redirs rs k)) h.0

-- The token of a sign, and the kind that parseredirs takes from it.
sign_token :
    (d : Kind) (k : Text)
    → Tight k
    → (peek (b'<' ∷ b'>' ∷ []) (sign d ++ (b' ' ∷ k)) ≡ true)
      × ((gettoken (skip_space (sign d ++ (b' ' ∷ k)))).rest ≡ k)
      × (kind_of (gettoken (skip_space (sign d ++ (b' ' ∷ k)))).ret ≡ d)
unfolding gettoken token_at greater_token peek skip_space one_of
sign_token from_file k t = (refl, t, refl)
sign_token to_file k t = (refl, t, refl)
sign_token onto_file k t = (refl, t, refl)

redirs_loop-show :
    (f : ℕ) (rs : List Redir) (k : Text)
    → AllFiles rs
    → Stops k
    → length rs < f
    → redirs_loop f (show_redirs rs k) ≡ ok rs k
unfolding redirs_loop show_redirs
redirs_loop-show zero rs k a h l = absurd (omega arith)
redirs_loop-show (suc f) [] k a h l = rw (peek-stop k h, stop-Tight k h) refl
redirs_loop-show (suc f) (r ∷ rs) k a h l =
    let next = show_word r.file (show_redirs rs k) in
    let s = sign_token r.kind next (word-Tight r.file (show_redirs rs k) a.0) in
    let w = gettoken-word r.file (show_redirs rs k) a.0 (redirs-Tight rs k h) in
    rw (s.0, s.1, s.2, w, redirs_loop-show f rs k a.1 h (omega arith)) refl

sign_longer : (d : Kind) (k : Text) → suc (length k) ≤ length (sign d ++ k)
sign_longer from_file k = omega arith
sign_longer to_file k = omega arith
sign_longer onto_file k = omega arith

redirs_shorter : (rs : List Redir) (k : Text) → length rs ≤ length (show_redirs rs k)
unfolding show_redirs show_word
redirs_shorter [] k = omega arith
redirs_shorter (r ∷ rs) k =
    let next = b' ' ∷ show_redirs rs k in
    let h = redirs_shorter rs k in
    let e = length-append r.file next in
    let g = sign_longer r.kind (b' ' ∷ (r.file ++ next)) in omega arith

pub parseredirs-show :
    (rs : List Redir) (k : Text) → AllFiles rs → Stops k → parseredirs (show_redirs rs k) ≡ ok rs k
unfolding parseredirs
parseredirs-show rs k a h =
    let l = redirs_shorter rs k in
    redirs_loop-show (suc (length (show_redirs rs k))) rs k a h (omega arith)

pub parseredirs-none : (w k : Text) → IsWord w → parseredirs (show_word w k) ≡ ok [] (show_word w k)
unfolding parseredirs redirs_loop
parseredirs-none w k h =
    rw (peek-word (b'<' ∷ b'>' ∷ []) w k redir-AreSymbols h, word-Tight w k h) refl
