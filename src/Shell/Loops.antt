-- ===== src/Shell/Loops.antt =====
-- user/sh.c: the loops of the parser come to an end.
use os_212_assignment.Base.{
  ℕ, zero, suc, ◌≤◌, ◌<◌, ◌≡◌, refl, arith, List, [], ◌∷◌, ◌++◌, ◌==◌, true, Bool-cases, inl, inr,
  length,
}
use os_212_assignment.Shell.{
  Text, Cmd, Redir, Parse, ok, syntax, stuck, ◌>>=◌, skip_space, gettoken, peek, one_of, symbols,
  redirs_loop, parseredirs, kind_of, args_loop, back, back_loop,
}
use os_212_assignment.Shell.Shrink.{
  skip_le, gettoken_le, peek_shrinks, redir-AreSymbols, one-AreSymbols,
}

-- A command and a rest of at most n characters, or a panic.
abbrev pub Ends : {A : Type 0} → ℕ → Parse A → Type 0
Ends n (ok a r) = length r ≤ n
Ends n syntax = Unit {0}
Ends n stuck = ⊥

pub Ends-bind :
    {A B : Type 0} (n m : ℕ) (p : Parse A) (f : A → Text → Parse B)
    → Ends n p
    → ((a : A) (r : Text) → length r ≤ n → Ends m (f a r))
    → Ends m (p >>= f)
Ends-bind n m (ok a r) f h k = k a r h
Ends-bind n m syntax f h k = tt
Ends-bind n m stuck f h k = absurd h

pub Ends-le : {A : Type 0} (n m : ℕ) (p : Parse A) → n ≤ m → Ends n p → Ends m p
Ends-le n m (ok a r) l h = omega arith
Ends-le n m syntax l h = tt
Ends-le n m stuck l h = h

pub semi_symbol : one_of symbols b';' ≡ true
unfolding one_of
semi_symbol = refl

pub bar_symbol : one_of symbols b'|' ≡ true
unfolding one_of
bar_symbol = refl

and_symbol : one_of symbols b'&' ≡ true
unfolding one_of
and_symbol = refl

pub open_symbol : one_of symbols b'(' ≡ true
unfolding one_of
open_symbol = refl

pub close_symbol : one_of symbols b')' ≡ true
unfolding one_of
close_symbol = refl

redirs_loop-Ends : (f : ℕ) (s : Text) → length s < f → Ends (length s) (redirs_loop f s)
unfolding redirs_loop
redirs_loop-Ends zero s h = omega arith
redirs_loop-Ends (suc f) s h =
    let t = gettoken (skip_space s) in
    let w = gettoken t.rest in
    let k = skip_le s in
    elim (Bool-cases (peek (b'<' ∷ b'>' ∷ []) s)) [
      | inr e ↦ rw e k
      | inl e ↦
          let l = peek_shrinks (b'<' ∷ b'>' ∷ []) s redir-AreSymbols e in
          let m = gettoken_le t.rest in
          elim (Bool-cases (w.ret == b'a')) [
            | inr e2 ↦ rw (e, e2) tt
            | inl e2 ↦
                rw (e, e2)
                  (Ends-bind (length w.rest) (length s) (redirs_loop f w.rest)
                    (λ rs r. ok (record { kind = kind_of t.ret; file = w.word } ∷ rs) r)
                    (redirs_loop-Ends f w.rest (omega arith)) (λ rs r q. omega arith))
          ]
    ]

pub parseredirs-Ends : (s : Text) → Ends (length s) (parseredirs s)
unfolding parseredirs
parseredirs-Ends s = redirs_loop-Ends (suc (length s)) s (omega arith)

pub args_loop-Ends :
    (left : ℕ) (args : List Text) (rs : List Redir) (s : Text)
    → Ends (length s) (args_loop left args rs s)
unfolding args_loop
args_loop-Ends zero args rs s = tt
args_loop-Ends (suc left) args rs s =
    let t = gettoken (skip_space s) in
    let k = skip_le s in
    let l = gettoken_le (skip_space s) in
    let deep = parseredirs-Ends t.rest in
    elim (Bool-cases (peek (b'|' ∷ b')' ∷ b'&' ∷ b';' ∷ []) s)) [
      | inl e ↦ rw e k
      | inr e ↦ elim (Bool-cases (t.ret == 0)) [
        | inl z ↦ rw (e, z) (omega arith)
        | inr z ↦ elim (Bool-cases (t.ret == b'a')) [
          | inr a ↦ rw (e, z, a) tt
          | inl a ↦
              rw (e, z, a)
                (Ends-bind (length t.rest) (length s) (parseredirs t.rest)
                  (λ more r. args_loop left (args ++ (t.word ∷ [])) (rs ++ more) r) deep
                  (λ more r q.
                    Ends-le (length r) (length s)
                      (args_loop left (args ++ (t.word ∷ [])) (rs ++ more) r) (omega arith)
                      (args_loop-Ends left (args ++ (t.word ∷ [])) (rs ++ more) r)))
        ]
      ]
    ]

pub back_loop-Ends : (f : ℕ) (c : Cmd) (s : Text) → length s < f → Ends (length s) (back_loop f c s)
unfolding back_loop
back_loop-Ends zero c s h = omega arith
back_loop-Ends (suc f) c s h =
    let t = (gettoken (skip_space s)).rest in
    elim (Bool-cases (peek (b'&' ∷ []) s)) [
      | inr e ↦ rw e (skip_le s)
      | inl e ↦
          let l = peek_shrinks (b'&' ∷ []) s (one-AreSymbols b'&' and_symbol) e in
          rw e (
            Ends-le (length t) (length s) (back_loop f (back c) t) (omega arith)
              (back_loop-Ends f (back c) t (omega arith)))
    ]
