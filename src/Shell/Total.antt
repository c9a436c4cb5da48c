-- ===== src/Shell/Total.antt =====
-- user/sh.c: the parser comes to an end.
use os_212_assignment.Base.{
  ℕ, zero, suc, ◌+◌, ◌*◌, ◌≤◌, ◌≡◌, refl, arith, [], ◌∷◌, Bool-cases, inl, inr, length,
}
use os_212_assignment.Shell.{
  Text, Cmd, Parse, ok, syntax, stuck, ◌>>=◌, skip_space, gettoken, peek, parseredirs, wrap,
  args_loop, list, pipe, back_loop, parseline, parsepipe, parseblock, parseexec, parsecmd, maxargs,
}
use os_212_assignment.Shell.Shrink.{skip_le, peek_shrinks, one-AreSymbols}
use os_212_assignment.Shell.Loops.{
  Ends, Ends-bind, Ends-le, semi_symbol, bar_symbol, open_symbol, close_symbol, parseredirs-Ends,
  args_loop-Ends, back_loop-Ends,
}

-- A function of the parser that takes k levels of its own and four levels for each character.
abbrev AlwaysEnds : ℕ → (ℕ → Text → Parse Cmd) → ℕ → Type 0
AlwaysEnds k p f = (s : Text) → 4 * length s + k ≤ f → Ends (length s) (p f s)

parsepipe-Ends :
    (f : ℕ) → AlwaysEnds 2 parseexec f → AlwaysEnds 3 parsepipe f → AlwaysEnds 3 parsepipe (suc f)
unfolding parsepipe
parsepipe-Ends f first next s h =
    Ends-bind (length s) (length s) (parseexec f s) _ (first s (omega arith)) (λ c r q.
      let t = (gettoken (skip_space r)).rest in
      elim (Bool-cases (peek (b'|' ∷ []) r)) [
        | inr e ↦ let k = skip_le r in rw e (omega arith)
        | inl e ↦
            let l = peek_shrinks (b'|' ∷ []) r (one-AreSymbols b'|' bar_symbol) e in
            rw e (
              Ends-bind (length t) (length s) (parsepipe f t) (λ d u. ok (pipe c d) u)
                (next t (omega arith)) (λ d u v. omega arith))
      ])

parseblock-Ends : (f : ℕ) → AlwaysEnds 4 parseline f → AlwaysEnds 1 parseblock (suc f)
unfolding parseblock
parseblock-Ends f line s h =
    let t = (gettoken (skip_space s)).rest in
    elim (Bool-cases (peek (b'(' ∷ []) s)) [
      | inr e ↦ rw e tt
      | inl e ↦
          let l = peek_shrinks (b'(' ∷ []) s (one-AreSymbols b'(' open_symbol) e in
          rw e (
            Ends-bind (length t) (length s) (parseline f t) _ (line t (omega arith)) (λ c r q.
              let u = (gettoken (skip_space r)).rest in
              elim (Bool-cases (peek (b')' ∷ []) r)) [
                | inr i ↦ rw i tt
                | inl i ↦
                    let m = peek_shrinks (b')' ∷ []) r (one-AreSymbols b')' close_symbol) i in
                    rw i (
                      Ends-bind (length u) (length s) (parseredirs u) (λ rs v. ok (wrap rs c) v)
                        (parseredirs-Ends u) (λ rs v w. omega arith))
              ]))
    ]

parseexec-Ends : (f : ℕ) → AlwaysEnds 1 parseblock f → AlwaysEnds 2 parseexec (suc f)
unfolding parseexec
parseexec-Ends f block s h =
    let t = skip_space s in
    let k = skip_le s in
    elim (Bool-cases (peek (b'(' ∷ []) s)) [
      | inl e ↦ rw e (Ends-le (length t) (length s) (parseblock f t) k (block t (omega arith)))
      | inr e ↦ rw e (
          Ends-bind (length t) (length s) (parseredirs t) (λ rs r. args_loop maxargs [] rs r)
            (parseredirs-Ends t)
            (λ rs r q.
              Ends-le (length r) (length s) (args_loop maxargs [] rs r) (omega arith)
                (args_loop-Ends maxargs [] rs r)))
    ]

parseline-Ends :
    (f : ℕ) → AlwaysEnds 3 parsepipe f → AlwaysEnds 4 parseline f → AlwaysEnds 4 parseline (suc f)
unfolding parseline
parseline-Ends f first next s h =
    Ends-bind (length s) (length s) (parsepipe f s) _ (first s (omega arith)) (λ c r q.
      Ends-bind (length r) (length s) (back_loop (suc (length r)) c r) _
        (back_loop-Ends (suc (length r)) c r (omega arith))
        (λ d u v.
          let t = (gettoken (skip_space u)).rest in
          elim (Bool-cases (peek (b';' ∷ []) u)) [
            | inr e ↦ let k = skip_le u in rw e (omega arith)
            | inl e ↦
                let l = peek_shrinks (b';' ∷ []) u (one-AreSymbols b';' semi_symbol) e in
                rw e (
                  Ends-bind (length t) (length s) (parseline f t) (λ x w. ok (list d x) w)
                    (next t (omega arith)) (λ x w y. omega arith))
          ]))

all-End :
    (f : ℕ)
    → AlwaysEnds 4 parseline f
      × AlwaysEnds 3 parsepipe f
      × AlwaysEnds 1 parseblock f
      × AlwaysEnds 2 parseexec f
all-End zero = (
  λ s h. absurd (omega arith),
  λ s h. absurd (omega arith),
  λ s h. absurd (omega arith),
  λ s h. absurd (omega arith),
)
all-End (suc f) =
    let r = all-End f in
    (
      parseline-Ends f r.1 r.0,
      parsepipe-Ends f r.3 r.1,
      parseblock-Ends f r.0,
      parseexec-Ends f r.2,
    )

-- The whole line is a command, or the parser panics.
pub data ParseEnds (r : Parse Cmd) : Type 0 where
  parsed : (c : Cmd) → r ≡ ok c [] → ParseEnds r
  refused : r ≡ syntax → ParseEnds r

whole-ParseEnds :
    (n : ℕ) (p : Parse Cmd)
    → Ends n p
    → ParseEnds (p >>= λ c r. elim (skip_space r) [ [] ↦ ok c [] | x ∷ xs ↦ syntax ])
whole-ParseEnds n (ok c r) h = leftover (skip_space r)
  where
    leftover : (t : Text) → ParseEnds (elim t [ [] ↦ ok c [] | x ∷ xs ↦ syntax ])
    leftover [] = parsed c refl
    leftover (x ∷ xs) = refused refl
whole-ParseEnds n syntax h = refused refl
whole-ParseEnds n stuck h = absurd h

-- Whatever line the shell is given, parsecmd comes to an end within four levels of calls for each
-- character and four more: it has taken the whole line as a command, or it panics.
pub parsecmd-ParseEnds : (f : ℕ) (s : Text) → 4 * length s + 4 ≤ f → ParseEnds (parsecmd f s)
unfolding parsecmd
parsecmd-ParseEnds f s h = whole-ParseEnds (length s) (parseline f s) ((all-End f).0 s h)
