-- ===== src/Shell.antt =====
-- user/sh.c: the parser of the shell. A line is the list of its characters before the zero byte, and
-- a word is cut out of it where the source keeps two pointers for nulterminate. The source fills
-- `argv` of an execcmd that redircmds may already hold: here the redirections come around a command
-- when all its arguments are known. The four functions that call one another take fuel.
pub mod Shrink
pub mod Loops
pub mod Total
pub mod Print
pub mod RoundTrip
mod Tests
use os_212_assignment.Base.{
  ℕ, zero, suc, ◌+◌, Bool, true, false, ◌&&◌, ◌||◌, not, List, [], ◌∷◌, ◌++◌, ◌==◌, if◌then◌else◌,
  length,
}

abbrev pub Text : Type 0
Text = List ℕ

-- What a redirection opens, with the mode and the descriptor of `parseredirs`: O_RDONLY at 0,
-- O_WRONLY|O_CREATE|O_TRUNC at 1, O_WRONLY|O_CREATE at 1.
pub data Kind : Type 0 where
  from_file to_file onto_file : Kind

pub record Redir : Type 0 where
  pub kind : Kind
  pub file : Text

pub data Cmd : Type 0 where
  exec : List Text → Cmd
  redir : Cmd → Redir → Cmd
  pipe : Cmd → Cmd → Cmd
  list : Cmd → Cmd → Cmd
  back : Cmd → Cmd

-- A panic of the parser, or no fuel left.
pub data Parse (A : Type 0) : Type 0 where
  ok : A → Text → Parse A
  syntax : Parse A
  stuck : Parse A

infixl 5 ◌>>=◌
abbrev pub ◌>>=◌ : {A B : Type 0} → Parse A → (A → Text → Parse B) → Parse B
ok a s >>= f = f a s
syntax >>= f = syntax
stuck >>= f = stuck

abbrev pub maxargs : ℕ
maxargs = 10

abbrev pub is_space : ℕ → Bool
is_space c = c == b' ' || (c == 9 || (c == 13 || (c == 10 || c == 11)))

-- `strchr(toks, c) != 0`
pub one_of : List ℕ → ℕ → Bool
one_of [] c = false
one_of (t ∷ toks) c = c == t || one_of toks c

abbrev pub symbols : List ℕ
symbols = b'<' ∷ b'|' ∷ b'>' ∷ b'&' ∷ b';' ∷ b'(' ∷ b')' ∷ []

pub skip_space : Text → Text
skip_space [] = []
skip_space (c ∷ s) = let rest = skip_space s in if is_space c then rest else c ∷ s

-- The characters of a word, and what stands behind it.
pub cut_word : Text → Text × Text
cut_word [] = ([], [])
cut_word (c ∷ s) =
    let r = cut_word s in if is_space c || one_of symbols c then ([], c ∷ s) else (c ∷ r.0, r.1)

-- What `gettoken` returns, the word from *q to *eq, and where *ps then points.
pub record Token : Type 0 where
  pub ret : ℕ
  pub word : Text
  pub rest : Text

abbrev pub symbol_token : ℕ → Text → Text → Token
symbol_token ret sign s = record { ret = ret; word = sign; rest = skip_space s }

-- `>` or `>>`.
pub greater_token : Text → Token
greater_token [] = symbol_token b'>' (b'>' ∷ []) []
greater_token (c ∷ s) =
    if c == b'>'
    then symbol_token b'+' (b'>' ∷ b'>' ∷ []) s
    else symbol_token b'>' (b'>' ∷ []) (c ∷ s)

pub token_at : Text → Token
token_at [] = record { ret = 0; word = []; rest = [] }
token_at (c ∷ s) =
    let w = cut_word (c ∷ s) in
    if c == b'>'
    then greater_token s
    else if one_of symbols c
    then symbol_token c (c ∷ []) s
    else record { ret = b'a'; word = w.0; rest = skip_space w.1 }

-- `gettoken(ps, es, q, eq)`
pub gettoken : Text → Token
gettoken s = token_at (skip_space s)

abbrev pub starts_with : List ℕ → Text → Bool
starts_with toks [] = false
starts_with toks (c ∷ s) = one_of toks c

-- `peek(ps, es, toks)`; *ps is then `skip_space s`.
pub peek : List ℕ → Text → Bool
peek toks s = starts_with toks (skip_space s)

abbrev pub kind_of : ℕ → Kind
kind_of tok = if tok == b'<' then from_file else if tok == b'>' then to_file else onto_file

-- The loop of `parseredirs`: the redirections that it puts around the command, in order.
pub redirs_loop : ℕ → Text → Parse (List Redir)
redirs_loop zero s = stuck
redirs_loop (suc f) s =
    let t = gettoken (skip_space s) in
    let w = gettoken t.rest in
    let more =
      redirs_loop f w.rest >>= λ rs r. ok (record { kind = kind_of t.ret; file = w.word } ∷ rs) r in
    if peek (b'<' ∷ b'>' ∷ []) s
    then if w.ret == b'a' then more else syntax
    else ok [] (skip_space s)

pub parseredirs : Text → Parse (List Redir)
parseredirs s = redirs_loop (suc (length s)) s

-- The redirections around a command, the first one inside.
pub wrap : List Redir → Cmd → Cmd
wrap [] c = c
wrap (r ∷ rs) c = wrap rs (redir c r)

-- The loop of `parseexec`; the first number is MAXARGS - argc.
pub args_loop : ℕ → List Text → List Redir → Text → Parse Cmd
args_loop zero args rs s = syntax
args_loop (suc left) args rs s =
    let t = gettoken (skip_space s) in
    let next =
      parseredirs t.rest >>= λ more r. args_loop left (args ++ (t.word ∷ [])) (rs ++ more) r in
    if peek (b'|' ∷ b')' ∷ b'&' ∷ b';' ∷ []) s
    then ok (wrap rs (exec args)) (skip_space s)
    else if t.ret == 0
    then ok (wrap rs (exec args)) t.rest
    else if not (t.ret == b'a')
    then syntax
    else next

-- `while(peek(ps, es, "&"))` of `parseline`.
pub back_loop : ℕ → Cmd → Text → Parse Cmd
back_loop zero c s = stuck
back_loop (suc f) c s =
    let more = back_loop f (back c) (gettoken (skip_space s)).rest in
    if peek (b'&' ∷ []) s then more else ok c (skip_space s)

mutual
  pub parseline : ℕ → Text → Parse Cmd
  parseline zero s = stuck
  parseline (suc f) s = parsepipe f s >>= λ c r. back_loop (suc (length r)) c r >>= λ d q.
      let more = parseline f (gettoken (skip_space q)).rest >>= λ e p. ok (list d e) p in
      if peek (b';' ∷ []) q then more else ok d (skip_space q)

  pub parsepipe : ℕ → Text → Parse Cmd
  parsepipe zero s = stuck
  parsepipe (suc f) s = parseexec f s >>= λ c r.
      let more = parsepipe f (gettoken (skip_space r)).rest >>= λ d q. ok (pipe c d) q in
      if peek (b'|' ∷ []) r then more else ok c (skip_space r)

  pub parseblock : ℕ → Text → Parse Cmd
  parseblock zero s = stuck
  parseblock (suc f) s =
      let inner = parseline f (gettoken (skip_space s)).rest >>= λ c r.
      let behind = parseredirs (gettoken (skip_space r)).rest >>= λ rs q. ok (wrap rs c) q in
      if peek (b')' ∷ []) r then behind else syntax in
      if peek (b'(' ∷ []) s then inner else syntax

  pub parseexec : ℕ → Text → Parse Cmd
  parseexec zero s = stuck
  parseexec (suc f) s =
      let block = parseblock f (skip_space s) in
      let plain = parseredirs (skip_space s) >>= λ rs r. args_loop maxargs [] rs r in
      if peek (b'(' ∷ []) s then block else plain

-- `parsecmd(s)`
pub parsecmd : ℕ → Text → Parse Cmd
parsecmd fuel s = parseline fuel s >>= λ c r. elim (skip_space r) [ [] ↦ ok c [] | x ∷ xs ↦ syntax ]
