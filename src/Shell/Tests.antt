-- ===== src/Shell/Tests.antt =====
-- The parser of user/sh.c on a few lines.
use os_212_assignment.Base.{◌≡◌, refl, arith, [], ◌∷◌}
use os_212_assignment.Shell.{
  Text, exec, redir, pipe, back, from_file, onto_file, ok, syntax, parsecmd, parseline, parsepipe,
  parseblock, parseexec, gettoken, token_at, greater_token, peek, skip_space, cut_word, one_of,
  parseredirs, redirs_loop, args_loop, back_loop, wrap,
}
use os_212_assignment.Shell.Print.{show_word, show_words, show_redirs}
use os_212_assignment.Shell.RoundTrip.{Simple, show_simple, show_pipeline}
use os_212_assignment.Shell.Total.{ParseEnds, parsecmd-ParseEnds}

-- `ls<i >>o|wc&`
abbrev line : Text
line = b'l' ∷ b's' ∷ b'<' ∷ b'i' ∷ b' ' ∷ b'>' ∷ b'>' ∷ b'o' ∷ b'|' ∷ b'w' ∷ b'c' ∷ b'&' ∷ []

redirections_and_pipe :
    parsecmd 60 line
    ≡ ok
        (back (
          pipe
            (redir
              (redir
                (exec ((b'l' ∷ b's' ∷ []) ∷ []))
                (record { kind = from_file; file = b'i' ∷ [] }))
              (record { kind = onto_file; file = b'o' ∷ [] }))
            (exec ((b'w' ∷ b'c' ∷ []) ∷ []))))
        []
unfolding parsecmd parseline parsepipe parseblock parseexec gettoken token_at greater_token peek
    skip_space cut_word one_of parseredirs redirs_loop args_loop back_loop wrap
redirections_and_pipe = refl

-- `(a;b`
no_closing : parsecmd 60 (b'(' ∷ b'a' ∷ b';' ∷ b'b' ∷ []) ≡ syntax
unfolding parsecmd parseline parsepipe parseblock parseexec gettoken token_at greater_token peek
    skip_space cut_word one_of parseredirs redirs_loop args_loop back_loop wrap
no_closing = refl

parsecmd-ParseEnds_example : ParseEnds (parsecmd 60 line)
parsecmd-ParseEnds_example = parsecmd-ParseEnds 60 line (omega arith)

abbrev ls : Simple
ls = record {
  word = b'l' ∷ b's' ∷ [];
  words = (b'd' ∷ []) ∷ [];
  redirs = record { kind = from_file; file = b'i' ∷ [] } ∷ [];
}

abbrev wc : Simple
wc = record { word = b'w' ∷ b'c' ∷ []; words = []; redirs = [] }

-- `ls d < i | wc ` is the text.
shown :
    show_pipeline ls (wc ∷ [])
    ≡ b'l' ∷ b's' ∷ b' ' ∷ b'd' ∷ b' ' ∷ b'<' ∷ b' ' ∷ b'i' ∷ b' ' ∷ b'|' ∷ b' ' ∷ b'w' ∷ b'c'
      ∷ b' ' ∷ []
unfolding show_pipeline show_simple show_word show_words show_redirs
shown = refl
