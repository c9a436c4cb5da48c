-- ===== src/Shell/RoundTrip.antt =====
-- user/sh.c: the parser reads back a pipeline that is written out.
use os_212_assignment.Base.{ℕ, suc, ◌<◌, List, [], ◌∷◌, length}
use os_212_assignment.Shell.{Text, Redir, Cmd, exec, pipe, wrap, maxargs}
use os_212_assignment.Shell.Print.{AllWords, AllFiles, show_word, show_words, show_redirs}

abbrev enders : List ℕ
enders = b'|' ∷ b')' ∷ b'&' ∷ b';' ∷ []

-- A command of a pipeline: its words and its redirections.
pub record Simple : Type 0 where
  pub word : Text
  pub words : List Text
  pub redirs : List Redir

-- Words without spaces and symbols, fewer of them than MAXARGS.
pub record IsSimple (c : Simple) : Type 0 where
  pub plain : AllWords (c.word ∷ c.words)
  pub files : AllFiles c.redirs
  pub few : suc (length c.words) < maxargs

abbrev pub AllSimple : List Simple → Type 0
AllSimple [] = Unit {0}
AllSimple (c ∷ cs) = IsSimple c × AllSimple cs

unfoldable pub show_simple : Simple → Text → Text
show_simple c rest = show_word c.word (show_words c.words (show_redirs c.redirs rest))

abbrev pub simple_cmd : Simple → Cmd
simple_cmd c = wrap c.redirs (exec (c.word ∷ c.words))

-- The commands of a pipeline with bars between them, and the tree that stands for it.
unfoldable pub show_pipeline : Simple → List Simple → Text
show_pipeline c [] = show_simple c []
show_pipeline c (d ∷ ds) = show_simple c (b'|' ∷ b' ' ∷ show_pipeline d ds)

unfoldable pub pipeline_cmd : Simple → List Simple → Cmd
pipeline_cmd c [] = simple_cmd c
pipeline_cmd c (d ∷ ds) = pipe (simple_cmd c) (pipeline_cmd d ds)
