-- ===== src/Grep.antt =====
-- user/grep.c: `match`, `matchhere`, `matchstar`, and the loop of `grep` over the reads of a file. A
-- C string is the list of its characters in front of the NUL; a buffer is the list of the characters
-- in it, which may be NUL, and ends in one that is not in the list.
pub mod Regex
pub mod Lines
pub mod Reads
mod Tests
use os_212_assignment.Base.{
  ℕ, zero, suc, Bool, true, false, ◌&&◌, ◌||◌, Option, none, some, List, [], ◌∷◌, ◌++◌, length,
  ◌==◌, if◌then◌else◌, ◌+◌, ◌-◌, min, drop,
}

abbrev pub is_nil : List ℕ → Bool
is_nil [] = true
is_nil (x ∷ xs) = false

-- The loop of `matchstar(c, re, text)`, where `here` is `matchhere(re, _)`.
pub matchstar : ℕ → (List ℕ → Bool) → List ℕ → Bool
matchstar c here [] = here []
matchstar c here (t ∷ text) =
    here (t ∷ text) || (((t == c) || (c == b'.')) && matchstar c here text)

-- `matchhere(re, text)`; `one` is its last test, for `re[0]` and the rest of `re`.
pub one : ℕ → (List ℕ → Bool) → List ℕ → Bool
one a here [] = false
one a here (t ∷ text) = ((a == b'.') || (a == t)) && here text

pub matchhere : List ℕ → List ℕ → Bool
unfolding matchstar one
matchhere [] text = true
matchhere (a ∷ []) text = if a == b'$' then is_nil text else one a (matchhere []) text
matchhere (a ∷ b ∷ re) text = elim (b == b'*') [
  | true ↦ matchstar a (matchhere re) text
  | false ↦ one a (matchhere (b ∷ re)) text
]

-- The loop of `match`, which also looks at the empty string.
pub match_loop : List ℕ → List ℕ → Bool
match_loop re [] = matchhere re []
match_loop re (t ∷ text) = matchhere re (t ∷ text) || match_loop re text

-- `match(re, text)`
pub match : List ℕ → List ℕ → Bool
match [] text = match_loop [] text
match (a ∷ re) text = if a == b'^' then matchhere re text else match_loop (a ∷ re) text

-- `strchr(p, '\n')` in a buffer: the characters in front of the first newline, and those behind
-- it, where no NUL stands before it.
pub cut : List ℕ → Option (List ℕ × List ℕ)
cut [] = none
cut (c ∷ cs) =
    let more : Option (List ℕ × List ℕ) = elim (cut cs) [
      | none ↦ none
      | some (line, rest) ↦ some (c ∷ line, rest)
    ] in
    if c == b'\n' then some ([], cs) else if c == 0 then none else more

-- What the inner loop of `grep` writes for the buffer from `p` on, and what is left at `p`.
pub lines_loop : ℕ → List ℕ → List ℕ → List ℕ × List ℕ
lines_loop zero pattern p = ([], p)
lines_loop (suc fuel) pattern p = elim (cut p) [
  | none ↦ ([], p)
  | some (line, rest) ↦
      let (out, left) = lines_loop fuel pattern rest in
      ((if match pattern line then line ++ (b'\n' ∷ []) else []) ++ out, left)
]

-- `char buf[1024]`
abbrev pub sizeof_buf : ℕ
sizeof_buf = 1024

-- The bytes that a read of n bytes gives where `give` are at hand.
abbrev pub taken : ℕ → List ℕ → List ℕ
taken zero file = []
taken (suc n) [] = []
taken (suc n) (c ∷ file) = c ∷ taken n file

abbrev pub with_output : List ℕ → Option (List ℕ) → Option (List ℕ)
with_output out none = none
with_output out (some rest) = some (out ++ rest)

module _ (give : ℕ → ℕ) where
  -- The outer loop from its ith read on, with `buf` the `m` characters kept and `file` what is not
  -- read yet. A read gets `give i` bytes, but no more than it asks for and than the file has; a read
  -- of nothing, and one that fails, where `give i` is 0, end the loop. None without rounds left.
  pub grep_loop : ℕ → List ℕ → ℕ → List ℕ → List ℕ → Option (List ℕ)
  grep_loop zero pattern i buf file = none
  grep_loop (suc rounds) pattern i buf file =
      let n = min (give i) (sizeof_buf - length buf - 1) in
      let got = taken n file in
      let r = lines_loop (length (buf ++ got)) pattern (buf ++ got) in
      let more = with_output r.0 (grep_loop rounds pattern (i + 1) r.1 (drop n file)) in
      if is_nil got then some [] else more

  -- `grep(pattern, fd)`: each round but the last reads a byte at least.
  pub grep : List ℕ → List ℕ → Option (List ℕ)
  grep pattern file = grep_loop (suc (length file)) pattern 0 [] file
