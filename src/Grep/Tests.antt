-- ===== src/Grep/Tests.antt =====
-- grep on small inputs.
use os_212_assignment.Base.{ℕ, ◌≡◌, ◌↔◌, refl, arith, true, false, some, List, [], ◌∷◌}
use os_212_assignment.Grep.{
  match, match_loop, matchhere, matchstar, one, cut, lines_loop, grep_loop, grep,
}
use os_212_assignment.Grep.Regex.{Selects, match_iff}
use os_212_assignment.Grep.Lines.{shown_all}
use os_212_assignment.Grep.Reads.{grep_lem}

-- `^a.*b$`
abbrev pattern : List ℕ
pattern = b'^' ∷ b'a' ∷ b'.' ∷ b'*' ∷ b'b' ∷ b'$' ∷ []

matched : match pattern (b'a' ∷ b'b' ∷ b'c' ∷ b'b' ∷ []) ≡ true
unfolding match matchhere matchstar one
matched = refl

unmatched : match pattern (b'a' ∷ b'b' ∷ b'c' ∷ []) ≡ false
unfolding match matchhere matchstar one
unmatched = refl

-- Of the lines `c` and `ab`, and of `ab` without a newline, each read gives two bytes.
abbrev text : List ℕ
text = b'c' ∷ b'\n' ∷ b'a' ∷ b'b' ∷ b'\n' ∷ b'a' ∷ b'b' ∷ []

written : grep (λ i. 2) pattern text ≡ some (b'a' ∷ b'b' ∷ b'\n' ∷ [])
unfolding grep grep_loop lines_loop cut match match_loop matchhere matchstar one
written = refl

-- Behind a NUL no newline is found.
behind_nul : grep (λ i. 5) [] (0 ∷ b'\n' ∷ b'a' ∷ b'\n' ∷ []) ≡ some []
unfolding grep grep_loop lines_loop cut match match_loop matchhere matchstar one
behind_nul = refl

match_iff_example : (match pattern (b'a' ∷ b'b' ∷ []) ≡ true) ↔ Selects pattern (b'a' ∷ b'b' ∷ [])
match_iff_example = match_iff pattern (b'a' ∷ b'b' ∷ [])

grep_lem_example :
    grep (λ i. 2) pattern text ≡ some (shown_all pattern ((b'c' ∷ []) ∷ (b'a' ∷ b'b' ∷ []) ∷ []))
grep_lem_example =
    grep_lem (λ i. 2) pattern ((b'c' ∷ []) ∷ (b'a' ∷ b'b' ∷ []) ∷ []) (b'a' ∷ b'b' ∷ [])
      (λ i. omega arith)
      (
        ((omega arith, tt), (omega arith, tt), omega arith),
        (((omega arith, (omega arith, tt)), (omega arith, (omega arith, tt)), omega arith), tt),
      )
      (omega arith, (omega arith, tt)) (omega arith, (omega arith, tt))
