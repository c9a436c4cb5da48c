-- ===== src/PathName/Tests.antt =====
-- Paths of kernel/fs.c: the examples that stand above skipelem.
use os_212_assignment.Base.{ℕ, ◌≡◌, refl, arith, List, [], ◌∷◌, none, some, length, ◌<◌}
use os_212_assignment.PathName.{skipelem, skip_slashes, take_elem, elements}
use os_212_assignment.PathName.Elements.{path_of, elements-path_of}

two_elements :
    skipelem (b'/' ∷ b'/' ∷ b'/' ∷ b'a' ∷ b'/' ∷ b'/' ∷ b'b' ∷ b'b' ∷ [])
    ≡ some (b'b' ∷ b'b' ∷ [], b'a' ∷ [])
unfolding skipelem skip_slashes take_elem
two_elements = refl

only_slashes : skipelem (b'/' ∷ b'/' ∷ []) ≡ none
unfolding skipelem skip_slashes take_elem
only_slashes = refl

abbrev names : List (List ℕ)
names = (b'b' ∷ b'i' ∷ b'n' ∷ []) ∷ (b's' ∷ b'h' ∷ []) ∷ []

elements-path_of_example : elements 9 (path_of names) ≡ some names
unfolding path_of
elements-path_of_example =
    elements-path_of 9 names
      (
        (λ e. elim_nil e, omega arith, omega arith),
        ((λ e. elim_nil e, omega arith, omega arith), tt),
      )
      small
  where
    small : length (path_of names) < 9
    small = omega arith

    elim_nil : {c : ℕ} {s : List ℕ} → c ∷ s ≡ [] → ⊥
    elim_nil e = cc
