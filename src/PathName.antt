-- ===== src/PathName.antt =====
-- kernel/fs.c: skipelem, and what calls of it in turn give, as in the condition of the loop of namex,
-- whose body is not modelled. A path is the list of its bytes before
-- the zero byte; a name has DIRSIZ bytes.
pub mod Elements
mod Tests
use os_212_assignment.Base.{
  ℕ, zero, suc, ◌+◌, Bool, List, [], ◌∷◌, ltb, leb, ◌==◌, if◌then◌else◌, Option, none, some, length,
}

-- kernel/fs.h
abbrev pub dirsiz : ℕ
dirsiz = 14

-- `while(*path == '/') path++;`
pub skip_slashes : List ℕ → List ℕ
skip_slashes [] = []
skip_slashes (c ∷ s) = let rest = skip_slashes s in if c == b'/' then rest else c ∷ s

-- `while(*path != '/' && *path != 0) path++;`: the bytes that are passed, and the rest.
pub take_elem : List ℕ → List ℕ × List ℕ
take_elem [] = ([], [])
take_elem (c ∷ s) = let r = take_elem s in if c == b'/' then ([], c ∷ s) else (c ∷ r.0, r.1)

pub take : ℕ → List ℕ → List ℕ
take zero s = []
take (suc n) [] = []
take (suc n) (c ∷ s) = c ∷ take n s

-- What stands in `name` up to the zero byte, or its DIRSIZ bytes.
abbrev pub name_of : List ℕ → List ℕ
name_of s = if leb dirsiz (length s) then take dirsiz s else s

-- `skipelem(path, name)`: the rest of the path and the name.
pub skipelem : List ℕ → Option (List ℕ × List ℕ)
skipelem path = elim (skip_slashes path) [
  | [] ↦ none
  | c ∷ s ↦ let r = take_elem (c ∷ s) in some (skip_slashes r.1, name_of r.0)
]

abbrev pub with_name : List ℕ → Option (List (List ℕ)) → Option (List (List ℕ))
with_name name none = none
with_name name (some names) = some (name ∷ names)

-- The names that calls of skipelem give, each on the rest that the one before has left, until one
-- returns 0; none where the rounds do not suffice.
pub elements : ℕ → List ℕ → Option (List (List ℕ))
elements zero path = none
elements (suc rounds) path = elim (skipelem path) [
  | none ↦ some []
  | some (rest, name) ↦ with_name name (elements rounds rest)
]
