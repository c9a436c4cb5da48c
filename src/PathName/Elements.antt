-- ===== src/PathName/Elements.antt =====
-- What skipelem takes off a path, once and in turn.
use os_212_assignment.Base.{
  ℕ, zero, suc, ◌≤◌, ◌<◌, ◌≡◌, ◌≢◌, ap, ◌∙◌, refl, arith, List, [], ◌∷◌, ◌++◌, ◌==◌, leb,
  Bool-cases, inl, inr, Option, none, some, ==_iff, length, length-append, false,
}
use os_212_assignment.PathName.{
  elements, with_name, dirsiz, skip_slashes, take_elem, take, name_of, skipelem,
}

abbrev pub All : (ℕ → Type 0) → List ℕ → Type 0
All P [] = Unit {0}
All P (c ∷ s) = P c × All P s

abbrev pub Slashes : List ℕ → Type 0
Slashes = All (λ c. c ≡ b'/')

abbrev pub NoSlash : List ℕ → Type 0
NoSlash = All (λ c. c ≢ b'/')

-- What may stand behind an element, and behind a run of slashes.
abbrev pub EndsElem : List ℕ → Type 0
EndsElem [] = Unit {0}
EndsElem (c ∷ s) = c ≡ b'/'

abbrev pub StartsElem : List ℕ → Type 0
StartsElem [] = Unit {0}
StartsElem (c ∷ s) = c ≢ b'/'

-- How skipelem ends: without an element where the path has slashes only, or with the first element,
-- cut to DIRSIZ bytes, and the rest of the path behind it without its leading slashes.
pub data SkipEnds (path : List ℕ) (r : Option (List ℕ × List ℕ)) : Type 0 where
  nothing : Slashes path → r ≡ none → SkipEnds path r
  element :
      (lead elem tail rest : List ℕ)
      → path ≡ lead ++ (elem ++ tail)
      → Slashes lead
      → NoSlash elem
      → elem ≢ []
      → EndsElem tail
      → rest ≡ skip_slashes tail
      → StartsElem rest
      → length rest < length path
      → r ≡ some (rest, name_of elem)
      → SkipEnds path r

skip_shorter : (s : List ℕ) → length (skip_slashes s) ≤ length s
unfolding skip_slashes
skip_shorter [] = omega arith
skip_shorter (c ∷ s) = let h = skip_shorter s in ground arith

nonempty : (s : List ℕ) → s ≢ [] → 0 < length s
nonempty [] h = absurd (h refl)
nonempty (c ∷ s) h = omega arith

-- A path of the names in turn, a slash before each.
unfoldable pub path_of : List (List ℕ) → List ℕ
path_of [] = []
path_of (n ∷ ns) = b'/' ∷ (n ++ path_of ns)

-- A name that fits a directory entry.
abbrev pub IsName : List ℕ → Type 0
IsName n = (n ≢ []) × NoSlash n × (length n ≤ dirsiz)

abbrev pub AllNames : List (List ℕ) → Type 0
AllNames [] = Unit {0}
AllNames (n ∷ ns) = IsName n × AllNames ns

path_ends : (ns : List (List ℕ)) → EndsElem (path_of ns)
unfolding path_of
path_ends [] = tt
path_ends (n ∷ ns) = refl

take_elem-append : (n t : List ℕ) → NoSlash n → EndsElem t → take_elem (n ++ t) ≡ (n, t)
unfolding take_elem
take_elem-append [] [] h e = refl
take_elem-append [] (c ∷ t) h e = rw ((==_iff c b'/').1 e) refl
take_elem-append (c ∷ n) t h e =
    let q = take_elem-append n t h.1 e in
    let f : (c == b'/') ≡ false = ground arith in rw (f, q) refl

take_all : (k : ℕ) (s : List ℕ) → length s ≤ k → take k s ≡ s
unfolding take
take_all zero [] h = refl
take_all zero (c ∷ s) h = absurd (omega arith)
take_all (suc k) [] h = refl
take_all (suc k) (c ∷ s) h = ap (λ t. c ∷ t) (take_all k s (omega arith))

name_same : (n : List ℕ) → length n ≤ dirsiz → name_of n ≡ n
name_same n h = elim (Bool-cases (leb dirsiz (length n))) [
  | inl e ↦ rw e (take_all dirsiz n h)
  | inr e ↦ rw e refl
]

-- The path without its first slash.
skip_path :
    (n : List ℕ) (ns : List (List ℕ)) → IsName n → skip_slashes (path_of (n ∷ ns)) ≡ n ++ path_of ns
unfolding skip_slashes path_of
skip_path [] ns h = absurd (h.0 refl)
skip_path (c ∷ n) ns h = let f : (c == b'/') ≡ false = let q = h.1.0 in ground arith in rw f refl

skip_name : (n : List ℕ) (t : List ℕ) → IsName n → skip_slashes (n ++ t) ≡ n ++ t
unfolding skip_slashes
skip_name [] t h = absurd (h.0 refl)
skip_name (c ∷ n) t h = let f : (c == b'/') ≡ false = let q = h.1.0 in ground arith in rw f refl

skipelem_name :
    (p n : List ℕ) (ns : List (List ℕ))
    → IsName n
    → skip_slashes p ≡ n ++ path_of ns
    → skipelem p ≡ some (skip_slashes (path_of ns), n)
unfolding skipelem
skipelem_name p [] ns h e = absurd (h.0 refl)
skipelem_name p (c ∷ n) ns h e =
    let t = take_elem-append (c ∷ n) (path_of ns) h.1 (path_ends ns) in
    rw (e, skipelem) (rw t (rw (name_same (c ∷ n) h.2) refl))

-- A path with a name is longer than the path behind the name.
name_length :
    (p n : List ℕ) (ns : List (List ℕ))
    → IsName n
    → skip_slashes p ≡ n ++ path_of ns
    → length (path_of ns) < length p
name_length p n ns h e =
    let q : length (skip_slashes p) ≡ length (n ++ path_of ns) = ap (λ (x : List ℕ). length x) e in
    let l = length-append n (path_of ns) in
    let m = skip_shorter p in let z = nonempty n h.0 in omega arith

no_name : (p : List ℕ) → skip_slashes p ≡ skip_slashes (path_of []) → skipelem p ≡ none
unfolding skipelem path_of skip_slashes
no_name p e = rw (e, skipelem) refl

skip_twice : (s : List ℕ) → skip_slashes (skip_slashes s) ≡ skip_slashes s
unfolding skip_slashes
skip_twice [] = refl
skip_twice (c ∷ s) = elim (Bool-cases (c == b'/')) [
  | inl e ↦ rw e (skip_twice s)
  | inr n ↦ rw n (rw n refl)
]

elements_lem :
    (rounds : ℕ) (p : List ℕ) (ns : List (List ℕ))
    → AllNames ns
    → skip_slashes p ≡ skip_slashes (path_of ns)
    → length p < rounds
    → elements rounds p ≡ some ns
unfolding elements
elements_lem zero p ns h e l = absurd (omega arith)
elements_lem (suc f) p [] h e l = rw (no_name p e, elements) refl
elements_lem (suc f) p (n ∷ ns) h e l =
    let q = e ∙ skip_path n ns h.0 in
    let b = name_length p n ns h.0 q in
    let c = skip_shorter (path_of ns) in
    rw (skipelem_name p n ns h.0 q, elements)
      (ap (with_name n)
        (elements_lem f (skip_slashes (path_of ns)) ns h.1 (skip_twice (path_of ns)) (omega arith)))

-- From the path /n1/n2/..., where each name is not empty, has no slash and fits a directory entry,
-- calls of skipelem in turn give exactly the names n1, n2, ..., and then 0, within one round for
-- each byte of the path and one more.
pub elements-path_of :
    (rounds : ℕ) (ns : List (List ℕ))
    → AllNames ns
    → length (path_of ns) < rounds
    → elements rounds (path_of ns) ≡ some ns
elements-path_of rounds ns h l = elements_lem rounds (path_of ns) ns h refl l
