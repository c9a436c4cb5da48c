-- ===== src/Bio/Walk.antt =====
-- The loops of `bget` along the links search the list of buffers, from either end.
use os_212_assignment.Base.{
  ℕ, zero, suc, ◌<◌, ◌≡◌, ◌≢◌, refl, ap, ◌∙◌, List, [], ◌∷◌, ◌++◌, arith, ◌==◌, Bool, true, false,
  Option, none, some, Bool-cases, length, length-append, inl, inr,
}
use os_212_assignment.Bio.{head, find}
use os_212_assignment.Bio.Order.{Chain, NotIn}

abbrev pub first : (ℕ → Bool) → List ℕ → Option ℕ
first test [] = none
first test (x ∷ xs) = elim (test x) [ true ↦ some x | false ↦ first test xs ]

-- `find` from behind the node `a`.
find_lem :
    (fuel : ℕ) (test : ℕ → Bool) (n p : ℕ → ℕ) (a : ℕ) (xs : List ℕ)
    → Chain n p a xs head
    → NotIn head xs
    → length xs < fuel
    → find fuel test n (n a) ≡ first test xs
unfolding find
find_lem zero test n p a xs c o l = absurd (omega arith)
find_lem (suc fuel) test n p a [] (f, q) o l = rw (f, find) refl
find_lem (suc fuel) test n p a (x ∷ xs) (f, q, r) (o, os) l =
    let away : (x == head) ≡ false = ground arith in
    let from_x : find (suc fuel) test n x ≡ first test (x ∷ xs) =
      rw (away, find)
        (elim (Bool-cases (test x)) [
          | inl t ↦ rw (t, first) refl
          | inr t ↦ rw (t, first) (find_lem fuel test n p x xs r os (omega arith))
        ]) in
    rw f from_x

abbrev pub rev : List ℕ → List ℕ
rev [] = []
rev (x ∷ xs) = rev xs ++ (x ∷ [])

Chain-snoc :
    (n p : ℕ → ℕ) (a x c : ℕ) (xs : List ℕ)
    → Chain n p a xs x
    → n x ≡ c
    → p c ≡ x
    → Chain n p a (xs ++ (x ∷ [])) c
Chain-snoc n p a x c [] (f, q) g h = (f, q, (g, h))
Chain-snoc n p a x c (y ∷ xs) (f, q, r) g h = (f, q, Chain-snoc n p y x c xs r g h)

Chain-rev : (n p : ℕ → ℕ) (a c : ℕ) (xs : List ℕ) → Chain n p a xs c → Chain p n c (rev xs) a
Chain-rev n p a c [] (f, q) = (q, f)
Chain-rev n p a c (x ∷ xs) (f, q, r) = Chain-snoc p n c x a (rev xs) (Chain-rev n p x c xs r) q f

NotIn-snoc : (u x : ℕ) (xs : List ℕ) → NotIn u xs → u ≢ x → NotIn u (xs ++ (x ∷ []))
NotIn-snoc u x [] o e = (e, tt)
NotIn-snoc u x (y ∷ xs) (o, os) e = (o, NotIn-snoc u x xs os e)

NotIn-rev : (u : ℕ) (xs : List ℕ) → NotIn u xs → NotIn u (rev xs)
NotIn-rev u [] o = tt
NotIn-rev u (x ∷ xs) (o, os) = NotIn-snoc u x (rev xs) (NotIn-rev u xs os) o

length-rev : (xs : List ℕ) → length (rev xs) ≡ length xs
length-rev [] = refl
length-rev (x ∷ xs) = length-append (rev xs) (x ∷ []) ∙ omega (arith, length-rev xs)

pub find_forward :
    (fuel : ℕ) (test : ℕ → Bool) (n p : ℕ → ℕ) (xs : List ℕ)
    → Chain n p head xs head
    → NotIn head xs
    → length xs < fuel
    → find fuel test n (n head) ≡ first test xs
find_forward fuel test n p xs c o l = find_lem fuel test n p head xs c o l

pub find_backward :
    (fuel : ℕ) (test : ℕ → Bool) (n p : ℕ → ℕ) (xs : List ℕ)
    → Chain n p head xs head
    → NotIn head xs
    → length xs < fuel
    → find fuel test p (p head) ≡ first test (rev xs)
find_backward fuel test n p xs c o l =
    find_lem fuel test p n head (rev xs) (Chain-rev n p head head xs c) (NotIn-rev head xs o)
      (omega (arith, length-rev xs, l))

-- No buffer of the list passes the test.
abbrev pub NoneOf : (ℕ → Bool) → List ℕ → Type 0
NoneOf test [] = Unit {0}
NoneOf test (x ∷ xs) = (test x ≡ false) × NoneOf test xs

-- What a search says about the list in the order of the search.
pub first_none : (test : ℕ → Bool) (xs : List ℕ) → first test xs ≡ none → NoneOf test xs
first_none test [] e = tt
first_none test (x ∷ xs) e = elim (Bool-cases (test x)) [
  | inl t ↦ let f = (rw (t, first) at e) in absurd cc
  | inr t ↦ (t, first_none test xs (rw (t, first) at e))
]

pub first_some :
    (test : ℕ → Bool) (xs : List ℕ) (b : ℕ)
    → first test xs ≡ some b
    → (before : List ℕ) × (bs : List ℕ) × (xs ≡ before ++ (b ∷ bs))
      × (test b ≡ true)
      × NoneOf test before
first_some test [] b e = absurd cc
first_some test (x ∷ xs) b e = elim (Bool-cases (test x)) [
  | inl t ↦
      let same : x ≡ b = let f = (rw (t, first) at e) in cc in
      ([], xs, ap (λ y. y ∷ xs) same, rw (← same) t, tt)
  | inr t ↦
      let (l, r, q, y, o) = first_some test xs b (rw (t, first) at e) in
      (x ∷ l, r, ap (λ y. x ∷ y) q, y, (t, o))
]
