-- ===== src/Ring/Remove.antt =====
-- `removePage` of kernel/vm.c: it ends, and the queue that it leaves. The loop's bound is the
-- length of the queue, which falls by one when the page is found, so the last page is not put back
-- behind the others.
use os_212_assignment.Base.{
  ℕ, zero, suc, ◌+◌, ◌≤◌, ◌<◌, ◌≡◌, refl, sym, ap, ◌∙◌, false, some, List, [], ◌∷◌, ◌++◌,
  append-nil, append_assoc, arith, ltb, if◌then◌else◌, inl, inr, Bool-cases, length, length-append,
}
use os_212_assignment.Base.Int.{ℤ, pos, ltb_ℤ, eqb_ℤ, eqb_ℤ_iff, ltb_ℤ-pos}
use os_212_assignment.Proc.{Proc, max_total_pages}
use os_212_assignment.Ring.{place, in_, out, front, remove_round, remove_loop, remove_page}
use os_212_assignment.Ring.Queue.{
  IsRing, contents, length-window, in_-IsRing, out-IsRing, contents-in_, contents-out,
}

-- `page` does not occur.
abbrev pub Absent : ℤ → List ℤ → Type 0
Absent page [] = Unit
Absent page (x ∷ xs) = (eqb_ℤ x page ≡ false) × Absent page xs

-- The loop of `removePage` on the queue that the array holds.
turn : ℤ → List ℤ → List ℤ
turn page [] = []
turn page (x ∷ xs) = if eqb_ℤ x page then xs else xs ++ (x ∷ [])

turns : ℕ → ℕ → ℤ → List ℤ → List ℤ
turns zero i page l = l
turns (suc fuel) i page l = if ltb i (length l) then turns fuel (i + 1) page (turn page l) else l

length-turn-le : (page : ℤ) (l : List ℤ) → length (turn page l) ≤ length l
unfolding turn
length-turn-le page [] = omega arith
length-turn-le page (x ∷ xs) = ground (arith, length-append xs (x ∷ []))

turns-stop : (fuel i : ℕ) (page : ℤ) (l : List ℤ) → length l ≤ i → turns fuel i page l ≡ l
unfolding turns
turns-stop zero i page l h = refl
turns-stop (suc fuel) i page l h = ground arith

turns-go :
    (fuel i : ℕ) (page : ℤ) (l : List ℤ)
    → i < length l
    → turns (suc fuel) i page l ≡ turns fuel (i + 1) page (turn page l)
unfolding turns
turns-go fuel i page l h = ground arith

-- Pages other than `page` go behind the others, in order.
turns-Absent :
    (f i : ℕ) (page : ℤ) (xs ys : List ℤ)
    → Absent page xs
    → i ≤ length ys
    → turns (length xs + f) i page (xs ++ ys) ≡ turns f (i + length xs) page (ys ++ xs)
unfolding turn
turns-Absent f i page [] ys absent h =
    let a : 0 + f ≡ f = omega arith in let b : i + 0 ≡ i = omega arith in rw (a, b, append-nil)
turns-Absent f i page (x ∷ xs) ys absent h =
    let a : suc (length xs) + f ≡ suc (length xs + f) = omega arith in
    let b : i + suc (length xs) ≡ i + 1 + length xs = omega arith in
    rw (a, turns-go (length xs + f) i page (x ∷ (xs ++ ys)) (omega (arith, length-append xs ys)))
      (rw (absent.0, b, append_assoc)
        (turns-Absent f (i + 1) page xs (ys ++ (x ∷ [])) absent.1
            (omega (arith, length-append ys (x ∷ [])))
          ∙ ap (turns f (i + 1 + length xs) page) (append_assoc ys (x ∷ []) xs)))

-- What a run of the loop leaves: a ring that holds `l`.
pub record Holds (l : List ℤ) (p : Proc) : Type 0 where
  pub ring : IsRing p
  pub holds : contents p ≡ l

length-contents : (p : Proc) → length (contents p) ≡ place p.num_of_pages
length-contents p = length-window p.pages p.head (place p.num_of_pages)

pub Holds-count : (l : List ℤ) {p : Proc} → Holds l p → p.num_of_pages ≡ pos (length l)
Holds-count l {p} h = h.ring.count ∙ ap pos (sym (length-contents p) ∙ ap length h.holds)

-- The page at the head of an array that holds the queue `x ∷ xs` is `x`, and `out` leaves an array
-- that holds `xs`, with its invariant.
pub out-Holds :
    (x : ℤ) (xs : List ℤ) {p : Proc} → Holds (x ∷ xs) p → (front p ≡ x) × Holds xs (out p)
out-Holds x xs {p} h =
    let n : 0 < place p.num_of_pages = rw (Holds-count (x ∷ xs) h) (omega arith) in
    let cut = sym (contents-out h.ring n) ∙ h.holds in
    (ground (arith, cut), record { ring = out-IsRing h.ring n; holds = ground (arith, cut) })

-- Where the array holds `xs` and has room, `in` leaves an array that holds `xs` and then the page,
-- with its invariant.
pub in_-Holds :
    (x : ℤ) (xs : List ℤ) {p : Proc}
    → Holds xs p
    → length xs < max_total_pages
    → Holds (xs ++ (x ∷ [])) (in_ x p)
in_-Holds x xs {p} h room =
    let n : place p.num_of_pages < max_total_pages = rw (Holds-count xs h) room in
    record {
      ring = in_-IsRing x h.ring n;
      holds = contents-in_ x h.ring n ∙ ap (λ l. l ++ (x ∷ [])) h.holds;
    }

pub Holds-few : (l : List ℤ) {p : Proc} → Holds l p → length l ≤ max_total_pages
Holds-few l {p} h = rw (← h.holds) (rw (length-contents p) h.ring.few)

-- One round on the array is one turn of the queue.
remove_round-Holds :
    (page : ℤ) (l : List ℤ) {p : Proc}
    → Holds l p
    → 0 < length l
    → Holds (turn page l) (remove_round page p)
unfolding turn remove_round
remove_round-Holds page [] h ne = absurd (omega arith)
remove_round-Holds page (x ∷ xs) {p} h ne =
    let (first, rest) = out-Holds x xs h in
    let room = Holds-few (x ∷ xs) h in
    rw first (elim (Bool-cases (eqb_ℤ x page)) [
      | inl e ↦ rw e rest
      | inr e ↦ rw e (in_-Holds x xs rest (omega arith))
    ])

-- The loop on the array ends within its fuel, and does what the loop on the queue does.
remove_loop-turns :
    (fuel i : ℕ) (page : ℤ) (l : List ℤ) {p : Proc}
    → Holds l p
    → 0 < fuel
    → length l < fuel + i
    → (p' : Proc) × (remove_loop fuel i page p ≡ some p') × Holds (turns fuel i page l) p'
unfolding turns remove_loop
remove_loop-turns zero i page l h ne f = absurd (omega arith)
remove_loop-turns (suc fuel) i page l {p} h ne f =
    let t : ltb_ℤ (pos i) p.num_of_pages ≡ ltb i (length l) =
      rw (Holds-count l h) (ltb_ℤ-pos i (length l)) in
    rw t (elim (Bool-cases (ltb i (length l))) [
      | inl e ↦ rw e (
          remove_loop-turns fuel (i + 1) page (turn page l)
            (remove_round-Holds page l h (ground arith)) (ground arith)
            (ground (arith, length-turn-le page l)))
      | inr e ↦ rw e (p, refl, h)
    ])

remove_page-turns :
    (page : ℤ) (l : List ℤ) {p : Proc}
    → Holds l p
    → (p' : Proc) × (remove_page page p ≡ some p') × Holds (turns (suc (length l)) 0 page l) p'
unfolding remove_page
remove_page-turns page l {p} h =
    rw (ap place (Holds-count l h))
      (remove_loop-turns (suc (length l)) 0 page l h (omega arith) (omega arith))

remove_page-eq :
    (page : ℤ) (l l' : List ℤ) {p : Proc}
    → Holds l p
    → turns (suc (length l)) 0 page l ≡ l'
    → (p' : Proc) × (remove_page page p ≡ some p') × Holds l' p'
remove_page-eq page l l' h e =
    let (p', run, held) = remove_page-turns page l h in (p', run, rw e at held)

turns_none : (page : ℤ) (xs : List ℤ) → Absent page xs → turns (suc (length xs)) 0 page xs ≡ xs
turns_none page xs absent =
    let e : suc (length xs) ≡ length xs + 1 = omega arith in
    rw e (
      ap (λ l. turns (length xs + 1) 0 page l) (sym (append-nil xs))
      ∙ turns-Absent 1 0 page xs [] absent (omega arith)
      ∙ turns-stop 1 (0 + length xs) page xs (omega arith))

-- From the round that meets `page` on.
turns_found :
    (f i : ℕ) (page : ℤ) (ys zs : List ℤ)
    → i < suc (length ys + length zs)
    → turns (suc f) i page ((page ∷ ys) ++ zs) ≡ turns f (i + 1) page (ys ++ zs)
unfolding turn
turns_found f i page ys zs h =
    rw (turns-go f i page (page ∷ (ys ++ zs)) (omega (arith, length-append ys zs)))
      (rw ((eqb_ℤ_iff page page).1 refl))

turns_last :
    (page : ℤ) (xs : List ℤ)
    → Absent page xs
    → turns (suc (length (xs ++ (page ∷ [])))) 0 page (xs ++ (page ∷ [])) ≡ xs
turns_last page xs absent =
    let e : suc (length (xs ++ (page ∷ []))) ≡ length xs + 2 =
      omega (arith, length-append xs (page ∷ [])) in
    rw e (
      turns-Absent 2 0 page xs (page ∷ []) absent (omega arith)
      ∙ turns_found 1 (0 + length xs) page [] xs (omega arith)
      ∙ turns-stop 1 (0 + length xs + 1) page xs (omega arith))

turns_present :
    (page z : ℤ) (xs ys : List ℤ)
    → Absent page xs
    → Absent page ys
    → (let l = xs ++ (page ∷ (ys ++ (z ∷ []))) in turns (suc (length l)) 0 page l) ≡ z ∷ (xs ++ ys)
turns_present page z xs ys absent absent' =
    let m = length ys in
    let e : suc (length (xs ++ (page ∷ (ys ++ (z ∷ []))))) ≡ length xs + suc (m + 2) =
      omega (arith, length-append xs (page ∷ (ys ++ (z ∷ []))), length-append ys (z ∷ [])) in
    rw e (
      turns-Absent (suc (m + 2)) 0 page xs (page ∷ (ys ++ (z ∷ []))) absent (omega arith)
      ∙ turns_found (m + 2) (0 + length xs) page (ys ++ (z ∷ [])) xs
          (omega (arith, length-append ys (z ∷ [])))
      ∙ ap (turns (m + 2) (0 + length xs + 1) page) (append_assoc ys (z ∷ []) xs)
      ∙ turns-Absent 2 (0 + length xs + 1) page ys (z ∷ xs) absent' (omega arith)
      ∙ turns-stop 2 (0 + length xs + 1 + m) page (z ∷ (xs ++ ys))
          (omega (arith, length-append xs ys)))

-- `removePage` returns, and leaves the queue as it was, if the page is not in it.
pub remove_page-Absent :
    (page : ℤ) (xs : List ℤ) {p : Proc}
    → Holds xs p
    → Absent page xs
    → (p' : Proc) × (remove_page page p ≡ some p') × Holds xs p'
remove_page-Absent page xs h absent = remove_page-eq page xs xs h (turns_none page xs absent)

-- `removePage` returns, and removes the page, if it is the last of the queue.
pub remove_page-last :
    (page : ℤ) (xs : List ℤ) {p : Proc}
    → Holds (xs ++ (page ∷ [])) p
    → Absent page xs
    → (p' : Proc) × (remove_page page p ≡ some p') × Holds xs p'
remove_page-last page xs h absent =
    remove_page-eq page (xs ++ (page ∷ [])) xs h (turns_last page xs absent)

-- `removePage` returns, and removes a page that is not the last of the queue; the last page of the
-- queue becomes the first, and the others stay in order.
pub remove_page-present :
    (page z : ℤ) (xs ys : List ℤ) {p : Proc}
    → Holds (xs ++ (page ∷ (ys ++ (z ∷ [])))) p
    → Absent page xs
    → Absent page ys
    → (p' : Proc) × (remove_page page p ≡ some p') × Holds (z ∷ (xs ++ ys)) p'
remove_page-present page z xs ys h absent absent' =
    remove_page-eq page (xs ++ (page ∷ (ys ++ (z ∷ [])))) (z ∷ (xs ++ ys)) h
      (turns_present page z xs ys absent absent')
