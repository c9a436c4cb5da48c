-- ===== src/Bio/Unique.antt =====
-- No block has two buffers, as long as a buffer takes over only blocks that no buffer has.
use os_212_assignment.Base.{
  ℕ, ◌≡◌, ◌≢◌, refl, sym, ap, ◌∙◌, List, [], ◌∷◌, ◌++◌, arith, ◌==◌, Bool, true, false, Bool-cases,
  ==_iff, ne_of_false, ◌⊎◌, inl, inr,
}
use os_212_assignment.Kernel.{update}
use os_212_assignment.Bio.{Buf, Bcache, is_block, is_free}
use os_212_assignment.Bio.Walk.{rev, NoneOf}

abbrev pub In : ℕ → List ℕ → Type 0
In b [] = ⊥
In b (x ∷ xs) = (b ≡ x) ⊎ In b xs

pub In-append : (b : ℕ) (xs ys : List ℕ) → In b (xs ++ (b ∷ ys))
In-append b [] ys = inl refl
In-append b (x ∷ xs) ys = inr (In-append b xs ys)

NoneOf-In : (test : ℕ → Bool) (xs : List ℕ) (i : ℕ) → NoneOf test xs → In i xs → test i ≡ false
NoneOf-In test [] i o m = absurd m
NoneOf-In test (x ∷ xs) i (o, os) (inl e) = rw e o
NoneOf-In test (x ∷ xs) i (o, os) (inr m) = NoneOf-In test xs i os m

In-snoc : (b x : ℕ) (xs : List ℕ) → In b (xs ++ (x ∷ [])) → (b ≡ x) ⊎ In b xs
In-snoc b x [] (inl e) = inl e
In-snoc b x [] (inr m) = absurd m
In-snoc b x (y ∷ xs) (inl e) = inr (inl e)
In-snoc b x (y ∷ xs) (inr m) = elim (In-snoc b x xs m) [ inl e ↦ inl e | inr n ↦ inr (inr n) ]

pub In-rev : (b : ℕ) (xs : List ℕ) → In b (rev xs) → In b xs
In-rev b [] m = m
In-rev b (x ∷ xs) m = elim (In-snoc b x (rev xs) m) [ inl e ↦ inl e | inr n ↦ inr (In-rev b xs n) ]

module _ {A : Type 0} where
  -- Two buffers of the list with one device other than 0 have different blocks. Device 0 is that of
  -- the buffers that were never used.
  abbrev pub IsUnique : Bcache A → List ℕ → Type 0
  IsUnique c xs =
      (i j : ℕ)
      → In i xs
      → In j xs
      → (c.buf i).dev ≢ 0
      → (c.buf i).dev ≡ (c.buf j).dev
      → (c.buf i).blockno ≡ (c.buf j).blockno
      → i ≡ j

  pub here : (f : ℕ → Buf A) (i : ℕ) (v : Buf A) → update f i v i ≡ v
  here f i v = ground arith

  pub other : (f : ℕ → Buf A) (i j : ℕ) (v : Buf A) → i ≢ j → update f i v j ≡ f j
  other f i j v e = ground arith

  pub is_block-true :
      (c : Bcache A) (dev blockno b : ℕ)
      → is_block c dev blockno b ≡ true
      → ((c.buf b).dev ≡ dev) × ((c.buf b).blockno ≡ blockno)
  unfolding is_block
  is_block-true c dev blockno b e = ground arith

  is_block_of :
      (c : Bcache A) (dev blockno b : ℕ)
      → (c.buf b).dev ≡ dev
      → (c.buf b).blockno ≡ blockno
      → is_block c dev blockno b ≡ true
  unfolding is_block
  is_block_of c dev blockno b e f = ground arith

  pub is_free-true : (c : Bcache A) (b : ℕ) → is_free c b ≡ true → (c.buf b).refcnt ≡ 0
  unfolding is_free
  is_free-true c b e = ground arith

  taken :
      (c : Bcache A) (dev blockno i : ℕ) (xs : List ℕ)
      → NoneOf (is_block c dev blockno) xs
      → In i xs
      → (c.buf i).dev ≡ dev
      → (c.buf i).blockno ≡ blockno
      → ⊥
  taken c dev blockno i xs n m e f =
      let x = NoneOf-In (is_block c dev blockno) xs i n m in
      let y = is_block_of c dev blockno i e f in cc

  pub IsUnique-same :
      (c d : Bcache A) (xs : List ℕ)
      → ((i : ℕ) → ((d.buf i).dev ≡ (c.buf i).dev) × ((d.buf i).blockno ≡ (c.buf i).blockno))
      → IsUnique c xs
      → IsUnique d xs
  IsUnique-same c d xs same u i j mi mj n e f =
      u i j mi mj (λ z. n ((same i).0 ∙ z)) (sym (same i).0 ∙ e ∙ (same j).0)
        (sym (same i).1 ∙ f ∙ (same j).1)

  -- A buffer that takes over a block that no buffer had.
  pub IsUnique-new :
      (c d : Bcache A) (dev blockno b : ℕ) (xs : List ℕ)
      → NoneOf (is_block c dev blockno) xs
      → (d.buf b).dev ≡ dev
      → (d.buf b).blockno ≡ blockno
      → ((i : ℕ) → i ≢ b → d.buf i ≡ c.buf i)
      → IsUnique c xs
      → IsUnique d xs
  IsUnique-new c d dev blockno b xs free dv bn o u i j mi mj n e f = elim (Bool-cases (i == b)) [
    | inl p ↦ elim (Bool-cases (j == b)) [
      | inl q ↦ (==_iff i b).0 p ∙ sym ((==_iff j b).0 q)
      | inr q ↦
          let k = o j (ne_of_false j b q) in
          let at_b = (==_iff i b).0 p in
          absurd (
            taken c dev blockno j xs free mj
              (sym (ap (λ x. x.dev) k) ∙ sym e ∙ ap (λ t. (d.buf t).dev) at_b ∙ dv)
              (sym (ap (λ x. x.blockno) k) ∙ sym f ∙ ap (λ t. (d.buf t).blockno) at_b ∙ bn))
    ]
    | inr p ↦
        let k = o i (ne_of_false i b p) in
        elim (Bool-cases (j == b)) [
          | inl q ↦
              let at_b = (==_iff j b).0 q in
              absurd (
                taken c dev blockno i xs free mi
                  (sym (ap (λ x. x.dev) k) ∙ e ∙ ap (λ t. (d.buf t).dev) at_b ∙ dv)
                  (sym (ap (λ x. x.blockno) k) ∙ f ∙ ap (λ t. (d.buf t).blockno) at_b ∙ bn))
          | inr q ↦
              let l = o j (ne_of_false j b q) in
              u i j mi mj (λ z. n (ap (λ x. x.dev) k ∙ z))
                (sym (ap (λ x. x.dev) k) ∙ e ∙ ap (λ x. x.dev) l)
                (sym (ap (λ x. x.blockno) k) ∙ f ∙ ap (λ x. x.blockno) l)
        ]
  ]
