-- ===== src/Bio/Release.antt =====
-- What `brelse` does to the buffer and to the list.
use os_212_assignment.Base.{
  ℕ, ◌≡◌, ◌≢◌, refl, sym, ap, ◌∙◌, List, ◌∷◌, ◌++◌, ◌==◌, if◌then◌else◌, true, some, Bool-cases,
}
use os_212_assignment.Base.{inl, inr}
use os_212_assignment.Kernel.{update, dec32}
use os_212_assignment.Bio.{
  Buf, Bcache, change, holdingsleep, releasesleep, link_front, unlink, brelse,
}
use os_212_assignment.Bio.Order.{IsList, move-IsList}
use os_212_assignment.Bio.Unique.{here, other}

-- The list after the call: the buffer comes first if its last reference is gone.
abbrev pub reordered : ℕ → ℕ → List ℕ → List ℕ → List ℕ
reordered refcnt b xs ys = if refcnt == 0 then b ∷ (xs ++ ys) else xs ++ (b ∷ ys)

module _ {A : Type 0} where
  pub record Released (c : Bcache A) (b : ℕ) (xs ys : List ℕ) (d : Bcache A) : Type 0 where
    pub counted : (d.buf b).refcnt ≡ dec32 (c.buf b).refcnt
    pub unlocked : (d.buf b).locked ≡ 0
    pub same_block : ((d.buf b).dev ≡ (c.buf b).dev) × ((d.buf b).blockno ≡ (c.buf b).blockno)
    pub same_content : ((d.buf b).valid ≡ (c.buf b).valid) × ((d.buf b).content ≡ (c.buf b).content)
    pub others : (i : ℕ) → i ≢ b → d.buf i ≡ c.buf i
    pub ordered : IsList d.links (reordered (dec32 (c.buf b).refcnt) b xs ys)

  let_go : Buf A → Buf A
  unfolding releasesleep
  let_go x = record (releasesleep x) { refcnt = dec32 x.refcnt }

  let_go-Released :
      (c d : Bcache A) (b : ℕ) (xs ys : List ℕ)
      → d.buf ≡ update c.buf b (let_go (c.buf b))
      → IsList d.links (reordered (dec32 (c.buf b).refcnt) b xs ys)
      → Released c b xs ys d
  unfolding let_go
  let_go-Released c d b xs ys e w =
      let at_b : d.buf b ≡ let_go (c.buf b) = ap (λ f. f b) e ∙ here c.buf b (let_go (c.buf b)) in
      record {
        counted = ap (λ x. x.refcnt) at_b;
        unlocked = ap (λ x. x.locked) at_b;
        same_block = (ap (λ x. x.dev) at_b, ap (λ x. x.blockno) at_b);
        same_content = (ap (λ x. x.valid) at_b, ap (λ x. x.content) at_b);
        others = λ i n. ap (λ f. f i) e ∙ other c.buf b i (let_go (c.buf b)) (λ q. n (sym q));
        ordered = w;
      }

  -- brelse(b) by the process that holds the lock of b, where the list is xs, b, ys, does not panic;
  -- it unlocks b and takes one from its references, moves b to the front of the list exactly if
  -- none is left, and changes nothing else of b and nothing of other buffers.
  pub brelse-Released :
      (pid b : ℕ) (c : Bcache A) (xs ys : List ℕ)
      → IsList c.links (xs ++ (b ∷ ys))
      → holdingsleep pid (c.buf b) ≡ true
      → (d : Bcache A) × (brelse pid b c ≡ some d) × Released c b xs ys d
  unfolding brelse change let_go
  brelse-Released pid b c xs ys w h = elim (Bool-cases (dec32 (c.buf b).refcnt == 0)) [
    | inl z ↦
        let d = record c {
          buf = update c.buf b (let_go (c.buf b));
          links = link_front b (unlink b c.links);
        } in
        (d, rw (h, z) refl, let_go-Released c d b xs ys refl (rw z (move-IsList c.links b xs ys w)))
    | inr z ↦
        let d = record c { buf = update c.buf b (let_go (c.buf b)) } in
        (d, rw (h, z) refl, let_go-Released c d b xs ys refl (rw z w))
  ]
