-- ===== src/Bio/Order.antt =====
-- The doubly linked list of the buffer cache stands for a list of buffers, which `binit` builds and
-- `brelse` reorders.
use os_212_assignment.Base.{
  ℕ, zero, suc, ◌+◌, ◌≤◌, ◌≡◌, ◌≢◌, refl, sym, ◌∙◌, List, [], ◌∷◌, ◌++◌, arith, ◌==◌, if_same,
}
use mathlib.Core.Path.{subst}
use os_212_assignment.Kernel.{update}
use os_212_assignment.Bio.{head, Links, unlink, link_front, link_all, binit}

-- From the node `a` the links `n` lead through `xs` to `c`, and `p` back.
abbrev pub Chain : (ℕ → ℕ) → (ℕ → ℕ) → ℕ → List ℕ → ℕ → Type 0
Chain n p a [] c = (n a ≡ c) × (p c ≡ a)
Chain n p a (x ∷ xs) c = (n a ≡ x) × (p x ≡ a) × Chain n p x xs c

abbrev pub NotIn : ℕ → List ℕ → Type 0
NotIn u [] = Unit {0}
NotIn u (x ∷ xs) = (u ≢ x) × NotIn u xs

abbrev pub AllDistinct : List ℕ → Type 0
AllDistinct [] = Unit {0}
AllDistinct (x ∷ xs) = NotIn x xs × AllDistinct xs

-- The list goes from the head through these buffers back to the head.
pub record IsList (l : Links) (xs : List ℕ) : Type 0 where
  pub chain : Chain l.next l.prev head xs head
  pub no_head : NotIn head xs
  pub distinct : AllDistinct xs

pub here : (f : ℕ → ℕ) (i j v : ℕ) → i ≡ j → update f i v j ≡ v
here f i j v e = ground arith

pub other : (f : ℕ → ℕ) (i j v : ℕ) → i ≢ j → update f i v j ≡ f j
other f i j v e = ground arith

Chain-next :
    (n p : ℕ → ℕ) (u v a : ℕ) (xs : List ℕ) (c : ℕ)
    → NotIn u (a ∷ xs)
    → Chain n p a xs c
    → Chain (update n u v) p a xs c
Chain-next n p u v a [] c (o, os) (f, b) = (other n u a v o ∙ f, b)
Chain-next n p u v a (x ∷ xs) c (o, os) (f, b, r) =
    (other n u a v o ∙ f, b, Chain-next n p u v x xs c os r)

Chain-prev :
    (n p : ℕ → ℕ) (u v a : ℕ) (xs : List ℕ) (c : ℕ)
    → NotIn u xs
    → u ≢ c
    → Chain n p a xs c
    → Chain n (update p u v) a xs c
Chain-prev n p u v a [] c o e (f, b) = (f, other p u c v e ∙ b)
Chain-prev n p u v a (x ∷ xs) c (o, os) e (f, b, r) =
    (f, other p u x v o ∙ b, Chain-prev n p u v x xs c os e r)

abbrev last_of : ℕ → List ℕ → ℕ
last_of a [] = a
last_of a (x ∷ xs) = last_of x xs

abbrev first_of : List ℕ → ℕ → ℕ
first_of [] c = c
first_of (x ∷ xs) c = x

neighbours :
    (n p : ℕ → ℕ) (a b : ℕ) (xs ys : List ℕ) (c : ℕ)
    → Chain n p a (xs ++ (b ∷ ys)) c
    → (p b ≡ last_of a xs) × (n b ≡ first_of ys c)
neighbours n p a b [] [] c (f, q, (g, r)) = (q, g)
neighbours n p a b [] (y ∷ ys) c (f, q, (g, r, h)) = (q, g)
neighbours n p a b (x ∷ xs) ys c (f, q, r) = neighbours n p x b xs ys c r

NotIn-last_of : (u x : ℕ) (xs : List ℕ) → NotIn u (x ∷ xs) → u ≢ last_of x xs
NotIn-last_of u x [] (o, os) = o
NotIn-last_of u x (y ∷ xs) (o, os) = NotIn-last_of u y xs os

NotIn-first_of : (u : ℕ) (ys : List ℕ) (c : ℕ) → NotIn u ys → u ≢ c → u ≢ first_of ys c
NotIn-first_of u [] c o e = e
NotIn-first_of u (y ∷ ys) c (o, os) e = o

NotIn-front : (u : ℕ) (xs ys : List ℕ) → NotIn u (xs ++ ys) → NotIn u xs
NotIn-front u [] ys o = tt
NotIn-front u (x ∷ xs) ys (o, os) = (o, NotIn-front u xs ys os)

NotIn-back : (u : ℕ) (xs ys : List ℕ) → NotIn u (xs ++ ys) → NotIn u ys
NotIn-back u [] ys o = o
NotIn-back u (x ∷ xs) ys (o, os) = NotIn-back u xs ys os

NotIn-without : (u b : ℕ) (xs ys : List ℕ) → NotIn u (xs ++ (b ∷ ys)) → NotIn u (xs ++ ys)
NotIn-without u b [] ys (o, os) = os
NotIn-without u b (x ∷ xs) ys (o, os) = (o, NotIn-without u b xs ys os)

NotIn-member : (u b : ℕ) (xs ys : List ℕ) → NotIn u (xs ++ (b ∷ ys)) → u ≢ b
NotIn-member u b [] ys (o, os) = o
NotIn-member u b (x ∷ xs) ys (o, os) = NotIn-member u b xs ys os

flip_ne : (u v : ℕ) → u ≢ v → v ≢ u
flip_ne u v o = λ e. o (sym e)

distinct_without :
    (b : ℕ) (xs ys : List ℕ)
    → AllDistinct (xs ++ (b ∷ ys))
    → AllDistinct (xs ++ ys) × NotIn b (xs ++ ys)
distinct_without b [] ys (o, d) = (d, o)
distinct_without b (x ∷ xs) ys (o, d) =
    let (e, m) = distinct_without b xs ys d in
    ((NotIn-without x b xs ys o, e), (flip_ne x b (NotIn-member x b xs ys o), m))

-- The two writes that take `b` out.
unlink-Chain :
    (n p : ℕ → ℕ) (a b : ℕ) (xs ys : List ℕ) (c : ℕ)
    → NotIn a (xs ++ (b ∷ ys))
    → NotIn c (xs ++ (b ∷ ys))
    → AllDistinct (xs ++ (b ∷ ys))
    → Chain n p a (xs ++ (b ∷ ys)) c
    → Chain
        (update n (last_of a xs) (first_of ys c))
        (update p (first_of ys c) (last_of a xs))
        a
        (xs ++ ys)
        c
unlink-Chain n p a b [] [] c oa oc d (f, q, (g, r)) = (here n a a c refl, here p c c a refl)
unlink-Chain n p a b [] (y ∷ ys) c (o, os) (k, (l, ks)) (m, (i, d)) (f, q, (g, r, h)) = (
  here n a a y refl,
  here p y y a refl,
  Chain-next n (update p y a) a y y ys c os (Chain-prev n p y a y ys c i (flip_ne c y l) h),
)
unlink-Chain n p a b (x ∷ xs) ys c (o, os) (k, ks) (m, d) (f, q, h) =
    let away = NotIn-back x xs (b ∷ ys) m in
    (
      other n (last_of x xs) a (first_of ys c)
            (flip_ne a (last_of x xs) (NotIn-last_of a x xs (o, NotIn-front a xs (b ∷ ys) os)))
          ∙ f,
      other p (first_of ys c) x (last_of x xs)
            (flip_ne x (first_of ys c) (NotIn-first_of x ys c away.1 (flip_ne c x k)))
          ∙ q,
      unlink-Chain n p x b xs ys c m ks d h,
    )

-- The four writes that put `b` behind the head.
front-Chain :
    (n p : ℕ → ℕ) (a b t : ℕ) (zs : List ℕ) (c : ℕ)
    → NotIn a zs
    → NotIn b zs
    → NotIn c zs
    → AllDistinct zs
    → b ≢ a
    → b ≢ c
    → Chain n p a zs c
    → t ≡ n a
    → Chain (update (update n b (n a)) a b) (update (update p b a) t b) a (b ∷ zs) c
front-Chain n p a b t [] c oa ob oc d ne nc (f, q) k =
    let e : t ≡ c = k ∙ f in
    rw e (
      here (update n b (n a)) a a b refl,
      other (update p b a) c b b (flip_ne b c nc) ∙ here p b b a refl,
      (
        other (update n b (n a)) a b b (flip_ne b a ne) ∙ here n b b (n a) refl ∙ f,
        here (update p b a) c c b refl,
      ),
    )
front-Chain n p a b t (z ∷ zs) c (oa, oas) (ob, obs) (oc, ocs) (oz, d) ne nc (f, q, r) k =
    let e : t ≡ z = k ∙ f in
    rw e (
      here (update n b (n a)) a a b refl,
      other (update p b a) z b b (flip_ne b z ob) ∙ here p b b a refl,
      (
        other (update n b (n a)) a b b (flip_ne b a ne) ∙ here n b b (n a) refl ∙ f,
        here (update p b a) z z b refl,
        Chain-next (update n b (n a)) (update (update p b a) t b) a b z zs c (oa, oas)
            (Chain-next n (update (update p b a) t b) b (n a) z zs c (ob, obs)
              (Chain-prev n (update p b a) t b z zs c (rw e oz) (rw e (flip_ne c z oc))
                (Chain-prev n p b a z zs c obs nc r))),
      ),
    )

-- `link_front` puts a buffer that is not in the list in front.
pub link_front-IsList :
    (l : Links) (b : ℕ) (xs : List ℕ)
    → IsList l xs
    → b ≢ head
    → NotIn b xs
    → IsList (link_front b l) (b ∷ xs)
unfolding link_front
link_front-IsList l b xs w e o = record {
  chain =
      front-Chain l.next l.prev head b (update l.next b (l.next head) head) xs head w.no_head o
        w.no_head w.distinct e e w.chain (other l.next b head (l.next head) e);
  no_head = (flip_ne b head e, w.no_head);
  distinct = (o, w.distinct);
}

unlink-IsList :
    (l : Links) (b : ℕ) (xs ys : List ℕ)
    → IsList l (xs ++ (b ∷ ys))
    → IsList (unlink b l) (xs ++ ys)
unfolding unlink
unlink-IsList l b xs ys w =
    let (p, n) = neighbours l.next l.prev head b xs ys head w.chain in
    let same : update l.prev (l.next b) (l.prev b) b ≡ l.prev b =
      if_same (l.next b == b) (l.prev b) in
    record {
      chain =
          rw (same, p, n)
            (unlink-Chain l.next l.prev head b xs ys head w.no_head w.no_head w.distinct w.chain);
      no_head = NotIn-without head b xs ys w.no_head;
      distinct = (distinct_without b xs ys w.distinct).0;
    }

-- Where the list is xs, b, ys, the writes of brelse that move the buffer b leave b, xs, ys, in both
-- directions of the links.
pub move-IsList :
    (l : Links) (b : ℕ) (xs ys : List ℕ)
    → IsList l (xs ++ (b ∷ ys))
    → IsList (link_front b (unlink b l)) (b ∷ (xs ++ ys))
move-IsList l b xs ys w =
    link_front-IsList (unlink b l) b (xs ++ ys) (unlink-IsList l b xs ys w)
      (flip_ne head b (NotIn-member head b xs ys w.no_head)) (distinct_without b xs ys w.distinct).1

-- The buffers below `n`, the highest first.
abbrev pub countdown : ℕ → List ℕ
countdown zero = []
countdown (suc n) = n ∷ countdown n

NotIn-countdown : (m n : ℕ) → n ≤ m → NotIn m (countdown n)
NotIn-countdown m zero l = tt
NotIn-countdown m (suc n) l = ((λ e. omega arith), NotIn-countdown m n (omega arith))

link_all-IsList :
    (n b : ℕ) (l : Links)
    → b + n ≤ 30
    → IsList l (countdown b)
    → IsList (link_all n b l) (countdown (b + n))
unfolding link_all
link_all-IsList zero b l h w = subst (λ k. IsList l (countdown k)) (omega arith) w
link_all-IsList (suc n) b l h w =
    let up : suc b ≡ b + 1 = omega arith in
    let all : b + 1 + n ≡ b + suc n = omega arith in
    subst (λ k. IsList (link_all n (b + 1) (link_front b l)) (countdown k)) all
      (link_all-IsList n (b + 1) (link_front b l) (omega arith) (
        subst (λ k. IsList (link_front b l) (countdown k)) up
          (link_front-IsList l b (countdown b) w (λ e. omega arith)
            (NotIn-countdown b b (omega arith)))))

-- After binit the list has all buffers, the last one of the array first.
pub binit-IsList : IsList binit (countdown 30)
unfolding binit
binit-IsList =
    link_all-IsList 30 0 _ (omega arith)
      (record { chain = (refl, refl); no_head = tt; distinct = tt })
