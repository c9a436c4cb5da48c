-- ===== src/Log/Install.antt =====
-- What the writes of `install_trans` do to the disk, all of them or some.
use os_212_assignment.Base.{
  ℕ, zero, suc, ◌+◌, ◌≤◌, ◌≡◌, refl, ap, ◌∙◌, sym, Bool, true, false, inl, inr, List, [], ◌∷◌,
  length, ◌==◌, ◌||◌, arith, Bool-cases, ==_iff,
}
use os_212_assignment.Kernel.{update}
use os_212_assignment.Log.{Disk, Write, home_moves, perform, after_some, after_all, writes}
use os_212_assignment.Log.Moves.{Outside, AllOutside, Slots, update_here, update_other}

abbrev pub mem : ℕ → List ℕ → Bool
mem x [] = false
mem x (b ∷ bs) = (b == x) || mem x bs

mem-Outside :
    (start n b : ℕ) (bs : List ℕ) → AllOutside start n bs → mem b bs ≡ true → Outside start n b
mem-Outside start n b [] o m = absurd cc
mem-Outside start n b (a ∷ bs) (o, os) m = elim (Bool-cases (a == b)) [
  | inl e ↦ let same : a ≡ b = omega (arith, (==_iff a b).0 e) in rw (sym same) o
  | inr e ↦ mem-Outside start n b bs os (rw e at m)
]

module _ {A : Type 0} where
  Slots-update :
      (start n tail : ℕ) (bs : List ℕ) (f c : ℕ → A) (b : ℕ) (v : A)
      → Outside start n b
      → tail + length bs ≤ n
      → Slots start tail bs f c
      → Slots start tail bs (update f b v) c
  Slots-update start n tail [] f c b v o l s = tt
  Slots-update start n tail (a ∷ bs) f c b v o l (s, r) = (
    update_other f b (start + tail + 1) v (λ q. omega arith) ∙ s,
    Slots-update start n (tail + 1) bs f c b v o (omega arith) r,
  )

  -- Every write is of a block of the transaction, with the content that `c` has for it.
  pub data IsInstall (lh : List ℕ) (c : ℕ → A) : List (Write A) → Type 0 where
    done : IsInstall lh c []
    next :
        (b : ℕ) (v : A) (ws : List (Write A))
        → mem b lh ≡ true
        → v ≡ c b
        → IsInstall lh c ws
        → IsInstall lh c (Write.block b v ∷ ws)

  pub home_moves-IsInstall :
      (start n tail : ℕ) (lh bs : List ℕ) (f c : ℕ → A)
      → AllOutside start n bs
      → tail + length bs ≤ n
      → Slots start tail bs f c
      → ((b : ℕ) → mem b bs ≡ true → mem b lh ≡ true)
      → IsInstall lh c (writes (home_moves start tail bs) f)
  unfolding home_moves
  home_moves-IsInstall start n tail lh [] f c o l s m = IsInstall.done
  home_moves-IsInstall start n tail lh (b ∷ bs) f c (o, os) l (s, r) m =
      IsInstall.next b (f (start + tail + 1)) _ (m b (rw ((==_iff b b).1 refl) refl)) s (
        home_moves-IsInstall start n (tail + 1) lh bs _ c os (omega arith)
          (Slots-update start n (tail + 1) bs f c b _ o (omega arith) r)
          (λ x e. m x (elim (Bool-cases (b == x)) [ inl q ↦ rw q refl | inr q ↦ rw q e ])))

  module _ (lh : List ℕ) (c : ℕ → A) where
    pub install-head :
        (k : ℕ) (ws : List (Write A)) (d : Disk A)
        → IsInstall lh c ws
        → (after_some k ws d).head ≡ d.head
    unfolding perform
    install-head zero ws d i = refl
    install-head (suc k) _ d (IsInstall.done) = refl
    install-head (suc k) _ d (IsInstall.next b v ws m e i) = install-head k ws _ i

    pub install-other :
        (k : ℕ) (ws : List (Write A)) (d : Disk A) (x : ℕ)
        → IsInstall lh c ws
        → mem x lh ≡ false
        → (after_some k ws d).blocks x ≡ d.blocks x
    unfolding perform
    install-other zero ws d x i z = refl
    install-other (suc k) _ d x (IsInstall.done) z = refl
    install-other (suc k) _ d x (IsInstall.next b v ws m e i) z =
        install-other k ws _ x i z
        ∙ update_other d.blocks b x v (λ q. let h = (rw q at m) in absurd cc)

    -- A block with its new content keeps it.
    pub install-keeps :
        (k : ℕ) (ws : List (Write A)) (d : Disk A) (x : ℕ)
        → IsInstall lh c ws
        → d.blocks x ≡ c x
        → (after_some k ws d).blocks x ≡ c x
    unfolding perform
    install-keeps zero ws d x i z = z
    install-keeps (suc k) _ d x (IsInstall.done) z = z
    install-keeps (suc k) _ d x (IsInstall.next b v ws m e i) z =
        install-keeps k ws _ x i (elim (Bool-cases (b == x)) [
          | inl q ↦
              let same : b ≡ x = omega (arith, (==_iff b x).0 q) in
              update_here d.blocks b x v same ∙ e ∙ ap c same
          | inr q ↦ rw q z
        ])

    pub install-Slots :
        (start n k : ℕ) (ws : List (Write A)) (d : Disk A)
        → AllOutside start n lh
        → length lh ≤ n
        → IsInstall lh c ws
        → Slots start 0 lh d.blocks c
        → Slots start 0 lh (after_some k ws d).blocks c
    unfolding perform
    install-Slots start n zero ws d o l i s = s
    install-Slots start n (suc k) _ d o l (IsInstall.done) s = s
    install-Slots start n (suc k) _ d o l (IsInstall.next b v ws m e i) s =
        install-Slots start n k ws _ o l i
          (Slots-update start n 0 lh d.blocks c b v (mem-Outside start n b lh o m) (omega arith) s)

  pub after_all_lem :
      (ws : List (Write A)) (d : Disk A) → after_all ws d ≡ after_some (length ws) ws d
  after_all_lem [] d = refl
  after_all_lem (w ∷ ws) d = after_all_lem ws (perform w d)

  -- After all of `install_trans` the home blocks are the new ones.
  pub home_moves-installed :
      (start n tail : ℕ) (lh bs : List ℕ) (f c : ℕ → A) (d : Disk A) (x : ℕ)
      → AllOutside start n bs
      → tail + length bs ≤ n
      → Slots start tail bs f c
      → mem x bs ≡ true
      → (after_all (writes (home_moves start tail bs) f) d).blocks x ≡ c x
  unfolding perform home_moves
  home_moves-installed start n tail lh [] f c d x o l s m = absurd cc
  home_moves-installed start n tail lh (b ∷ bs) f c d x (o, os) l (s, r) m =
      let rest =
        Slots-update start n (tail + 1) bs f c b (f (start + tail + 1)) o (omega arith) r in
      let d1 = perform (Write.block b (f (start + tail + 1))) d in
      let ws = writes (home_moves start (tail + 1) bs) (update f b (f (start + tail + 1))) in
      elim (Bool-cases (mem x bs)) [
        | inl y ↦ home_moves-installed start n (tail + 1) lh bs _ c _ x os (omega arith) rest y
        | inr z ↦
            let i =
              home_moves-IsInstall start n (tail + 1) bs bs _ c os (omega arith) rest (λ a h. h) in
            ap (λ q. q.blocks x) (after_all_lem ws d1)
            ∙ install-keeps bs c (length ws) ws d1 x i (elim (Bool-cases (b == x)) [
              | inl q ↦
                  let same : b ≡ x = omega (arith, (==_iff b x).0 q) in
                  update_here d.blocks b x (f (start + tail + 1)) same ∙ s ∙ ap c same
              | inr q ↦ absurd (let h = (rw (q, z) at m) in cc)
            ])
      ]
