-- ===== src/Log/Moves.antt =====
-- What the writes of `write_log` do to the disk, all of them or some.
use os_212_assignment.Base.{
  ℕ, zero, suc, ◌+◌, ◌≤◌, ◌<◌, ◌≡◌, ◌≢◌, refl, ◌∙◌, ◌⊎◌, List, [], ◌∷◌, length, arith,
}
use os_212_assignment.Kernel.{update}
use os_212_assignment.Log.{
  Disk, Move, log_moves, perform, after_some, after_all, cache_after, writes,
}

-- Not a block of the log whose header is block `start` and which has `n` slots in use.
abbrev pub Outside : ℕ → ℕ → ℕ → Type 0
Outside start n x = (x < start) ⊎ (start + n < x)

abbrev pub AllOutside : ℕ → ℕ → List ℕ → Type 0
AllOutside start n [] = Unit {0}
AllOutside start n (b ∷ bs) = Outside start n b × AllOutside start n bs

module _ {A : Type 0} where
  pub update_here : (f : ℕ → A) (i j : ℕ) (v : A) → i ≡ j → update f i v j ≡ v
  update_here f i j v e = ground arith

  pub update_other : (f : ℕ → A) (i j : ℕ) (v : A) → i ≢ j → update f i v j ≡ f j
  update_other f i j v e = ground arith

  -- Slot `tail` of the log holds the first of the blocks, as `c` has it, and so on.
  abbrev pub Slots : ℕ → ℕ → List ℕ → (ℕ → A) → (ℕ → A) → Type 0
  Slots start tail [] f c = Unit {0}
  Slots start tail (b ∷ bs) f c = (f (start + tail + 1) ≡ c b) × Slots start (tail + 1) bs f c

  abbrev pub Agree : List ℕ → (ℕ → A) → (ℕ → A) → Type 0
  Agree [] e c = Unit {0}
  Agree (b ∷ bs) e c = (e b ≡ c b) × Agree bs e c

  -- The writes of moves are blocks, and the last of them leave disk and cache alike.
  pub after_some-head :
      (k : ℕ) (ms : List Move) (e : ℕ → A) (d : Disk A)
      → (after_some k (writes ms e) d).head ≡ d.head
  unfolding perform
  after_some-head zero ms e d = refl
  after_some-head (suc k) [] e d = refl
  after_some-head (suc k) (m ∷ ms) e d = after_some-head k ms _ _

  pub after_all-head :
      (ms : List Move) (e : ℕ → A) (d : Disk A) → (after_all (writes ms e) d).head ≡ d.head
  unfolding perform
  after_all-head [] e d = refl
  after_all-head (m ∷ ms) e d = after_all-head ms _ _

  pub after_all-cache :
      (ms : List Move) (e : ℕ → A) (h : List ℕ)
      → (after_all (writes ms e) (record { blocks = e; head = h })).blocks ≡ cache_after ms e
  unfolding perform
  after_all-cache [] e h = refl
  after_all-cache (m ∷ ms) e h = after_all-cache ms _ h

  -- `write_log` leaves every block outside the log alone, however far it gets.
  pub log_moves-Outside :
      (start n k tail : ℕ) (bs : List ℕ) (e : ℕ → A) (d : Disk A) (x : ℕ)
      → Outside start n x
      → tail + length bs ≤ n
      → (after_some k (writes (log_moves start tail bs) e) d).blocks x ≡ d.blocks x
  unfolding perform log_moves
  log_moves-Outside start n zero tail bs e d x o l = refl
  log_moves-Outside start n (suc k) tail [] e d x o l = refl
  log_moves-Outside start n (suc k) tail (b ∷ bs) e d x o l =
      log_moves-Outside start n k (tail + 1) bs _ _ x o (omega arith)
      ∙ update_other d.blocks (start + tail + 1) x (e b) (λ q. omega arith)

  log_moves-below :
      (start tail : ℕ) (bs : List ℕ) (e : ℕ → A) (d : Disk A) (y : ℕ)
      → y ≤ start + tail
      → (after_all (writes (log_moves start tail bs) e) d).blocks y ≡ d.blocks y
  unfolding perform log_moves
  log_moves-below start tail [] e d y l = refl
  log_moves-below start tail (b ∷ bs) e d y l =
      log_moves-below start (tail + 1) bs _ _ y (omega arith)
      ∙ update_other d.blocks (start + tail + 1) y (e b) (λ q. omega arith)

  Agree-update :
      (start n y : ℕ) (bs : List ℕ) (e c : ℕ → A) (v : A)
      → AllOutside start n bs
      → start ≤ y
      → y ≤ start + n
      → Agree bs e c
      → Agree bs (update e y v) c
  Agree-update start n y [] e c v o l h a = tt
  Agree-update start n y (b ∷ bs) e c v (o, os) l h (a, r) =
      (update_other e y b v (λ q. omega arith) ∙ a, Agree-update start n y bs e c v os l h r)

  -- After all of `write_log` the slots hold the cached blocks.
  pub log_moves-Slots :
      (start n tail : ℕ) (bs : List ℕ) (e c : ℕ → A) (d : Disk A)
      → AllOutside start n bs
      → tail + length bs ≤ n
      → Agree bs e c
      → Slots start tail bs (after_all (writes (log_moves start tail bs) e) d).blocks c
  unfolding perform log_moves
  log_moves-Slots start n tail [] e c d o l a = tt
  log_moves-Slots start n tail (b ∷ bs) e c d (o, os) l (a, r) = (
    log_moves-below start (tail + 1) bs _ _ (start + tail + 1) (omega arith)
        ∙ update_here d.blocks (start + tail + 1) (start + tail + 1) (e b) refl
        ∙ a,
    log_moves-Slots start n (tail + 1) bs _ c _ os (omega arith)
        (Agree-update start n (start + tail + 1) bs e c _ os (omega arith) (omega arith) r),
  )
