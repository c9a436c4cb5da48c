-- ===== src/Log/Crash.antt =====
-- Commits are atomic: after a crash at any point, recovery shows all of a transaction or nothing.
use os_212_assignment.Base.{
  ℕ, zero, suc, ◌+◌, ◌≤◌, ◌≡◌, refl, ap, ◌∙◌, sym, true, false, ◌⊎◌, inl, inr, List, [], ◌∷◌, ◌++◌,
  length, leb, if◌then◌else◌, arith, Bool-cases, if_same, le→leb, lt→leb_false,
}
use mathlib.Core.Path.{subst}
use os_212_assignment.Log.{
  Disk, Write, log_moves, home_moves, perform, after_some, after_all, cache_after, writes,
  commit_writes, recovery_writes, recovered,
}
use os_212_assignment.Log.Moves.{
  Outside, AllOutside, Slots, Agree, after_some-head, after_all-cache, log_moves-Outside,
  log_moves-Slots,
}
use os_212_assignment.Log.Install.{
  mem, home_moves-IsInstall, install-head, install-other, install-Slots, after_all_lem,
  home_moves-installed,
}

module _ {A : Type 0} where
  -- The disk after a crash in the middle of each of some recoveries, one after the other.
  abbrev pub crashes : ℕ → List ℕ → Disk A → Disk A
  crashes start [] d = d
  crashes start (j ∷ js) d = crashes start js (after_some j (recovery_writes start d) d)

  some_nil : (j : ℕ) (d : Disk A) → after_some j [] d ≡ d
  some_nil zero d = refl
  some_nil (suc j) d = refl

  after_all_append :
      (ws vs : List (Write A)) (d : Disk A) → after_all (ws ++ vs) d ≡ after_all vs (after_all ws d)
  after_all_append [] vs d = refl
  after_all_append (w ∷ ws) vs d = after_all_append ws vs (perform w d)

  Agree-refl : (bs : List ℕ) (c : ℕ → A) → Agree bs c c
  Agree-refl [] c = tt
  Agree-refl (b ∷ bs) c = (refl, Agree-refl bs c)

  length-log_moves :
      (start tail : ℕ) (bs : List ℕ) (c : ℕ → A)
      → length (writes (log_moves start tail bs) c) ≡ length bs
  unfolding log_moves
  length-log_moves start tail [] c = refl
  length-log_moves start tail (b ∷ bs) c = ap suc (length-log_moves start (tail + 1) bs _)

  -- Either the crash came within `ws`, or after it and within `vs`.
  data Split (k : ℕ) (ws vs : List (Write A)) (d e : Disk A) : Type 0 where
    early : k ≤ length ws → e ≡ after_some k ws d → Split k ws vs d e
    late :
        (j : ℕ)
        → k ≡ length ws + suc j
        → e ≡ after_some (suc j) vs (after_all ws d)
        → Split k ws vs d e

  Split_step :
      (k : ℕ) (w : Write A) (ws vs : List (Write A)) (d e : Disk A)
      → Split k ws vs (perform w d) e
      → Split (suc k) (w ∷ ws) vs d e
  Split_step k w ws vs d e (Split.early l q) = Split.early (omega arith) q
  Split_step k w ws vs d e (Split.late j l q) = Split.late j (omega arith) q

  split_some :
      (k : ℕ) (ws vs : List (Write A)) (d : Disk A) → Split k ws vs d (after_some k (ws ++ vs) d)
  split_some zero ws vs d = Split.early (omega arith) refl
  split_some (suc k) [] vs d = Split.late k (omega arith) refl
  split_some (suc k) (w ∷ ws) vs d = Split_step k w ws vs d _ (split_some k ws vs (perform w d))

  -- The header names no block, and the home blocks are as in `t`.
  pub record IsClean (start n : ℕ) (t : ℕ → A) (d : Disk A) : Type 0 where
    pub empty : d.head ≡ []
    pub home : (x : ℕ) → Outside start n x → d.blocks x ≡ t x

  -- The header names the blocks of the transaction, whose slots hold their new contents.
  record IsCommitted (start : ℕ) (lh : List ℕ) (c t : ℕ → A) (d : Disk A) : Type 0 where
    head : d.head ≡ lh
    slots : Slots start 0 lh d.blocks c
    home : (x : ℕ) → Outside start (length lh) x → mem x lh ≡ false → d.blocks x ≡ t x

  crash-IsClean :
      (start n j : ℕ) (t : ℕ → A) (d : Disk A)
      → IsClean start n t d
      → IsClean start n t (after_some j (recovery_writes start d) d)
  unfolding recovery_writes home_moves perform
  crash-IsClean start n zero t d w = w
  crash-IsClean start n (suc j) t d w =
      rw w.empty (rw (some_nil j (record d { head = [] })) record { empty = refl; home = w.home })

  recovered-IsClean :
      (start n : ℕ) (t : ℕ → A) (d : Disk A)
      → IsClean start n t d
      → IsClean start n t (recovered start d)
  unfolding recovered recovery_writes home_moves perform
  recovered-IsClean start n t d w = rw w.empty record { empty = refl; home = w.home }

  crashes-IsClean :
      (start n : ℕ) (js : List ℕ) (t : ℕ → A) (d : Disk A)
      → IsClean start n t d
      → IsClean start n t (crashes start js d)
  crashes-IsClean start n [] t d w = w
  crashes-IsClean start n (j ∷ js) t d w =
      crashes-IsClean start n js t _ (crash-IsClean start n j t d w)

  -- What the disk shows after the transaction.
  abbrev pub new_home : List ℕ → (ℕ → A) → (ℕ → A) → ℕ → A
  new_home lh c t x = if mem x lh then c x else t x

  module _ (start : ℕ) (lh : List ℕ) (c t : ℕ → A) (out : AllOutside start (length lh) lh) where
    install-IsCommitted :
        (k : ℕ) (f : ℕ → A) (d : Disk A)
        → Slots start 0 lh f c
        → IsCommitted start lh c t d
        → IsCommitted start lh c t (after_some k (writes (home_moves start 0 lh) f) d)
    install-IsCommitted k f d s w =
        let i = home_moves-IsInstall start (length lh) 0 lh lh f c out (omega arith) s (λ b e. e) in
        let ws = writes (home_moves start 0 lh) f in
        record {
          head = install-head lh c k ws d i ∙ w.head;
          slots = install-Slots lh c start (length lh) k ws d out (omega arith) i w.slots;
          home = λ x o z. install-other lh c k ws d x i z ∙ w.home x o z;
        }

    erase-IsClean :
        (j : ℕ) (f : ℕ → A) (d : Disk A)
        → Slots start 0 lh f c
        → IsCommitted start lh c t d
        → IsClean start (length lh) (new_home lh c t) (
            after_some
              (suc j)
              (Write.header [] ∷ [])
              (after_all (writes (home_moves start 0 lh) f) d))
    unfolding perform
    erase-IsClean j f d s w =
        let ws = writes (home_moves start 0 lh) f in
        rw (some_nil j (perform (Write.header []) (after_all ws d))) record {
          empty = refl;
          home = λ x o. elim (Bool-cases (mem x lh)) [
            | inl m ↦
                rw m (home_moves-installed start (length lh) 0 lh lh f c d x out (omega arith) s m)
            | inr z ↦
                let i =
                  home_moves-IsInstall start (length lh) 0 lh lh f c out (omega arith) s
                    (λ b e. e) in
                rw z (
                  ap (λ q. q.blocks x) (after_all_lem ws d)
                  ∙ install-other lh c (length ws) ws d x i z
                  ∙ w.home x o z)
          ];
        }

    -- A crash within `install_trans` or after it.
    AfterInstall : Disk A → Type 0
    AfterInstall e = IsCommitted start lh c t e ⊎ IsClean start (length lh) (new_home lh c t) e

    split-AfterInstall :
        (k : ℕ) (f : ℕ → A) (d e : Disk A)
        → Slots start 0 lh f c
        → IsCommitted start lh c t d
        → Split k (writes (home_moves start 0 lh) f) (Write.header [] ∷ []) d e
        → AfterInstall e
    unfolding AfterInstall
    split-AfterInstall k f d e s w (Split.early l q) =
        inl (subst (IsCommitted start lh c t) (sym q) (install-IsCommitted k f d s w))
    split-AfterInstall k f d e s w (Split.late j l q) =
        inr (subst (IsClean start (length lh) (new_home lh c t)) (sym q) (erase-IsClean j f d s w))

    clean-AfterInstall :
        (j : ℕ) (d : Disk A)
        → IsClean start (length lh) (new_home lh c t) d
        → AfterInstall (after_some j (recovery_writes start d) d)
    unfolding AfterInstall
    clean-AfterInstall j d w = inr (crash-IsClean start (length lh) j (new_home lh c t) d w)

    recovery_writes_lem :
        (d : Disk A)
        → d.head ≡ lh
        → recovery_writes start d
          ≡ writes (home_moves start 0 lh) d.blocks ++ (Write.header [] ∷ [])
    unfolding recovery_writes
    recovery_writes_lem d e =
        ap (λ h. writes (home_moves start 0 h) d.blocks ++ (Write.header [] ∷ [])) e

    crash-AfterInstall :
        (j : ℕ) (d : Disk A)
        → AfterInstall d
        → AfterInstall (after_some j (recovery_writes start d) d)
    unfolding AfterInstall
    crash-AfterInstall j d (inl w) =
        subst (λ ws. AfterInstall (after_some j ws d)) (sym (recovery_writes_lem d w.head))
          (split-AfterInstall j d.blocks d _ w.slots w
            (split_some j (writes (home_moves start 0 lh) d.blocks) (Write.header [] ∷ []) d))
    crash-AfterInstall j d (inr w) = clean-AfterInstall j d w

    crashes-AfterInstall :
        (js : List ℕ) (d : Disk A) → AfterInstall d → AfterInstall (crashes start js d)
    crashes-AfterInstall [] d w = w
    crashes-AfterInstall (j ∷ js) d w = crashes-AfterInstall js _ (crash-AfterInstall j d w)

    recovered-AfterInstall :
        (d : Disk A)
        → AfterInstall d
        → IsClean start (length lh) (new_home lh c t) (recovered start d)
    unfolding AfterInstall recovered
    recovered-AfterInstall d (inl w) =
        subst (λ ws. IsClean start (length lh) (new_home lh c t) (after_all ws d))
          (sym (recovery_writes_lem d w.head))
          (rw (after_all_append (writes (home_moves start 0 lh) d.blocks) (Write.header [] ∷ []) d)
            (erase-IsClean 0 d.blocks d w.slots w))
    recovered-AfterInstall d (inr w) = recovered-IsClean start (length lh) (new_home lh c t) d w

    -- The disk right after the header is written.
    header-IsCommitted :
        (d : Disk A)
        → IsClean start (length lh) t d
        → IsCommitted start lh c t
            (perform (Write.header lh) (after_all (writes (log_moves start 0 lh) c) d))
    unfolding perform
    header-IsCommitted d w =
        let ms = log_moves start 0 lh in
        record {
          head = refl;
          slots = log_moves-Slots start (length lh) 0 lh c c d out (omega arith) (Agree-refl lh c);
          home = λ x o z.
              ap (λ q. q.blocks x) (after_all_lem (writes ms c) d)
              ∙ log_moves-Outside start (length lh) (length (writes ms c)) 0 lh c d x o
                  (omega arith)
              ∙ w.home x o;
        }

    logged-Slots : Slots start 0 lh (cache_after (log_moves start 0 lh) c) c
    logged-Slots =
        subst (λ f. Slots start 0 lh f c) (after_all-cache (log_moves start 0 lh) c [])
          (log_moves-Slots start (length lh) 0 lh c c (record { blocks = c; head = [] }) out
            (omega arith) (Agree-refl lh c))

    split-recovered :
        (k : ℕ) (js : List ℕ) (d e : Disk A)
        → IsClean start (length lh) t d
        → Split k
            (writes (log_moves start 0 lh) c)
            (Write.header lh
              ∷ (writes (home_moves start 0 lh) (cache_after (log_moves start 0 lh) c)
                  ++ (Write.header [] ∷ [])))
            d
            e
        → IsClean start
            (length lh)
            (if leb k (length lh) then t else new_home lh c t)
            (recovered start (crashes start js e))
    split-recovered k js d e w (Split.early l q) =
        let ms = log_moves start 0 lh in
        let low : leb k (length lh) ≡ true =
          le→leb k (length lh) (omega (arith, l, length-log_moves start 0 lh c)) in
        let same : IsClean start (length lh) t e =
          subst (IsClean start (length lh) t) (sym q) record {
            empty = after_some-head k ms c d ∙ w.empty;
            home = λ x o.
                log_moves-Outside start (length lh) k 0 lh c d x o (omega arith) ∙ w.home x o;
          } in
        rw low
          (recovered-IsClean start (length lh) t _ (crashes-IsClean start (length lh) js t e same))
    split-recovered k js d e w (Split.late j l q) =
        let f = cache_after (log_moves start 0 lh) c in
        let d1 = perform (Write.header lh) (after_all (writes (log_moves start 0 lh) c) d) in
        let high : leb k (length lh) ≡ false =
          lt→leb_false k (length lh) (omega (arith, l, length-log_moves start 0 lh c)) in
        let after : AfterInstall e = subst AfterInstall (sym q) (
          split-AfterInstall j f d1 _ logged-Slots (header-IsCommitted d w)
            (split_some j (writes (home_moves start 0 lh) f) (Write.header [] ∷ []) d1)) in
        rw high (recovered-AfterInstall _ (crashes-AfterInstall js e after))

  -- Let the log be empty on disk and no block of the transaction a block of the log. After a crash
  -- that lets the first k writes of `commit` reach the disk, any number of crashes in the middle of
  -- recoveries, and a recovery that ends, the header is empty and every block outside the log has
  -- its old content if k is at most the number of blocks of the transaction. Otherwise the blocks of
  -- the transaction have their cached contents and all others their old ones.
  pub commit-IsClean :
      (start : ℕ) (lh : List ℕ) (c : ℕ → A) (d : Disk A) (k : ℕ) (js : List ℕ)
      → d.head ≡ []
      → AllOutside start (length lh) lh
      → IsClean start
          (length lh)
          (if leb k (length lh) then d.blocks else new_home lh c d.blocks)
          (recovered start (crashes start js (after_some k (commit_writes start lh c) d)))
  unfolding commit_writes
  commit-IsClean start [] c d k js e out = rw (some_nil k d) (
      subst (λ t. IsClean start 0 t (recovered start (crashes start js d)))
        (sym (if_same (leb k 0) d.blocks))
        (recovered-IsClean start 0 d.blocks _
          (crashes-IsClean start 0 js d.blocks d (record { empty = e; home = λ x o. refl }))))
  commit-IsClean start (b ∷ bs) c d k js e out =
      split-recovered start (b ∷ bs) c d.blocks out k js d _
        (record { empty = e; home = λ x o. refl }) (split_some k _ _ d)
