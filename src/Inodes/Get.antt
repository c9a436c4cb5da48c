-- ===== src/Inodes/Get.antt =====
-- kernel/fs.c: iget names one entry of the table for each inode.
use os_212_assignment.Base.{
  zero, suc, ◌∙◌, ==_iff, ne_of_false, Bool-cases, inl, inr, ℕ, ◌<◌, ◌≡◌, ◌≢◌, sym, arith, Option,
  none, some, false, ap, ◌==◌, ◌+◌, refl,
}
use os_212_assignment.Kernel.{update}
use os_212_assignment.Fs.{Run, ok, panic, no_inodes, Inode}
use os_212_assignment.Inodes.{iget_loop, seen, iget, ninode, Table, holds, recycled, referenced}

-- No inode has two entries in use.
abbrev pub IsUnique : Table → Type 0
IsUnique tb =
    (i j : ℕ)
    → i < ninode
    → j < ninode
    → 0 < (tb i).ref
    → 0 < (tb j).ref
    → (tb i).inum ≡ (tb j).inum
    → i ≡ j

-- How iget ends: with the entry of the inode, with the first unused entry, or in a panic where all
-- entries are used by other inodes.
pub data GetEnds (inum : ℕ) (tb : Table) (r : Run (ℕ × Table)) : Type 0 where
  found :
      (i : ℕ)
      → i < ninode
      → 0 < (tb i).ref
      → (tb i).inum ≡ inum
      → r ≡ ok (i, update tb i (record (tb i) { ref = (tb i).ref + 1 }))
      → IsUnique (update tb i (record (tb i) { ref = (tb i).ref + 1 }))
      → GetEnds inum tb r
  new :
      (e : ℕ)
      → e < ninode
      → (tb e).ref ≡ 0
      → ((j : ℕ) → j < e → 0 < (tb j).ref)
      → ((j : ℕ) → j < ninode → 0 < (tb j).ref → (tb j).inum ≢ inum)
      → r ≡ ok (e, update tb e (record (tb e) { inum = inum; ref = 1; valid = false }))
      → IsUnique (update tb e (record (tb e) { inum = inum; ref = 1; valid = false }))
      → GetEnds inum tb r
  full :
      ((j : ℕ) → j < ninode → (0 < (tb j).ref) × ((tb j).inum ≢ inum))
      → r ≡ panic no_inodes
      → GetEnds inum tb r

-- What the loop knows of the first unused entry when it is at entry i.
abbrev FirstEmpty : Table → ℕ → Option ℕ → Type 0
FirstEmpty tb i none = (j : ℕ) → j < i → 0 < (tb j).ref
FirstEmpty tb i (some e) = (e < i) × ((tb e).ref ≡ 0) × ((j : ℕ) → j < e → 0 < (tb j).ref)

-- The entries of the table after a change of one of them.
entry_same : (tb : Table) (e j : ℕ) (ip : Inode) → e ≢ j → update tb e ip j ≡ tb j
entry_same tb e j ip h = ground arith

entry_self : (tb : Table) (e : ℕ) (ip : Inode) → update tb e ip e ≡ ip
entry_self tb e ip = ground arith

not_held : (inum : ℕ) (ip : Inode) → holds inum ip ≡ false → 0 < ip.ref → ip.inum ≢ inum
not_held inum ip h p = ground arith

module _ (inum : ℕ) (tb : Table) (u : IsUnique tb) where
  referenced_ref :
      (i j : ℕ) → 0 < (tb i).ref → 0 < (update tb i (referenced (tb i)) j).ref → 0 < (tb j).ref
  referenced_ref i j p h = ground arith

  referenced_inum : (i j : ℕ) → (update tb i (referenced (tb i)) j).inum ≡ (tb j).inum
  referenced_inum i j = ground arith

  IsUnique-referenced : (i : ℕ) → 0 < (tb i).ref → IsUnique (update tb i (referenced (tb i)))
  IsUnique-referenced i p j k c d h l e =
      u j k c d (referenced_ref i j p h) (referenced_ref i k p l)
        (sym (referenced_inum i j) ∙ e ∙ referenced_inum i k)

  module _ (e : ℕ) (n : (j : ℕ) → j < ninode → holds inum (tb j) ≡ false) where
    abbrev made : Table
    made = update tb e (recycled inum (tb e))

    -- No other entry has the number of the new one.
    made_ne : (j : ℕ) → j < ninode → e ≢ j → 0 < (made j).ref → (made j).inum ≢ inum
    made_ne j c h p q =
        let s = entry_same tb e j (recycled inum (tb e)) h in
        not_held inum (tb j) (n j c) (rw s at p) (ap (λ (x : Inode). x.inum) (sym s) ∙ q)

    made_inum : (made e).inum ≡ inum
    made_inum = ap (λ (x : Inode). x.inum) (entry_self tb e (recycled inum (tb e)))

    IsUnique-recycled : IsUnique made
    IsUnique-recycled j k c d p q same = elim (Bool-cases (e == j)) [
      | inl a ↦ elim (Bool-cases (e == k)) [
        | inl b ↦ ground arith
        | inr b ↦
            let t : e ≡ j = (==_iff e j).0 a in
            absurd (
              made_ne k d (ne_of_false e k b) q
                (sym same ∙ ap (λ (x : ℕ). (made x).inum) (sym t) ∙ made_inum))
      ]
      | inr a ↦ elim (Bool-cases (e == k)) [
        | inl b ↦
            let t : e ≡ k = (==_iff e k).0 b in
            absurd (
              made_ne j c (ne_of_false e j a) p
                (same ∙ ap (λ (x : ℕ). (made x).inum) (sym t) ∙ made_inum))
        | inr b ↦
            let v = entry_same tb e j (recycled inum (tb e)) (ne_of_false e j a) in
            let w = entry_same tb e k (recycled inum (tb e)) (ne_of_false e k b) in
            u j k c d (rw v at p) (rw w at q)
              (ap (λ (x : Inode). x.inum) (sym v) ∙ same ∙ ap (λ (x : Inode). x.inum) w)
      ]
    ]

  next_empty : (i : ℕ) (o : Option ℕ) → FirstEmpty tb i o → FirstEmpty tb (i + 1) (seen o i (tb i))
  next_empty i none h = elim (Bool-cases ((tb i).ref == 0)) [
    | inl z ↦ rw z (omega arith, (==_iff (tb i).ref 0).0 z, h)
    | inr z ↦ rw z (λ j l. elim (Bool-cases (j == i)) [
      | inl e ↦
          let q : j ≡ i = (==_iff j i).0 e in
          let p = ne_of_false (tb i).ref 0 z in rw q (omega arith)
      | inr e ↦ let q = ne_of_false j i e in h j (omega arith)
    ])
  ]
  next_empty i (some e) h = (omega arith, h.1, h.2)

  next_missed :
      (i : ℕ)
      → ((j : ℕ) → j < i → holds inum (tb j) ≡ false)
      → holds inum (tb i) ≡ false
      → (j : ℕ) → j < i + 1
      → holds inum (tb j) ≡ false
  next_missed i h z j l = elim (Bool-cases (j == i)) [
    | inl e ↦ let q : j ≡ i = (==_iff j i).0 e in ap (λ (x : ℕ). holds inum (tb x)) q ∙ z
    | inr e ↦ let q = ne_of_false j i e in h j (omega arith)
  ]

  iget_loop_lem :
      (r i : ℕ) (o : Option ℕ)
      → i + r ≡ ninode
      → FirstEmpty tb i o
      → ((j : ℕ) → j < i → holds inum (tb j) ≡ false)
      → GetEnds inum tb (iget_loop r i o inum tb)
  unfolding iget_loop
  iget_loop_lem zero i none e f h =
      full
        (λ j l. (f j (omega arith), not_held inum (tb j) (h j (omega arith)) (f j (omega arith))))
        refl
  iget_loop_lem zero i (some x) e f h =
      let n = λ (j : ℕ) (l : j < ninode). h j (omega arith) in
      new x (let q = f.0 in omega arith) f.1 f.2 (λ j l. not_held inum (tb j) (n j l)) refl
        (IsUnique-recycled x n)
  iget_loop_lem (suc r) i o e f h = elim (Bool-cases (holds inum (tb i))) [
    | inl yes_ ↦
        let p : 0 < (tb i).ref = ground arith in
        found i (omega arith) p (ground arith) (rw yes_ refl) (IsUnique-referenced i p)
    | inr no_ ↦ rw no_ (
        iget_loop_lem r (i + 1) (seen o i (tb i)) (omega arith) (next_empty i o f)
          (next_missed i h no_))
  ]

-- In a table where no inode has two entries in use, iget ends with the entry of the inode and one
-- reference more, or, where it has none, with the first unused entry, which gets the inode, one
-- reference and is not valid, or in a panic where all entries are used by others; no other entry
-- is changed, and again no inode has two entries.
pub iget-GetEnds : (inum : ℕ) (tb : Table) → IsUnique tb → GetEnds inum tb (iget inum tb)
unfolding iget
iget-GetEnds inum tb u =
    iget_loop_lem inum tb u ninode 0 none (omega arith) (λ j l. absurd (omega arith))
      (λ j l. absurd (omega arith))
