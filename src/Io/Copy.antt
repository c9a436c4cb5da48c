-- ===== src/Io/Copy.antt =====
-- kernel/fs.c: the copies between a block and the caller, where all addresses are good.
use os_212_assignment.Base.{
  ℕ, zero, suc, ◌+◌, ◌-◌, ◌≤◌, ◌<◌, ◌≡◌, ◌≢◌, ap, ◌∙◌, sym, ◌&&◌, ◌⊎◌, inl, inr, arith, ltb, leb,
  if◌then◌else◌, Option, some, Bool, true, fun_ext, Bool-cases,
}
use os_212_assignment.Kernel.{update}
use os_212_assignment.Io.{copy_in, copy_out}

-- A map with m bytes of b from o on.
abbrev pub patched : (ℕ → ℕ) → ℕ → ℕ → (ℕ → ℕ) → ℕ → ℕ
patched c o m b x = if leb o x && ltb x (o + m) then b (x - o) else c x

pub patched_in :
    (c : ℕ → ℕ) (o m : ℕ) (b : ℕ → ℕ) (x : ℕ) → o ≤ x → x < o + m → patched c o m b x ≡ b (x - o)
patched_in c o m b x l h = ground arith

pub patched_out :
    (c : ℕ → ℕ) (o m : ℕ) (b : ℕ → ℕ) (x : ℕ) → (x < o) ⊎ (o + m ≤ x) → patched c o m b x ≡ c x
patched_out c o m b x (inl l) = ground arith
patched_out c o m b x (inr l) = ground arith

here : (c : ℕ → ℕ) (o v x : ℕ) → o ≡ x → update c o v x ≡ v
here c o v x e = ground arith

away : (c : ℕ → ℕ) (o v x : ℕ) → o ≢ x → update c o v x ≡ c x
away c o v x e = ground arith

pub data Place (o m x : ℕ) : Type 0 where
  inside : o ≤ x → x < o + m → Place o m x
  outside : (x < o) ⊎ (o + m ≤ x) → Place o m x

pub place : (o m x : ℕ) → Place o m x
place o m x = elim (Bool-cases (leb o x && ltb x (o + m))) [
  | inl e ↦ inside (ground arith) (ground arith)
  | inr e ↦ outside (ground arith)
]

-- A first run of k bytes, and the run behind it.
pub patched_join :
    (c : ℕ → ℕ) (o k m : ℕ) (b : ℕ → ℕ) (x : ℕ)
    → patched (patched c o k b) (o + k) m (λ j. b (j + k)) x ≡ patched c o (k + m) b x
patched_join c o k m b x = elim (place (o + k) m x) [
  | inside l h ↦
      patched_in (patched c o k b) (o + k) m (λ j. b (j + k)) x l h
      ∙ ap b (omega arith)
      ∙ sym (patched_in c o (k + m) b x (omega arith) (omega arith))
  | outside q ↦ patched_out (patched c o k b) (o + k) m (λ j. b (j + k)) x q ∙ elim (place o k x) [
    | inside l h ↦ patched_in c o k b x l h ∙ sym (patched_in c o (k + m) b x l (omega arith))
    | outside r ↦ patched_out c o k b x r ∙ sym (patched_out c o (k + m) b x (omega arith))
  ]
]

patched_one : (c : ℕ → ℕ) (o : ℕ) (b : ℕ → ℕ) (x : ℕ) → update c o (b 0) x ≡ patched c o 1 b x
patched_one c o b x = elim (place o 1 x) [
  | inside l h ↦
      here c o (b 0) x (omega arith) ∙ ap b (omega arith) ∙ sym (patched_in c o 1 b x l h)
  | outside r ↦ away c o (b 0) x (omega arith) ∙ sym (patched_out c o 1 b x r)
]

-- A byte, and the run behind it.
patched_step :
    (c : ℕ → ℕ) (o m : ℕ) (b : ℕ → ℕ)
    → patched (update c o (b 0)) (o + 1) m (λ j. b (j + 1)) ≡ patched c o (suc m) b
patched_step c o m b =
    ap (λ f. patched f (o + 1) m (λ j. b (j + 1))) (fun_ext (patched_one c o b))
    ∙ fun_ext (patched_join c o 1 m b)
    ∙ ap (λ k. patched c o k b) (omega arith)

patched_nil : (c : ℕ → ℕ) (o : ℕ) (b : ℕ → ℕ) → c ≡ patched c o 0 b
patched_nil c o b = fun_ext (λ x. sym (patched_out c o 0 b x (omega arith)))

pub copy_in-patched :
    (m : ℕ) (user : ℕ → Option ℕ) (a : ℕ) (c : ℕ → ℕ) (o : ℕ) (b : ℕ → ℕ)
    → ((k : ℕ) → k < m → user (a + k) ≡ some (b k))
    → copy_in m user a c o ≡ (patched c o m b, true)
unfolding copy_in
copy_in-patched zero user a c o b h =
    ap (λ (f : ℕ → ℕ). let p : (ℕ → ℕ) × Bool = (f, true) in p) (patched_nil c o b)
copy_in-patched (suc m) user a c o b h =
    let e : user a ≡ some (b 0) = ap user (omega arith) ∙ h 0 (omega arith) in
    rw (e, copy_in)
      (copy_in-patched m user (a + 1) (update c o (b 0)) (o + 1) (λ j. b (j + 1))
          (λ k l. ap user (omega arith) ∙ h (k + 1) (omega arith))
        ∙ ap (λ (f : ℕ → ℕ). let p : (ℕ → ℕ) × Bool = (f, true) in p) (patched_step c o m b))

pub copy_out-patched :
    (m : ℕ) (good : ℕ → Bool) (c : ℕ → ℕ) (o a : ℕ) (mem : ℕ → ℕ)
    → ((k : ℕ) → k < m → good (a + k) ≡ true)
    → copy_out m good c o a mem ≡ (patched mem a m (λ k. c (o + k)), true)
unfolding copy_out
copy_out-patched zero good c o a mem h =
    ap (λ (f : ℕ → ℕ). let p : (ℕ → ℕ) × Bool = (f, true) in p) (patched_nil mem a (λ k. c (o + k)))
copy_out-patched (suc m) good c o a mem h =
    let e : good a ≡ true = ap good (omega arith) ∙ h 0 (omega arith) in
    let b = λ (k : ℕ). c (o + k) in
    let z : o ≡ o + 0 = omega arith in
    rw (e, copy_out)
      (copy_out-patched m good c (o + 1) (a + 1) (update mem a (c o))
          (λ k l. ap good (omega arith) ∙ h (k + 1) (omega arith))
        ∙ (λ i. (patched (update mem a (c (z i))) (a + 1) m (λ k. c (regroup k i)), true))
        ∙ ap (λ (f : ℕ → ℕ). let p : (ℕ → ℕ) × Bool = (f, true) in p) (patched_step mem a m b))
  where
    regroup : (k : ℕ) → o + 1 + k ≡ o + (k + 1)
    regroup k = omega arith
