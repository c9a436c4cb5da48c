-- ===== src/Pipe/Order.antt =====
-- A pipe is a queue of bytes: what a turn of `pipewrite` and of `piperead` does to its contents.
use os_212_assignment.Base.{
  ℕ, zero, suc, ◌+◌, ◌<◌, ◌≡◌, ◌≢◌, refl, ap, ◌∙◌, sym, List, [], ◌∷◌, ◌++◌, arith, ◌==◌, ◌||◌,
  Bool, true, false, ◌⊎◌, inl, inr, Option, none, some, Bool-cases, Option-cases, length,
  if◌then◌else◌, append-nil, append_assoc,
}
use mathlib.Core.Path.{subst}
use os_212_assignment.Base.Int.{ℤ, pos, minus_one}
use os_212_assignment.Pipe.{
  Pipe, Outcome, Turn, ended, moved, is_full, is_empty, put, next_byte, taken, write_loop,
  pipewrite, read_loop, piperead, rounds,
}
use os_212_assignment.Pipe.Window.{
  size, contents, IsPipe, put-IsPipe, taken-IsPipe, contents-put, contents-taken, is_full_iff,
  size_of_room, size_of_empty, size_of_some,
}

-- The user's memory holds these bytes from address `a` on.
abbrev pub Holds : (ℕ → Option ℕ) → ℕ → List ℕ → Type 0
Holds user a [] = Unit {0}
Holds user a (ch ∷ bs) = (user a ≡ some ch) × Holds user (a + 1) bs

-- Why a turn of `pipewrite` for `n` bytes ends at byte `i` the way it does.
pub data WriteEnds (user : ℕ → Option ℕ) (killed : ℕ → Bool) (addr n : ℕ) (pi : Pipe)
    : ℕ → Outcome → Type 0 where
  all : WriteEnds user killed addr n pi n (Outcome.returns (pos n))
  bad_address :
      (i : ℕ) → user (addr + i) ≡ none → WriteEnds user killed addr n pi i (Outcome.returns (pos i))
  no_reader :
      (i : ℕ)
      → ((pi.readopen == 0) || killed i) ≡ true
      → WriteEnds user killed addr n pi i (Outcome.returns minus_one)
  full :
      (i : ℕ)
      → i < n
      → size pi ≡ 512
      → ((pi.readopen == 0) || killed i) ≡ false
      → WriteEnds user killed addr n pi i (Outcome.sleeps i)

pub record Written (user : ℕ → Option ℕ) (killed : ℕ → Bool) (addr n i : ℕ) (pi : Pipe) (t : Turn)
    : Type 0 where
  pub well : IsPipe t.pipe
  pub from_user : Holds user (addr + i) t.bytes
  pub behind : contents t.pipe ≡ contents pi ++ t.bytes
  pub end_ : WriteEnds user killed addr n t.pipe (i + length t.bytes) t.outcome

module _ (user : ℕ → Option ℕ) (killed : ℕ → Bool) (addr n : ℕ) where
  none-Written :
      (i : ℕ) (pi : Pipe) (o : Outcome)
      → IsPipe pi
      → WriteEnds user killed addr n pi i o
      → Written user killed addr n i pi (ended o pi)
  none-Written i pi o w e = record {
    well = w;
    from_user = tt;
    behind = sym (append-nil (contents pi));
    end_ = subst (λ j. WriteEnds user killed addr n pi j o) (omega arith) e;
  }

  more-Written :
      (i : ℕ) (pi : Pipe) (ch : ℕ) (t : Turn)
      → IsPipe pi
      → size pi < 512
      → user (addr + i) ≡ some ch
      → Written user killed addr n (i + 1) (put ch pi) t
      → Written user killed addr n i pi (moved ch t)
  more-Written i pi ch t w l e r = record {
    well = r.well;
    from_user = (e, subst (λ a. Holds user a t.bytes) (omega arith) r.from_user);
    behind =
        r.behind
        ∙ ap (λ bs. bs ++ t.bytes) (contents-put pi ch w l)
        ∙ append_assoc (contents pi) (ch ∷ []) t.bytes;
    end_ = subst (λ j. WriteEnds user killed addr n t.pipe j t.outcome) (omega arith) r.end_;
  }

  pub loop-Written :
      (left i : ℕ) (pi : Pipe)
      → IsPipe pi
      → i + left ≡ n
      → Written user killed addr n i pi (write_loop user killed left addr i pi)
  unfolding write_loop
  loop-Written zero i pi w e =
      subst (λ j. Written user killed addr n j pi (ended (Outcome.returns (pos j)) pi))
        (omega arith) (none-Written n pi (Outcome.returns (pos n)) w WriteEnds.all)
  loop-Written (suc left) i pi w e = elim (Bool-cases ((pi.readopen == 0) || killed i)) [
    | inl c ↦
        rw (c, write_loop)
          (none-Written i pi (Outcome.returns minus_one) w (WriteEnds.no_reader i c))
    | inr o ↦
        rw (o, write_loop)
          (elim (Bool-cases (is_full pi)) [
            | inl f ↦ rw f (
                none-Written i pi (Outcome.sleeps i) w
                  (WriteEnds.full i (omega arith) (is_full_iff pi w f) o))
            | inr r ↦ rw r (elim (Option-cases (user (addr + i))) [
              | inl u ↦
                  rw u (none-Written i pi (Outcome.returns (pos i)) w (WriteEnds.bad_address i u))
              | inr (ch, u) ↦
                  let l = size_of_room pi w r in
                  rw u (
                    more-Written i pi ch _ w l u
                      (loop-Written left (i + 1) (put ch pi) (put-IsPipe pi ch w l) (omega arith)))
            ])
          ])
  ]

-- A turn of `pipewrite(pi, addr, n)` on a well-formed pipe keeps it well-formed and puts a run of
-- the user's bytes from `addr` on behind the bytes in the pipe. It returns n after all of them,
-- the number of bytes put in where `copyin` fails, -1 where the read end is closed or the process
-- killed, and sleeps only on a pipe with 512 bytes whose read end is open.
pipewrite-Written :
    (user : ℕ → Option ℕ) (killed : ℕ → Bool) (pi : Pipe) (addr : ℕ) (n : ℤ)
    → IsPipe pi
    → Written user killed addr (rounds n) 0 pi (pipewrite user killed pi addr n)
unfolding pipewrite
pipewrite-Written user killed pi addr n w =
    loop-Written user killed addr (rounds n) (rounds n) 0 pi w (omega arith)

-- Why the copying of `piperead` for `n` bytes ends after `i` of them; `lost` are the bytes that
-- have left the pipe without reaching the user.
pub data ReadEnds (writable : ℕ → Bool) (addr n : ℕ) (pi : Pipe) : ℕ → List ℕ → Type 0 where
  all : ReadEnds writable addr n pi n []
  drained : (i : ℕ) → contents pi ≡ [] → ReadEnds writable addr n pi i []
  bad_address : (i ch : ℕ) → writable (addr + i) ≡ false → ReadEnds writable addr n pi i (ch ∷ [])

pub record Copied (writable : ℕ → Bool) (addr n i : ℕ) (pi : Pipe) (t : Turn) : Type 0 where
  pub well : IsPipe t.pipe
  pub lost : List ℕ
  pub in_order : contents pi ≡ t.bytes ++ (lost ++ contents t.pipe)
  pub count : t.outcome ≡ Outcome.returns (pos (i + length t.bytes))
  pub end_ : ReadEnds writable addr n t.pipe (i + length t.bytes) lost

module _ (writable : ℕ → Bool) (killed : Bool) (addr n : ℕ) where
  none-Copied :
      (i : ℕ) (pi : Pipe)
      → IsPipe pi
      → ReadEnds writable addr n pi i []
      → Copied writable addr n i pi (ended (Outcome.returns (pos i)) pi)
  none-Copied i pi w e = record {
    well = w;
    lost = [];
    in_order = refl;
    count = ap (λ j. Outcome.returns (pos j)) (omega arith);
    end_ = subst (λ j. ReadEnds writable addr n pi j []) (omega arith) e;
  }

  lost-Copied :
      (i : ℕ) (pi : Pipe)
      → IsPipe pi
      → 0 < size pi
      → writable (addr + i) ≡ false
      → Copied writable addr n i pi (ended (Outcome.returns (pos i)) (taken pi))
  lost-Copied i pi w l e = record {
    well = taken-IsPipe pi w l;
    lost = next_byte pi ∷ [];
    in_order = contents-taken pi w l;
    count = ap (λ j. Outcome.returns (pos j)) (omega arith);
    end_ =
        subst (λ j. ReadEnds writable addr n (taken pi) j (next_byte pi ∷ [])) (omega arith)
          (ReadEnds.bad_address i (next_byte pi) e);
  }

  more-Copied :
      (i : ℕ) (pi : Pipe) (t : Turn)
      → IsPipe pi
      → 0 < size pi
      → Copied writable addr n (i + 1) (taken pi) t
      → Copied writable addr n i pi (moved (next_byte pi) t)
  more-Copied i pi t w l r = record {
    well = r.well;
    lost = r.lost;
    in_order = contents-taken pi w l ∙ ap (λ bs. next_byte pi ∷ bs) r.in_order;
    count = r.count ∙ ap (λ j. Outcome.returns (pos j)) (omega arith);
    end_ = subst (λ j. ReadEnds writable addr n t.pipe j r.lost) (omega arith) r.end_;
  }

  contents_of_empty : (pi : Pipe) → IsPipe pi → is_empty pi ≡ true → contents pi ≡ []
  contents_of_empty pi w e = rw (size_of_empty pi w e) refl

  loop-Copied :
      (left i : ℕ) (pi : Pipe)
      → IsPipe pi
      → i + left ≡ n
      → Copied writable addr n i pi (read_loop writable killed left addr i pi)
  unfolding read_loop
  loop-Copied zero i pi w e =
      subst (λ j. Copied writable addr n j pi (ended (Outcome.returns (pos j)) pi)) (omega arith)
        (none-Copied n pi w ReadEnds.all)
  loop-Copied (suc left) i pi w e = elim (Bool-cases (is_empty pi)) [
    | inl z ↦ rw (z, read_loop) (none-Copied i pi w (ReadEnds.drained i (contents_of_empty pi w z)))
    | inr s ↦
        let l = size_of_some pi w s in
        rw (s, read_loop)
          (elim (Bool-cases (writable (addr + i))) [
            | inl u ↦ rw u (
                more-Copied i pi _ w l
                  (loop-Copied left (i + 1) (taken pi) (taken-IsPipe pi w l) (omega arith)))
            | inr u ↦ rw u (lost-Copied i pi w l u)
          ])
  ]

contents_of_some : (pi : Pipe) → IsPipe pi → is_empty pi ≡ false → contents pi ≢ []
contents_of_some pi w s e = let c = sym e ∙ contents-taken pi w (size_of_some pi w s) in cc

-- What a turn of `piperead(pi, addr, n)` is: a sleep or a -1 on an empty pipe whose write end is
-- open, and a run of the copying loop otherwise.
pub data ReadTurn (writable : ℕ → Bool) (killed : Bool) (addr n : ℕ) (pi : Pipe)
    : Turn → Type 0 where
  asleep :
      contents pi ≡ []
      → (pi.writeopen == 0) ≡ false
      → killed ≡ false
      → ReadTurn writable killed addr n pi (ended (Outcome.sleeps 0) pi)
  gives_up :
      contents pi ≡ []
      → (pi.writeopen == 0) ≡ false
      → killed ≡ true
      → ReadTurn writable killed addr n pi (ended (Outcome.returns minus_one) pi)
  copies :
      (t : Turn)
      → (contents pi ≢ []) ⊎ ((pi.writeopen == 0) ≡ true)
      → Copied writable addr n 0 pi t
      → ReadTurn writable killed addr n pi t

waiting_turn :
    (writable : ℕ → Bool) (killed : Bool) (addr n : ℕ) (pi : Pipe)
    → contents pi ≡ []
    → (pi.writeopen == 0) ≡ false
    → ReadTurn writable killed addr n pi
        (if killed then ended (Outcome.returns minus_one) pi else ended (Outcome.sleeps 0) pi)
waiting_turn writable true addr n pi e o = ReadTurn.gives_up e o refl
waiting_turn writable false addr n pi e o = ReadTurn.asleep e o refl

-- A turn of `piperead(pi, addr, n)` on a well-formed pipe: if it is empty and its write end is
-- open, the turn changes nothing and ends in -1 for a killed process and asleep for any other.
-- Otherwise it takes bytes from the front, in order, and returns how many of them reached the
-- user: n, or fewer after which the pipe is empty, or those before an address where `copyout`
-- fails, in which case one more byte has left the pipe.
pub piperead-ReadTurn :
    (writable : ℕ → Bool) (killed : Bool) (pi : Pipe) (addr : ℕ) (n : ℤ)
    → IsPipe pi
    → ReadTurn writable killed addr (rounds n) pi (piperead writable killed pi addr n)
unfolding piperead
piperead-ReadTurn writable killed pi addr n w =
    let run = loop-Copied writable killed addr (rounds n) (rounds n) 0 pi w (omega arith) in
    elim (Bool-cases (is_empty pi)) [
      | inl z ↦
          let none = contents_of_empty writable killed addr (rounds n) pi w z in
          elim (Bool-cases (pi.writeopen == 0)) [
            | inl c ↦ rw (z, c) (ReadTurn.copies _ (inr c) run)
            | inr o ↦ rw (z, o) (waiting_turn writable killed addr (rounds n) pi none o)
          ]
      | inr s ↦ rw s (ReadTurn.copies _ (inl (contents_of_some pi w s)) run)
    ]
