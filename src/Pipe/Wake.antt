-- ===== src/Pipe/Wake.antt =====
-- The sleeping and waking of the users of a pipe: no wakeup is lost, and there is no deadlock.
use os_212_assignment.Base.{
  ℕ, zero, suc, ◌+◌, ◌≡◌, ◌≢◌, refl, sym, [], arith, ◌==◌, ◌||◌, ◌&&◌, Bool, true, false, ◌⊎◌, inl,
  inr, Option, some, Bool-cases, Option-cases,
}
use mathlib.Core.Path.{subst}
use os_212_assignment.Base.Int.{ℤ, pos, negsuc, minus_one}
use os_212_assignment.Pipe.{
  Pipe, Chan, Turn, Outcome, opened, ended, put, is_full, write_loop, rounds, closed_end,
  write_turn, read_turn, after_write, after_read, pipeclose,
}
use os_212_assignment.Pipe.Window.{size, contents, IsPipe, size_of_room, is_full_iff, window_nil}
use os_212_assignment.Pipe.Order.{WriteEnds, ReadTurn, loop-Written, piperead-ReadTurn}
use os_212_assignment.Pipe.Fifo.{closed_same}

-- Turns in which a process is killed at most before it starts, wake-ups by `kill`, and closes.
pub data Reach : Chan → Type 0 where
  start : (d : ℕ → ℕ) → Reach (record { pipe = opened d; readers = 0; writers = 0 })
  write :
      {c : Chan} (user : ℕ → Option ℕ) (killed : Bool) (left addr i : ℕ)
      → Reach c
      → Reach (write_turn user (λ j. killed) left addr i c)
  read :
      {c : Chan} (writable : ℕ → Bool) (killed : Bool) (addr : ℕ) (n : ℤ)
      → Reach c
      → Reach (read_turn writable killed addr n c)
  kill_reader : {c : Chan} (r : ℕ) → Reach c → c.readers ≡ suc r → Reach (record c { readers = r })
  kill_writer : {c : Chan} (w : ℕ) → Reach c → c.writers ≡ suc w → Reach (record c { writers = w })
  close : {c d : Chan} (writable : Bool) → Reach c → pipeclose writable c ≡ some d → Reach d

-- Who sleeps has nothing to do: a reader only on an empty pipe that can still be written to, a
-- writer only on a full one that can still be read.
pub record IsQuiet (c : Chan) : Type 0 where
  pub well : IsPipe c.pipe
  pub wait_read : (c.readers ≡ 0) ⊎ ((size c.pipe ≡ 0) × ((c.pipe.writeopen == 0) ≡ false))
  pub wait_write : (c.writers ≡ 0) ⊎ ((size c.pipe ≡ 512) × ((c.pipe.readopen == 0) ≡ false))

or_left : (a b : Bool) → (a || b) ≡ false → a ≡ false
or_left false b e = refl
or_left true b e = cc

-- `pipewrite` leaves the ends of the pipe as they are.
write-ends :
    (user : ℕ → Option ℕ) (killed : Bool) (left addr i : ℕ) (pi : Pipe)
    → (write_loop user (λ j. killed) left addr i pi).pipe.readopen ≡ pi.readopen
unfolding write_loop
write-ends user killed zero addr i pi = refl
write-ends user killed (suc left) addr i pi = elim (Bool-cases ((pi.readopen == 0) || killed)) [
  | inl c ↦ rw (c, write_loop) refl
  | inr o ↦
      rw (o, write_loop)
        (elim (Bool-cases (is_full pi)) [
          | inl f ↦ rw f refl
          | inr r ↦ rw r (elim (Option-cases (user (addr + i))) [
            | inl u ↦ rw u refl
            | inr (ch, u) ↦ rw u (write-ends user killed left addr (i + 1) (put ch pi))
          ])
        ])
]

-- A turn that finds the read end closed, its process killed or the pipe full moves no byte.
data Blocked (i : ℕ) (pi : Pipe) : Turn → Type 0 where
  stopped : (o : ℤ) → Blocked i pi (ended (Outcome.returns o) pi)
  waits : size pi ≡ 512 → (pi.readopen == 0) ≡ false → Blocked i pi (ended (Outcome.sleeps i) pi)

closed-Blocked :
    (user : ℕ → Option ℕ) (killed : Bool) (left addr i : ℕ) (pi : Pipe)
    → ((pi.readopen == 0) || killed) ≡ true
    → Blocked i pi (write_loop user (λ j. killed) left addr i pi)
unfolding write_loop
closed-Blocked user killed zero addr i pi e = Blocked.stopped (pos i)
closed-Blocked user killed (suc left) addr i pi e = rw (e, write_loop) (Blocked.stopped minus_one)

full-Blocked :
    (user : ℕ → Option ℕ) (killed : Bool) (left addr i : ℕ) (pi : Pipe)
    → IsPipe pi
    → ((pi.readopen == 0) || killed) ≡ false
    → is_full pi ≡ true
    → Blocked i pi (write_loop user (λ j. killed) left addr i pi)
unfolding write_loop
full-Blocked user killed zero addr i pi w e f = Blocked.stopped (pos i)
full-Blocked user killed (suc left) addr i pi w e f =
    rw (e, write_loop)
      (rw f (Blocked.waits (is_full_iff pi w f) (or_left (pi.readopen == 0) killed e)))

Blocked-IsQuiet :
    (c : Chan) (i : ℕ) (t : Turn)
    → IsQuiet c
    → Blocked i c.pipe t
    → IsQuiet (after_write t.outcome t.pipe c)
unfolding after_write
Blocked-IsQuiet c i _ q (Blocked.stopped (pos n)) = record {
  well = q.well;
  wait_read = inl refl;
  wait_write = q.wait_write;
}
Blocked-IsQuiet c i _ q (Blocked.stopped (negsuc n)) = record {
  well = q.well;
  wait_read = q.wait_read;
  wait_write = q.wait_write;
}
Blocked-IsQuiet c i _ q (Blocked.waits f o) = record {
  well = q.well;
  wait_read = inl refl;
  wait_write = inr (f, o);
}

-- A turn that starts with an open pipe, a live process and no writer asleep.
open-IsQuiet :
    (user : ℕ → Option ℕ) (killed : Bool) (addr n j : ℕ) (c : Chan) (o : Outcome) (pi : Pipe)
    → ((c.pipe.readopen == 0) || killed) ≡ false
    → pi.readopen ≡ c.pipe.readopen
    → IsPipe pi
    → c.writers ≡ 0
    → WriteEnds user (λ j. killed) addr n pi j o
    → IsQuiet (after_write o pi c)
unfolding after_write
open-IsQuiet user killed addr n _ c _ pi e r w z (WriteEnds.all) = record {
  well = w;
  wait_read = inl refl;
  wait_write = inl z;
}
open-IsQuiet user killed addr n _ c _ pi e r w z (WriteEnds.bad_address i u) = record {
  well = w;
  wait_read = inl refl;
  wait_write = inl z;
}
open-IsQuiet user killed addr n _ c _ pi e r w z (WriteEnds.no_reader i u) =
    let same : ((c.pipe.readopen == 0) || killed) ≡ true = rw (sym r) u in absurd cc
open-IsQuiet user killed addr n _ c _ pi e r w z (WriteEnds.full i l f u) = record {
  well = w;
  wait_read = inl refl;
  wait_write = inr (f, or_left (pi.readopen == 0) killed u);
}

no_writer : (c : Chan) → IsQuiet c → is_full c.pipe ≡ false → c.writers ≡ 0
no_writer c q r = elim q.wait_write [
  | inl z ↦ z
  | inr (f, o) ↦ let l = size_of_room c.pipe q.well r in absurd (omega (arith, f, l))
]

write_turn-IsQuiet :
    (user : ℕ → Option ℕ) (killed : Bool) (left addr i : ℕ) (c : Chan)
    → IsQuiet c
    → IsQuiet (write_turn user (λ j. killed) left addr i c)
unfolding write_turn
write_turn-IsQuiet user killed left addr i c q =
    elim (Bool-cases ((c.pipe.readopen == 0) || killed)) [
      | inl e ↦ Blocked-IsQuiet c i _ q (closed-Blocked user killed left addr i c.pipe e)
      | inr e ↦ elim (Bool-cases (is_full c.pipe)) [
        | inl f ↦ Blocked-IsQuiet c i _ q (full-Blocked user killed left addr i c.pipe q.well e f)
        | inr r ↦
            let t = loop-Written user (λ j. killed) addr (i + left) left i c.pipe q.well refl in
            open-IsQuiet user killed addr (i + left) _ c _ _ e
              (write-ends user killed left addr i c.pipe) t.well (no_writer c q r) t.end_
      ]
    ]

contents_nil : (pi : Pipe) → contents pi ≡ [] → size pi ≡ 0
contents_nil pi e = window_nil pi.data_ pi.nread (size pi) e

-- A reader that does not wait has no other asleep beside it.
no_reader :
    (c : Chan)
    → IsQuiet c
    → (contents c.pipe ≢ []) ⊎ ((c.pipe.writeopen == 0) ≡ true)
    → c.readers ≡ 0
no_reader c q s = elim q.wait_read [
  | inl z ↦ z
  | inr (e, o) ↦ elim s [ inl ne ↦ absurd (ne (rw e refl)) | inr k ↦ absurd cc ]
]

after_read-IsQuiet :
    (writable : ℕ → Bool) (killed : Bool) (addr n : ℕ) (c : Chan) (t : Turn)
    → IsQuiet c
    → ReadTurn writable killed addr n c.pipe t
    → IsQuiet (after_read t.outcome t.pipe c)
unfolding after_read
after_read-IsQuiet writable killed addr n c _ q (ReadTurn.asleep e o k) = record {
  well = q.well;
  wait_read = inr (contents_nil c.pipe e, o);
  wait_write = q.wait_write;
}
after_read-IsQuiet writable killed addr n c _ q (ReadTurn.gives_up e o k) = record {
  well = q.well;
  wait_read = q.wait_read;
  wait_write = q.wait_write;
}
after_read-IsQuiet writable killed addr n c _ q (ReadTurn.copies t s r) =
    rw r.count (record { well = r.well; wait_read = inl (no_reader c q s); wait_write = inl refl })

read_turn-IsQuiet :
    (writable : ℕ → Bool) (killed : Bool) (addr : ℕ) (n : ℤ) (c : Chan)
    → IsQuiet c
    → IsQuiet (read_turn writable killed addr n c)
unfolding read_turn
read_turn-IsQuiet writable killed addr n c q =
    after_read-IsQuiet writable killed addr (rounds n) c _ q
      (piperead-ReadTurn writable killed c.pipe addr n q.well)

closed_end-IsQuiet : (b : Bool) (c : Chan) → IsQuiet c → IsQuiet (closed_end b c)
unfolding closed_end
closed_end-IsQuiet true c q =
    let (w, e) = closed_same true c q.well in
    record { well = w; wait_read = inl refl; wait_write = q.wait_write }
closed_end-IsQuiet false c q =
    let (w, e) = closed_same false c q.well in
    record { well = w; wait_read = q.wait_read; wait_write = inl refl }

close-IsQuiet : (b : Bool) (c d : Chan) → IsQuiet c → pipeclose b c ≡ some d → IsQuiet d
unfolding pipeclose
close-IsQuiet b c d q e =
    elim (Bool-cases
      (((closed_end b c).pipe.readopen == 0) && ((closed_end b c).pipe.writeopen == 0))) [
        | inl z ↦ let f = (rw z at e) in absurd cc
        | inr z ↦ let f = (rw z at e) in subst IsQuiet (cc) (closed_end-IsQuiet b c q)
      ]

-- In every state that the turns of writers and readers, wake-ups by `kill` and closes lead to, a
-- process asleep in `piperead` faces an empty pipe whose write end is open, and one asleep in
-- `pipewrite` a full pipe whose read end is open: no wakeup is lost. Here no process is killed in
-- the middle of a turn of `pipewrite`.
pub Reach-IsQuiet : {c : Chan} → Reach c → IsQuiet c
Reach-IsQuiet (Reach.start d) = record {
  well = record { read_low = omega arith; write_low = omega arith; few = omega arith };
  wait_read = inl refl;
  wait_write = inl refl;
}
Reach-IsQuiet (Reach.write {c} user killed left addr i r) =
    write_turn-IsQuiet user killed left addr i c (Reach-IsQuiet r)
Reach-IsQuiet (Reach.read {c} writable killed addr n r) =
    read_turn-IsQuiet writable killed addr n c (Reach-IsQuiet r)
Reach-IsQuiet (Reach.kill_reader {c} k r e) =
    let q = Reach-IsQuiet r in
    record {
      well = q.well;
      wait_read = elim q.wait_read [ inl z ↦ absurd (omega (arith, z, e)) | inr p ↦ inr p ];
      wait_write = q.wait_write;
    }
Reach-IsQuiet (Reach.kill_writer {c} k r e) =
    let q = Reach-IsQuiet r in
    record {
      well = q.well;
      wait_read = q.wait_read;
      wait_write = elim q.wait_write [ inl z ↦ absurd (omega (arith, z, e)) | inr p ↦ inr p ];
    }
Reach-IsQuiet (Reach.close {c} {d} b r e) = close-IsQuiet b c d (Reach-IsQuiet r) e

-- In such a state no reader and writer of one pipe are both asleep.
pub Reach_no_deadlock : {c : Chan} → Reach c → (c.readers ≡ 0) ⊎ (c.writers ≡ 0)
Reach_no_deadlock {c} r =
    let q = Reach-IsQuiet r in
    elim q.wait_read [
      | inl z ↦ inl z
      | inr (e, o) ↦ elim q.wait_write [ inl z ↦ inr z | inr (f, u) ↦ absurd (omega (arith, e, f)) ]
    ]
