-- ===== src/Pipe/Tests.antt =====
-- The functions of kernel/pipe.c on small inputs.
use os_212_assignment.Base.{
  ℕ, ◌+◌, ◌-◌, ◌^◌, ◌≡◌, ◌⊎◌, refl, [], ◌∷◌, ◌++◌, arith, Bool, true, false, Option, none, some,
  ltb, leb, if◌then◌else◌,
}
use os_212_assignment.Base.Int.{pos}
use os_212_assignment.Pipe.{
  Pipe, Chan, Outcome, opened, pipewrite, piperead, write_turn, read_turn, write_loop, read_loop,
  after_write, after_read,
}
use os_212_assignment.Pipe.Window.{IsPipe, contents}
use os_212_assignment.Pipe.Order.{ReadTurn, piperead-ReadTurn}
use os_212_assignment.Pipe.Fifo.{History, History-IsPipe}
use os_212_assignment.Pipe.Wake.{Reach, IsQuiet, Reach-IsQuiet, Reach_no_deadlock}

-- User memory that holds the byte 50 + a at each address a below 100.
abbrev user : ℕ → Option ℕ
user a = if ltb a 100 then some (50 + a) else none

abbrev alive : ℕ → Bool
alive i = false

-- A pipe whose counters are about to wrap around.
abbrev late : Pipe
late = record {
  data_ = λ i. 0;
  nread = 2 ^ 32 - 2;
  nwrite = 2 ^ 32 - 2;
  readopen = 1;
  writeopen = 1;
}

abbrev chan : Chan
chan = record { pipe = opened (λ i. 0); readers = 0; writers = 0 }

write_run : (pipewrite user alive late 7 (pos 3)).outcome ≡ Outcome.returns (pos 3)
unfolding pipewrite write_loop
write_run = refl

write_held : contents (pipewrite user alive late 7 (pos 3)).pipe ≡ 57 ∷ 58 ∷ 59 ∷ []
unfolding pipewrite write_loop
write_held = refl

write_bad : (pipewrite user alive late 98 (pos 3)).outcome ≡ Outcome.returns (pos 2)
unfolding pipewrite write_loop
write_bad = refl

read_run :
    (piperead (λ a. true) false (pipewrite user alive late 7 (pos 3)).pipe 0 (pos 2)).bytes
    ≡ 57 ∷ 58 ∷ []
unfolding pipewrite write_loop piperead read_loop
read_run = refl

-- A reader sleeps, and a writer is killed after its first byte: the reader is not woken.
lost_wakeup :
    (write_turn user (leb 1) 2 0 0 (read_turn (λ a. true) false 0 (pos 4) chan)).readers ≡ 1
unfolding write_turn write_loop read_turn piperead read_loop after_write after_read
lost_wakeup = refl

abbrev filled_pipe : Pipe
filled_pipe = record { data_ = λ i. i; nread = 510; nwrite = 514; readopen = 1; writeopen = 1 }

filled_pipe-IsPipe : IsPipe filled_pipe
filled_pipe-IsPipe = record { read_low = omega arith; write_low = omega arith; few = omega arith }

piperead-ReadTurn_example :
    ReadTurn
      (λ a. leb 2 a)
      false
      0
      3
      filled_pipe
      (piperead (λ a. leb 2 a) false filled_pipe 0 (pos 3))
piperead-ReadTurn_example =
    piperead-ReadTurn (λ a. leb 2 a) false filled_pipe 0 (pos 3) filled_pipe-IsPipe

abbrev sent_pipe : Pipe
sent_pipe = (write_loop user alive 3 7 0 (opened (λ i. 0))).pipe

abbrev left_pipe : Pipe
left_pipe = (piperead (λ a. true) false sent_pipe 0 (pos 2)).pipe

abbrev history :
    History
      ([] ++ (write_loop user alive 3 7 0 (opened (λ i. 0))).bytes)
      ([] ++ (piperead (λ a. true) false sent_pipe 0 (pos 2)).bytes)
      left_pipe
history = History.read false 0 (pos 2) (History.write user alive 3 7 0 (History.start (λ i. 0)))

History-IsPipe_example :
    IsPipe left_pipe
    × (([] ++ (write_loop user alive 3 7 0 (opened (λ i. 0))).bytes)
        ≡ ([] ++ (piperead (λ a. true) false sent_pipe 0 (pos 2)).bytes) ++ contents left_pipe)
History-IsPipe_example = History-IsPipe history

abbrev woken : Chan
woken = write_turn user (λ j. false) 3 7 0 (read_turn (λ a. true) false 0 (pos 4) chan)

abbrev woken-Reach : Reach woken
woken-Reach =
    Reach.write user false 3 7 0 (Reach.read (λ a. true) false 0 (pos 4) (Reach.start (λ i. 0)))

Reach-IsQuiet_example : IsQuiet woken
Reach-IsQuiet_example = Reach-IsQuiet woken-Reach

Reach_no_deadlock_example : (woken.readers ≡ 0) ⊎ (woken.writers ≡ 0)
Reach_no_deadlock_example = Reach_no_deadlock woken-Reach
