-- ===== src/Pipe/Fifo.antt =====
-- The history of a pipe from `pipealloc` on: what its readers get is what its writers sent.
use os_212_assignment.Base.{
  ℕ, ◌+◌, ◌≡◌, refl, ap, ◌∙◌, sym, List, [], ◌++◌, arith, Bool, true, false, Option, append_assoc,
}
use os_212_assignment.Base.Int.{ℤ}
use os_212_assignment.Pipe.{Pipe, Chan, Turn, opened, write_loop, piperead, rounds, closed_end}
use os_212_assignment.Pipe.Window.{contents, IsPipe}
use os_212_assignment.Pipe.Order.{loop-Written, ReadEnds, ReadTurn, piperead-ReadTurn}

-- Turns of any processes in any order: `sent` is what went into the pipe, `got` what readers got.
pub data History : List ℕ → List ℕ → Pipe → Type 0 where
  start : (d : ℕ → ℕ) → History [] [] (opened d)
  write :
      {sent got : List ℕ} {pi : Pipe} (user : ℕ → Option ℕ) (killed : ℕ → Bool) (left addr i : ℕ)
      → History sent got pi
      → History
          (sent ++ (write_loop user killed left addr i pi).bytes)
          got
          (write_loop user killed left addr i pi).pipe
  read :
      {sent got : List ℕ} {pi : Pipe} (killed : Bool) (addr : ℕ) (n : ℤ)
      → History sent got pi
      → History sent
          (got ++ (piperead (λ a. true) killed pi addr n).bytes)
          (piperead (λ a. true) killed pi addr n).pipe
  close :
      {sent got : List ℕ} (c : Chan) (writable : Bool)
      → History sent got c.pipe
      → History sent got (closed_end writable c).pipe

lost_none : (addr n i : ℕ) (pi : Pipe) (l : List ℕ) → ReadEnds (λ a. true) addr n pi i l → l ≡ []
lost_none addr n _ pi _ (ReadEnds.all) = refl
lost_none addr n _ pi _ (ReadEnds.drained j z) = refl
lost_none addr n _ pi _ (ReadEnds.bad_address j ch e) = absurd cc

turn_in_order :
    (killed : Bool) (addr n : ℕ) (pi : Pipe) (t : Turn)
    → IsPipe pi
    → ReadTurn (λ a. true) killed addr n pi t
    → IsPipe t.pipe × (contents pi ≡ t.bytes ++ contents t.pipe)
turn_in_order killed addr n pi _ w (ReadTurn.asleep e o k) = (w, refl)
turn_in_order killed addr n pi _ w (ReadTurn.gives_up e o k) = (w, refl)
turn_in_order killed addr n pi _ w (ReadTurn.copies t e c) = (
  c.well,
  c.in_order
      ∙ ap (λ l. t.bytes ++ (l ++ contents t.pipe)) (lost_none addr n _ t.pipe c.lost c.end_),
)

pub closed_same :
    (b : Bool) (c : Chan)
    → IsPipe c.pipe
    → IsPipe (closed_end b c).pipe × (contents (closed_end b c).pipe ≡ contents c.pipe)
unfolding closed_end
closed_same true c w =
    (record { read_low = w.read_low; write_low = w.write_low; few = w.few }, refl)
closed_same false c w =
    (record { read_low = w.read_low; write_low = w.write_low; few = w.few }, refl)

-- In every history of a pipe from `pipealloc` on, of turns of writers and readers whose addresses
-- are good and of closes, the bytes sent are the bytes that readers got followed by the bytes in
-- the pipe: none is lost, doubled or reordered.
pub History-IsPipe :
    {sent got : List ℕ} {pi : Pipe} → History sent got pi → IsPipe pi × (sent ≡ got ++ contents pi)
History-IsPipe (History.start d) =
    (record { read_low = omega arith; write_low = omega arith; few = omega arith }, refl)
History-IsPipe (History.write {sent} {got} {pi} user killed left addr i h) =
    let (w, e) = History-IsPipe h in
    let t = loop-Written user killed addr (i + left) left i pi w refl in
    (
      t.well,
      ap (λ l. l ++ (write_loop user killed left addr i pi).bytes) e
          ∙ append_assoc got (contents pi) (write_loop user killed left addr i pi).bytes
          ∙ ap (λ l. got ++ l) (sym t.behind),
    )
History-IsPipe (History.read {sent} {got} {pi} killed addr n h) =
    let (w, e) = History-IsPipe h in
    let (v, f) =
      turn_in_order killed addr (rounds n) pi _ w
        (piperead-ReadTurn (λ a. true) killed pi addr n w) in
    (
      v,
      e
          ∙ ap (λ l. got ++ l) f
          ∙ sym (
              append_assoc got (piperead (λ a. true) killed pi addr n).bytes
                (contents (piperead (λ a. true) killed pi addr n).pipe)),
    )
History-IsPipe (History.close {sent} {got} c b h) =
    let (w, e) = History-IsPipe h in
    let (v, f) = closed_same b c w in (v, e ∙ ap (λ l. got ++ l) (sym f))
