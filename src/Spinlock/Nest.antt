-- ===== src/Spinlock/Nest.antt =====
-- Pairs of push_off and pop_off nest.
use os_212_assignment.Base.{◌≡◌, ◌<◌, arith, false, ◌==◌, if◌then◌else◌, ◌∙◌, refl}
use os_212_assignment.Spinlock.{Cpu, Run, ok, panic, push_off, pop_off}

-- A CPU in its own state: where push_off is not in force interrupts may be on, else they are off.
abbrev pub IsTidy : Cpu → Type 0
IsTidy c = 0 < c.noff → c.intr ≡ false

-- A program of matched pairs: pairs in turn, and pairs within a pair.
pub data Pairs : Type 0 where
  done : Pairs
  pair : Pairs → Pairs → Pairs

abbrev pub and_then : Run Cpu → (Cpu → Run Cpu) → Run Cpu
and_then (ok c) f = f c
and_then (panic p) f = panic p

-- The pairs within, between push_off and pop_off, and then the pairs behind.
pub run : Pairs → Cpu → Run Cpu
run done c = ok c
run (pair p q) c = and_then (run p (push_off c)) (λ e. and_then (pop_off e) (λ f. run q f))

-- What a run leaves: interrupts and the depth as before it, and, in the middle of an outer pair,
-- also the note of the state outside.
record Restored (c e : Cpu) : Type 0 where
  intr : e.intr ≡ c.intr
  noff : e.noff ≡ c.noff
  intena : 0 < c.noff → e.intena ≡ c.intena

pair-Restored :
    (c e : Cpu) → IsTidy c → Restored (push_off c) e → (f : Cpu) × (pop_off e ≡ ok f) × Restored c f
unfolding push_off pop_off
pair-Restored c e t r = (
  record e { intr = if c.noff == 0 then c.intr else false; noff = c.noff },
  ground (arith, r.intena (omega arith)),
  record {
    intr = ground arith;
    noff = ground arith;
    intena = ground (arith, r.intena (omega arith));
  },
)

pushed-IsTidy : (c : Cpu) → IsTidy (push_off c)
unfolding push_off
pushed-IsTidy c h = refl

Restored-IsTidy : (c e : Cpu) → IsTidy c → Restored c e → IsTidy e
Restored-IsTidy c e t r h =
    let a = r.noff in let b = r.intr in let q = t (omega arith) in ground arith

Restored-trans : (c e f : Cpu) → Restored c e → Restored e f → Restored c f
Restored-trans c e f a b = record {
  intr = b.intr ∙ a.intr;
  noff = b.noff ∙ a.noff;
  intena = λ h. b.intena (let q = a.noff in omega arith) ∙ a.intena h;
}

runs : (p : Pairs) (c : Cpu) → IsTidy c → (e : Cpu) × (run p c ≡ ok e) × Restored c e
unfolding run
runs done c t = (c, refl, record { intr = refl; noff = refl; intena = λ h. refl })
runs (pair p q) c t =
    let a = runs p (push_off c) (pushed-IsTidy c) in
    let b = pair-Restored c a.0 t a.2 in
    let d = runs q b.0 (Restored-IsTidy c b.0 t b.2) in
    (d.0, rw (a.1, b.1) d.1, Restored-trans c b.0 d.0 b.2 d.2)

-- On a CPU where interrupts are off inside of push_off, any nesting of matched pairs of push_off and
-- pop_off runs without a panic, and leaves interrupts on or off, the depth and, inside of push_off,
-- the note of the state outside as they were before it.
pub run-Restored :
    (p : Pairs) (c : Cpu)
    → IsTidy c
    → (e : Cpu) × (run p c ≡ ok e)
      × (e.intr ≡ c.intr)
      × (e.noff ≡ c.noff)
      × (0 < c.noff → e.intena ≡ c.intena)
run-Restored p c t = let r = runs p c t in (r.0, r.1, r.2.intr, r.2.noff, r.2.intena)
