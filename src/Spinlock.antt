-- ===== src/Spinlock.antt =====
-- kernel/spinlock.c: interrupts switched off in nested pairs, and the lock that CPUs spin on.
pub mod Nest
pub mod Mutex
mod Tests
use os_212_assignment.Base.{
  ℕ, zero, suc, ◌+◌, ◌-◌, Bool, true, false, ◌&&◌, not, Option, none, some, ◌==◌, ltb,
  if◌then◌else◌,
}
use os_212_assignment.Kernel.{update}

-- Of `struct cpu`: the depth of push_off, and whether interrupts were on before it; `intr` is what
-- intr_get() says of the CPU.
pub record Cpu : Type 0 where
  pub intr : Bool
  pub noff : ℕ
  pub intena : Bool

-- `struct spinlock`; `cpu` is the CPU that holds it, where one does.
pub record Lock : Type 0 where
  pub locked : Bool
  pub cpu : Option ℕ

pub data Panic : Type 0 where
  interruptible not_pushed acquire_held release_free : Panic

pub data Run (A : Type 0) : Type 0 where
  ok : A → Run A
  panic : Panic → Run A

-- `push_off()`
pub push_off : Cpu → Cpu
push_off c = record {
  intr = false;
  noff = c.noff + 1;
  intena = if c.noff == 0 then c.intr else c.intena;
}

-- `pop_off()`
pub pop_off : Cpu → Run Cpu
pop_off c =
    let n = c.noff - 1 in
    if c.intr
    then panic interruptible
    else if ltb c.noff 1
    then panic not_pushed
    else ok (record c { intr = if (n == 0) && c.intena then true else c.intr; noff = n })

abbrev pub same_cpu : Option ℕ → ℕ → Bool
same_cpu none i = false
same_cpu (some j) i = j == i

-- `holding(lk)` on CPU i.
pub holding : ℕ → Lock → Bool
holding i lk = lk.locked && same_cpu lk.cpu i

-- `initlock(lk, name)`
abbrev pub initlock : Lock
initlock = record { locked = false; cpu = none }

-- The CPUs, and where each stands in `acquire`, its critical section and `release`.
pub data Place : Type 0 where
  outside spinning taken inside leaving : Place

pub record System : Type 0 where
  pub lock : Lock
  pub cpus : ℕ → Cpu
  pub places : ℕ → Place

-- The first part of `acquire` on CPU i, up to the loop.
pub enter : ℕ → System → Run System
unfolding push_off holding
enter i s =
    if holding i s.lock
    then panic acquire_held
    else ok (record s {
      cpus = update s.cpus i (push_off (s.cpus i));
      places = update s.places i spinning;
    })

-- A round of the loop: __sync_lock_test_and_set.
pub spin : ℕ → System → System
spin i s = if s.lock.locked then s else record s {
  lock = record { locked = true; cpu = s.lock.cpu };
  places = update s.places i taken;
}

-- `lk->cpu = mycpu();`
pub own : ℕ → System → System
own i s = record s {
  lock = record { locked = s.lock.locked; cpu = some i };
  places = update s.places i inside;
}

-- `release` up to `lk->cpu = 0;`
pub leave : ℕ → System → Run System
unfolding holding
leave i s =
    if not (holding i s.lock)
    then panic release_free
    else ok (record s {
      lock = record { locked = s.lock.locked; cpu = none };
      places = update s.places i leaving;
    })

abbrev pub unlocked : ℕ → System → Cpu → System
unlocked i s c = record s {
  lock = record { locked = false; cpu = s.lock.cpu };
  cpus = update s.cpus i c;
  places = update s.places i outside;
}

-- `__sync_lock_release(&lk->locked); pop_off();`
pub unlock : ℕ → System → Run System
unfolding pop_off
unlock i s = elim (pop_off (s.cpus i)) [ ok c ↦ ok (unlocked i s c) | panic p ↦ panic p ]
