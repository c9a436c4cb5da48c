-- ===== src/Spinlock/Tests.antt =====
-- Two CPUs and a spinlock.
use os_212_assignment.Kernel.{update}
use os_212_assignment.Spinlock.Mutex.{
  Reach, here, next, enters, spins, owns, started, Reach-IsExclusive,
}
use os_212_assignment.Base.{◌≡◌, ◌<◌, arith, true, false, refl, ℕ, ◌↔◌, ◌≢◌}
use os_212_assignment.Spinlock.{
  Cpu, ok, System, initlock, outside, spinning, inside, push_off, own, spin, enter, holding, leave,
  panic, acquire_held, release_free,
}
use os_212_assignment.Spinlock.Nest.{done, pair, run, run-Restored}

abbrev cpu : Cpu
cpu = record { intr = true; noff = 0; intena = false }

run-Restored_example :
    (e : Cpu) × (run (pair (pair done done) (pair done done)) cpu ≡ ok e)
    × (e.intr ≡ true)
    × (e.noff ≡ 0)
    × (0 < 0 → e.intena ≡ false)
run-Restored_example =
    run-Restored (pair (pair done done) (pair done done)) cpu (λ h. absurd (omega arith))

-- CPU 0 comes to its critical section.
abbrev waiting : System
waiting = record {
  lock = initlock;
  cpus = update (λ _. cpu) 0 (push_off cpu);
  places = update (λ _. outside) 0 spinning;
}

to_inside : Reach (started (λ _. cpu)) (own 0 (spin 0 waiting))
unfolding enter holding spin
to_inside = next (next (next here (enters 0 refl refl)) (spins 0 refl refl)) (owns 0 refl refl)

Reach-IsExclusive_example :
    ((i j : ℕ)
      → (own 0 (spin 0 waiting)).places i ≡ inside
      → (own 0 (spin 0 waiting)).places j ≡ inside
      → i ≡ j)
    × ((i : ℕ)
        → (holding i (own 0 (spin 0 waiting)).lock ≡ true)
          ↔ ((own 0 (spin 0 waiting)).places i ≡ inside))
    × ((i : ℕ)
        → (enter i (own 0 (spin 0 waiting)) ≡ panic acquire_held)
          ↔ ((own 0 (spin 0 waiting)).places i ≡ inside))
    × ((i : ℕ)
        → (own 0 (spin 0 waiting)).places i ≡ inside
        → leave i (own 0 (spin 0 waiting)) ≢ panic release_free)
Reach-IsExclusive_example = Reach-IsExclusive (λ _. cpu) to_inside
