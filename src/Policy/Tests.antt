-- ===== src/Policy/Tests.antt =====
-- Tests of the policies of kernel/vm.c, and the theorems about them at concrete processes.
use os_212_assignment.Base.{ℕ, ◌+◌, ◌^◌, ◌≤◌, ◌≡◌, refl, ◌⊎◌, arith, replicate}
use os_212_assignment.Base.Int.{pos, minus_one}
use os_212_assignment.Proc.{Proc}
use os_212_assignment.Sample.{proc, resident}
use os_212_assignment.Policy.{nfua_loop, nfua, count_loop, count_ones, lapa_better, lapa_loop, lapa}
use os_212_assignment.Policy.Least.{Candidate, age}
use os_212_assignment.Policy.Choice.{NfuaChoice, LapaChoice, nfua-least, lapa-least}

counters_proc : nfua proc ≡ pos 4
unfolding nfua nfua_loop
counters_proc = refl

ones_proc : lapa proc ≡ pos 4
unfolding lapa lapa_loop lapa_better count_ones count_loop
ones_proc = refl

-- Every page in memory was accessed in the last period.
abbrev busy : Proc
busy = record proc { meta = replicate 32 (resident (2 ^ 31 + 5)) }

busy_proc : nfua busy ≡ minus_one
unfolding nfua nfua_loop
busy_proc = refl

ones : count_ones 0xf0f0 ≡ 8
unfolding count_ones count_loop
ones = refl

nfua-least_example :
    ((nfua proc ≡ minus_one) × ((j : ℕ) → Candidate proc j → 2 ^ 31 ≤ age proc j))
    ⊎ ((k : ℕ) × (nfua proc ≡ pos k) × NfuaChoice proc k)
nfua-least_example = nfua-least proc

lapa-least_example :
    ((lapa proc ≡ minus_one) × ((j : ℕ) → ¬ Candidate proc j))
    ⊎ ((k : ℕ) × (lapa proc ≡ pos k) × LapaChoice proc k)
lapa-least_example = lapa-least proc (omega arith)
