-- ===== src/Uvm/Tests.antt =====
-- The theorems about growing a process in kernel/vm.c and kernel/proc.c at concrete states.
use os_212_assignment.Base.{◌-◌, ◌^◌, ◌≡◌, refl, true, arith}
use os_212_assignment.Base.Int.{pos}
use os_212_assignment.Kernel.{ok, update}
use os_212_assignment.Sample.{large}
use os_212_assignment.Uvm.{growproc}
use os_212_assignment.Uvm.Grow.{growproc-limit}

growproc-limit_example :
    growproc (pos 8000) large
    ≡ ok true
        (record large { procs = update large.procs 2 (record (large.procs 2) { sz = 2 ^ 32 - 1 }) })
growproc-limit_example =
    growproc-limit large 7999 (omega arith) (omega arith) refl (omega arith) (omega arith)
