-- ===== src/Ring/Tests.antt =====
-- Tests of the queue of kernel/vm.c, and the theorems about it at concrete queues.
use os_212_assignment.Base.{◌≡◌, refl, some, [], ◌∷◌, arith}
use os_212_assignment.Base.Int.{pos}
use os_212_assignment.Proc.{Proc}
use os_212_assignment.Sample.{proc}
use os_212_assignment.Ring.{in_, out, remove_round, remove_loop, remove_page}
use os_212_assignment.Ring.Queue.{contents}
use os_212_assignment.Ring.Remove.{Holds, in_-Holds, remove_page-present}

proc-Holds : Holds (pos 4 ∷ pos 3 ∷ []) proc
proc-Holds = record {
  ring = record {
    size = refl;
    head_in = omega arith;
    count = refl;
    few = omega arith;
    tail_in = omega arith;
    tail_low = omega arith;
    last = refl;
  };
  holds = refl;
}

three : Proc
unfolding in_
three = in_ (pos 7) proc

three-Holds : Holds (pos 4 ∷ pos 3 ∷ pos 7 ∷ []) three
unfolding three
three-Holds = in_-Holds (pos 7) (pos 4 ∷ pos 3 ∷ []) proc-Holds (omega arith)

-- The last page of the queue comes to its front when another one is removed.
removed-contents :
    (p : Proc) × (remove_page (pos 4) three ≡ some p) × (contents p ≡ pos 7 ∷ pos 3 ∷ [])
unfolding three remove_page remove_loop remove_round in_ out
removed-contents = (_, refl, refl)

remove_page-present_example :
    (p : Proc) × (remove_page (pos 4) three ≡ some p) × Holds (pos 7 ∷ pos 3 ∷ []) p
remove_page-present_example =
    remove_page-present (pos 4) (pos 7) [] (pos 3 ∷ []) three-Holds tt (refl, tt)
