-- ===== src/Log/Tests.antt =====
-- The functions of kernel/log.c on small inputs.
use os_212_assignment.Base.{
  ℕ, ◌+◌, ◌≡◌, refl, inr, [], ◌∷◌, arith, false, if◌then◌else◌, leb, replicate,
}
use os_212_assignment.Log.{
  Disk, Log, Reply, after_some, commit_writes, recovery_writes, recovered, log_moves, home_moves,
  perform, begin_op, absorb, log_write,
}
use os_212_assignment.Log.Crash.{crashes, new_home, IsClean, commit-IsClean}
use os_212_assignment.Log.Reserve.{Run, log_write-goes}

-- A log at block 2; block b holds 100 + b, and the cache has 200 + b for it.
abbrev disk : Disk ℕ
disk = record { blocks = λ b. 100 + b; head = [] }

abbrev cache : ℕ → ℕ
cache b = 200 + b

-- After the two blocks and the header are in the log, block 50 is not in place yet.
committed_block :
    (recovered 2
        (crashes 2 (1 ∷ []) (after_some 3 (commit_writes 2 (40 ∷ 50 ∷ []) cache) disk))).blocks
      50
    ≡ 250
unfolding recovered recovery_writes commit_writes log_moves home_moves perform
committed_block = refl

dropped_block :
    (recovered 2 (after_some 2 (commit_writes 2 (40 ∷ 50 ∷ []) cache) disk)).blocks 50 ≡ 150
unfolding recovered recovery_writes commit_writes log_moves home_moves perform
dropped_block = refl

-- mkfs makes a log of LOGSIZE blocks, one of them the header: with 29 blocks in the transaction the
-- next one panics, although 30 are reserved.
small_log :
    log_write 5 (record { size = 30; outstanding = 3; committing = false; lh = replicate 29 7 })
    ≡ Reply.panics
unfolding log_write
small_log = refl

commit-IsClean_example :
    IsClean 2 2
      (if leb 3 2 then disk.blocks else new_home (40 ∷ 50 ∷ []) cache disk.blocks)
      (recovered 2 (crashes 2 (1 ∷ []) (after_some 3 (commit_writes 2 (40 ∷ 50 ∷ []) cache) disk)))
commit-IsClean_example =
    commit-IsClean 2 (40 ∷ 50 ∷ []) cache disk 3 (1 ∷ []) refl
      (inr (omega arith), (inr (omega arith), tt))

abbrev one_op : Log
one_op = record { size = 31; outstanding = 1; committing = false; lh = [] }

one_op-Run : Run 31 (10 ∷ []) one_op
unfolding begin_op
one_op-Run = Run.begins Run.start refl

log_write-goes_example : log_write 5 one_op ≡ Reply.goes (record one_op { lh = absorb 5 [] })
log_write-goes_example = log_write-goes 5 0 9 one_op-Run (omega arith) (omega arith) refl
