-- ===== src/Log.antt =====
-- kernel/log.c: the commit of a transaction through the log, and the recovery after a crash. The
-- disk writes of a routine are a list in the order in which the code makes them, so that a crash
-- leaves the disk after some first part of the list.
pub mod Moves
pub mod Install
pub mod Crash
pub mod Reserve
mod Tests
use os_212_assignment.Base.{
  ℕ, zero, suc, ◌+◌, Bool, true, false, List, [], ◌∷◌, ◌++◌, length, ltb, leb, if◌then◌else◌, ◌*◌,
  ◌-◌, ◌==◌, ◌||◌,
}
use os_212_assignment.Kernel.{update}

-- The blocks by number, and the content of the header block of the log: `lh->block[0]` to
-- `lh->block[lh->n - 1]`.
pub record Disk (A : Type 0) : Type 0 where
  pub blocks : ℕ → A
  pub head : List ℕ

-- One `bwrite`: of a block, or of the header by `write_head`.
pub data Write (A : Type 0) : Type 0 where
  block : ℕ → A → Write A
  header : List ℕ → Write A

-- The copy of a block within the buffer cache, which is then written to disk.
pub record Move : Type 0 where
  pub from : ℕ
  pub to : ℕ

-- The rounds of `write_log` from `tail` on: from the cached block to the log.
pub log_moves : ℕ → ℕ → List ℕ → List Move
log_moves start tail [] = []
log_moves start tail (b ∷ bs) =
    record { from = b; to = start + tail + 1 } ∷ log_moves start (tail + 1) bs

-- The rounds of `install_trans` from `tail` on: from the log to the home block.
pub home_moves : ℕ → ℕ → List ℕ → List Move
home_moves start tail [] = []
home_moves start tail (b ∷ bs) =
    record { from = start + tail + 1; to = b } ∷ home_moves start (tail + 1) bs

module _ {A : Type 0} where
  pub perform : Write A → Disk A → Disk A
  perform (Write.block b v) d = record d { blocks = update d.blocks b v }
  perform (Write.header bs) d = record d { head = bs }

  -- The disk after the first `k` of the writes.
  abbrev pub after_some : ℕ → List (Write A) → Disk A → Disk A
  after_some zero ws d = d
  after_some (suc k) [] d = d
  after_some (suc k) (w ∷ ws) d = after_some k ws (perform w d)

  abbrev pub after_all : List (Write A) → Disk A → Disk A
  after_all [] d = d
  after_all (w ∷ ws) d = after_all ws (perform w d)

  -- The buffer cache after the moves, and what they write to disk.
  abbrev pub cache_after : List Move → (ℕ → A) → ℕ → A
  cache_after [] c = c
  cache_after (m ∷ ms) c = cache_after ms (update c m.to (c m.from))

  abbrev pub writes : List Move → (ℕ → A) → List (Write A)
  writes [] c = []
  writes (m ∷ ms) c = Write.block m.to (c m.from) ∷ writes ms (update c m.to (c m.from))

  -- The disk writes of `commit()` for the blocks `lh` of the transaction, whose contents are in the
  -- cache, where they are pinned.
  pub commit_writes : ℕ → List ℕ → (ℕ → A) → List (Write A)
  commit_writes start [] c = []
  commit_writes start (b ∷ bs) c =
      let lh = b ∷ bs in
      let logged = log_moves start 0 lh in
      writes logged c
      ++ (Write.header lh
          ∷ (writes (home_moves start 0 lh) (cache_after logged c) ++ (Write.header [] ∷ [])))

  -- The disk writes of `recover_from_log()` after a start: the cache is empty, so that `bread` reads
  -- the disk.
  pub recovery_writes : ℕ → Disk A → List (Write A)
  recovery_writes start d = writes (home_moves start 0 d.head) d.blocks ++ (Write.header [] ∷ [])

  pub recovered : ℕ → Disk A → Disk A
  unfolding recovery_writes
  recovered start d = after_all (recovery_writes start d) d

-- kernel/param.h
abbrev pub maxopblocks : ℕ
maxopblocks = 10

abbrev pub logsize : ℕ
logsize = maxopblocks * 3

-- `struct log` without its lock and place on disk: `lh` are the blocks of the transaction.
pub record Log : Type 0 where
  pub size : ℕ
  pub outstanding : ℕ
  pub committing : Bool
  pub lh : List ℕ

-- How a call goes on: with a new state, asleep on `&log`, or in a panic.
pub data Reply : Type 0 where
  goes : Log → Reply
  sleeps panics : Reply

-- One round of the loop of `begin_op`.
pub begin_op : Log → Reply
begin_op l =
    if l.committing
    then Reply.sleeps
    else if ltb logsize (length l.lh + (l.outstanding + 1) * maxopblocks)
    then Reply.sleeps
    else Reply.goes (record l { outstanding = l.outstanding + 1 })

-- The loop of `log_write` and the entry it sets: a block that is there is not added again.
pub absorb : ℕ → List ℕ → List ℕ
absorb b [] = b ∷ []
absorb b (x ∷ xs) = let rest = absorb b xs in if x == b then b ∷ xs else x ∷ rest

-- `log_write(b)`
pub log_write : ℕ → Log → Reply
log_write b l =
    if leb logsize (length l.lh) || leb (l.size - 1) (length l.lh)
    then Reply.panics
    else if ltb l.outstanding 1
    then Reply.panics
    else Reply.goes (record l { lh = absorb b l.lh })

-- `end_op()` up to the release of the lock. `committing` is then set where the caller commits.
pub end_op : Log → Reply
end_op l =
    let o = l.outstanding - 1 in
    if l.committing
    then Reply.panics
    else Reply.goes (record l { outstanding = o; committing = o == 0 })

-- The rest of `end_op()`: after `commit()`, which empties the transaction.
pub committed : Log → Log
committed l = record l { committing = false; lh = [] }
