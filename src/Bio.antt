-- ===== src/Bio.antt =====
-- kernel/bio.c and kernel/sleeplock.c: the buffer cache, its doubly linked list in the order of
-- use, and the sleep lock of a buffer. A buffer is named by its index in `bcache.buf`, and
-- `bcache.head` by the index behind the last one. A call holds `bcache.lock` where it reads or
-- writes counts and links, so it is one step up to where it sleeps.
pub mod Order
pub mod Walk
pub mod Unique
pub mod Get
pub mod Release
mod Tests
use os_212_assignment.Base.{
  ℕ, zero, suc, ◌+◌, Bool, true, false, ◌&&◌, ◌||◌, not, Option, none, some, List, [], ◌∷◌, ◌++◌,
  ◌==◌, if◌then◌else◌,
}
use os_212_assignment.Kernel.{update, inc32, dec32}

abbrev pub nbuf : ℕ
nbuf = 30

abbrev pub head : ℕ
head = nbuf

-- `struct buf`, with the fields of its sleep lock: `locked`, and `owner` for `lock.pid`.
pub record Buf (A : Type 0) : Type 0 where
  pub valid : ℕ
  pub dev : ℕ
  pub blockno : ℕ
  pub locked : ℕ
  pub owner : ℕ
  pub refcnt : ℕ
  pub content : A

-- `prev` and `next` of the buffers and of the head.
pub record Links : Type 0 where
  pub prev : ℕ → ℕ
  pub next : ℕ → ℕ

-- `bcache`, with the blocks of the disks by device and number.
pub record Bcache (A : Type 0) : Type 0 where
  pub buf : ℕ → Buf A
  pub links : Links
  pub disk : ℕ → ℕ → A

-- The two writes of `brelse` that take a buffer out of the list.
pub unlink : ℕ → Links → Links
unlink b l =
    let p = update l.prev (l.next b) (l.prev b) in
    record { prev = p; next = update l.next (p b) (l.next b) }

-- The four writes of `brelse` and of `binit` that put a buffer behind the head.
pub link_front : ℕ → Links → Links
link_front b l =
    let n = update l.next b (l.next head) in
    let p = update l.prev b head in record { prev = update p (n head) b; next = update n head b }

-- The loop of `binit` over the buffers from `b` on.
pub link_all : ℕ → ℕ → Links → Links
unfolding link_front
link_all zero b l = l
link_all (suc n) b l = link_all n (b + 1) (link_front b l)

-- `binit()`
pub binit : Links
binit = link_all nbuf 0 (record { prev = λ i. head; next = λ i. head })

-- The loops of `bget`: along `next` or `prev` from `b` to the head.
pub find : ℕ → (ℕ → Bool) → (ℕ → ℕ) → ℕ → Option ℕ
find zero test step b = none
find (suc fuel) test step b = elim (b == head) [
  | true ↦ none
  | false ↦ elim (test b) [ true ↦ some b | false ↦ find fuel test step (step b) ]
]

-- How a call ends: with a buffer, asleep on the lock of a buffer, or in a panic.
pub data Answer (A : Type 0) : Type 0 where
  returns : ℕ → Bcache A → Answer A
  sleeps : ℕ → Bcache A → Answer A
  panics : Answer A

module _ {A : Type 0} where
  pub change : ℕ → (Buf A → Buf A) → Bcache A → Bcache A
  change b f c = record c { buf = update c.buf b (f (c.buf b)) }

  -- `acquiresleep(&b->lock)` by process `pid` up to its first sleep.
  pub acquiresleep : ℕ → ℕ → Bcache A → Answer A
  acquiresleep pid b c =
      if (c.buf b).locked == 0
      then Answer.returns b (change b (λ x. record x { locked = 1; owner = pid }) c)
      else Answer.sleeps b c

  -- `holdingsleep` and `releasesleep`
  pub holdingsleep : ℕ → Buf A → Bool
  holdingsleep pid x = not (x.locked == 0) && (x.owner == pid)

  pub releasesleep : Buf A → Buf A
  releasesleep x = record x { locked = 0; owner = 0 }

  -- The tests of the two loops of `bget`.
  pub is_block : Bcache A → ℕ → ℕ → ℕ → Bool
  is_block c dev blockno b = ((c.buf b).dev == dev) && ((c.buf b).blockno == blockno)

  pub is_free : Bcache A → ℕ → Bool
  is_free c b = (c.buf b).refcnt == 0

  pub recycled : ℕ → ℕ → Buf A → Buf A
  recycled dev blockno x = record x { dev = dev; blockno = blockno; valid = 0; refcnt = 1 }

  pub referenced : Buf A → Buf A
  referenced x = record x { refcnt = inc32 x.refcnt }

  -- `bget(dev, blockno)`
  pub bget : ℕ → ℕ → ℕ → Bcache A → Answer A
  bget pid dev blockno c =
      elim (find (suc nbuf) (is_block c dev blockno) c.links.next (c.links.next head)) [
        | some b ↦ acquiresleep pid b (change b referenced c)
        | none ↦ elim (find (suc nbuf) (is_free c) c.links.prev (c.links.prev head)) [
          | some b ↦ acquiresleep pid b (change b (recycled dev blockno) c)
          | none ↦ Answer.panics
        ]
      ]

  -- The read of `bread` into a buffer that is not valid.
  pub filled : (ℕ → ℕ → A) → Buf A → Buf A
  filled disk x = if x.valid == 0 then record x { content = disk x.dev x.blockno; valid = 1 } else x

  -- `bread(dev, blockno)`; where `bget` sleeps, the rest is done later.
  pub bread : ℕ → ℕ → ℕ → Bcache A → Answer A
  bread pid dev blockno c = elim (bget pid dev blockno c) [
    | returns b d ↦ Answer.returns b (change b (filled d.disk) d)
    | sleeps b d ↦ Answer.sleeps b d
    | panics ↦ Answer.panics
  ]

  -- `bwrite(b)`; `none` is a panic.
  pub bwrite : ℕ → ℕ → Bcache A → Option (Bcache A)
  bwrite pid b c =
      let x = c.buf b in
      if not (holdingsleep pid x)
      then none
      else some
          (record c { disk = update c.disk x.dev (update (c.disk x.dev) x.blockno x.content) })

  -- `brelse(b)`
  pub brelse : ℕ → ℕ → Bcache A → Option (Bcache A)
  brelse pid b c =
      if not (holdingsleep pid (c.buf b))
      then none
      else let d = change b (λ x. record (releasesleep x) { refcnt = dec32 x.refcnt }) c in
        some (
          if dec32 (c.buf b).refcnt == 0
          then record d { links = link_front b (unlink b d.links) }
          else d)

  -- `bpin(b)` and `bunpin(b)`
  pub bpin : ℕ → Bcache A → Bcache A
  bpin b c = change b referenced c

  pub bunpin : ℕ → Bcache A → Bcache A
  bunpin b c = change b (λ x. record x { refcnt = dec32 x.refcnt }) c
