-- ===== src/Bio/Get.antt =====
-- What `bget` finds or makes, and that no block has two buffers.
use os_212_assignment.Base.{ℕ, ◌≡◌, ◌≢◌, List, ◌∷◌, ◌++◌}
use os_212_assignment.Kernel.{inc32}
use os_212_assignment.Bio.{Buf, Bcache, Answer, is_block, is_free}
use os_212_assignment.Bio.Walk.{rev, NoneOf}
use os_212_assignment.Bio.Unique.{In, IsUnique}

module _ {A : Type 0} where
  -- The buffer had the block, and has one reference more; or no buffer had the block, it was the
  -- last of the list without a reference, and it is to be read.
  pub data Source (c : Bcache A) (dev blockno b : ℕ) (xs : List ℕ) (x : Buf A) : Type 0 where
    hit :
        (c.buf b).dev ≡ dev
        → (c.buf b).blockno ≡ blockno
        → x.refcnt ≡ inc32 (c.buf b).refcnt
        → x.valid ≡ (c.buf b).valid
        → x.content ≡ (c.buf b).content
        → Source c dev blockno b xs x
    miss :
        (before after : List ℕ)
        → NoneOf (is_block c dev blockno) xs
        → rev xs ≡ before ++ (b ∷ after)
        → (c.buf b).refcnt ≡ 0
        → NoneOf (is_free c) before
        → x.refcnt ≡ 1
        → x.valid ≡ 0
        → Source c dev blockno b xs x

  pub record Got (c : Bcache A) (dev blockno : ℕ) (xs : List ℕ) (b : ℕ) (d : Bcache A)
      : Type 0 where
    pub listed : In b xs
    pub dev_set : (d.buf b).dev ≡ dev
    pub block_set : (d.buf b).blockno ≡ blockno
    pub source : Source c dev blockno b xs (d.buf b)
    pub others : (i : ℕ) → i ≢ b → d.buf i ≡ c.buf i
    pub same_links : d.links ≡ c.links
    pub same_disk : d.disk ≡ c.disk
    pub unique : IsUnique d xs

  -- A call ends with such a buffer, locked by the caller, or asleep on the lock of such a buffer. It
  -- panics only where no buffer has the block and all have references.
  pub data BgetEnds (c : Bcache A) (pid dev blockno : ℕ) (xs : List ℕ) : Answer A → Type 0 where
    locked :
        (b : ℕ) (d : Bcache A)
        → Got c dev blockno xs b d
        → (d.buf b).locked ≡ 1
        → (d.buf b).owner ≡ pid
        → BgetEnds c pid dev blockno xs (Answer.returns b d)
    waits :
        (b : ℕ) (d : Bcache A)
        → Got c dev blockno xs b d
        → (d.buf b).locked ≢ 0
        → BgetEnds c pid dev blockno xs (Answer.sleeps b d)
    no_buffers :
        NoneOf (is_block c dev blockno) xs
        → NoneOf (is_free c) (rev xs)
        → BgetEnds c pid dev blockno xs Answer.panics

  locked_buf : ℕ → Buf A → Buf A
  locked_buf pid x = record x { locked = 1; owner = pid }
