-- ===== src/Bio/Tests.antt =====
-- The buffer cache on small inputs.
use os_212_assignment.Base.{ℕ, ◌+◌, ◌*◌, ◌≡◌, refl, List, [], ◌∷◌, some}
use os_212_assignment.Bio.{
  Buf, Bcache, Answer, binit, link_all, link_front, find, change, acquiresleep, is_block, is_free,
  recycled, referenced, bget, filled, bread, brelse, holdingsleep,
}
use os_212_assignment.Bio.Order.{countdown, binit-IsList}
use os_212_assignment.Bio.Release.{Released, brelse-Released}

abbrev never_used : Buf ℕ
never_used = record {
  valid = 0;
  dev = 0;
  blockno = 0;
  locked = 0;
  owner = 0;
  refcnt = 0;
  content = 0;
}

-- Block n of device d holds 100 d + n.
abbrev fresh : Bcache ℕ
fresh = record { buf = λ i. never_used; links = binit; disk = λ d n. 100 * d + n }

abbrev content_of : Answer ℕ → ℕ
content_of (Answer.returns b c) = (c.buf b).content
content_of (Answer.sleeps b c) = 0
content_of Answer.panics = 0

read_block : content_of (bread 3 1 7 fresh) ≡ 107
unfolding bread bget filled find binit link_all link_front is_block is_free acquiresleep change
    recycled referenced
read_block = refl

-- Buffer 5 is locked by process 3.
abbrev used : Bcache ℕ
used = record fresh { buf = λ i. record never_used { locked = 1; owner = 3; refcnt = 1 } }

abbrev upper : List ℕ
upper =
    29 ∷ 28 ∷ 27 ∷ 26 ∷ 25 ∷ 24 ∷ 23 ∷ 22 ∷ 21 ∷ 20 ∷ 19 ∷ 18 ∷ 17 ∷ 16 ∷ 15 ∷ 14 ∷ 13 ∷ 12 ∷ 11
    ∷ 10 ∷ 9 ∷ 8 ∷ 7 ∷ 6 ∷ []

brelse-Released_example :
    (d : Bcache ℕ) × (brelse 3 5 used ≡ some d) × Released used 5 upper (countdown 5) d
unfolding holdingsleep
brelse-Released_example = brelse-Released 3 5 used upper (countdown 5) binit-IsList refl
