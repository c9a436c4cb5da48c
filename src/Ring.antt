-- ===== src/Ring.antt =====
-- kernel/vm.c: `in`, `out` and `removePage`, the queue of resident pages that SCFIFO keeps in the
-- array `pages` of a process. The functions act on the process that `myproc()` returns.
pub mod Queue
pub mod Remove
mod Tests
use os_212_assignment.Base.{
  ℕ, zero, suc, ◌+◌, ◌-◌, Bool, true, false, Option, none, some, ◌==◌, if◌then◌else◌, get_or, set,
  not,
}
use os_212_assignment.Base.Int.{ℤ, pos, negsuc, minus_one, inc, dec, ltb_ℤ, eqb_ℤ}
use os_212_assignment.Proc.{Proc, max_total_pages}

-- The place that an `int` index names in an array. A negative one names none.
abbrev pub place : ℤ → ℕ
place (pos n) = n
place (negsuc n) = max_total_pages + n

-- `in(page)`
unfoldable pub in_ : ℤ → Proc → Proc
in_ page p =
    let start = if eqb_ℤ p.tail (pos (max_total_pages - 1)) then minus_one else p.tail in
    let tail = inc start in
    record p {
      pages = set p.pages (place tail) page;
      tail = tail;
      num_of_pages = inc p.num_of_pages;
    }

-- `out()`
unfoldable pub out : Proc → Proc
out p = record p {
  head = if p.head == (max_total_pages - 1) then 0 else p.head + 1;
  num_of_pages = dec p.num_of_pages;
}

-- `p->pages[p->head]`
abbrev pub front : Proc → ℤ
front p = get_or p.pages p.head minus_one

-- One round of the loop of `removePage`: take the page at the head, and put it back unless it is
-- the one to remove.
pub remove_round : ℤ → Proc → Proc
remove_round page p = let first = front p in if eqb_ℤ first page then out p else in_ first (out p)

-- The loop of `removePage` from round `i` on. `none` means that the fuel ran out.
pub remove_loop : ℕ → ℕ → ℤ → Proc → Option Proc
remove_loop zero i page p = none
remove_loop (suc fuel) i page p =
    let rest = remove_loop fuel (i + 1) page (remove_round page p) in
    if ltb_ℤ (pos i) p.num_of_pages then rest else some p

-- `removePage(page)`. The queue never grows, so its length at the call bounds the rounds.
pub remove_page : ℤ → Proc → Option Proc
remove_page page p = remove_loop (suc (place p.num_of_pages)) 0 page p
