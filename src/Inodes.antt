-- ===== src/Inodes.antt =====
-- kernel/fs.c: the inode table and the end of an inode. The table has NINODE entries, named by their
-- index; a call holds `itable.lock` for all that it does to the table, and there is one device.
pub mod Get
pub mod Trunc
pub mod Release
pub mod Empty
mod Tests
use os_212_assignment.Base.{
  ℕ, zero, suc, ◌+◌, ◌-◌, ◌*◌, ◌/◌, ◌%◌, Bool, true, false, ◌&&◌, ltb, ◌==◌, if◌then◌else◌, Option,
  none, some,
}
use os_212_assignment.Kernel.{update}
use os_212_assignment.Fs.{
  Super, Disk, Inode, Run, ok, panic, Panic, no_inodes, ◌>>=◌, ipb, ndirect, nindirect, iblock,
  get_uint, get_short, put_short, bfree, iupdate, set_addr,
}

abbrev pub ninode : ℕ
ninode = 50

abbrev pub Table : Type 0
Table = ℕ → Inode

-- `ip->ref > 0 && ip->inum == inum`
abbrev pub holds : ℕ → Inode → Bool
holds inum ip = ltb 0 ip.ref && (ip.inum == inum)

-- `empty` after the loop has looked at entry i.
abbrev pub seen : Option ℕ → ℕ → Inode → Option ℕ
seen (some e) i ip = some e
seen none i ip = if ip.ref == 0 then some i else none

abbrev pub recycled : ℕ → Inode → Inode
recycled inum ip = record ip { inum = inum; ref = 1; valid = false }

abbrev pub referenced : Inode → Inode
referenced ip = record ip { ref = ip.ref + 1 }

-- The loop of `iget` from entry i, and what follows it.
pub iget_loop : ℕ → ℕ → Option ℕ → ℕ → Table → Run (ℕ × Table)
iget_loop zero i none inum tb = panic no_inodes
iget_loop zero i (some e) inum tb = ok (e, update tb e (recycled inum (tb e)))
iget_loop (suc r) i empty inum tb =
    let rest = iget_loop r (i + 1) (seen empty i (tb i)) inum tb in
    if holds inum (tb i) then ok (i, update tb i (referenced (tb i))) else rest

-- `iget(dev, inum)`
pub iget : ℕ → Table → Run (ℕ × Table)
iget inum tb = iget_loop ninode 0 none inum tb

-- `idup(ip)`
pub idup : ℕ → Table → ℕ × Table
idup i tb = (i, update tb i (referenced (tb i)))

module _ (sb : Super) where
  -- The loop of `itrunc` over the direct blocks from i on.
  pub trunc_direct : ℕ → ℕ → Inode → Disk → Run (Inode × Disk)
  trunc_direct zero i ip d = ok (ip, d)
  trunc_direct (suc n) i ip d =
      let freed = bfree sb (ip.addrs i) d >>= λ d'. trunc_direct n (i + 1) (set_addr ip i 0) d' in
      let rest = trunc_direct n (i + 1) ip d in if ip.addrs i == 0 then rest else freed

  -- The loop over the entries of the indirect block, read from its buffer.
  pub trunc_entries : ℕ → ℕ → (ℕ → ℕ) → Disk → Run Disk
  trunc_entries zero j c d = ok d
  trunc_entries (suc n) j c d =
      let freed = bfree sb (get_uint c (4 * j)) d >>= λ d'. trunc_entries n (j + 1) c d' in
      let rest = trunc_entries n (j + 1) c d in if get_uint c (4 * j) == 0 then rest else freed

  -- The part of `itrunc` about the indirect block. A bfree changes no byte of it.
  pub trunc_table : Inode → Disk → Run (Inode × Disk)
  trunc_table ip d =
      if ip.addrs ndirect == 0
      then ok (ip, d)
      else (trunc_entries nindirect 0 (d (ip.addrs ndirect)) d >>= λ d1.
          bfree sb (ip.addrs ndirect) d1 >>= λ d2. ok (set_addr ip ndirect 0, d2))

  -- `itrunc(ip)`
  pub itrunc : Inode → Disk → Run (Inode × Disk)
  itrunc ip d = trunc_direct ndirect 0 ip d >>= λ r. trunc_table r.0 r.1 >>= λ q.
      let ip' = record (q.0) { size = 0 } in ok (ip', iupdate sb ip' q.1)

  -- `iput(ip)`, for entry i. Where the inode has no links and no other reference, nobody holds its
  -- sleep lock, so that acquiresleep returns at once.
  pub iput : ℕ → Table → Disk → Run (Table × Disk)
  iput i tb d =
      let ip = tb i in
      if (ip.ref == 1) && (ip.valid && (ip.nlink == 0))
      then (itrunc ip d >>= λ r.
          let ip' = record (r.0) { type = 0 } in
          ok (update tb i (record ip' { valid = false; ref = ip'.ref - 1 }), iupdate sb ip' r.1))
      else ok (update tb i (record ip { ref = ip.ref - 1 }), d)

  -- `memset(dip, 0, sizeof(*dip)); dip->type = type;` at offset o of a block.
  pub clear_dinode : (ℕ → ℕ) → ℕ → ℕ → ℕ → ℕ
  clear_dinode c o type =
      put_short (λ x. if ltb x o then c x else if ltb x (o + 64) then 0 else c x) o type

  -- The loop of `ialloc` from inode number `inum`, with the numbers that are left.
  pub ialloc_loop : ℕ → ℕ → ℕ → Table → Disk → Run (ℕ × Table × Disk)
  ialloc_loop zero inum type tb d = panic no_inodes
  ialloc_loop (suc r) inum type tb d =
      let rest = ialloc_loop r (inum + 1) type tb d in
      let c = d (iblock sb inum) in
      let o = inum % ipb * 64 in
      if get_short c o == 0
      then (iget inum tb >>= λ p. ok (p.0, p.1, update d (iblock sb inum) (clear_dinode c o type)))
      else rest

  -- `ialloc(dev, type)`
  pub ialloc : ℕ → Table → Disk → Run (ℕ × Table × Disk)
  ialloc type tb d = ialloc_loop (sb.ninodes - 1) 1 type tb d
