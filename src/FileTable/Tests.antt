-- ===== src/FileTable/Tests.antt =====
-- A file is opened, its handle copied, and one handle given up.
use os_212_assignment.Base.{ℕ, ◌≡◌, ◌≢◌, ◌↔◌, ◌<◌, refl, arith, [], ◌∷◌, none, some}
use os_212_assignment.Kernel.{update}
use os_212_assignment.FileTable.{
  nfile, File, Table, Closing, nothing, fd_none, fd_inode, put_inode, with_ref, filealloc,
  alloc_loop, filedup, fileclose, closing,
}
use os_212_assignment.FileTable.Count.{
  state, IsDue, sets, Reach, here, next, opens, copies, closes, count, Reach-IsRefCounted,
}

abbrev blank : File
blank = record {
  type = fd_none;
  ref = 0;
  readable = 0;
  writable = 0;
  pipe = 0;
  ip = 7;
  off = 0;
  major = 0;
}

abbrev empty : Table
empty i = blank

-- A file on inode 7.
abbrev inode_file : File
inode_file = record blank { type = fd_inode }

abbrev one : Table
one = update (update empty 0 (with_ref 1 blank)) 0 (with_ref 1 inode_file)

abbrev two : Table
two = update one 0 (with_ref 2 inode_file)

abbrev left : Table
left = update two 0 (with_ref 1 inode_file)

reached : Reach (state empty []) (state left (0 ∷ []))
unfolding filealloc alloc_loop filedup fileclose
reached =
    next
      (next (next (next here (opens 0 refl refl)) (sets [] [] 0 inode_file refl refl refl))
        (copies [] [] 0 refl refl refl))
      (closes [] (0 ∷ []) 0 nothing refl refl refl)

-- The last handle on an inode is given up.
last :
    fileclose 0 (update one 0 (record (one 0) { type = fd_inode }))
    ≡ some (update (update one 0 (record (one 0) { type = fd_inode })) 0 blank, put_inode 7)
unfolding fileclose closing
last = refl

Reach-IsRefCounted_example :
    (1 ≡ count 0 (0 ∷ []))
    × ((filealloc left ≡ none) ↔ ((j : ℕ) → j < nfile → 0 < count j (0 ∷ [])))
    × (0 < count 0 (0 ∷ []) → (filedup 0 left ≢ none) × (fileclose 0 left ≢ none))
    × ((tb' : Table) (c : Closing)
        → fileclose 0 left ≡ some (tb', c)
        → IsDue (count 0 (0 ∷ [])) (left 0) c)
Reach-IsRefCounted_example = Reach-IsRefCounted empty (λ i. refl) reached 0 (omega arith)
