-- ===== src/FileTable.antt =====
-- kernel/file.c and kernel/file.h: the table of open files and its reference counts. A file is named
-- by its index in `ftable.file`; each operation holds `ftable.lock` for what it does to the table.
pub mod Calls
pub mod Count
mod Tests
use os_212_assignment.Base.{
  ℕ, zero, suc, ◌+◌, ◌-◌, Bool, ltb, ◌==◌, if◌then◌else◌, Option, none, some,
}
use os_212_assignment.Kernel.{update}

-- kernel/param.h
abbrev pub nfile : ℕ
nfile = 100

pub data FileType : Type 0 where
  fd_none fd_pipe fd_inode fd_device : FileType

-- `struct file`; the pipe and the inode are named by numbers.
pub record File : Type 0 where
  pub type : FileType
  pub ref : ℕ
  pub readable : ℕ
  pub writable : ℕ
  pub pipe : ℕ
  pub ip : ℕ
  pub off : ℕ
  pub major : ℕ

abbrev pub Table : Type 0
Table = ℕ → File

-- What `fileclose` still has to do when it has left the table: nothing, pipeclose(pipe, writable), or
-- iput(ip) in a transaction.
pub data Closing : Type 0 where
  nothing : Closing
  close_pipe : ℕ → ℕ → Closing
  put_inode : ℕ → Closing

-- `none` is the panic of `filedup` or `fileclose`.
abbrev pub with_ref : ℕ → File → File
with_ref n f = record f { ref = n }

-- The loop of `filealloc` from entry i; `none` is the null pointer.
pub alloc_loop : ℕ → ℕ → Table → Option (ℕ × Table)
alloc_loop zero i tb = none
alloc_loop (suc r) i tb =
    let rest = alloc_loop r (i + 1) tb in
    if (tb i).ref == 0 then some (i, update tb i (with_ref 1 (tb i))) else rest

-- `filealloc()`
pub filealloc : Table → Option (ℕ × Table)
filealloc tb = alloc_loop nfile 0 tb

-- `filedup(f)`
pub filedup : ℕ → Table → Option Table
filedup i tb =
    if ltb (tb i).ref 1 then none else some (update tb i (with_ref ((tb i).ref + 1) (tb i)))

-- What is left to do for the copy `ff`.
pub closing : File → Closing
closing f = elim f.type [
  | fd_none ↦ nothing
  | fd_pipe ↦ close_pipe f.pipe f.writable
  | fd_inode ↦ put_inode f.ip
  | fd_device ↦ put_inode f.ip
]

-- `fileclose(f)`
pub fileclose : ℕ → Table → Option (Table × Closing)
fileclose i tb =
    let f = with_ref ((tb i).ref - 1) (tb i) in
    if ltb (tb i).ref 1
    then none
    else if ltb 0 f.ref
    then some (update tb i f, nothing)
    else some (update tb i (record f { ref = 0; type = fd_none }), closing f)
