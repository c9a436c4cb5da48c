-- ===== src/Lib.antt =====
-- xv6 for RISC-V (OS-Assignment3), with demand paging to a swap file: memory and processes, locks,
-- buffer cache, log, file system and pipes, and parts of the user programs.
--
-- The kernel keeps a process's memory as a page table, an array of 32 entries of paging data and a
-- circular queue of pages. At most 16 pages of a process are in memory; `uvmalloc` and the
-- page-fault handler write a victim to the process's swap file first, chosen by the policy that the
-- Makefile's SELECTION names. Pages come from a free list that is threaded through the free pages.
--
-- Proc: OS-Assignment3/kernel/proc.h and param.h, the process and its paging data.
-- Ring: kernel/vm.c, in, out, removePage. Ring/Queue and Ring/Remove have what they do to the queue.
-- Policy: kernel/vm.c, nfua, countOnes, lapa. Policy/Scan is the search that both make, Policy/Least
--   relates their loops to it, Policy/Choice says what they return, Policy/Ones counts bits.
-- Kernel: the state (memory in words, free list, process table, swap files) and commands over it.
-- Memory: kernel/kalloc.c, and walk, walkaddr, mappages, uvmclear of kernel/vm.c. Memory/FreeList
--   is the stack of free pages, Memory/Lookup the walk on low addresses.
-- Swap: kernel/vm.c, scfifo, page_to_file, swap_in, initAging, updateAging, getOffset, and the
--   page-fault branch of usertrap in kernel/trap.c. Swap/Scfifo and Swap/Victim, Swap/Evict,
--   Swap/Fault, Swap/Aging and Swap/Offset are about one each.
-- Uvm: kernel/vm.c, uvmunmap, uvmdealloc, uvmalloc, uvmcopy, uvmcreate; growproc of kernel/proc.c.
-- Pipe: kernel/pipe.c. A turn is what a call does while it holds the lock of the pipe. Pipe/Window
--   is the circular buffer, Pipe/Order what a turn does to its bytes, Pipe/Fifo and Pipe/Wake are
--   about any sequence of turns. copyin and copyout are a partial map from addresses to bytes and
--   a test of addresses.
-- Log: kernel/log.c. Commit and recovery are lists of disk writes, and a crash keeps a first part of
--   such a list. Log/Moves and Log/Install are about write_log and install_trans, Log/Crash about
--   crashes, Log/Reserve about begin_op, log_write and end_op.
-- Bytes: kernel/string.c, memset, memcmp, memmove, memcpy, on a map from addresses to bytes.
-- Bio: kernel/bio.c and kernel/sleeplock.c. The links of the buffers are two maps from indices to
--   indices. Bio/Order reads them as a list, Bio/Walk has the loops of bget along them, Bio/Unique
--   the buffers of a block, Bio/Get and Bio/Release the two calls.
-- Table: kernel/proc.c, sleep, wakeup, kill, yield, scheduler, reparent, exit, wait. A turn is what
--   a call does up to where it gives up the CPU. Table/Quiet, Table/Change and Table/Exit say what
--   the calls do to the tree of processes, Table/Wait and Table/Fork
--   are wait and the steps of fork, Table/Reach is any sequence of them all, Table/Kill is kill.
-- Process: kernel/proc.c, allocproc, freeproc, fork and their helpers; freewalk, uvmfree of
--   kernel/vm.c; copySwapFile of kernel/fs.c.
-- Fs: kernel/fs.c and fs.h, blocks as bytes, the bitmap with balloc and bfree, bmap, iupdate and what
--   ilock reads. Fs/Bits, Fs/Alloc, Fs/Used and Fs/Fresh are about the bitmap, Fs/Uint about numbers
--   in blocks, Fs/Content about the bytes of a file and what keeps it sound, Fs/Away about changes
--   elsewhere, Fs/Grow, Fs/Map and Fs/Bmap about bmap, Fs/Dinode about inodes on disk.
-- Io: kernel/fs.c, readi, writei, stati. Io/Pages is about copyin and copyout of kernel/vm.c, page by
--   page, over what walkaddr finds as a parameter; Io/Copy has the copies byte by byte, Io/Block a write into a block,
--   Io/Write and Io/Read the two calls.
-- Inodes: kernel/fs.c, the inode table with iget, idup, iput and ialloc, and itrunc. Inodes/Get is
--   iget; Inodes/Trunc, Inodes/Release and Inodes/Empty are itrunc.
-- PathName: kernel/fs.c, skipelem, and calls of it in turn; PathName/Elements is about both.
-- FileTable: kernel/file.c, filealloc, filedup, fileclose; FileTable/Calls is about
--   each, FileTable/Count has the reference counts.
-- Spinlock: kernel/spinlock.c as steps of CPUs. Spinlock/Nest is about push_off and pop_off,
--   Spinlock/Mutex about the lock.
-- Decimal: user/printf.c, printint, and user/ulib.c, atoi; Decimal/RoundTrip is about both.
-- Grep: user/grep.c. Grep/Regex has the language of an expression, Grep/Lines the lines of a text,
--   Grep/Reads the outer loop with its buffer. What read gives is a number for each call.
-- Shell: user/sh.c, the parser: gettoken, peek, parsecmd and what it calls. Shell/Shrink is about
--   tokens, Shell/Loops and Shell/Total about the end of the parser, Shell/Print and
--   Shell/RoundTrip about pipelines as text.
-- Base: lists, tests, integers. Sample: states for the tests, which stand in the Tests modules.
--
-- A function of the source is a command from a state to a result and a state, or a panic. Addresses,
-- sizes and `uint`s are natural numbers with their wrap-around written out where the code can reach
-- it; an `int` is an integer. A null pointer that is read, and an index outside `p->data`
-- (undefined in C), are faults. Loops recur on the number of rounds left: 32 for a bit count or a table, the length of the
-- queue at the start for `removePage` and `scfifo` (it never grows), the pages of the range for the
-- address-space loops. `removePage` and `mappages` return `none` or `stuck` without rounds left.
--
-- The loops of the file system recur on the blocks of the bitmap and the bits of one, on the bytes
-- that readi and writei still have to move (each round moves one at least), on the entries of a table
-- and on the length of a path. A panic of the file system is a value of its result. The parser of
-- the shell takes a number of levels of calls and is `stuck` without one left.
--
-- Not modelled: the locks of the parts other than Spinlock (each command, and each turn on a pipe,
-- runs by itself), the file layer under the swap file (its content is a map from offsets to words,
-- its success a flag of the state), the TLB, the buffer cache under the log and under the file system
-- (a map from blocks to contents, in which the blocks of a transaction stay), a write of a part of a
-- block by the log, the bytes of memory below a word, and the body of the loop of namex, with
-- dirlookup.
pub mod Base
pub mod Proc
pub mod Bio
pub mod Log
pub mod Bytes
pub mod Pipe
pub mod Ring
pub mod Policy
pub mod Kernel
pub mod Table
pub mod Memory
pub mod Swap
pub mod Uvm
pub mod Process
pub mod Fs
pub mod Io
pub mod Inodes
pub mod PathName
pub mod Decimal
pub mod Spinlock
pub mod FileTable
pub mod Grep
pub mod Shell
pub mod Sample
