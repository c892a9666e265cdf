-- ===== src/Lib.antt =====
-- The kernel of `xv6 modified/`, a teaching operating system for x86 with four schedulers, its grep
-- and wc, and the merge sorts of `Assignment concurrency /q1/Q1.c`. Each part is a module tree;
-- paths are those of the repository.
--
-- Base: the helpers that the parts share. Numbers are natural numbers; a 32-bit word has its wrap
-- around written out, and `Base.Int` has the integers that C's `int` values are.
--
-- Proc (`xv6 modified/proc.c`, `proc.h`): the process table. Types has `struct proc`, the queues
-- and the globals as the record Kernel; a `struct proc *` is the index of its slot. Queue has
-- `push`, `pop` and `remove` of the MLFQ levels; its Window reads a level as the list of the
-- processes it holds, oldest first, and the theorems are about that list. Lifecycle has
-- `allocproc`, `fork`, `exit`, `wait`, `waitx`, `sleep`, `wakeup1`, `kill` and `yield`; Accounting
-- has `set_priority`, `preempt`, `change_ticks` and `showps`; Sched has a round of each scheduler
-- of `scheduler`; Timer has the timer interrupt and the forced yield of `xv6 modified/trap.c`, the
-- slices that `main.c` sets, and the loop of `sys_sleep` in `sysproc.c`. Each function is one step
-- under `ptable.lock`. The endless loops of `wait` and `waitx` are modelled round by round, with a
-- result that says whether the caller sleeps. The policy that the build selects is a field of
-- Kernel. What a process does between the two switches of a scheduler is a parameter of Sched.
--
-- Log (`xv6 modified/log.c`): the disk writes of `commit` and of `recover_from_log` as lists, so
-- that a crash is a prefix of the list, and the bookkeeping of `begin_op`, `end_op` and
-- `log_write`. The buffer cache is a function from block to contents.
--
-- Spinlock (`xv6 modified/spinlock.c`): `pushcli` and `popcli` on one processor, and `acquire` and
-- `release` as a step relation on the lock and any number of processors, whose steps are the single
-- shared accesses.
--
-- Kalloc (`xv6 modified/kalloc.c`): the free list of pages. The address where the kernel ends and
-- the bound of physical memory are parameters.
--
-- Pipe (`xv6 modified/pipe.c`): the ring of 512 bytes with its counters modulo 2^32. A call runs
-- until it must wait. The wake-ups of the other end are left out.
--
-- File (`xv6 modified/file.c`): the table of open files and its reference counts. What fileclose
-- calls for the last reference is part of its result.
--
-- Sleeplock (`xv6 modified/sleeplock.c`): sleeping locks, over the kernel of Proc, whose sleep and
-- wakeup they call.
--
-- Ulib (`xv6 modified/ulib.c`, `printf.c`): strcmp, strchr, atoi and printint of the user library.
--
-- Str (`xv6 modified/string.c`, and `stosb` and `stosl` of `x86.h`): byte functions over a memory
-- that is a function from address to byte.
--
-- Grep (`xv6 modified/grep.c`): `match`, `matchhere` and `matchstar` on strings as lists, and an
-- inductive meaning of the expressions to compare them with.
--
-- Bio (`xv6 modified/bio.c`, `memide.c`): the buffer cache as the list of its buffers, most
-- recently used first, over the disk in memory. Keys is about which block has which buffer, Data
-- about their contents.
--
-- Fs (`xv6 modified/fs.c`): `balloc` and `bfree` over the bytes of the free map, in Icache the
-- inode cache, in Content `bmap`, `readi` and `writei` on the bytes of the blocks, with the hand-over
-- to a device as a result and the allocation of blocks over the free map, in Freeing
-- `itrunc` without its `iupdate`, in Directory `dirlookup`, and in Transfer `fileread` and
-- `filewrite` of `xv6 modified/file.c` on inodes. Path (`fs.c`): `skipelem`, `namex`, `namei` and
-- `nameiparent`; what a directory holds is a parameter there.
--
-- Syscall (`xv6 modified/syscall.c`): how arguments are fetched from the caller's memory, and the
-- dispatch. Sysfile (`xv6 modified/sysfile.c`): descriptors, on the files of File, with the
-- arguments that Syscall fetches.
--
-- Wc (`xv6 modified/wc.c`): the counting loops of `wc` over the buffers that `read` gives.
--
-- MergeSort (`Assignment concurrency /q1/Q1.c`): the plain merge sort, and the forking and the
-- threaded one as the interleavings of the steps of their two halves. A round of the selection sort
-- and a merge are one step.
--
-- Bounds and fuel. The table has 64 slots and a queue level 64 cells, and the loops over them run
-- for that many rounds. The aging loops of MLFQ re-read their bound in each round; they have fuel
-- for 64 rounds, which is enough since their index starts at 0 or above and stays below 64.
-- `freerange` has fuel for as many rounds as there are pages below its end. `strlen` has fuel for
-- the bytes it may read, and gives nothing without a NUL among them. `printint` fills at most the
-- 16 characters of its buffer, which is enough for ten digits. `balloc` has fuel for the rounds of
-- its outer loop, of which there are as many as the map has blocks; `namex` for one round more than
-- the path has bytes, since `skipelem` takes at least one byte; `readi` and `writei` for as many
-- rounds as bytes, `dirlookup` for a round for each entry and one more; the merge sort for the
-- length of its range, which shrinks.
--
-- Not modelled: devices, boot code, virtual memory, the freeing of inodes themselves, what adds to
-- and takes from directories, other traps and system calls, the user programs and library other
-- than those named, and the other assignments outside of `xv6 modified/`, which are programs around
-- threads, sockets and files of the host. Results of functions that belong to those (`copyuvm`,
-- `kalloc` where a client calls it) are arguments.
pub mod Base
pub mod Proc
pub mod Grep
pub mod Log
pub mod Kalloc
pub mod Spinlock
pub mod Pipe
pub mod File
pub mod Sleeplock
pub mod Ulib
pub mod Str
pub mod MergeSort
pub mod Bio
pub mod Path
pub mod Fs
pub mod Syscall
pub mod Sysfile
pub mod Wc
pub mod Tests
