-- ===== src/Lib.antt =====
-- The xv6 kernel of this repository (C, directory kernel/) with its scheduler of three queues (MLFQ).
--
-- Parts and files. Functions keep the names of the source; a function that may sleep is cut where it
-- sleeps, and the cut is named in the comment above it; kexit, which may sleep in fileclose, begin_op
-- and iput, is one step. A pointer into a table is an index, a null pointer is 0 or `none`, panic() is `panic` of Base/Results.
--   Base         numbers, Boolean tests, lists as arrays, results of code that may panic
--   Kalloc       kernel/kalloc.c: the free list, stored in the free pages (Mem: words and head)
--   Spinlock     kernel/spinlock.c: one lock, CPUs whose accesses interleave (System, run); the two reads
--                of holding() are one step with the push_off before or the write after them
--   Proc         kernel/proc.h: struct proc and its states
--   Proc/Mlfq    kernel/proc.c scheduler(), kernel/trap.c clockintr(): scan, charging, aging
--   Proc/Wakeup  kernel/proc.c wakeup, sleep, yield, sched, kkill, setkilled, killed
--   Proc/Life    kernel/proc.c allocproc, freeproc, kfork, reparent, kexit, kwait
--   Str          kernel/string.c over memory as a function from addresses to bytes
--   Pipe         kernel/pipe.c: the ring with two wrapping counters, and the two loops
--   Log          kernel/log.c: every write to the disk in order, and the reservation of log space
--   Bio          kernel/bio.c and kernel/sleeplock.c: the cache as a list in order of use
--   File         kernel/file.c: the table of open files and the pieces of filewrite
--   Console      kernel/console.c: the ring with its three counters, the interrupt handler, the readers
--   Fs           kernel/fs.c. Fs/Volume: blocks as arrays of bytes; Fs/Bitmap: balloc, bfree; Fs/Dinode:
--                ialloc, iupdate, ilock; Fs/Itable: iget, idup, stati; Fs/Blocks: bmap, itrunc; Fs/Content:
--                readi, writei; Fs/Refs: iput, ireclaim; Fs/Dir: dirlookup, dirlink; Fs/Path and Fs/Names:
--                skipelem, namex
--   Virtio       kernel/virtio_disk.c: descriptors and rings (Disk); Virtio/Requests: the requests in flight
--                and what makes a state valid; Virtio/Machine: driver and device as a step relation
--   Sysfile      kernel/sysfile.c. Sysfile/Fds: descriptors; Sysfile/Paths: sys_link, sys_unlink; Sysfile/Make:
--                create, sys_mkdir, sys_mknod, sys_chdir; Sysfile/Open: sys_open, sys_read, sys_fstat
--   Sysproc      kernel/sysproc.c and the arguments of system calls
--   Printf       kernel/printf.c: what is written, from the format and the arguments
--   Uart         kernel/uart.c: the register of one byte that is sent, and the interrupt handler
--   Trap         kernel/trap.c and kernel/syscall.c: what the handlers do, in order
-- How they interact: Proc/Life takes pages from Kalloc and uses wakeup of Proc/Wakeup; wakeup and
-- the new processes of allocproc set the fields that Proc/Mlfq schedules by; Fs/Path copies names
-- with memmove of Str; Fs/Content reads and writes the blocks that Fs/Blocks takes from Fs/Bitmap,
-- and Fs/Dinode writes the inode back; the counters of Console are those of Pipe; `wakeup` keeps the
-- range that Proc/Mlfq/Levels relies on; Sysfile joins the table of File with the inodes of Fs; the handler
-- of Uart calls that of Console.
--
-- Interfaces. The functions of vm.c, whose source is not in the repository, are the record Vm of
-- Proc/Life/Ops, and arguments in Sysproc; those of files and inodes that kfork and kexit call are the record Files. copyin
-- and copyout of the pipe, the console, readi and writei (there with the bytes that arrive), writei
-- of filewrite, and what runs between two context switches of the scheduler are arguments.
--
-- Bounds and fuel. freerange runs at most pa_end / 4096 + 1 rounds, which kinit-FreeList shows to be
-- enough. strlen and the loops of skipelem take fuel above the length that they pass over. filewrite
-- takes one round for each 3072 bytes. balloc takes size / 8192 + 1 rounds, readi and writei at most
-- one for each byte, consolewrite too, control-u of the console 128, a scan of a directory size / 16
-- + 1; namex takes fuel above the length of the path, in Sysfile MAXPATH. free_chain takes nine rounds: each
-- frees a descriptor of eight or panics. virtio_disk_intr takes a round for each entry between the two indices.
-- printint takes 64 digits; printf takes fuel above the length of the format and of the strings. All other loops are recursions on lists or
-- counts. The pipe's counters wrap at 2^32; counters that the source only counts up (ticks, pids,
-- references) are numbers without a bound. A count below 0 is not represented.
--
-- Fs has one disk, block buffers are the blocks themselves, and sleeplocks of inodes are not part of its
-- state; what is handed to log_write() is a list.
--
-- Not modelled: plic.c, start.c and main.c (device and machine registers), exec.c and page tables, sys_write,
-- sys_exec and the system calls that only pass an argument on, and the exercises in Coding/ and Notes/. In Virtio
-- the device is a step that answers a published request with status 0, and not while the interrupt
-- handler runs; virtio_disk_rw is two steps, up to its first sleep and after its last. In Uart the port transmits
-- and interrupts as steps of their own.
pub mod Base
pub mod Kalloc
pub mod Spinlock
pub mod Proc
pub mod Str
pub mod Pipe
pub mod Log
pub mod Bio
pub mod Console
pub mod File
pub mod Fs
pub mod Trap
pub mod Virtio
pub mod Sysfile
pub mod Printf
pub mod Sysproc
pub mod Uart
