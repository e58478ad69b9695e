-- ===== src/Lib.antt =====
-- Geniux: a small protected-mode kernel for the i386, and what its C code does.
--
-- The program's parts, and the files here that model them:
--   Base      shared notation, numbers, lists, memories, and `Outcome`, how a kernel call ends:
--             ASSERT and PANIC (kernel/debug.h, kernel/debug.c) are `panic`.
--   Links     lib/kernel/list.c: doubly linked lists with two guards, under every queue of the
--             kernel; a store maps an element's address to its two pointers.
--   Bitmap    lib/kernel/bitmap.c: the bitmaps of the page allocator, over bytes of memory.
--   Str       lib/string.c: blocks and strings in memory, one address for each byte.
--   Interrupt kernel/interrupt.c: the interrupt flag, the vector tables, the two 8259A chips.
--   Sync      thread/sync.c: semaphores and reentrant locks; Sync/System interleaves threads that
--             share one lock, by steps that another thread cannot divide.
--   Thread    thread/thread.c with the activation of userprog/process.c: the ready list, the idle
--             thread, blocking, waking, yielding, and the creation of threads.
--   Ioqueue   device/ioqueue.c: the ring of characters between keyboard and readers.
--   Timer     device/timer.c: the clock interrupt, the sleeping calls and the timer's ports.
--   Paging    kernel/memory.c: addresses of page-table entries and the translation by them.
--   Alloc     kernel/memory.c: frames, ranges of pages, their mapping, the partition of memory and
--             the arenas' geometry.
--   Malloc    kernel/memory.c: sys_malloc and sys_free, over Alloc's pages.
--   Keyboard  device/keyboard.c: scan codes to characters, with the keys that modify them.
--   Ide       device/ide.c, lib/kernel/io.h: disk channels, sectors, partition tables. The drive is
--             a parameter: what a port reads and writes does to it (`Ports`); Ide/Data and
--             Ide/Writer say what is assumed of a drive: what the commands READ SECTORS and WRITE
--             SECTORS promise of one sector, and for more than one that there is no pause between
--             the sectors of a command (`Prompt`, `PromptWriter`).
--   Tss       userprog/tss.c: the task state segment and the descriptors of user segments.
--   Process   userprog/process.c: page directories, ranges and first threads of processes.
--   Stdio     lib/stdio.c: numbers and formats printed into memory.
--   Console   device/console.c, and the loops of lib/kernel/print.S: strings and numbers printed by
--             the thread that has the console's lock.
--   Syscall   userprog/syscall-init.c, lib/user/syscall.c and the entry of kernel/kernel.S: the table
--             of system calls and the calls; `printf` of lib/stdio.c and `printk` of
--             kernel/stdio-kernel.c, which print by them.
-- The clock calls the scheduler, the scheduler pops the ready list, locks put threads on waiter
-- lists and block them, the character queue uses locks, the allocator uses the bitmaps, the heap
-- uses the allocator, the disk driver waits on a semaphore that its interrupt raises, a process is a
-- thread with a page directory and a range of the allocator's, and `printf` of a process reaches the
-- console by a system call.
--
-- Each function has the name of the C function. State goes in and comes out as a record; a thread
-- is the address of its task_struct, 0 is NULL. A list of threads is a sequence where Links
-- shows that the pointers behave as one. Words keep their wrap-around (`% 2 ^ 32`), written out
-- where it can occur.
--
-- Fuel: loops over strings, linked lists and the clock run on fuel, since the C loops end only if
-- memory has the right shape. The theorems give the fuel that is enough: more than the length of
-- the string or list, and for `itoa` one for each digit, at most 10 for 32 bits in base 10 or 16.
-- The loops of bitmaps, pages and sectors run on their bound. The search for partitions runs on a
-- bound of the depth of its recursion.
--
-- A call that blocks ends there: Sync and Ioqueue give what the thread does when it goes on as a
-- definition of its own, and Sync/System puts the pieces together.
--
-- Not modelled: the boot loader, the interrupt entries and the switch of stacks in assembly, the
-- cursor and the video memory, the loops of `ide_init` over the drives, the order of `init_all`, the
-- demonstration in main.c, and `newstrcat`, which writes into a string literal. Ports are lists of
-- writes (Timer, Interrupt) or the parameter of Ide.
pub mod Alloc
pub mod Base
pub mod Bitmap
pub mod Console
pub mod Ide
pub mod Interrupt
pub mod Ioqueue
pub mod Keyboard
pub mod Links
pub mod Malloc
pub mod Paging
pub mod Process
pub mod Stdio
pub mod Str
pub mod Sync
pub mod Syscall
pub mod Thread
pub mod Timer
pub mod Tss
