-- ===== src/Lib.antt =====
-- ZeOS, the teaching kernel in ZeOSSysenter/zeos: 32-bit x86, one processor, interrupts off in the
-- kernel. Timer, keyboard and system calls enter it; each runs to its end or gives the processor
-- away in `task_switch`.
--
-- Parts and files
--   KernelList   list.c, include/list.h. The links of every `list_head` in memory are two functions
--                from addresses to addresses. The operations make the source's writes in its order.
--                Ring says what it means that a head's list is a sequence of nodes; Insert and Delete
--                are about the operations, and about lists they must not touch.
--   Mm           mm.c, include/mm_address.h, include/types.h. Frames is the byte map `phys_mem`;
--                Paging the page tables, an entry for each address.
--   Kernel       include/sched.h, include/stats.h, p_stats.c. The record `Kernel` is the state that
--                the kernel's functions share. The union of a task's struct and its stack is split:
--                `task` has the struct at an address, `links` its list node, `word` the stack.
--   Sched        sched.c, kernel-utils.S. A switch of tasks stores the frame pointer in the old
--                task and takes the new one's stack; what runs next is read from the stack pointer,
--                as `current()` does. Switch is about the switch, Policy about who comes next, Turns
--                about runs of clock ticks and yields, Alone about the only task that is ready.
--   Semaphore    sys.c, `sys_semCreate` to `sys_semDestroy`: arrays of ten that threads share.
--   Keyboard     interrupt.c, io.c, sys.c: the ring between `keyboard_routine` and `sys_getKey`.
--   Interrupt    interrupt.c: the gates and the clock's routine, which calls the scheduler.
--   Io           io.c, devices.c: the text console. Screen is about the cursor and the screen memory,
--                Sprites about `spriteDraw`.
--   Utils        utils.c: `access_ok`, the copy loops, `memset`. Memory is a byte for each address.
--   Sys          sys.c: Write, Exit, Heap (`sys_sbrk`), Fork, Thread, and the small calls. Below Fork:
--                Frames and Undo are about the frames of the child, Copy, Pages, Space and Child about
--                the copies, Prepare, Memory, Start and Queues about the state around them; Process
--                and Refusal are about the whole call. Below Heap: Pages is about a heap that grows,
--                Rollback and Exhausted about one that runs out of frames, Shrink about one that shrinks.
--                Report is about `sys_get_stats`.
--   Boot         mm.c, `init_mm`. Descriptors: `setGdt` and `setTSS`.
--   System       system.c, hardware.c: `main`, which calls the initialisers and goes to user mode. Queues,
--                Started, Tables and Memory are about the kernel's data after them, Booted about the
--                machine that `main` leaves, Runs about all that can follow.
--   Tasks        the life of the tasks: the task that runs, the ready queue and the free queue, as ticks,
--                yields (Switches), exits of processes and threads (Ends), threads (Threads) and forks
--                (Forks) move task structs between them. Life sets them against an abstract machine, Runs is about runs of events.
--   Libc         libc.c: `itoa` (Decimal, Numeral), `strlen` (Length) and `perror`. Hex: `put_hex` of
--                user.c.
--   Earlier      zeOSpparri, the kernel before this one: its tasks and scheduler (Sched), memory (Mm,
--                Boot), `sys_block` and `sys_unblock` (Blocks), Fork, Exit, Write, the
--                console, keyboard and clock (Devices), and `perror` (Libc). Code with the same text in both kernels is modelled
--                once: list.c, the map of frames, the entries of page tables, the copies.
--   Errno        include/errno.h.
--   Base         the shared names, Boolean tests, lists of addresses, and C's integers.
--   Tests        a small kernel state and the theorems applied to it.
--
-- Integers. `int` and `unsigned` are bit patterns below 2^32: `add32` and `sub32` wrap, `is_neg`
-- reads the sign, `neg n` is the pattern of -n. Loops over a fixed range recurse on the rounds left.
-- `copy_data` and `sys_write` recurse on the number of bytes, of which each round takes at least one.
-- The loop of `sys_semDestroy` has eleven rounds: ten tasks at most can be blocked. The loops of
-- `sys_sbrk` and `sys_exit` have 1048577 rounds: each moves the heap pointer by a page, and the
-- address space has 1048576 pages.
--
-- What calls return. A system call is a function from the state to its result and the state. A
-- blocked caller of `sys_semWait` gets its result when it runs again; the state is the one in which
-- the next task goes on.
--
-- Parameters. `zeos_show_clock` is not in the repository as source and is an argument. The addresses
-- of the kernel's objects come from the linker and are the record `Layout`. The clock that `get_ticks`
-- reads is a sequence of values.
--
-- `sys_fork` and `sys_threadCreate` return an option: `none` is a page fault in the kernel, when a page
-- is accessed that the table does not map. The model has no translation cache, whose stale entries can
-- hide such a fault. The copy of the heap has 1048577 rounds: each moves the pointer by a page at
-- least. In the earlier kernel the walks of `sys_unblock` and `sys_exit` over the list of children take
-- their fuel as an argument, since the list need not come back to its head. `none` of `sys_unblock` is
-- a walk that has not ended; the `Outcome` of `sys_exit` tells such a walk from a page fault.
--
-- `set_handlers`, which `setIdt` calls, is in no source of the repository either and is an argument of
-- `main`. The image of the user's program is what memory holds at the start. An event of a run is a call
-- that has what it needs: calls that fail, the semaphores' queues and the calls that move no task
-- struct are no events, and are treated on their own.
--
-- Not modelled: the assembly of boot and interrupt entry; the loading of the table registers; the rest
-- of the user programs; and build.c.
mod Base
pub mod KernelList
pub mod Mm
pub mod Kernel
pub mod Sched
pub mod Errno
pub mod Utils
pub mod Io
pub mod Semaphore
pub mod Keyboard
pub mod Interrupt
pub mod Sys
pub mod System
pub mod Tasks
pub mod Boot
pub mod Descriptors
pub mod Libc
pub mod Hex
pub mod Earlier
mod Tests
