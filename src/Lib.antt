-- ===== src/Lib.antt =====
-- The kernel of OS_edf, a teaching operating system (in the line of uCore) whose scheduler runs the
-- process with the earliest deadline first. The C functions are functions here, on explicit state;
-- the names are the source's, in lower case.
--
-- The parts and how they interact:
-- - Heap (kern/libs/heap.c, libs/heap.h): the array heap that orders the waiting processes by their
--   deadline. Cells, Up, Down and Pop are about its loops, Contract about what a client relies on.
-- - Sched (kern/schedule/sched.c, sched.h): schedule, wakeup_proc and the timers over a scheduling
--   class, which is the record SchedClass of operations as in the source. Timers is about the timer
--   list. Sched/Edf (sched_MY.c) and Sched/RoundRobin (sched_RR.c, sched_MLFQ.c) are the classes.
--   The EDF class keeps its queue in the heap, which Edf/Invariant ties to the process table;
--   Edf/Schedule composes the class with the core, Edf/Ticking is about the clock tick.
-- - Process (kern/process/proc.c, libs/hash.c): the set of the processes. Process/Pids is get_pid,
--   Process/Family the pointers between parents and children, Process/Exit how processes exit, wait
--   and sleep, up to the switch to another process, and Process/Fork the making of a process
--   over any scheduling class, which wakes it up through Sched.
-- - Links (libs/list.h): the circular list of pointers, which Ring reads as a sequence of entries.
--   Run lists, timer_list, proc_list and the hash buckets of the other parts are such sequences.
-- - Wait (kern/sync/wait.c, wait.h): the wait queues, over Links and the wake-up of Sched.
-- - CString (libs/string.c, and the assembly of libs/x86.h that strcmp, strcpy, memset, memmove and
--   memcpy are): the string and memory routines over a byte memory.
-- - Number (printnum of libs/printfmt.c, strtol of libs/string.c), Printf (vprintfmt and vsnprintf of
--   libs/printfmt.c) and Rand (libs/rand.c): numbers and formats as text. What putch gets is a list of
--   characters, which Printf/Buffer puts into the buffer.
-- - Buddy (kern/mm/buddy_pmm.c): the page allocator. Cover counts the free blocks that a page lies in,
--   State says that a flagged page heads a block in the list of its order and that the counters are
--   the lengths, Homes that the head of a listed block has the flag and the order of the list, that
--   blocks stay in their zones and that no page lies in two of them. Split
--   and Merge are about one block, Alloc, Trim, Release, Ranges and Rising about requests for any
--   number of pages, and OnePage about a single one.
-- - Frames (kern/mm/pmm.h, memlayout.h): the contents, counters and flags of the physical pages over
--   Buddy. Swap (kern/mm/swap.c): the swap entries and the two lists of swapped pages, with Space for
--   what reads and writes the swap space; Around and Search are about the choice of an entry, and
--   Refill about refill_inactive_scan.
-- - Paging (the page tables of kern/mm/pmm.c), over Frames and Swap: Range has the loops over
--   addresses and Fault the part of do_pgfault (kern/mm/vmm.c) that maps a page; Tables, NewTable and
--   GetPte are about get_pte, Entries, Drop, Release, Replace, Insert and GetPage about page_insert,
--   and Remove about page_remove.
-- - Vm (kern/mm/vmm.c): the areas of an address space. Insert, Find, Split, TakeOut, Unmap and Middle
--   are about the steps of Map and Unmapping; Space has the other operations, Access and Faults the
--   checks of user memory and the page faults behind them, Gap the search for a free range, and
--   Index the search in the red-black tree.
-- - Kernel: the process record and the globals that these parts share. Prelude: numbers and lists,
--   and Prelude/Run the outcomes of C code.
--
-- The model:
-- - A pointer is a number and NULL is 0; what it points to stands in a table such as `procs`.
-- - `Run` has the outcomes of a call: it returns (ok), it panics or an assert fails (panic), it loops
--   for ever (hang, the while(1) of heap.c), it leaves an array (fault), its thread goes to sleep
--   for kswapd in the middle of it (suspend), or the fuel of a loop is used up (out_of_fuel).
--   `Ends P r` says that r returns and that P holds of the value, so a theorem with it rules out the
--   other five.
-- - int is the integers without overflow, which C leaves undefined; unsigned fields wrap at 2^32
--   where the code adds to them.
-- - Loops on fuel: sinking and rising in the heap have as much fuel as the heap has entries, since
--   each step moves the position up or down a level. get_pid has MAX_PID walks: each walk that does
--   not end has passed a pid in use, and MAX_PROCESS processes leave a pid free. A string loop needs
--   more fuel than the length, and waking a wait queue up as much as its length.
-- - Interrupts are off in all functions here, so each call is one step.
--
-- - user_mem_check has fuel for one round more than there are areas, since each round passes the end
--   of one. printnum has 32 rounds for numbers below 2^31 and 65 in the conversions, as each digit
--   at least halves what is left. The loops over the orders of blocks are bounded by MAX_ORDER, and
--   the search for a swap entry has a round for each offset. The loops over ranges of addresses have
--   fuel that their caller gives; a round for each page of the range is enough.
--
-- Not modelled: hardware (context switches, registers, the TLB, ports, trap frames, the swap device),
-- the console, and so far execve, the slab allocator, shared memory, kswapd and swap_out_vma, the
-- writes of the red-black tree, system calls and the user library. What kmalloc and the page allocator
-- give to a fork or to an area is an input; the areas log the ranges they unmap. An
-- alloc_pages that finds no block asks try_free_pages as the source does, but the model stops where
-- the thread sleeps for kswapd: what happens from there on is not modelled.
pub mod Prelude
pub mod Heap
pub mod Kernel
pub mod Sched
pub mod CString
pub mod Process
pub mod Links
pub mod Wait
pub mod Vm
pub mod Number
pub mod Printf
pub mod Rand
pub mod Buddy
pub mod Frames
pub mod Swap
pub mod Paging
