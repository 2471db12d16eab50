-- ===== src/Lib.antt =====
-- The kernel of the uCore labs: memory, processes and scheduling, files and devices, and the library
-- routines that they stand on.
--
-- Parts and files. lab8 is the complete kernel, and is the one modelled where labs repeat a file.
-- - Links (lab8/libs/list.h): circular doubly linked lists. An entry is an address, the pointers of
--   all entries are two functions, and each operation is its stores in order. Links.Chain has the
--   lemmas on chains of pointers, Links.Ring the operations on a well-formed ring.
-- - Mm: the page allocators. Mm.FreeArea has the state, one array of pages and the free list
--   (lab8/kern/mm/memlayout.h), and the loops over pages; Mm.BestFit is
--   lab2/Best-Fit/kern/mm/best_fit_pmm.c, Mm.FirstFit is lab8/kern/mm/default_pmm.c, and Mm.Place the
--   insertion loop that they share. A page is its index; its link has the address one above, and
--   the list head is 0. Mm.FreeArea.Blocks has the abstract view: the list of the free blocks.
-- - Heap (lab8/kern/mm/kmalloc.c): the kernel heap; what it gets from the page allocator is a list of
--   addresses in its state. Heap.Arena has the abstract view of the free list, Heap.Walk is about the
--   loop of `slob_free`, Heap.Free, Heap.Join, Heap.Insert and Heap.Freeing are about its two joins, and
--   Heap.Bytes about all of it. Heap.Taking, Heap.Beside and Heap.Cutting are about what `slob_alloc` does
--   to the block that it finds, Heap.Search is about all of it, and Heap.Restore about `kfree` of what
--   `kmalloc` returned; Heap.Orders is about `find_order`.
-- - Sched: Sched.Queue has the run queue and the fields of a process that scheduling uses
--   (lab8/kern/schedule/sched.h, lab8/kern/process/proc.h); Sched.Core is the class-independent part of
--   lab8/kern/schedule/sched.c and Sched.Timer its timers; Sched.RoundRobin is default_sched.c and
--   Sched.Stride default_sched_stride.c, both in that folder; Sched.SkewHeap is lab8/libs/skew_heap.h,
--   on trees, and Sched.SkewHeap.Pointers on the pointers of the entries; Sched.SkewHeap.Merging is about
--   their merge, and Places, Relinked and Removing beside it about removal.
--   A scheduling class is a record of operations, as in the source, and `schedule` takes one.
-- - Sync: wait queues and semaphores (lab8/kern/sync/wait.c and sem.c); Sync.Waits is about the
--   queues, Sync.Semaphore about semaphores.
-- - Vm (lab8/kern/mm/vmm.c): the areas of an address space. Vm.Areas has the well-formed spaces and
--   `find_vma`, Vm.Insert insertion, Vm.Map `mm_map`, and Vm.Access the check of user ranges.
-- - Fs (lab8/kern/fs): Fs.Iobuf is iobuf.c, Fs.File the table of open files of file.c and
--   Fs.Operations the operations on it; the operations on inodes are the fields of a record Vfs.
--   Fs.Bitmap is sfs/bitmap.c, the map of free blocks.
-- - Strings (lab8/libs/string.c): the routines on memory and strings; Strings.Number is `strtol`.
-- - Printing (lab8/libs/printfmt.c): numbers, and printing into a buffer. Printing.Numbers says what
--   `printnum` prints, Printing.Digits relates its characters to those of `strtol`, Printing.Buffer is
--   about `vsnprintf`, and Printing.RoundTrip about reading back what was printed.
-- - Stdin (lab8/kern/fs/devs/dev_stdin.c): the keyboard buffer. Stdin.Buffer has its abstract view, the
--   list of the characters that are to be read; Stdin.Waiting is about readers and the writer.
-- - Process (lab8/kern/process/proc.c): Process.Pid is about `get_pid`, Process.Table about `find_proc`
--   and what `do_fork` enters, Process.Family about the pointers between a process and its children,
--   Process.Exit about `do_exit` and Process.Wait about `do_wait`. The abstract view of a family is the
--   list of the children, the youngest first.
-- - Examples runs the code and the theorems on small inputs. Base has what all parts share.
--
-- The allocators and the wait queues call the list operations on their links; `schedule`, `wakeup_proc`
-- and `run_timer_list` call the scheduling class, and the timers and the wait queues call `wakeup_proc`.
-- The keyboard buffer wakes its readers through a wait queue, and `do_exit` a parent through `wakeup_proc`.
-- The I/O buffers and the copies from and to user memory call the routines on memory.
--
-- Outcomes. A result in Option is `none` where an assertion fails, or where a loop runs out of fuel.
-- Fuel: a search of the free list gets one round more than memory has pages, which is enough as the
-- blocks do not overlap and each has a page; the insertion loop gets three more, as it may also visit
-- the entry that it added. Unsigned
-- 32-bit counters, sizes and strides wrap at 2^32, user addresses and file positions at 2^64. The walk
-- of `user_mem_check` gets one round more than its range has bytes, as each round moves past a byte; a
-- string routine that ends at a NUL byte, `wakeup_queue`, and a walk through the processes run on the
-- fuel that they are given: `get_pid` needs MAX_PID walks and one more, as `last_pid` comes to a free
-- pid before it has been raised that often. The loops of the kernel heap run on the fuel that they are
-- given, and so does the merge of skew heaps on pointers; `find_order` gets more rounds than a size has
-- bits. `print_number` gets 64 calls, as many as a number has bits.
--
-- Not modelled: interrupts (the scheduler, the timers and the semaphores run with interrupts off, and
-- elsewhere a call is one step), the context switch, page tables, warnings, the tests that run at boot,
-- and the other parts of the kernel. An operation on an inode may change the table of open files in
-- the definitions, as another thread may meanwhile; the theorems about the table take ones that do not.
pub mod Base
pub mod Links
pub mod Mm
pub mod Sched
pub mod Strings
pub mod Printing
pub mod Vm
pub mod Fs
pub mod Sync
pub mod Stdin
pub mod Process
pub mod Heap
pub mod Examples
