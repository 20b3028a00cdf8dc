-- ===== src/Lib.antt =====
-- The kernel of Pintos, as this repository extends it with user processes and virtual memory: the
-- scheduler and its locks, linked lists, the interrupt queue, the page allocator, bitmaps, block
-- devices, paging, swap, the frame table, the file system's inodes and open files, the loading of
-- programs, the system calls on open files, and the routines of the C library that these call.
--
-- How the parts interact. `struct bitmap` (src/lib/kernel/bitmap.c) keeps the free slots of swap,
-- the free sectors of the file system and the free pages of src/threads/palloc.c. src/vm/swap.c stores pages in slots of eight sectors of a
-- block device; src/vm/frames.c hands out page frames, evicts pages to swap by the clock algorithm,
-- and maps pages through src/userprog/pagedir.c. src/filesys/inode.c keeps a file in consecutive
-- sectors that src/filesys/free-map.c allocates, src/filesys/file.c gives it a position, and
-- src/userprog/syscall.c gives a process descriptors of open files. src/threads/synch.c builds
-- semaphores, locks and condition variables on the scheduler of src/threads/thread.c.
-- src/devices/intq.c wakes its threads through that scheduler. src/userprog/process.c enters the pages
-- of an executable into the supplemental page table of src/vm/page.c, and lays out the stack of the
-- new process with the strings of src/lib/string.c.
--
-- Files and what they model:
--   Base: names shared by all files; lists over machine numbers, the outcome of a kernel function,
--     Boolean tests, 32-bit words and their bits.
--   Bitmap: src/lib/kernel/bitmap.c. The elements are 32-bit words and the bit operations those of
--     the code. Functions keep their names without the prefix `bitmap_` (`set_bit` is `bitmap_set`,
--     `holds` the bit that `bitmap_test` reads, `none_set` and `all_set` are `bitmap_none` and
--     `bitmap_all`).
--   Paging: src/threads/vaddr.h, src/threads/pte.h and src/userprog/pagedir.c. A page table entry is
--     a record of its fields, a page directory a map from indices to page tables.
--   Block: `block_read` and `block_write` of src/devices/block.c; the driver is a store of sectors.
--   Vm: src/vm/swap.c (Vm.Swap), the state of src/vm/frames.h and src/vm/page.h (Vm.State),
--     src/vm/frames.c (Vm.Frames), and src/vm/page.c (Vm.Pages), where `find_page` is the search of
--     the hash table and `grow_stack` and `swap_in` are cases of `page_fault_identifier`.
--   Threads: the scheduler of src/threads/thread.c. A thread is named by its address; the list of
--     ready threads is a sequence of such names.
--   Synch: src/threads/synch.c. `sema_down` is cut into the passes of its loop (`down_pass`),
--     `lock_acquire` into its assertion, those passes and `lock_take`, `lock_release` into
--     `lock_drop` and `sema_up`; Synch.Lock is the relation of their steps, with any steps of other
--     code in between.
--   Filesys: the state of the file system and the table of open inodes of src/filesys/inode.c;
--     Filesys.Data is `inode_read_at` and `inode_write_at` (the field `data` of an inode is `disk`),
--     Filesys.FreeMap is src/filesys/free-map.c, Filesys.Create is `inode_create` and `inode_close`,
--     Filesys.File is src/filesys/file.c, and Filesys.Denial runs of its calls on the open files of one
--     inode.
--   Syscall: the calls on open files of src/userprog/syscall.c.
--   Links: src/lib/kernel/list.c on a heap of links. Links.Abstract is the same operations on plain
--     sequences, and Links.Refine compares the two. Elsewhere a list is such a sequence.
--   Intq: src/devices/intq.c. `wait` and `signal` are one function for each condition, and the calls
--     that may sleep are cut into the test of their loop and what follows it.
--   Text: src/lib/string.c on the byte at each address; `copy_up` and `copy_down` are the loops of
--     `memcpy` and `memmove`, `fill` that of `memset`. Text.Copies adds the bounded copies.
--   Palloc: src/threads/palloc.c; `hand_out` and `give_back` are what `palloc_get_multiple` does behind
--     its search and `palloc_free_multiple` with the pool that it finds.
--   Divide: src/lib/arithmetic.c, with the two cases of `udiv64` as functions of their own.
--   Process: src/userprog/process.c. `segment_of` is what `load` computes for a segment, `load_segment`
--     enters its pages, `first_word` is how `load` finds the name of the executable, and
--     `setup_arguments` is `setup_stack` from its copy of the command line on, with `start_arguments`
--     from the second check of the space: a stack that leaves its one page ends the process.
-- In each, Tests holds concrete runs and the theorems at them.
--
-- Conventions. A function that may fail returns an `Outcome`: a value, the exit status of the process
-- that it kills, or `panic` where an assertion fails. Words are numbers, with `% 2 ^ 32` where the
-- code wraps. Pointers are addresses, and objects that code shares stand in a store at their address.
-- What `malloc`, `calloc` and `palloc_get_page` return is an argument. A loop over an index is a
-- recursion on the rounds that are left. The clock of `frame_evict` has fuel for two rounds of the
-- hand and one step, after which every accessed bit has been cleared once; it returns none when that
-- runs out. The loops of `inode_read_at` and `inode_write_at` have as many rounds as bytes asked for,
-- since a round takes at least one. The loops of lists and strings take the rounds that they may make
-- as an argument, and `panic` when these run out; their theorems say how many are enough.
--
-- Not modelled: the decoding of faults in src/userprog/exception.c, the other calls of `load` and the
-- semaphores between a process and its parent, directories, hash tables, `malloc`, and sorting;
-- these come next.
-- Drivers, start-up code, interrupts, formatted output, user programs and tools are left out: they
-- are input and output, assembly or code that does not run in the kernel. `filesys_open` is an
-- argument of `system_open`, and the words that a process reads from its memory are given by a
-- function. Each function that holds a lock throughout, or runs with interrupts off, is one step. So are
-- the calls of `frame_evict` and `palloc_free_multiple`, which hold none: their theorems are about
-- calls that no other one interrupts. An exit keeps no state, and with it the `frame_free` that
-- precedes the exits of src/vm/page.c.
pub mod Base
pub mod Bitmap
pub mod Paging
pub mod Block
pub mod Vm
pub mod Threads
pub mod Synch
pub mod Filesys
pub mod Syscall
pub mod Links
pub mod Intq
pub mod Text
pub mod Process
pub mod Divide
pub mod Palloc
