-- ===== src/Lib.antt =====
-- lapis, a small kernel for x86_64: a verification library for its core.
--
-- The kernel hands out physical pages and the areas of address spaces (kernel/src/mm), runs threads
-- on several processors (kernel/src/sched), finds files by their paths (kernel/src/fs/vfs), gives
-- processes descriptors of open files (kernel/src/sched/fd.c and kernel/src/fs/vfs/kfile.c) and has
-- its own trees and byte, string and lock routines (kernel/src/util). The boot code builds the page
-- frame database from the memory map, and the page allocator then lists its free frames. An address
-- space keeps its areas in a red-black tree and maps pages of the allocator at a page fault. The
-- scheduler keeps a run queue for each processor; the wait queues take threads out of it and put
-- them back. A descriptor table counts its references to the entries, and the last one closes the
-- file.
--
-- The files:
--   Base: the shared names, the Boolean tests, the list functions, the machine words, stores.
--   Dll: doubly linked lists by their two link fields, as mm/pmm.c, sched/sched.c and
--     sched/waitqueue.c thread them through their objects: adding at either end, unlinking, the
--     head and tail pointers.
--   Rbtree: kernel/src/util/rbtree.c. A node is a constructor of an inductive tree, a pointer into
--     the tree is the subtree there with the frames of its ancestors, and a write through it
--     rebuilds the tree. Rbtree/Sequence has the objects in their order, which the clients of the
--     tree see.
--   Mm/Page, Mm/Pmm: kernel/src/mm/page.h and mm/pmm.c. `Pmm` has the static variables of pmm.c and
--     the descriptors by address; each function of pmm.c is one of the same name without its prefix
--     (`pmm_alloc_page` is `alloc_page`). Mm/Pmm/Inv says when the allocator is sound.
--   Mm/PfnDb: kernel/src/mm/pfn_db.c. The descriptors are an array by frame number.
--   Mm/Vmm: kernel/src/mm/vmm.c. The tree of a space is its sequence of areas; the page tables, the
--     page allocator and the heap are the records `Pages`, `CowPages` and `ForkPages` of operations,
--     over a machine state of their own. Mm/Vmm/Space has the operations on a whole space.
--   Vfs: kernel/src/fs/vfs/vfs.c and `strtok` of kernel/src/util/memory.c. Vnodes and file systems
--     by address; a string is the list of its bytes. The file systems below are the record `FsOps`
--     of operations, with a state of their own; Vfs/Drivers has the list of drivers, Vfs/Lookup the
--     walk along a path, Vfs/Ops the operations that start with one. The static pointer of `strtok` is
--     a `Cursor`: NULL, in a path, or in a path that `kfree` has taken. To read through the last kind
--     gives no state, since what the heap has put there is not modelled.
--   Dev: kernel/src/dev/driver.c, device.c and bus.c. Devices and drivers by address; `irq_request`
--     is a parameter, and the calls of a driver's `init` are a list.
--   Sched/Thread, Sched/Mlfq, Sched/Runqueue, Sched/Dispatch: kernel/src/sched/sched.c. A thread is
--     its address. Sched/Runqueue/Inv says when the run queues are sound; Sched/Dispatch has
--     `schedule`, ticks, wake-ups and exits.
--   Sched/WaitQueue: kernel/src/sched/waitqueue.c. `waitqueue_wait` is `wait_begin`, the scheduler,
--     and `wait_end`.
--   Fd: kernel/src/sched/fd.c. Tables and entries by address; what the last reference lets go is a
--     list of events.
--   Kfile: kernel/src/fs/vfs/kfile.c. The operations of the vnode are parameters.
--   Memory: kernel/src/util/memory.c, on bytes by address.
--   Spinlock, Semaphore: kernel/src/util/spinlock.c and util/semaphore.c, as relations of steps of
--     several processors. The value of a semaphore stays below 2 ^ 31.
--
-- Pointers are addresses, numbers from 0 (NULL) up; the flag bits of a page or of an area are truth
-- values; 32-bit and 64-bit words are numbers whose sums and differences wrap. Functions that change
-- shared objects take the state and give the new one, and each stands for one critical section of
-- its lock; a call that waits for a lock which it holds itself gives no state.
--
-- Fuel: `find_run`, the search of `pmm_alloc_pages`, gets two rounds more than the last frame
-- number, which is enough, since every round moves on by a frame at least. The boost of a level gets
-- one round more than its queue counts. The string loops get the length of the string and one. The
-- searches of `_find_free_gap` and `vmm_is_accessible` get one round more than there are areas,
-- since every round but the last passes an area. The walk along a path gets one round more than the
-- path has bytes; links are followed to a depth of one, so that the lookups are not recursive. The
-- loop of `waitqueue_wake_all` gets its fuel from the caller.
--
-- Not modelled: the heap (whether an allocation succeeds is a parameter), the page tables, the
-- change of the protection of an area, the NULL address spaces, the file systems below the VFS, the
-- buses, interrupts and logs, and all assembly and port I/O.
pub mod Base
pub mod Dll
pub mod Mm
pub mod Rbtree
pub mod Sched
pub mod Fd
pub mod Kfile
pub mod Memory
pub mod Spinlock
pub mod Semaphore
pub mod Vfs
pub mod Dev
