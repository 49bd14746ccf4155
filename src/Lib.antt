-- ===== src/Lib.antt =====
-- OreOS: the kernel's memory, processes, threads and system calls, and the tables and images it parses.
--
-- The files and the code that they model:
-- Base and its children hold tests, lists, byte memory, bits and little-endian words that the parts share.
-- Boot models include/bootinfo.h, what the loader hands over.
-- Pmm models kernel/pmm.c. `Pmm` is the record of the static variables, with the memory that is handed out;
-- `alloc_pages` and `free_pages` are pmm_alloc_pages and pmm_free_pages, Pmm/Init is pmm_init.
-- Heap models kernel/heap.c. The chain of blocks behind heap_head is a list of blocks with their addresses.
-- Process models kernel/process.c and the structures of kernel/kernel.h. A pointer to a process is its index
-- in the table; the timer switch is `process_schedule_user_tick`.
-- Lifecycle models the calls of kernel/syscall.c that switch processes, ORE_SYS_EXIT, ORE_SYS_YIELD and
-- ORE_SYS_WAIT, without the count of the calls of a process. `Trap` is the process table with the variables
-- of the return to user code; Lifecycle/Return is about a wait and the exit that ends it.
-- Scheduler models kernel/scheduler.c and the timer interrupt of kernel/idt.c: the kernel threads, with
-- the run queues linked through the threads as in the code; Scheduler/Queue is the view of a queue as a
-- list.
-- Elf models kernel/elf.c. An image is memory from address 0 on.
-- Initramfs models kernel/initramfs.c. A string in the archive is its address, a file is the addresses of
-- its name and its data with the size.
-- Acpi models kernel/acpi.c, the firmware's tables in memory.
--
-- How they interact: the heap takes its pages from the page allocator, as a parameter of `kmalloc`; the
-- system calls use the process table and its search; a new process takes its page table as a parameter.
--
-- Numbers are natural numbers; the arithmetic of uint64_t and uint32_t is written out with remainders
-- (`add64`, `sub64`, `mul64`). Loops recurse on the number of rounds that are left. Loops over addresses
-- in pmm_init take the number of pages below the end as their rounds, which the loop cannot exceed, since
-- each round goes on by a page.
--
-- The loop over a tar archive has as many rounds as the archive has blocks of 512 bytes, and one more:
-- each round takes a block. The loop over the entries of a MADT has half its length and one more, since
-- an entry has two bytes or more. The walk along a run queue has 96 rounds, the number of all threads.
--
-- Vmm models kernel/vmm.c: the page tables are words of memory at the addresses that the walk computes,
-- and a table is made from a page of the allocator of Pmm. The bytes of memory in the record of Pmm hold what
-- processes and the kernel store, and the words hold the tables. Vmm/Tree describes where the tables of one root stand
-- (a tree of four levels), Vmm/Fresh, Grow, Next and Prepare are about new tables, Vmm/Leaf about a write to
-- an entry; Vmm/Map, Change and Protect see map_in_root, unmap_in_root and protect_in_root as changes of the
-- map from pages to entries, Vmm/User is about the root of a process, and Vmm/Init about vmm_init and
-- vmm_self_test, which kernel/main.c calls one after the other. Their loops over addresses have one round for each page between
-- the rounded ends of the range. The invalidation of the translation buffer and the write of CR3 are left
-- out. A panic is the result none.
--
-- Vfs models kernel/vfs.c on the root device of Block (kernel/block.c): Vfs has the names and the tests on
-- them, Vfs/Disk the mount of the disk and Vfs/Calls vfs_stat, vfs_read_file_at and vfs_readdir_path, with
-- the proofs in Calls/Read, Whole, Listing, Short and Directory. A name is the list of its characters; the
-- names of the initramfs and of the disk end within their fields. The read of a device is a field of its
-- record, and Holds says that it gives the bytes of a disk. Whether kmalloc has room for the sectors is a
-- parameter.
--
-- UserMemory models the parts of kernel/syscall.c that deal with the memory of a process: user_range_ok, and
-- the two system calls for pages, on the page tables of Vmm, the allocator of Pmm and the process record of
-- Process. UserMemory/Range, Pages and Release are about the three functions, Bytes about single bytes.
--
-- UserStrings models copy_from_user, copy_to_user, strlen_user and the copy of a string of a process, on
-- memory seen through the page tables (UserStrings/Copy and Store). Files models ORE_SYS_OPEN,
-- ORE_SYS_FILE_READ and ORE_SYS_CLOSE on the handles of Process, the strings of UserStrings and the calls of
-- Vfs (Files/Open and Read). A store to memory changes the byte and the word that holds it, which may be an
-- entry of a page table; that it leaves the records of the kernel and, in a read of a file, the data of the
-- file alone is taken for granted. UserStrings/Byte is about one such store.
--
-- Every operation under a spinlock is one step. Not modelled: device access, assembly, the firmware
-- loader, the console and the start-up, which act on hardware; kernel/net.c,
-- okmod.c, terrain.c and user.c, the other system calls, and the user programs.
pub mod Base
pub mod Boot
pub mod Pmm
pub mod Heap
pub mod Process
pub mod Lifecycle
pub mod Elf
pub mod Scheduler
pub mod Initramfs
pub mod Acpi
pub mod Vmm
pub mod Block
pub mod Vfs
pub mod UserMemory
pub mod UserStrings
pub mod Files
