-- ===== src/Lib.antt =====
-- Verification of the shadowOS kernel: functional models of its C code and theorems on them.
--
-- The kernel boots from Limine, which hands it a memory map and the offset of the higher half, and
-- runs processes in user mode under a timer. The parts that are modelled here, and the files:
--
--   Base           Shared names: Boolean tests, lists and bits over native numbers, and Outcome, the
--                  result of code that can fault, fail an assertion or spin on a lock for ever.
--   Memory         kernel/src/lib/memory.c. Block has memcpy, memmove, memset, memcmp over memory as
--                  a function from addresses to bytes. Chars has the string functions; an object is
--                  the list of its bytes from the pointer on, and `none` is an access past its end.
--                  Number has strtol, Dup has strdup and strndup, Tokens strtok and strtok_r.
--   Sched          kernel/src/proc/scheduler.c: scheduler_tick is `tick`, with its parts preempt,
--                  dispatch and reap. Files has the descriptor tables, Life scheduler_spawn and
--                  scheduler_exit. The process table is a list of 2048 optional entries; a process
--                  control block is changed in place, which is a write of its entry.
--   Pmm            kernel/src/mm/pmm.c: the stack of free pages, in Caches the caches that answer
--                  is_page_valid, in Boot pmm_init and pmm_vmm_cleanup, where Listed has the
--                  stack as a list of pages.
--   Vmm            kernel/src/mm/vmm.c: page tables in the physical memory of Pmm, in Words its words
--                  of eight bytes, in Walk the walk through the four levels, in Ranges
--                  map_range_to_pagemap of kernel/src/proc/scheduler.c.
--   Vma            kernel/src/mm/vma.c: the regions of virtual memory of a context, over Pmm and Vmm, in
--                  Regions the list that they form, in Alloc what vma_alloc does to it. The list is
--                  followed on fuel; more fuel than there are regions is enough.
--   Vfs            kernel/src/dev/vfs.c: nodes by address; in Access vfs_am_i_allowed, in Locks the
--                  calls that hold a node's lock while a file system works on it, in Paths the
--                  lookup of names and paths, in Delete vfs_delete_node, in Mounts vfs_init and the
--                  list of mounts. The operations of the file systems are function pointers, and
--                  any functions in the theorems. The lists of children and of mounts are followed
--                  on fuel; more fuel than they have entries is enough.
--   Ramfs          kernel/src/fs/ramfs.c: ramfs_read and ramfs_write; in Create ramfs_create, where
--                  Children says what it does to the children of a directory, Append has the
--                  lemmas on the list and Made what vfs_create_vnode leaves; in Archive the loader of
--                  the ustar archive, ramfs_init_ustar, with its components, rounds and entries.
--   Devfs          kernel/src/fs/devfs.c: the operations of devfs over those of the devices, in Added
--                  what a device that was added is read by.
--   Ports          kernel/src/dev/portio.c: a device is a state with two functions, one that answers a
--                  read of a port and one that takes a write. Drivers are runs over any devices;
--                  Logged has devices that note each access.
--   Idt            kernel/src/sys/intr.c: the interrupt table, in Registered what idt_init and the
--                  registrations of drivers leave in it. The stubs are assembler code and a parameter.
--   Spinlock       kernel/src/lib/spinlock.h: threads that acquire and release a lock, their steps in
--                  any order, in Exclusion what holds in all states that are reached.
--   Printk         kernel/src/lib/printf.c: in Ring the log buffer, in Files fwrite, in Format the calls
--                  with a format, over npf_vsnprintf as a parameter. The size of the ring is that of a
--                  section of the linker script, and a parameter.
--   Elf            kernel/src/proc/data/elf.c: the loading of programs, in Image what the pages hold.
--                  The file is a function from offsets to bytes.
--   Syscall        kernel/src/sys/syscall.c: the system calls over Sched and Vfs. Handler has the
--                  syscall_handler of kernel/src/sys/intr.c with the table of calls, Permission and
--                  Descriptors what the calls on files do.
--   Stdout         kernel/src/dev/stdout.c: the device of the standard output.
--   Rtc            kernel/src/dev/time/rtc.h and rtc.c: binary coded decimals and Unix time; in
--                  Calendar TIMESTAMP_TO_STRING, in Registers the reads of the clock's registers.
--   Keyboard       kernel/src/dev/input/keyboard.c: the handler and the read of the device, in Init
--                  what enables the controller.
--   Ps2            kernel/src/dev/input/ps2.c: the waits for the controller and the commands, in
--                  Polite the order of their accesses.
--   Pic            kernel/src/sys/pic.c: the mask of the interrupt controllers, in Ports what their
--                  data ports hold.
--   Pit            kernel/src/dev/timer/pit.c: the timer and its interrupts, in Ticks a run of them.
--   Pci            kernel/src/sys/pci.c: the accesses of the configuration space, in Space a device
--                  that keeps it.
--   Gdt            kernel/src/sys/gdt.c: the table of segments, in Descriptors what a processor takes
--                  out of it.
--   Tests          The theorems at concrete inputs.
--
-- A function that returns through a pointer or changes a global takes the state and returns it. The
-- scheduler asks memory.c for nothing but zeroed or allocated objects, whose addresses are parameters
-- of the model; scheduler_spawn gets the results of kmalloc, vma_create_context and vma_alloc as the
-- record Resources. The allocator behind kmalloc is a copy of another project's library, and is a
-- parameter: strdup and strndup assume of it only that an object is as large as it was asked for.
--
-- Integers are natural numbers, with the wrap-around of uint64_t written out where the code can reach
-- it. Most loops are recursions on the length of a text, on a count or on the memory map, so that no
-- bound on steps is needed: each of these is the number of rounds that the C loop makes. A path is
-- walked on the length of the path, since each round passes a byte of it. On fuel are the walks
-- of the linked lists above, the years of TIMESTAMP_TO_STRING, for which one per year since 1970 is
-- enough, the rounds over an archive, for which one per 512 bytes and one more is enough, and the
-- waits for a device: a device may never be ready, and a wait that has used up its fuel spins.
--
-- The clock is read at one time within a call of the virtual file system, although the code reads it
-- for each field that it sets.
--
-- Not modelled: messages to the log and calls that only print (pci_debug_log, vfs_debug_print,
-- kpanic); privileged instructions, which have no part in the values that the theorems speak of; the
-- start-up code of main.c, post.c and cpu.c, which is the order of the calls above on ranges that are
-- symbols of the linker script; vfs_get_full_path; what scheduler_exit gives back of the
-- page map, since an emptied entry of the table stands for the freed process; liballoc and nanoprintf,
-- which are libraries of other projects.
pub mod Base
pub mod Memory
pub mod Sched
pub mod Pmm
pub mod Vmm
pub mod Vma
pub mod Vfs
pub mod Ramfs
pub mod Devfs
pub mod Ports
pub mod Rtc
pub mod Keyboard
pub mod Pci
pub mod Pit
pub mod Ps2
pub mod Pic
pub mod Gdt
pub mod Idt
pub mod Spinlock
pub mod Printk
pub mod Stdout
pub mod Elf
pub mod Syscall
pub mod Tests
