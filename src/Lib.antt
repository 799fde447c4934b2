-- ===== src/Lib.antt =====
-- Verification of the kernel: its memory managers, lists and strings, scheduler, program loader, file
-- systems, disk driver, input and console.
--
-- The parts and how they interact. The frame allocator (mem/pmm.c) hands out physical frames to the
-- paging code (mem/paging.c), which allocates pages of the kernel heap and maps frames into the
-- address spaces of processes. Lists (util/list.c) carry the run queues, the lists of waiting
-- threads and the regions of address spaces. The scheduler (sched/sched.c, sched/thread.c) moves
-- threads between a CPU and its queue. The routines of util/stdlib.c serve all of them, and the
-- PS/2 drivers (drivers/input) feed the console. The kernel heap (mem/kheap.c) lies in the pages
-- that paging allocates, and gives out the addresses that the other parts take as arguments. The
-- system calls keep the descriptors of a process, whose nodes the virtual file system (fs/vfs) finds
-- through canonical paths and mount points, in the file systems ext2 (fs/ext2) and FAT (fs/fat),
-- whose blocks the disk driver (drivers/storage/ata/ahci) transfers. Devices are found on the PCI
-- bus (drivers/pci). A program is loaded (util/elf.c) into an address space with frames of the frame
-- allocator, and starts on a stack that holds its arguments.
--
-- Base: the names and tests shared by all modules, lists and stores with native indices, byte facts.
-- Store: a heap of records by address, with commands that fault on a cell that is not allocated.
-- Pmm: mem/pmm.c. The bitmap is a function from byte numbers to bytes; pmm_alloc, pmm_free,
--   pmm_reserve, pmm_release, their runs of pages, pmm_init, bitmap_get, bitmap_set and pmm_request
--   keep their names. Addresses wrap at 2 ^ 64, and NULL is the address of frame 0.
-- LinkedList: util/list.c, on a heap of nodes. The address of a new node is an argument, as kmalloc
--   chooses it; `none` is a fault. The count wraps at 2 ^ 32. Its children prove the links, the
--   pushes, the pops, the removal and the insertion.
-- Paging: mem/paging.c. Address indices, frames, page_kernel_alloc4k with its two searches,
--   page_kernel_map_memory, page_kernel_free4k; Paging.UserMap has page_map_memory, page_mk_table
--   and page_getphys, Paging.Regions the regions of an address space, whose list is its contents
--   with the count that list_insert leaves. The address of the kernel's tables is an argument.
--   Paging.TableApart, Paging.Isolation and Paging.Runs follow a map whose tables are pages of the
--   kernel heap through the mapping of a run of pages. A table for which no frame is left is outside
--   the model.
-- Elf: util/elf.c and check_elf_hdr of sched/sched.c, on the bytes of a file, of physical memory and
--   the models of Paging and Pmm. The loop over the pages of a segment takes fuel: more rounds than
--   the segment has pages are enough.
-- Exec: prepstack of sched/sched.c on the memory of the new process, and the arguments of sys_execve.
-- Ahci: drivers/storage/ata/ahci/ahci.c. What successive reads of the registers give, and what the
--   controller does with a command, are arguments; the wait for completion takes fuel, and a port
--   that answers is one for which the fuel is enough and the command ends without an error. The
--   port's buffer is a page apart from other memory, and a transfer of more than its 8 sectors faults.
-- Pci: drivers/pci/pci.c. The port instructions are a record of operations on a state, and their
--   laws, those of a configuration space of 32-bit registers, a second record; only the registers that
--   it names plain read as they are written.
-- Stdlib: util/stdlib.c and util/math.c on a memory of bytes. A loop up to a NUL or down to a zero
--   quotient takes fuel: the length of the string plus one, or the number of binary digits plus
--   one, is enough. The number routines give the text instead of the buffer.
-- Printf: vsnprintf of util/printf.c on lists of arguments; the number routines take 65 rounds of
--   fuel, one more than a number has bits.
-- Sched: schedule, thread_block, thread_unblock, thread_kill, thread_exit, thread_sleepuntil,
--   sched_kill and the choice of CPU in thread_spawn. A saved context is one value; the lists are
--   their contents. Sched.Semaphores has the semaphores and mutexes of sched/sched.c.
-- Input: drivers/input/keyboard/ps2kb.c and drivers/input/mouse/ps2mouse.c. The byte that the port
--   gives is an argument, and a store outside an array is `none`.
-- Console: sys/console.c and the drawing of drivers/gfx/fb/fb.c, on a framebuffer of pixels. The font
--   is an argument, and the depth is 32.
-- Kheap: mem/kheap.c, as the blocks in the order of their links. kmalloc calls itself after each
--   expansion and takes fuel: three rounds are enough. An expansion is on 64 bits.
-- Vfs: fs/vfs/path.c and the strtok of util/stdlib.c on buffers whose end faults; Vfs.Mount has
--   fs/vfs/mount.c and vfs_resolve_path on a tree of entries. The loop over tokens takes fuel: more
--   rounds than the path has bytes are enough. A token of 1000 bytes or more, for which its buffer has
--   no room, is a fault. The operations of a node are arguments.
-- Ext2: fs/ext2/super.c, inode.c and file.c, on a device of blocks. Its children prove the search of
--   a bitmap, the allocations, the place of inodes, reading, and writing once the size is settled.
--   Ext2.Directory has dir.c; its loops take fuel, one round more than there are entries.
-- Fat: fs/fat/fat.c, fatent.c and fat_read of file.c, on a device of sectors. The walk of a chain
--   has a round for each of the 1000 entries of its array, and faults behind them.
-- Syscall: the calls on descriptors in sys/syscall/syscall.c, and Syscall.Directory its sys_chdir.
--
-- Not modelled: device registers and port I/O, the assembly entry points, TLB flushes, the set-up of
-- the processor, and the devices without a module here; FAT directories, the growth of files and
-- the adding of directory entries, pipes, the creation of processes, and the system calls on
-- processes, threads and memory. Locks are not part of the models of the heap and the file
-- systems.
-- The handling of signals inside schedule is an argument of its theorems, with the hypothesis that it
-- leaves the current thread, its state and the queue, as it does while no signal is pending;
-- Sched.Signals has signal_send and signal_handle, which do not where a process is killed.
pub mod Base
pub mod Store
pub mod Pmm
pub mod Kheap
pub mod LinkedList
pub mod Paging
pub mod Stdlib
pub mod Vfs
pub mod Elf
pub mod Exec
pub mod Ext2
pub mod Fat
pub mod Syscall
pub mod Printf
pub mod Ahci
pub mod Pci
pub mod Sched
pub mod Input
pub mod Console
