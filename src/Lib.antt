-- ===== src/Lib.antt =====
-- Pristine, a small 64-bit operating system in C: a verification of the core of its kernel
-- and of its file system.
--
-- The parts. The page allocator (kernel/kernel/pmm.c) keeps one bit for each frame of physical
-- memory in a bitmap (kernel/bitmap.c). The virtual memory manager (kernel/kernel/vmm.c) takes
-- frames from it for page tables, which it reaches through the window of all physical memory
-- (include/common/common.h). A process (include/kernel/process.h) has a root table, a kernel stack
-- and saved registers. The scheduler (kernel/kernel/scheduler.c) gives the CPU to the processes of
-- its list in turn. The kernel heap (kernel/kernel/slab.c, kernel/kernel/kmalloc.c) takes one page
-- for each slab of objects. A process asks for memory by syscall_sbrk; an exit
-- (kernel/kernel/syscall.c) marks a process dead, the scheduler hands a dead process to the reaper
-- (kernel/kernel/reaper.c), and the reaper destroys it. The file system BSFS is laid out by
-- tools/bsfs/mkfs.bsfs.c and filled with the allocators of tools/bsfs/bsfs.c; kernel/common/bsfs reads
-- it by way of a table of disk operations, and sums a file by kernel/common/crc32.c. kernel/printf.c
-- prints for all parts of the kernel.
--
-- The files:
-- - Common: shared tests, lists, storage as functions, and the binary digits of numbers.
-- - Bitmap: kernel/bitmap.c. A bitmap is a function from the index of a byte to the byte. Its
--   children hold the digits, the 64-bit words, and the search.
-- - Machine: the state that the memory managers share, and commands over it. A command that meets
--   KPANIC has no further state. Do blocks compose the commands in the order of the source.
-- - Pmm: kernel/kernel/pmm.c, with what a frame's state is in Pmm/Frames and the count of free
--   frames in Pmm/Count.
-- - Address: the alignment macros and the window, include/common/common.h.
-- - Vmm: kernel/kernel/vmm.c. Vmm/Tables says what a tree of page tables is, what rights the entries
--   above the last level have, and what a walk finds, which does not look at those rights; Vmm/Hang, Grow and Walk are about a new table; Vmm/Leaf, Map and Unmap about an
--   entry of the last level. Vmm/Release has vmm_free and vmm_destroy.
-- - Process: include/kernel/process.h and include/kernel/state.h.
-- - Scheduler: kernel/kernel/scheduler.c, kernel/kernel/reaper.c and the system calls that end in
--   the scheduler. Scheduler/Slots is about adding a process, Scan is the loop, Turns and Switch are
--   one turn, Resume and Fair sequences of turns.
-- - Pages: the loops that map fresh frames at consecutive pages, which processes and
--   syscall_sbrk share. Process/Create: kernel/kernel/process.c. Sbrk: syscall_sbrk.
-- - Slab: kernel/kernel/slab.c, with bin_free in Slab/Free, the free objects of a slab in Slab/Stack
--   and the two operations on them in Slab/Objects. Kmalloc: kernel/kernel/kmalloc.c.
-- - Memmap: kernel/common/memmap.c. Arena: kernel/common/arena.c.
-- - Strings: kernel/common/string.c and userspace/libc/string.c, on a memory of bytes.
-- - Checksum: kernel/common/crc32.c.
-- - Bsfs: include/common/bsfs and kernel/common/bsfs/bsfs.c. The functions stand in Bsfs/Open (paths,
--   inodes, fopen) and Bsfs/Read (fread, fseeko, fclose and the checksum). Bsfs/Image and Bsfs/Tree
--   are the references: a disk of bytes, the bytes of a file, directories and paths. Blocks, Loop,
--   Fread and Content are about reading, Handle and Session about the open file and its errors, Verify and
--   Checked about the checksum, Names, Entries, Pieces and Path about path resolution.
-- - Printf: kernel/printf.c. Printf/Format has the loop over the format; Reverse is strrev, Digits and
--   Number are the digits of a number, and Padding its field. Pieces is the reference of a format, and
--   Directives and Loop are about its directives and the loop over them.
-- - Tools: tools/bsfs/bsfs.c, with the bits in Tools/Slices and the allocation of blocks in
--   Tools/Alloc. Tools/Mkfs is tools/bsfs/mkfs.bsfs.c, Tools/Layout its layout and Tools/Formatted its
--   outcomes.
-- - Tests: concrete machines and process lists, to which the theorems are applied.
--
-- How C is read. A machine integer is a native number, with its wrap-around written out. A pointer
-- is a number, 0 for NULL. Memory is a function from the virtual address of a 64-bit word to the
-- word, for addresses at multiples of 8. PRISTINE_DEBUG is an argument, so that a theorem covers
-- both builds. A loop with a fixed bound is a recursion on the rounds that it has left, which are
-- given where the loop starts (32 slots, 512 entries, the words or bits of a bitmap). The loops that
-- look for the end of a text have fuel, and more than the length of the text is enough; the loop of
-- the checksum has fuel for two rounds more than there are buffers in the file. The disk operations
-- and strtol are parameters; a theorem that needs a disk that answers every read says so. The
-- well-formed tree of page tables names the frame of each table by the indices that lead to it.
--
-- Not modelled: the TLB (vmm_invlpg), the LAPIC, the stack switch and swapgs of process_jump, and
-- interrupts other than as the turns of the scheduler; one CPU runs. Drivers, boot loader and
-- interrupt stubs are hardware access by assembly. A page of a slab is seen at its own virtual
-- address only, not through the window. The ELF loader (kernel/kernel/elf.c), the tools that fill and
-- read an image (tools/bsfs/bsfs-populate.c, tools/bsfs/bsfs-extract.c) and what mkfs.bsfs prints and
-- fills with zeros have no module here. userspace/libc/malloc.c and lib are third-party code.
pub mod Common
pub mod Bitmap
pub mod Machine
pub mod Pmm
pub mod Address
pub mod Vmm
pub mod Process
pub mod Scheduler
pub mod Pages
pub mod Sbrk
pub mod Slab
pub mod Kmalloc
pub mod Strings
pub mod Arena
pub mod Memmap
pub mod Bsfs
pub mod Printf
pub mod Tools
pub mod Checksum
pub mod Tests
