-- ===== src/Lib.antt =====
-- A verification library for BanjOS, a kernel for x86-64. Paths are from the repository's root.
--
-- The parts and how they interact. The boot loader's tags become memory regions
-- (src/multiboot_tags.c); the page allocator takes frames from them (src/page_allocator.c), and the
-- page tables take theirs from it (src/page_table.c). Interrupts go through a table of handlers
-- (src/interrupts.c). A handler puts what a device delivers into a ring (src/ring_buffer.c) and
-- wakes the processes blocked on it, and the scheduler takes turns among the ready ones
-- (src/processes.c). Output goes through printk (src/printk.c) to the screen (src/vga.c) and the
-- serial line. The kernel heap (src/allocator.c) cuts virtual pages into blocks. A disk
-- (src/block_device.c) is read through its partition table (src/mbr.c) by the file system ext2
-- (src/ext2.c), which src/fs.c finds among the registered ones.
--
-- The files, with the state and the operations they model:
--   Base: shared names; Boolean tests, arrays as lists, lists of addresses, finite ranges, maps with
--     one value changed.
--   Ring: struct RingBuffer with its pointers as indices; ring_init, ring_consumer_next,
--     ring_producer_add_char, ring_consumer_block_next. Fifo has the queue that the ring stands for,
--     Blocking the reader that waits.
--   Proc: struct ProcNode as two maps from addresses, append_proc, unlink_proc, cycle_next_proc.
--     Links and Queue relate them to lists. Proc/Sched: the scheduler's state and PROC_reschedule,
--     yield, PROC_block_on, PROC_unblock_head, PROC_unblock_all, PROC_create_kthread, PROC_run,
--     kexit; View names the lists behind a state, and Blocking, Exit and Fair have what each
--     operation does to them.
--     Proc/Context: the registers that src/isr_handler.asm saves and takes back, and struct
--     InitalProcFrame; Resume has what a process finds. Proc/Traps: the handlers that PROC_run sets.
--   Regions: build_mem_regions with add_region, and align_pointer of include/alignment.h. Tags has
--     the walk over the boot tags, Layout how they stand in memory.
--   Frames: MMU_pf_alloc, MMU_pf_free, get_free_memory. Memtest: MMU_memtest; Capacity counts the frames
--     left, Words and Cycle are about its loops, Passes about the whole.
--   Paging: split_virt_addr, page_table_get_entry, page_table_virt_to_phys_addr and
--     direct_map_callback. Pool is what the tables rely on from Frames, proved there; Tree has the
--     levels of the tables, Translate the translation. Virtual models sbrk, MMU_alloc_page and
--     page_fault_handler of src/page_allocator.c, with the tables on the frames; Fault is about them.
--     Range has page_table_walk and init_page_table; Apart, Mapped and Walk are about ranges of pages,
--     DirectMap and Backed about the first page table and about MMU_alloc_pages and MMU_free_page.
--     Words has the bit fields of the entries of each level.
--   Heap: init_alloc, kmalloc and kfree. Blocks has where the blocks are, Carve the cutting of a page,
--     Calls and Kmalloc what the calls promise.
--   Disk: struct BlockDevice, struct MBR, MBR_read_block. Fs: FS_register, FS_probe.
--   Ext2: every function of src/ext2.c; Layout has the packed structures, Inodes, Files and Dirs the
--     functions on inodes, files and directories, and the others the theorems on them: Sectors (blocks),
--     Lookup (blocks of a file), Table (inodes), Chunks, Reading, Ending, Amount, FileBytes, Anywhere
--     and Overrun (reads), Entries (directories), Pow (pow2).
--   Ports: include/portio.h over hardware that is a parameter. Ata: src/block_device.c; Requests has
--     the queue, Lba the registers of the drive, Driver, Waiting and Reads the reading of a block.
--   Serial: SER_write, SER_init and the handler of src/serial.c; Line has what the chip sends.
--   Ps2: src/ps2.c; Typing has what a key press does.
--   Irq: idt_set_descriptor, tss_set_descriptor, irq_handler, IRQ_handler_set, IRQ_set_mask,
--     IRQ_clear_mask, PIC_remap, PIC_sendEOI, and the guards of include/interrupts.h; Init has
--     IRQ_init_tss and IRQ_init.
--   Gdt: GDT_push_dq, GDT_push, GDT_load, GDT_setup.
--   Printk: every function of src/printk.c; Digits, Hex, Sign and Plain have what is printed.
--   Vga: VGA_clear, VGA_scroll, VGA_display_char, VGA_display_attr_char, VGA_display_str.
--   Str: memset, memcpy, strlen, strcpy, strcmp over a memory of bytes.
--   Start: drive_init of src/kmain.c, with its callbacks, and disable_cursor. Find has what the callbacks
--     take from a directory, Turns and Digest are about
--     the loop that reads a file, Hex about what is printed, Drive about the whole. Boot is the part of
--     kmain from the boot tags to the first page table.
--   Keys: enum KeyCode and scan_code_to_char.
--
-- Bounds and fuel. Words that wrap are written out (`% 2 ^ w`); pointers are numbers, 0 for NULL.
-- The fuel of the printing loops is the room in their buffer of 32 characters, so that running out
-- is an overrun; 64-bit numbers have fewer digits in both bases. PROC_unblock_all runs on fuel, and
-- one turn more than there are processes in the queue is proved to be enough; the string functions
-- run on fuel, of which one more than the length is enough. The walk through the page tables is a
-- recursion on the level, and the loop over a range of pages runs on fuel, of which one more than the
-- pages is enough. Cutting a page has fuel for 4096 blocks, and it has 128 at most.
-- A read from a file runs on fuel, of which one more than the bytes is enough, and so does the walk
-- over a directory block, with one more than the bytes of the block. The loops that wait for a drive
-- run on fuel, of which one more than the reads that the drive needs is enough. Numbers that C keeps
-- in an `int` for a file are below 2 ^ 31 and not negative. The walk over the boot tags needs one turn
-- more than there are tags, and drive_init's loop one more than the file has parts of 7000 bytes.
--
-- What stands behind hypotheses: the memory map's usable entries ascend and the kernel's sections are
-- sorted; frames that programs hold are not written as free-list links; frames are below 2 ^ 52, the
-- reach of an entry; the data port of an interrupt controller reads back the mask last written; the
-- table of interrupt stubs has 64-bit addresses; a partition's sectors can be read; a drive keeps two
-- values in each register, as the ATA standard has it, and its status stops being busy; a serial chip
-- is always ready; the keyboard's controller holds the byte of a key until it is read;
-- the digest after two updates in turn is that of one update with both lists; the first page is
-- not mapped; a number of pages is below 2 ^ 19, beyond which its bytes overflow an `int`.
--
-- What is not modelled: the instructions lgdt, lidt, ltr, invlpg, in and out, but for what they load;
-- messages that only inform. src/md5.c is RSA's implementation, which src/kmain.c takes as a
-- parameter; of src/kmain.c the order of the calls that do not set up the memory.
pub mod Base
pub mod Ring
pub mod Proc
pub mod Regions
pub mod Frames
pub mod Printk
pub mod Keys
pub mod Vga
pub mod Start
pub mod Str
pub mod Gdt
pub mod Paging
pub mod Heap
pub mod Irq
pub mod Disk
pub mod Ext2
pub mod Ata
pub mod Fs
pub mod Ports
pub mod Serial
pub mod Ps2
