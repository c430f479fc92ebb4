-- ===== src/Lib.antt =====
-- nextOS: a verification development for the kernel in kernel/.
--
-- nextOS is a small 64-bit desktop operating system in C. The kernel boots, sets up a physical
-- page allocator and a heap, registers interrupt handlers for the timer, keyboard and mouse,
-- mounts file systems over a disk driver, speaks TCP and TLS over a network card, and runs a
-- compositor with a few applications. Most components keep their state in file-scope variables,
-- and meet through direct calls: the file systems and the user interface take memory from the
-- heap, the main loop polls the keyboard and mouse.
--
-- How the models are written. The file-scope variables of a C file are the fields of one record,
-- and each function is a function from that record (and the C arguments) to the new record and
-- the C result. A pointer result that can be NULL is an address, 0 for NULL; an index result
-- that can be -1 is an Option. Unsigned 64-bit arithmetic wraps where the code computes it (%
-- word_mod, with word_mod = 2^64 of Prelude/Words). A loop with a known number of rounds is a
-- recursion on that number; a walk along a linked list takes fuel, and a result of none says
-- that the fuel ran out.
--
-- The files and what they are about:
-- - Prelude, Prelude/...: Boolean tests and case distinctions (Tests), lists with C-style
--   indexing (Lists), integers (Int), the bits of a number (Bits), 64-bit words (Words), parts
--   of a list and bytes written into one (Slices), numbers and strings in a buffer (Bytes) and
--   results of functions that can return -1 (Outcome).
-- - Pmm, Pmm/...: kernel/mem/pmm.c. Pmm has the bitmap as a list of words and pmm_init (init),
--   pmm_alloc_page (alloc_page) and pmm_free_page (free_page) with their loops. Words reads
--   pages off the bitmap, Alloc, Free and Init are about one function each, and Safety is about
--   sequences of calls.
-- - Heap, Heap/...: kernel/mem/heap.c. Headers and payload bytes are two stores indexed by
--   address. Heap has heap_init, kmalloc, kfree, kcalloc and krealloc. Blocks and Layout say
--   what row of blocks a heap is, Regions that payloads lie apart, Malloc and Alloc are about
--   kmalloc, Joins, Coalesce and Free about kfree, Bytes about kcalloc, Realloc about krealloc.
--   The walks take as fuel at least one more than the number of blocks they meet, which the
--   theorems prove to be enough.
-- - Keyboard, Keyboard/...: kernel/drivers/keyboard.c. Layouts has the scancode tables; Keyboard
--   has translate_scancode, keyboard_irq in three steps (decode, decode_key, push_event),
--   keyboard_poll and the layout functions. Ring reads the circular buffer as a queue, Decode is
--   about caps lock and the modifier flags, Refine relates the driver to its specification.
-- - Mouse, Mouse/...: kernel/drivers/mouse.c. Mouse has mouse_irq, with the part from the label
--   process_packet on as a function of its own, mouse_consume_scroll, mouse_set_bounds,
--   mouse_set_speed and mouse_init, over the integers of Prelude/Int. Packets is about the bytes
--   of whole packets and the bounds of the cursor.
-- - Ramfs, Ramfs/...: kernel/fs/ramfs.c. Strings has the string helpers and split_path, Table
--   the entries with find_entry and the disk_write calls of ramfs_sync_to_disk (sync_to_disk),
--   Readdir has ramfs_readdir, Files has ramfs_lookup, ramfs_read and ramfs_write, and Ramfs has
--   ramfs_create, ramfs_delete and ramfs_rename. A result is a fault for an access outside an
--   array, an error for -1, or done. Load has ramfs_init and ramfs_load_from_disk
--   (load_from_disk), where read is disk_read of one sector; a type on the disk other than 0 and
--   1 is not represented. Find, Valid, Split, Grow, Write, Create, Delete, Rename, RoundTrip,
--   Lookup, Place and Listing are the proofs about the table, Decode, Sectors, Reload, Users,
--   LoadLoop and Persist those about what is loaded of what was written.
-- - Disk, Disk/Parts: the interface of kernel/drivers/disk.c that the file systems use, a
--   parameter with the hypothesis Holds (reads give the sectors' bytes); Parts is how the file
--   systems cut a range into parts of blocks.
-- - Fat32, Fat32/...: kernel/fs/fat32.c, with the C names. read_loop, write_loop and
--   readdir_loop are the loops of fat32_read, fat32_write and fat32_readdir; they take fuel, one
--   more than the clusters of the chain. Read is about fat32_read, whose loop along a chain
--   Chains follows, Listing about fat32_readdir; Example is a disk in memory for the tests.
-- - Ext2, Ext2/...: kernel/fs/ext2.c, with the C names. read_blocks, write_blocks and
--   readdir_blocks are the loops along the block pointers, scan the one along the records of a
--   block, with fuel for each of its bytes, which is enough. Read and Content are about
--   ext2_read, with parts of bytes in Ranges, Listing about ext2_readdir. A block of more than
--   4096 bytes, a descriptor, an inode or a record that does not lie in its block, and a count
--   of 0 inodes for a group, for which C is undefined, are a fault. Inodes is about read_inode,
--   Records about the scan.
-- - Vfs, Vfs/...: kernel/fs/vfs.c, with the C names. Node has the nodes, whose function pointers
--   are tags, the calls of the two drivers of the disk and cfg_read; Root has vfs_root_readdir,
--   whose loop along the disk's entries takes fuel, one more than the entries; Vfs the other
--   functions, and the walk of vfs_open. Shown, Children and Listing are about vfs_root_readdir,
--   Shown about the names that it passes over, over the interface Directory that OnFat32 fills
--   for a FAT32 disk; Walk is about vfs_open, over the same interface, Names about the names of
--   a path.
-- - Timer, Timer/...: kernel/drivers/timer.c. The loop of timer_sleep_ms (wait_until) runs along
--   rounds of interrupts: those between the test and hlt, the one that ends hlt, and those in
--   front of the next test; the bytes written to ports are a list.
-- - Idt, Idt/...: kernel/arch/x86_64/idt.c. set_gates is a run of calls of idt_set_gate in
--   idt_init; isr_handler gives what it does as a list of actions in order, a call of a handler
--   or a write to a port. Gates is about idt_init, Dispatch about irq_register_handler and
--   isr_handler.
-- - Gdt, Gdt/...: kernel/arch/x86_64/gdt.c; the address of the task state segment is an argument
--   of gdt_init. Segments reads the table as the processor does.
-- - Bignum, Bignum/...: the numbers of kernel/net/tls_crypto.c, with the C names; an array is
--   the list of its words, the lowest first. cmp_loop, sub_loop, add_loop, shl_loop, mul_loop,
--   exp_loop, from_loop and to_loop are the loops of the functions. The loop that subtracts the
--   modulus (reduce) takes fuel, for which more than the number is enough; it never ends for a
--   modulus of 0. Value and Clean are about the numbers that words are and the words behind
--   them, Compare about bn_cmp, Reduced and Reduce about what is below the modulus, Halves about
--   the bits that bn_mulmod tests, Product about bn_mulmod, Power about bn_modexp, with the
--   arithmetic of powers in Exponent, Bytes and Output about bytes.
-- - Rsa, Rsa/...: rsa_pkcs1_encrypt of kernel/net/tls_crypto.c. tls_random, which hashes what
--   the hardware gives, is an argument, on a state of its own; the loop that draws a byte again
--   while it is 0 takes fuel. Encrypt is about the whole function.
-- - Tcp, Tcp/...: tcp_handle of kernel/net/net_stack.c and the loop of tcp_receive_data that
--   takes bytes out of the buffer (take_out). The parts of the established state are
--   receive_data, with the loop store, receive_fin and receive_rst. Ring is about the buffer,
--   Handle about a packet of an open connection, Stream about the stream of a sender, Steps
--   about the states. The address of the other side is taken to be in the ARP cache, so that
--   send_tcp does not handle packets meanwhile.
-- - Arp, Arp/...: the ARP cache of kernel/net/net_stack.c, with the C names; renew, occupy and
--   overwrite are the three parts of arp_cache_add. Loops is about the first two, Learn about
--   arp_cache_add and arp_handle.
-- Not modelled: the disk and network card drivers, paging, the network stack but for TCP
-- reception and ARP, the hash functions and block ciphers of TLS, the graphics, the compositor,
-- the main loop and the applications. Nor are port and memory-mapped input and output, the
-- assembly of boot/ and kernel/arch/x86_64/, and what is drawn; the bytes that a device delivers
-- are arguments. Interrupts are taken one at a time, as the processor runs the handlers.
-- Concurrent access to the buffers from the main loop is not modelled. The linker symbol _end
-- and what memory holds before it is first written are arguments.
pub mod Arp
pub mod Bignum
pub mod Disk
pub mod Ext2
pub mod Fat32
pub mod Gdt
pub mod Heap
pub mod Idt
pub mod Keyboard
pub mod Mouse
pub mod Pmm
pub mod Prelude
pub mod Ramfs
pub mod Rsa
pub mod Tcp
pub mod Timer
pub mod Vfs
