-- ===== src/Lib.antt =====
-- fru1t-os, a small kernel for 32-bit RISC-V in C, modelled function by function.
--
-- The parts, and the files that model them:
--   Memory     the heap allocator of kernel.c. The chain of headers is a list of blocks with their
--              addresses; kmalloc, kfree and memory_init return the new chain. kfree of a pointer
--              to no block is `none`.
--   Process    the scheduler of kernel.c over the process table, the current process and the
--              registers of the processor. context_switch loads the registers in the order of the
--              assembly; the register that the compiler chooses for the address of the frame, and the
--              memory that is read once that register is overwritten, are the argument `Machine`.
--   Keyboard   the input ring buffer of kernel.c and the interrupt handler that fills it.
--   Trap       handle_trap and alloc_pages of kernel.c.
--   CString    the string functions of kernel.c, and memset of common.c.
--   Format     printf of common.c, as the bytes that it prints.
--   Fs         the file system of kernel.c over the heap allocator and the bytes of memory.
--   Shell      the line editor, the tokenizer and the commands of kernel.c over Fs.
--   Fd         the descriptor table of fd.c, and the UART's operations in it.
--   Inode      the file system of inode.c: bitmaps, inodes, blocks, files by name.
--   Rbtree     the red-black tree of rbtree.c, as the nodes at their addresses.
--   Cfs        the fair scheduler of cfs.c over Rbtree.
--   Epoll      the event polling of epoll.c over Fd, Memory and Rbtree.
--   Btree      the B-tree of btree.c over the heap allocator.
--   Prelude    what the others share: tests, lists with native indices, signed integers.
-- In each, a record is a struct, a function with the name of the C function is that function, and a
-- global that it changes is an argument and a part of its result. NULL and -1 are `none` or a flag;
-- a `none` that is a fault of the code (a write out of an array, a panic) is named so where it stands.
--
-- Unsigned words wrap round where the code lets them (sizes, addresses, digits). The digit loops of
-- printf run on fuel of ten steps, which the theorem on %u shows to be enough; the descent of
-- btree_insert has fuel for one level more than the tree's height. The loops of inode_read and
-- inode_write run on as much fuel as there are bytes; each round moves one byte or more.
-- The loops over a red-black tree take their fuel as an argument, and `none` is a loop that runs out:
-- a step more than the tree has nodes is enough. The fair scheduler gives them nine steps, for a tree of
-- eight nodes at most, and the event polling one step more than there are descriptors.
-- In Rbtree the tree behind the pointers is a `Shape`, and a place in it a `Context`; `settle` and `repair`
-- say on shapes what the loops of rb_insert_color and rb_erase_color do on the pointers.
--
-- Not modelled: device registers, SBI calls and assembly, which are pure I/O, and the demo functions
-- and kernel_main, which only call the other parts.
pub mod Prelude
pub mod Keyboard
pub mod Memory
pub mod Process
pub mod Fd
pub mod Format
pub mod CString
pub mod Fs
pub mod Shell
pub mod Trap
pub mod Btree
pub mod Inode
pub mod Rbtree
pub mod Cfs
pub mod Epoll
