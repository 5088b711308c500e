-- ===== src/Lib.antt =====
-- InnovatiOS: a small x86-64 kernel in C with a file system, a shell and users.
--
-- The Limine boot loader starts kernel/src/main.c, which sets up the page allocator, the heap, the
-- drivers, the file system and the scheduler and enters the shell of userspace/src. The files here
-- follow the components of the repository:
--
-- * Pmm, Pmm/*: the physical page allocator, kernel/src/mm/pmm.c. `Pmm` holds the bitmap, the
--   counts and the hint; pmm_init is `init`, and pmm_alloc_page, pmm_alloc_pages, pmm_free_page
--   and pmm_free_pages are the functions of those names. The search for a run has fuel
--   total_pages + 1, and each round moves at least one page on.
-- * Heap, Heap/*: the kernel heap, kernel/src/mm/heap.c, whose pages come from Pmm. Heap/Blocks
--   says over a list of blocks what the heap promises, and Heap/Chain when a chain of headers
--   describes such a list; kmalloc, kfree and heap_init are the functions of those names. The
--   walk of kmalloc has fuel, and more fuel than blocks is enough.
-- * Ring, Ring/Contents: the ring of 256 slots of kernel/src/drivers/serial.c and, written out
--   again, of kernel/src/drivers/keyboard.c; `contents` is the queue that it stands for.
-- * Keyboard, Keyboard/*: the PS/2 driver, kernel/src/drivers/keyboard.c and its header.
--   `Keyboard` holds the ring of key codes, the modifiers and the prefix state;
--   keyboard_handle_irq is `handle_irq`, with the byte of the port as its argument;
--   Keyboard/Codes has the key codes and tables.
-- * Strings, Strings/*: kernel/src/lib/lib.c, over a memory of bytes; Strings/Text says when the
--   memory holds a string. The fuel of a loop up to a NUL exceeds the string's length.
-- * Vfs, Vfs/*: kernel/src/fs/vfs.c. `resolve_path` and `set_cwd` are the functions of those
--   names; Vfs/Canonical says what a canonical path is, and Vfs/Walks what a path means: a walk
--   over directories. Vfs/Short is about the walks of names of few components. The loop over the
--   components has fuel one above the path's length. A buffer that would overflow is `none`.
-- * Users, Users/*: userspace/src/user.c, the table of users; a user is given by the index of the
--   slot. The functions have their names in C.
-- * Console, Console/*: kernel/src/drivers/console.c, the cells and the cursor, and the input of
--   a line from a list of keys. The functions have their names in C; `next_line`, `put_backspace`
--   and `put_plain` are the branches of console_putc.
-- * InnoFs, InnoFs/*: of kernel/src/fs/innofs.c the bitmap of the sectors in use, the splitting
--   of paths and the check of rights, on a disk that is a function from the sector to its bytes.
--   The functions have their names in C.
-- * Shell, Shell/*: userspace/src/shell.c. Shell/Text, Number and Distance are its helpers,
--   History, Table, Expand, Theme and Settings its state, and Shell/Command is process_segment,
--   with cmd_repeat, the table `commands` (Names) and the loop of shell_run over the lines
--   (Line). process_segment runs on fuel; the world of a handler is a parameter.
-- * Scheduler, Scheduler/*: kernel/src/proc/scheduler.c. The functions have their names in C;
--   `switch` is the last part of scheduler_on_timer, `bounce` one coordinate of
--   update_demo_overlay, and a `Tick` what an interrupt finds. An i64 is the 64-bit word that
--   stands for it.
-- * Framebuffer, Framebuffer/*: kernel/src/drivers/framebuffer.c, the back buffer as a function
--   from the offset to the pixel there. The functions have their names in C; `fill_rows` and
--   `fill_cols` are the loops of fb_fill_rect, `draw_rows` and `draw_cols` those of
--   fb_draw_image.
--
-- Base holds the words of 64 bits with their wrap-around, bytes and their bits, lists, and the
-- Boolean tests. A C pointer is an address, with 0 for NULL, where the code compares or computes
-- it, and an index otherwise. A memory is a function from the index or the address.
--
-- Not modelled: the boot code, the files and directories on disk, the serial driver but for its
-- ring, paging, the descriptor tables, the disk driver, the prompt of the shell and the programs.
-- Port input and output, the assembly and the boot loader's header have no logic of their own to
-- state.
pub mod Base
pub mod Pmm
pub mod Heap
pub mod Ring
pub mod Keyboard
pub mod Strings
pub mod Vfs
pub mod Users
pub mod Console
pub mod InnoFs
pub mod Shell
pub mod Scheduler
pub mod Framebuffer
