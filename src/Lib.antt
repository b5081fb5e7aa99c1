-- ===== src/Lib.antt =====
-- The exercise kernels of an operating-systems course. Each folder ex11 to ex72 is a program of
-- its own, most of them bare-metal RISC-V kernels: a serial line, calls of the firmware, a device
-- tree, an initial RAM disk, a user program with traps, interrupts, kernel threads, paging and a
-- virtual file system.
--
-- How the programs are modelled. A machine word is a number, with its wrap-around written out. A
-- store of bytes is a map from addresses (Memory), a store of words a map from addresses too,
-- and a linked structure a map for each field (Sched). What a device register answers is the
-- device's choice: a device is a parameter, and its answer may change with every read (Mmio); the
-- writes of a program are kept in order. A theorem about a driver that waits supposes that
-- the device reports ready within a fixed number of status reads, and gives a result for that
-- number: it is the fuel of the polling loops. A fault is a value: `none` of Option.
--
-- The parts.
--   Uart: ex12/uart.c, the polled driver, over any base address; Uart/Ex41 to Uart/Ex62 are the
--     copies in the other folders (ex41/uart.c, ex42/uart.c, ex51/uart.c, ex52/uart.c,
--     ex61/uart.c, ex62/uart.c) at their addresses. Uart/Report is a list of the calls of `uart_puts`
--     and `uart_hex` that a handler makes. Uart/First is the driver of ex11/main.c.
--   Utils: ex41/utils.c, ex51/utils.c, ex52/utils.c and ex62/utils.c, with `hextoi` and `align` of
--     ex22/main.c and `align_up` of ex21/main.c: numbers in headers (Hextoi), alignment (Align),
--     memory blocks and strings (Block), `kmalloc` and `alloc_page` (Alloc).
--   Cpio: `initrd_list` and `initrd_cat` of ex22/main.c, against an archive that is a list of
--     entries laid out in memory (Cpio/Archive), and its `main` (Cpio/Main). Their loops run on fuel: one round for each entry
--     and one for the trailer is enough, and the theorems give the result for any such fuel.
--   Fdt: `fdt_path_offset` (Fdt/Walk, on the trees of Fdt/Tree), `fdt_getprop` (Fdt/Props) and
--     `main` (Fdt/Run) of ex21/main.c on a blob in memory. Their loops and the
--     reading of a name run on fuel; a property needs one round, and so does the token behind.
--   Video: ex52/video.c: the copy of a picture to the frame buffer (Video/Display), the fw_cfg
--     interface with the device as a parameter, and what `video_init` sends to one that has a
--     directory of files (Video/Config, with Video/Stored). Video/Cache keeps main memory apart
--     from what the processor sees: only the flush of a line writes it back. Video/Frames is
--     `display_video` and `usleep` of ex52/main.c.
--   Exec: `exec` of ex41/main.c (Exec/Ex41) and of ex62/main.c (Exec/Ex62): the search, which runs
--     on fuel as that of Cpio does and takes its archives from there, and what `sret` then finds.
--     That of ex62 copies by Utils/Block and maps by Paging/User; the bytes that the kernel sees
--     and the words of its page tables are two maps there.
--   Sched: the run queue, `kthread_create` and `schedule` of ex51/main.c with `switch_to` of
--     ex51/start.S, against a ring of tasks that is a list (Sched/Ring). It takes its memory
--     from Utils/Alloc.
--   Sbi: `sbi_ecall` and its callers in ex12/main.c, with the firmware as a parameter.
--   Plic: the set-up of the interrupt controller and of the line's interrupts in ex42/main.c.
--   Trap: the entry `handle_exception` and the exit `ret_from_exception` of ex41/start.S, which
--     ex42, ex51 and ex62 hold too, around a C function that is a parameter; Trap/Ex41, Trap/Ex42
--     and Trap/Ex62 put the `do_trap` of ex41/main.c, ex42/main.c and ex62/main.c there.
--     What that function leaves in its registers and below its stack pointer is arbitrary.
--   Buddy: the page allocator of ex31/main.cpp: the lists of free blocks are lists of page indices,
--     the fields of `struct page` maps from indices. Buddy/Partition and Buddy/Pair say what blocks
--     are, without the code; Buddy/State what a state means, and what it means between two steps, with one
--     chunk in no list; Buddy/Coalesced says that no two free blocks could be merged, Buddy/Drained
--     what that means when nothing is in use, and Buddy/Run is `main`. Buddy/Reserve is
--     `memory_reserve` of ex32/main.cpp on the same state. The merging loop has 11 rounds of fuel, one more than there are orders
--     to climb; from 2 ^ 31 on an order is negative as an `int`, and `alloc_pages` has
--     no result; a page that is not null is an index into `mem_map`.
--   Vfs: ex71/vfs.c and the descriptor table of ex71/main.c, over a record of the operations that
--     the function pointers lead to, and the part of ex71/tmpfs.c that has bodies (Vfs/Tmpfs);
--     Vfs/Walks says what a path means, Vfs/Path has its names, Vfs/Create the opening of a new file, Vfs/Table
--     the descriptor table, Vfs/Main its `main`. The loop over
--     mounts has a fuel, a parameter; where it does not end, neither does the code. malloc gives a
--     block each time.
--   Paging: `setup_vm` (here `setup_boot`) and `drop_identity_map` of ex61/main.c (Boot, BootMap,
--     Drop), `setup_vm`, `pagewalk` and `map_pages` of ex62/main.c (Setup, User, Maps), against the walk that the
--     hardware makes in mode Sv39. The loop over the levels has two rounds, that over pages as
--     many as there are pages. The allocator is that of Utils/Alloc.
-- Base, Bits, Memory, Mmio and Text are shared: names and lists, the arithmetic of `&` and `|`,
-- bytes in memory, device registers, strings. Tests holds runs and an input for each theorem.
--
-- Not modelled: the pixels in ex52/bird.h, and `my_realpath` of ex72/main.c, which has no body.
-- The endless loops at the end of each `start_kernel`, the code before it in the start.S files,
-- the panic handler and the thread function of ex51/main.c are input and output or hand control on,
-- and are left out. What the C library leaves of the files that ex21/main.c and ex22/main.c read is a
-- parameter of their `main`. The line that `fdt_path_offset` prints where a path leads to no node is
-- left out. Which addresses the kernel of ex62 may load from is taken from its boot tables and not from
-- the words that it changes; `drop_identity_map` writes at physical addresses, where its tables are.
pub mod Base
pub mod Bits
pub mod Mmio
pub mod Exec
pub mod Memory
pub mod Text
pub mod Uart
pub mod Utils
pub mod Cpio
pub mod Sbi
pub mod Sched
pub mod Paging
pub mod Plic
pub mod Buddy
pub mod Vfs
pub mod Fdt
pub mod Video
pub mod Trap
mod Tests
