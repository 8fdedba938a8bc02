-- ===== src/Lib.antt =====
-- The kernel for the BeagleBone Black of this repository, and its boot loader, as functions on
-- explicit states, with the theorems about them.
--
-- The boot loader sets the devices up (pins, interrupts, serial port, memory, card), mounts the FAT32
-- volume on the card, reads the kernel from it, maps it and enters it. The kernel keeps rings of
-- characters for its serial ports, which the interrupt handlers fill, and rings of processes for its
-- scheduler; one process drives two motors by lines from the second port.
--
-- The parts, and the files that model them:
-- - Base: what all parts share: numbers of 16 and 32 bits with their wrap-around, C's `int` as the
--   integers, tests, lists, and the laws of `&` and `|`.
-- - Ring: common/circular_buffer.c. `char_push` is `circular_char_buffer_push`, and so on. Queue is
--   the bounded queue that a client sees; Generic and Chars are the proofs for the two buffers.
-- - Fat32: os/fs/fat32.c and fat32.h, a child for each part: Memory (the unaligned reads, `memcmp`),
--   Strings, Name (`format_name_to_fat32`), Path (`parse_fat32_path`), Chain (the two readers of the
--   FAT, `get_cluster_at_index`, `cluster_to_sector`), Label (`fat32_readlabel`), Read (`fat32_read`),
--   File (seek, tell, eof, size, close), Directory (`read_dir_entry`), Open (`fat32_open`) and Mount
--   (`fat32_mount`). Load is the boot loader's use of the driver: a file opened and read. The file
--   system is the record `Fs`; a function that changes `*file` or `*fs` returns it. A function has the
--   name of the C function, without the prefix fat32_ where it is static.
-- - Sched: os/scheduler/scheduler.c over the rings of Ring: the process table, `process_create`,
--   `scheduler_init` and `scheduler_run`. Queue is round robin, Turns and Fair are the proofs about
--   it, Create and Init those about new processes and the tables at the start. Start is the whole of
--   `scheduler_init`, with its messages and the timer.
-- - Frames: the allocator of frames of os/mmu/mmu.c. Chain is its list of free frames, Length the
--   bound on it, Refine and Init are the proofs.
-- - PageTable: the first-level page table of os/mmu/mmu.c. Entry is about one section, Hardware about
--   the map of the whole memory.
-- - Uart: os/drivers/uart.c over the ring of characters of Ring: the interrupt handlers,
--   `uart_readline` and `print_number`. Lines and Typed are about lines, Numbers is about numerals.
--   Printf is `uart_vprintf`. Port and Init are the same port with its registers, Print is
--   `uart_vprintf` and `log_message` over them, Format and Sending the proofs about those.
-- - Regs: common/utils.h, and what all drivers share: a device `Bus`, the state of a machine, the
--   waits. Poll, Ends and Plain are about them. Clock: the addresses of os/drivers/clock_module.h.
-- - Mmc: boot/mmc.c and mmc.h. Sd is the offsets, Init `mmc_controller_init`, Sector
--   `mmc_read_sector`; Card is the card that a read relies on, Transfer, Outcome, Total and Word are
--   the proofs. Disk is the disk that Fat32 reads.
-- - Intc: os/interrupts/interrupt.c and interrupt.h. Handler is what stands in its table; Masks and
--   Table are about the masks and the handlers.
-- - Timer: os/drivers/timer.c and timer.h. Wiring is about the handlers, Ticks about the clocks.
-- - Gpio: os/drivers/gpio.c and gpio.h. Pins is about the directions.
-- - Syscall: os/interrupts/syscall.c and syscall.h. Dispatch is about `handle_syscall`.
-- - Ddr: boot/ddr.c and ddr.h. MemoryTest and Total are about `test_ddr3_memory`.
-- - Motor: os/drivers/motor.c, with `GPIO_set` and `GPIO_clear` of os/drivers/gpio.c on the levels of
--   the pins. Drive and Write are about the pins after a command; Task is a round of `motor_task`,
--   over Uart, and Stick what its joystick says.
-- - Boot: boot/bootloader.c. Devices is `__BootloaderEntry` up to the mount, Starting the proof about
--   it; Kernel is it from the mount on, Image the proofs about that, for kernels in the 256 MB in
--   front of the page table, which is kept apart from the memory; `min` and `levenshtein` stand in
--   Boot, and Distance is about the distance.
-- - Kmain: os/main.c over the parts above. Running is about the first process.
--
-- A device is not part of the program. It is a parameter, a `Bus`: a type of states, and what a read
-- and a write of a register return and leave. The theorems are for every device, or for those that a
-- record of named laws describes (`Card`, `Controller`, `Sender`, `IsPrompt`). The messages of the
-- start of the boot loader and of `kmain` and `scheduler_init` are sent over the port, and wait for
-- it. A message that a driver prints on its own is added to the console, as its text and its
-- arguments: the waits of `uart_putc` for it are left out, so a theorem about one driver does not say
-- that the port takes its messages.
--
-- A pointer into a table (a process, a frame) is the index in the table, and NULL is `none`.
--
-- `read_sector` is not part of the driver: it is a function from a sector's number to the bytes of the
-- sector, or to `none` where the call fails. It is a parameter, the field `disk`, and the theorems are
-- for every such function.
--
-- Loops. The loops with a count recurse on the number of rounds that are left. The outer loop of
-- `fat32_read` takes a fuel of one more than the bytes to be read, and each round reads one; the inner
-- one takes one more than the sectors of a cluster, since each round reads one. The loop over the
-- clusters of a directory has no bound in the source, and the fuel is a parameter of `read_dir_entry`
-- and of `fat32_open`: the theorems that return need a fuel of one or more. The loop of `free_frame`
-- takes 512, the frames of the array, each of which is in the list at most once; the loop over digits
-- takes the number itself.
--
-- A wait of a driver that has no bound in the source takes fuel, and ends in `none` without it; the
-- theorems that return say how many reads the device makes the program wait and take fuel for one
-- more. A wait with a bound takes the bound of the source.
--
-- A run that leaves an array or divides by zero ends in `fault`.
--
-- Not modelled: assembly and what it reads from the processor (with the handlers of aborts, which
-- print it), the tasks that only print, `yield`, `motor_read` (it shifts by the mask of a pin, 32 for
-- the left motor, which has no meaning in C), the copies for the emulator under qemu, and the C
-- library's part that the compiler supplies.
pub mod Base
pub mod Boot
pub mod Clock
pub mod Ddr
pub mod Fat32
pub mod Frames
pub mod Gpio
pub mod Intc
pub mod Kmain
pub mod Mmc
pub mod Motor
pub mod PageTable
pub mod Regs
pub mod Ring
pub mod Sched
pub mod Syscall
pub mod Timer
pub mod Uart
