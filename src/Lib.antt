-- ===== src/Lib.antt =====
-- Ziemniak, a small x86-64 operating system with its own boot loader: a model of its C code and of
-- the assembly that the C code rests on.
--
-- Parts. The second stage of the boot loader (bootloader/stage2) finds the kernel on a CD, chooses
-- a region of memory, builds page tables, loads the kernel and enters it; the kernel (kernel) sets
-- up interrupts, the serial port for debug output and its memory manager.
--
-- Which file models which part.
-- - Pages: the page and block macros of kernel/include/defs.h.
-- - Machine: the instructions that kernel/include/asm.h wraps. All that the processor does is a
--   history of events; a device is a parameter, a function from the history to what a read answers.
-- - Hex: hexadecimal text and how it is read back.
-- - Kernel.Serial: kernel/src/serial/serial.c. Kernel.Serial.Uart says what the registers of the
--   device mean; Print and Init measure `serial_print` and `serial_init` against it.
-- - Kernel.Debug: kernel/src/debug/debug.c, with DEBUG defined as in kernel/include/config.h.
-- - Kernel.Memory: page entries and `mm_peek` of kernel/src/memory/mm.c. Kernel.Memory.Mmu says how
--   the processor reads an entry; Peek and Window measure `mm_peek` against it. Kernel.Memory.Init is
--   `mm_init`: Listed what its walk makes of the memory map, Output what it leaves and prints, Regions
--   the pages that remain. Kernel.Bitmap is
--   kernel/src/memory/bitmap.c, whose functions are stubs.
-- - Pic: the interrupt controllers, as a function of the writes that a history holds.
-- - Kernel.Interrupts: kernel/src/interrupts/interrupts.c; Gates is the table that it builds. The
--   Wrappers is wrapper_exc.asm and wrapper_pic.asm beside it, which run on the processor of Cpu: Dump
--   is what they hand over, Resume what they give back. Raised goes from the gate that the processor
--   reads to the end of its wrapper.
-- - Cpu: registers and stack of the processor, and how it takes an interrupt.
-- - Kernel.Startup: kernel/src/init/init.asm up to the call of `main`.
-- - Kernel.Entry: kernel/src/init/kernel.c, which calls the other parts; Start is what it has done when
--   it reaches its last loop.
-- - Stage2.Interrupts: bootloader/stage2/src/interrupt.c; Vectors is the table, Handlers what each
--   handler tells the controllers.
-- - Stage2.Video: bootloader/stage2/src/video.c; Pixels is what a glyph changes, Terminal the abstract
--   screen, Print and Hex the functions that type on it, Ending when `video_print` returns, Reach what
--   holds after any calls.
-- - Stage2.Disc: bootloader/stage2/src/cdrom.c; Directory is `search_directory`, Search is
--   `cdrom_search` over any function that reads sectors; Atapi says what the driver relies on a drive
--   for, Waits that its loops end on one, Read that `cdrom_read_sector` is such a function, Probe
--   what `cdrom_init` finds, and Refused what happens on a drive that answers with an error.
-- - Stage2.Boot: the parts of `main` of bootloader/stage2/src/stage2.c that choose a region, lay it out
--   and build the page tables; Region and Paging say what they achieve. Load is its loop that loads
--   the kernel, and Image the memory after it. Memory is how the structures and the tables lie in
--   memory, Build that the tables in memory are the computed ones, Placement the memory that the kernel
--   finds.
-- - Stage2.MemoryMap: the part of bootloader/stage2/src/stub.asm that asks the BIOS for the memory map,
--   Entry what one answer leaves, Listed the map that results, Failed when there is none.
-- - Stage2.Wake: the flag `data_ready` between the driver, which waits for it, and the handlers, which
--   set it as interrupts arrive between its tests.
-- - Stage2.Loader: the structures, the state and the messages of bootloader/stage2/src/stage2.c.
-- - Stage2.Main: its `main`, over the other parts; Print is what it prints, Calls its use of the disc
--   driver, Run how it ends, Refused its run on a drive that answers with an error. The frame buffer,
--   `cdrom_buf` and the rest of memory are separate functions; the font is read once.
-- - Handover: both programs together. Window is `mm_peek` through the page tables of the boot loader,
--   Started the run of the kernel after that of the boot loader, Regions the memory that `mm_init`
--   keeps of the chosen region, Encodings the code that both have.
--
-- State is passed explicitly; a command that may wait for a device takes fuel, one unit for each
-- poll, and `none` says that the fuel ran out. `Drains` bounds the polls that a transmitter needs,
-- and the theorems on output take at least that much fuel; `IsAtapi` bounds those of a drive. The
-- loops on text and on directories take one unit for each character or record. A static buffer is a
-- list that the function takes and returns. Numbers are natural numbers with the wrap-around of their
-- C type written out.
--
-- The boot loader takes one fuel for all its loops. 2^32 is enough for those on memory and text, whose
-- indices have at most 32 bits; `IsAtapi` and `IsChannel` bound the waits of the disc driver, and
-- `IsVolume` the records of a directory.
--
-- In the assembly, registers and words of memory are numbers below 2^64, a stack lies in words at
-- multiples of 8, and the bytes of the descriptor of the task state segment are apart from it. A
-- compiled function that assembly calls is a parameter that keeps the calling convention, the linker's
-- addresses and the answers of the BIOS are parameters too.
--
-- Not modelled: bootloader/stage1/stage1.asm, and of bootloader/stage2/src/stub.asm what asks the BIOS
-- for the disc, the font and the screen, the A20 line, and the switches up to long mode.
pub mod Base
pub mod Cpu
pub mod Handover
pub mod Hex
pub mod Kernel
pub mod Machine
pub mod Pages
pub mod Pic
pub mod Stage2
