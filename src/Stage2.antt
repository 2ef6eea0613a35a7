-- ===== src/Stage2.antt =====
-- The second stage of the boot loader: bootloader/stage2.
pub mod Boot
pub mod Disc
pub mod Interrupts
pub mod Loader
pub mod MemoryMap
pub mod Main
pub mod Tests
pub mod Video
pub mod Wake
