-- ===== src/Stage2/Tests.antt =====
-- The boot loader's functions at concrete inputs.
mod Boot
mod Disc
mod Drive
mod Interrupts
pub mod Main
mod MemoryMap
mod Refusing
mod Video
mod Wake
