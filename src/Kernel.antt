-- ===== src/Kernel.antt =====
-- The kernel: kernel/src and kernel/include.
pub mod Bitmap
pub mod Debug
pub mod Entry
pub mod Errno
pub mod Interrupts
pub mod Memory
pub mod Serial
pub mod Startup
pub mod Tests
