-- ===== src/Handover.antt =====
-- What the boot loader hands over and the kernel uses: `struct long_mode_data` of
-- bootloader/stage2/src/stage2.c and kernel/src/init/kernel.c, and the memory behind it.

pub mod Encodings
pub mod Regions
pub mod Started
mod Tests
pub mod Window
use ziemniak.Stage2.Loader
use ziemniak.Kernel.Entry
use ziemniak.Base.{map, List, ℕ, ◌+◌, ◌-◌, ◌*◌, ltb, leb, ◌&&◌, if◌then◌else◌}
use ziemniak.Kernel.Memory.{PageEntry}
use ziemniak.Kernel.Memory.Mmu.{word}
use ziemniak.Stage2.Boot.{Tables}
use ziemniak.Stage2.Disc.{Buffer}
use ziemniak.Stage2.Boot.Memory.{page_of, mem_maps}
use ziemniak.Kernel.Memory.Init
use ziemniak.Stage2.Boot

-- The same 24 bytes of the memory map, as the two programs read them.
abbrev pub as_entry : Boot.MemMap → Init.MemMap
as_entry m = record { base = m.base; last = m.len; type = m.type; attrs = m.attrs }

-- The tables of the boot loader from `pages` on, and the 512 entries that the kernel may have written
-- from `peek_pde` on, which take the place of those at the same addresses.
abbrev pub with_window : (pages peek_pde : ℕ) (entries : ℕ → PageEntry) → Tables → Tables
with_window pages peek_pde entries tab j =
    let at = pages + j * 8 in
    if leb peek_pde at && ltb at (peek_pde + 4096) then page_of (word (entries at)) else tab j

-- `struct long_mode_data`, which both programs declare.
abbrev pub received : Loader.LongModeData → Entry.LongModeData
received lm = record {
  framebuf_ptr = lm.framebuf_ptr;
  font_ptr = lm.font_ptr;
  memmap_ptr = lm.memmap_ptr;
  load_buf = lm.load_buf;
  load_end = lm.load_end;
  peek_entry = lm.peek_entry;
  memmap_size = lm.memmap_size;
  scr_width = lm.scr_width;
  scr_height = lm.scr_height;
  boot_disk_io = lm.boot_disk_io;
  boot_disk_ctl = lm.boot_disk_ctl;
  is_boot_disk_slv = lm.is_boot_disk_slv;
  red_pos = lm.red_pos;
  green_pos = lm.green_pos;
  blue_pos = lm.blue_pos;
  rsrvd_pos = lm.rsrvd_pos;
}

-- The memory map that the kernel reads at `memmap_ptr`.
abbrev pub map_in : Buffer → Entry.LongModeData → List Init.MemMap
map_in memory lm = map as_entry (mem_maps memory lm.memmap_ptr lm.memmap_size 0)
