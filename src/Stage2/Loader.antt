-- ===== src/Stage2/Loader.antt =====
-- The structures and the state of bootloader/stage2/src/stage2.c, and the calls of the other parts.
pub mod Messages
use ziemniak.Base.{
  ℕ, zero, suc, ◌+◌, ◌-◌, ◌*◌, ◌/◌, ◌%◌, ◌^◌, List, [], ◌∷◌, ◌==◌, not, if◌then◌else◌, Option, none,
  some, Cmd, pure, ◌>>=◌, ◌>>◌, codes, u32, u64, ◌<<<◌,
}
use ziemniak.Stage2.Interrupts.{Handler, Interrupts, init_idt}
use ziemniak.Stage2.Video.{Video, video_init, video_clr, video_print, video_print_hex}
use ziemniak.Stage2.Disc.{Buffer, Drive, Disc, cdrom_init, cdrom_read_sector}
use ziemniak.Stage2.Disc.Search.{Reader, cdrom_search}
use ziemniak.Stage2.Boot.{
  MemMap, KernelHeader, Layout, required, total_size, choose, layout, at_table,
}
use ziemniak.Stage2.Boot.Load.{load, load_sectors}
use ziemniak.Stage2.Boot.Memory.{mem_maps, header_in, build_tables}

-- `struct real_mode_data`
pub record RealModeData : Type 0 where
  pub framebuf_ptr : ℕ
  pub font_ptr : ℕ
  pub red_pos : ℕ
  pub green_pos : ℕ
  pub blue_pos : ℕ
  pub rsrvd_pos : ℕ
  pub memmap_seg : ℕ
  pub memmap_size : ℕ
  pub scr_width : ℕ
  pub scr_height : ℕ
  pub boot_disk : ℕ
  pub is_boot_disk_slv : ℕ
  pub boot_disk_io : ℕ
  pub boot_disk_ctl : ℕ

-- `struct long_mode_data`
pub record LongModeData : Type 0 where
  pub framebuf_ptr : ℕ
  pub font_ptr : ℕ
  pub memmap_ptr : ℕ
  pub load_buf : ℕ
  pub load_end : ℕ
  pub peek_entry : ℕ
  pub memmap_size : ℕ
  pub scr_width : ℕ
  pub scr_height : ℕ
  pub boot_disk_io : ℕ
  pub boot_disk_ctl : ℕ
  pub is_boot_disk_slv : ℕ
  pub red_pos : ℕ
  pub green_pos : ℕ
  pub blue_pos : ℕ
  pub rsrvd_pos : ℕ

-- The static variables of the parts, `cdrom_buf`, and all other memory.
pub record Loader : Type 0 where
  pub interrupts : Interrupts
  pub video : Video
  pub disc : Disc
  pub cdrom_buf : Buffer
  pub memory : Buffer

-- `main` ends in `halt`, which never returns, or in `run` with its arguments.
pub data Outcome : Type 0 where
  halted : Outcome
  entered : (addr pml4e : ℕ) (lm_data : LongModeData) → Outcome

-- The calls of the parts.
abbrev pub with_video : {A : Type 0} → Loader → Option (A × Video) → Option (A × Loader)
with_video s none = none
with_video s (some (a, v)) = some (a, record s { video = v })

abbrev pub on_video : {A : Type 0} → Cmd Video A → Cmd Loader A
on_video m s = with_video s (m s.video)

abbrev pub with_disc : {A : Type 0} → Loader → Option (A × Disc) → Option (A × Loader)
with_disc s none = none
with_disc s (some (a, d)) = some (a, record s { disc = d })

abbrev pub on_disc : {A : Type 0} → Cmd Disc A → Cmd Loader A
on_disc m s = with_disc s (m s.disc)

abbrev pub with_memory : Loader → Option Buffer → Option (Unit {0} × Loader)
with_memory s none = none
with_memory s (some memory) = some (tt, record s { memory = memory })

abbrev pub on_memory : (Buffer → Option Buffer) → Cmd Loader (Unit {0})
on_memory f s = with_memory s (f s.memory)

abbrev pub kernel_name : List ℕ
kernel_name = codes "POTATO.BIN"

-- The pointer `mem_map`.
abbrev pub mem_map : RealModeData → ℕ
mem_map rm_data = rm_data.memmap_seg <<< 4

abbrev pub memmap : RealModeData → Buffer → List MemMap
memmap rm_data memory = mem_maps memory (mem_map rm_data) rm_data.memmap_size 0

-- The assignments to `lm_data`; the table for `mm_peek` is number 6.
unfoldable pub long_mode_data : RealModeData → Layout → LongModeData
long_mode_data rm_data l = record {
  framebuf_ptr = rm_data.framebuf_ptr;
  font_ptr = rm_data.font_ptr;
  memmap_ptr = u32 (mem_map rm_data);
  load_buf = l.load_buf;
  load_end = l.load_end;
  peek_entry = at_table l.pages 6;
  memmap_size = rm_data.memmap_size;
  scr_width = rm_data.scr_width;
  scr_height = rm_data.scr_height;
  boot_disk_io = rm_data.boot_disk_io;
  boot_disk_ctl = rm_data.boot_disk_ctl;
  is_boot_disk_slv = rm_data.is_boot_disk_slv;
  red_pos = rm_data.red_pos;
  green_pos = rm_data.green_pos;
  blue_pos = rm_data.blue_pos;
  rsrvd_pos = rm_data.rsrvd_pos;
}

module _ (fuel : ℕ) where
  abbrev pub print : (text : List ℕ) → Cmd Loader (Unit {0})
  print text = on_video (video_print fuel text)

  abbrev pub print_hex : (val offset : ℕ) → Cmd Loader (Unit {0})
  print_hex val offset = on_video (video_print_hex fuel val offset)
