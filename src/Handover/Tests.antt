-- ===== src/Handover/Tests.antt =====
-- A kernel of 28 KiB with a stack of 16 KiB at 1 MiB, and a screen of 640 by 480 pixels at 0xE0000000.
mod Whole
use ziemniak.Base.{
  ℕ, ◌+◌, ◌-◌, ◌^◌, ◌<◌, ◌≤◌, ◌≡◌, ◌⊎◌, inr, refl, arith, some, [], ◌∷◌, false, replicate,
}
use ziemniak.Pages.{page_up, page_down, page_cnt}
use ziemniak.Kernel.Memory.{gen_pml4, gen_pdpe_pde, gen_pte, Mm, mm_peek}
use ziemniak.Kernel.Memory.Init.{trim}
use ziemniak.Kernel.Memory.Window.{IsRequest}
use ziemniak.Stage2.Boot.{gen_pml4e_pdpe_pte, gen_pde, MemMap, KernelHeader, Layout, page_tables}
use ziemniak.Stage2.Boot.Region.{Fits}
use ziemniak.Stage2.Boot.Paging.{walk, IsLow}
use ziemniak.Stage2.Loader.{RealModeData, long_mode_data}
use ziemniak.Kernel.Debug.{hex}
use ziemniak.Kernel.Memory.Mmu.{word}
use ziemniak.Stage2.Boot.Memory.{page_word}
use ziemniak.Stage2.Video.{video_convert_hex}
use ziemniak.Handover.Encodings.{video_convert_hex-hex, page_word-word}
use ziemniak.Handover.{with_window}
use ziemniak.Handover.Regions.{Keeps, trim-Spares, trim-Shared}
use ziemniak.Handover.Window.{IsPeeked, mm_peek-IsPeeked}

abbrev header : KernelHeader
header = record {
  start = 0xFFFFFFFF80000050;
  stext = 0xFFFFFFFF80000000;
  etext = 0xFFFFFFFF80003000;
  sdata = 0xFFFFFFFF80003000;
  edata = 0xFFFFFFFF80004000;
  srodata = 0xFFFFFFFF80004000;
  erodata = 0xFFFFFFFF80005000;
  sbss = 0xFFFFFFFF80005000;
  ebss = 0xFFFFFFFF80006F00;
  stack_size = 0x4000;
}

abbrev chosen : MemMap
chosen = record { base = 0x100000; len = 0x7EE0000; type = 1; attrs = 0 }

abbrev above : MemMap
above = record { base = 0x100000000; len = 0x40000000; type = 1; attrs = 0 }

abbrev placed : Layout
placed = record { load_buf = 0x100000; pages = 0x107000; stack = 0x111000; load_end = 0x115000 }

fits : Fits header chosen placed
fits = record {
  starts = omega arith;
  kernel = omega arith;
  tables = omega arith;
  stack = omega arith;
  ends = omega arith;
  aligned = (omega arith, omega arith);
}

low : IsLow header placed
unfolding page_cnt page_up
low = record {
  pages_aligned = omega arith;
  buf_aligned = omega arith;
  ordered = omega arith;
  kernel_size = omega arith;
  tables = omega arith;
  top = omega arith;
  stack_size = omega arith;
  stack_aligned = omega arith;
  stack_fits = omega arith;
}

own : placed.load_buf ≡ page_up chosen.base
unfolding page_up
own = refl

kept : Keeps placed above 0x100000000
unfolding trim page_up page_down
kept = (omega arith, omega arith)

trim-Spares_example : (0x100000000 + 4096 ≤ placed.load_buf) ⊎ (placed.load_end ≤ 0x100000000)
trim-Spares_example =
    trim-Spares header chosen placed fits low own (omega arith) above 0x100000000
      (inr (inr (omega arith))) (omega arith) (omega arith) (omega arith) kept

some_stack : 0 < page_cnt header.stack_size
unfolding page_cnt page_up
some_stack = omega arith

trim-Shared_example :
    Keeps placed chosen 0x115000
    × ((r : ℕ)
        → r < 4096
        → walk 0x107000 (page_tables header placed) (2 ^ 64 - 4096 + r) ≡ some (0x115000 + r))
trim-Shared_example =
    trim-Shared header chosen placed fits low own (omega arith) (page_tables header placed)
      (λ j inside. refl) some_stack (omega arith)

abbrev rm_data : RealModeData
rm_data = record {
  framebuf_ptr = 0xE0000000;
  font_ptr = 0xFA000;
  red_pos = 16;
  green_pos = 8;
  blue_pos = 0;
  rsrvd_pos = 24;
  memmap_seg = 0x500;
  memmap_size = 3;
  scr_width = 640;
  scr_height = 480;
  boot_disk = 0xE0;
  is_boot_disk_slv = 0;
  boot_disk_io = 0x1F0;
  boot_disk_ctl = 0x3F6;
}

-- Table 6 is at 0x10D000.
abbrev mm : Mm
mm = record {
  peek_pde = 0x10D000;
  entries = λ _. record { flags = 0; avl2 = 0; addr = 0; avl1 = 0; nx = 0 };
  pointers = λ _. 0;
  history = [];
}

request : IsRequest 0x106000 0xE0000000 0x12C000 mm
request = record {
  ready = omega arith;
  room = omega arith;
  target = omega arith;
  small = omega arith;
  fits = omega arith;
  spans = omega arith;
}

mm_peek-IsPeeked_example :
    ((a : ℕ)
      → a < 4096
      → walk 0x107000 (page_tables header placed) (0x10D000 + a) ≡ some (0x10D000 + a))
    × (let after = (mm_peek 0x106000 0xE0000000 0x12C000 mm).1 in
        IsPeeked header placed
          (with_window 0x107000 after.peek_pde after.entries (page_tables header placed))
          0x106000
          0xE0000000
          0x12C000
          after)
unfolding long_mode_data
mm_peek-IsPeeked_example =
    mm_peek-IsPeeked header placed rm_data (page_tables header placed) 0x106000 0xE0000000 0x12C000
      mm low (λ j inside. refl) refl (omega arith) request (omega arith)

video_convert_hex-hex_example :
    hex 0xBEEF (replicate 19 1) ≡ b'0' ∷ b'x' ∷ video_convert_hex 0xBEEF (replicate 17 2)
video_convert_hex-hex_example =
    video_convert_hex-hex 0xBEEF (replicate 17 2) (replicate 19 1) refl refl

page_word-word_example :
    (page_word (gen_pml4e_pdpe_pte 0x107000) ≡ word (gen_pml4 0x107000 false 0x03))
    × (page_word (gen_pml4e_pdpe_pte 0x107000) ≡ word (gen_pdpe_pde 0x107000 false 0x03))
    × (page_word (gen_pml4e_pdpe_pte 0x107000) ≡ word (gen_pte 0x107000 false 0x03))
    × (page_word (gen_pde 0x107000 0) ≡ word (gen_pdpe_pde 0x107000 false 0x03))
    × (page_word (gen_pde 0x107000 1) ≡ word (gen_pdpe_pde 0x107000 false 0x83))
page_word-word_example = page_word-word 0x107000 (omega arith)
