-- ===== src/Kernel/Tests/Entry.antt =====
-- The start of the kernel on a PC with one serial port and a screen of 1024 by 768 pixels.
use ziemniak.Kernel.Tests.Devices.{com1, slow_uart, com1-Drains}
use ziemniak.Base.{
  ℕ, ◌+◌, ◌*◌, ◌%◌, refl, arith, List, [], ◌∷◌, leb, if◌then◌else◌, replicate, Returns,
}
use ziemniak.Pic.{Pics, running}
use ziemniak.Kernel.Serial.{boot}
use ziemniak.Kernel.Serial.Uart.{uart}
use ziemniak.Kernel.Interrupts.{interrupts_init, remap_pic}
use ziemniak.Kernel.Memory.{Mm}
use ziemniak.Kernel.Memory.Init.{MemMap}
use ziemniak.Kernel.Memory.Window.{IsRequest}
use ziemniak.Kernel.Entry.{LongModeData, Kernel, with_history, main}
use ziemniak.Kernel.Entry.Start.{IsPort, IsStarted, screen_size, main-IsStarted}

abbrev pub bda : ℕ → ℕ
bda id = if leb 1 id then 0 else com1

abbrev pub table : ℕ → ℕ
table v = 0xFFFFFFFF80001000 + v % 48 * 16

abbrev pub firmware : Pics
firmware = record {
  master = record { phase = running; base = 8; cascade = 4; mode = 1; mask = 0xB8; ended = 0 };
  slave = record { phase = running; base = 0x70; cascade = 2; mode = 1; mask = 0x8F; ended = 0 };
}

abbrev mm : Mm
mm = record {
  peek_pde = 0;
  entries = λ _. record { flags = 0; avl2 = 0; addr = 0; avl1 = 0; nx = 0 };
  pointers = λ _. 0;
  history = [];
}

abbrev pub booted : Kernel
booted = record {
  idt = λ _. record { isr_l = 0; cs = 0; ist = 0; attr = 0; isr_m = 0; isr_h = 0; rsrvd = 0 };
  debug = record { serial = boot; buf = replicate 19 0 };
  mm = mm;
}

abbrev lm_data : LongModeData
lm_data = record {
  framebuf_ptr = 0xE0000000;
  font_ptr = 0xFFA6E;
  memmap_ptr = 0x9000;
  load_buf = 0x100000;
  load_end = 0x115000;
  peek_entry = 0x10D000;
  memmap_size = 1;
  scr_width = 1024;
  scr_height = 768;
  boot_disk_io = 0x170;
  boot_disk_ctl = 0x376;
  is_boot_disk_slv = 0;
  red_pos = 16;
  green_pos = 8;
  blue_pos = 0;
  rsrvd_pos = 24;
}

abbrev memmap : List MemMap
memmap = record { base = 0x100000; last = 0x7EE0000; type = 1; attrs = 0 } ∷ []

pub port : IsPort slow_uart com1 (
    with_history
      (interrupts_init table 0xFFFFFFFF80003000
        (record { idt = booted.idt; history = [] })).1.history
      booted.debug)
unfolding interrupts_init remap_pic uart
port = record { reported = omega arith; closed = refl; echoes = refl; room = (omega arith, refl) }

request :
    IsRequest 0x5000 0xE0000000 (screen_size lm_data) (record mm { peek_pde = lm_data.peek_entry })
request = omega arith

main-IsStarted_example :
    Returns
      (λ _ s'. IsStarted table 0xFFFFFFFF80003000 firmware com1 0x5000 memmap lm_data booted s')
      (main slow_uart 2 table 0xFFFFFFFF80003000 bda 0x5000 memmap lm_data booted)
main-IsStarted_example =
    main-IsStarted slow_uart 2 bda com1-Drains (omega arith) table (λ v. omega arith) firmware
      0xFFFFFFFF80003000 0x5000 memmap lm_data booted port request (omega arith)
