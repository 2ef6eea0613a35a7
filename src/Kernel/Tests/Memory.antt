-- ===== src/Kernel/Tests/Memory.antt =====
-- `mm_peek` at concrete ranges.
use ziemniak.Base.{◌+◌, ◌≡◌, refl, arith, none, some, []}
use ziemniak.Pages.{block_up, block_down}
use ziemniak.Kernel.Memory.{Mm, peek_addr, mm_peek, peek_cnt, peek_loop, peek_block}
use ziemniak.Kernel.Memory.Window.{IsRequest, IsWindow, Finds, mm_peek-Finds, mm_peek_faults}

abbrev mm : Mm
mm = record {
  peek_pde = 0x107000;
  entries = λ _. record { flags = 0; avl2 = 0; addr = 0; avl1 = 0; nx = 0 };
  pointers = λ _. 0;
  history = [];
}

-- A frame buffer of 3 MiB that starts on a block, and one that starts in the middle of one.
frame_buffer : IsRequest 0x5000 0xE0000000 0x300000 mm
frame_buffer = omega arith

shifted : IsRequest 0x5000 0xE0100000 0x300000 mm
shifted = omega arith

runs : (mm_peek 0x5000 0xE0000000 0x300000 mm).1.pointers 0x5000 ≡ peek_addr
unfolding mm_peek peek_cnt block_up block_down peek_loop peek_block
runs = refl

mm_peek-Finds_example :
    IsWindow 0x5000 0xE0000000 0x300000 mm (mm_peek 0x5000 0xE0000000 0x300000 mm)
    × Finds 0x5000 0x300000 (λ off. some (0xE0000000 + off)) (mm_peek 0x5000 0xE0000000 0x300000 mm)
mm_peek-Finds_example = mm_peek-Finds frame_buffer (omega arith)

mm_peek_faults_example :
    IsWindow 0x5000 0xE0100000 0x300000 mm (mm_peek 0x5000 0xE0100000 0x300000 mm)
    × Finds 0x5000 0x300000 (λ off. none) (mm_peek 0x5000 0xE0100000 0x300000 mm)
mm_peek_faults_example = mm_peek_faults shifted (omega arith)
