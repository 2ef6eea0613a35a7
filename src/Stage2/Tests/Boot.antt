-- ===== src/Stage2/Tests/Boot.antt =====
-- A kernel of 28 KiB with a stack of 16 KiB, on a PC with 128 MiB.
use ziemniak.Base.{
  ℕ, ◌+◌, ◌^◌, ◌<◌, ◌≤◌, ◌≡◌, none, some, u32, ◌⊎◌, refl, arith, List, [], ◌∷◌, leb, ltb, ◌&&◌,
  if◌then◌else◌, ◌-◌, ◌*◌, ◌/◌, ◌%◌, Returns,
}
use ziemniak.Pages.{page_up, page_cnt}
use ziemniak.Stage2.Boot.{
  MemMap, KernelHeader, Layout, total_size, required, choose, layout, page_tables,
}
use ziemniak.Stage2.Boot.Memory.{build_tables, clear_loop}
use ziemniak.Stage2.Boot.Memory.Build.{IsBuilt, build_tables-IsBuilt, clear_loop-Ends}
use ziemniak.Stage2.Disc.{Buffer}
use ziemniak.Stage2.Boot.Load.{load}
use ziemniak.Stage2.Boot.Load.Image.{load-image}
use ziemniak.Stage2.Tests.Disc.{IsReady, read, reader, sector, memory}
use ziemniak.Stage2.Boot.Region.{First, first, later, None, Fits, choose-Fits}
use ziemniak.Stage2.Boot.Paging.{IsLow, IsMapped}
use ziemniak.Stage2.Boot.Paging.Mapped.{page_tables-IsMapped}

abbrev header : KernelHeader
header = record {
  start = 0xFFFFFFFF80000050;
  stext = 0xFFFFFFFF80000000;
  etext = 0xFFFFFFFF80003000;
  sdata = 0xFFFFFFFF80003000;
  edata = 0xFFFFFFFF80004000;
  srodata = 0xFFFFFFFF80004000;
  erodata = 0xFFFFFFFF80005000;
  sbss = 0xFFFFFFFF80005000;
  ebss = 0xFFFFFFFF80006F00;
  stack_size = 0x4000;
}

abbrev firmware_map : List MemMap
firmware_map =
    record { base = 0; len = 0x9FC00; type = 1; attrs = 0 }
    ∷ record { base = 0xF0000; len = 0x10000; type = 2; attrs = 0 }
    ∷ record { base = 0x100000; len = 0x7EE0000; type = 1; attrs = 0 }
    ∷ []

choose_runs : choose (total_size header) firmware_map ≡ 0x100000
unfolding choose total_size required page_up
choose_runs = refl

space : (m : MemMap) → First (total_size header) m firmware_map → m.base + m.len < 2 ^ 64
space m (first _) = omega arith
space m (later _ (first _)) = omega arith
space m (later _ (later _ (first _))) = omega arith
space m (later _ (later _ (later _ found))) = elim found [ ]

choose-Fits_example :
    ((m : MemMap) × First (total_size header) m firmware_map
      × Fits header m (layout header (choose (total_size header) firmware_map)))
    ⊎ (None (total_size header) firmware_map × (choose (total_size header) firmware_map ≡ 0))
choose-Fits_example =
    choose-Fits header firmware_map
      (record { ordered = omega arith; word = omega arith; small = omega arith }) space

abbrev placed : Layout
placed = record { load_buf = 0x100000; pages = 0x107000; stack = 0x111000; load_end = 0x115000 }

layout_runs : layout header 0x100000 ≡ placed
unfolding layout page_up
layout_runs = refl

low : IsLow header placed
unfolding page_cnt page_up
low = record {
  pages_aligned = omega arith;
  buf_aligned = omega arith;
  ordered = omega arith;
  kernel_size = omega arith;
  tables = omega arith;
  top = omega arith;
  stack_size = omega arith;
  stack_aligned = omega arith;
  stack_fits = omega arith;
}

page_tables-IsMapped_example : IsMapped header placed (page_tables header placed)
page_tables-IsMapped_example = page_tables-IsMapped header placed low

load-image_example :
    Returns
      (λ m s'.
        IsReady s'
        × ((p : ℕ)
            → m p ≡ (
                if leb 0x100000 p && ltb p (0x100000 + (3000 + 2047) / 2048 * 2048)
                then sector (5 + (p - 0x100000) / 2048) ((p - 0x100000) % 2048)
                else memory p)))
      (load read 3000 5 0x100000 memory tt)
load-image_example =
    load-image reader 5 0x100000 3000 memory tt tt (omega arith) (omega arith) (omega arith)

build_tables-IsBuilt_example :
    (built : Buffer) × (build_tables (2 ^ 32) header placed memory ≡ some built)
    × IsBuilt header placed memory built
build_tables-IsBuilt_example = build_tables-IsBuilt (2 ^ 32) header placed memory low (omega arith)

clear_loop-Ends_example :
    (0x115000 < 2 ^ 32
      → (cleared : Buffer) × (clear_loop (2 ^ 32) (u32 0x107000) 0x115000 memory ≡ some cleared)
        × ((p : ℕ) → cleared p ≡ (if leb 0x107000 p && ltb p 0x115000 then 0 else memory p)))
    × (2 ^ 32 ≤ 0x115000 → (more : ℕ) → clear_loop more (u32 0x107000) 0x115000 memory ≡ none)
clear_loop-Ends_example =
    clear_loop-Ends (2 ^ 32) 0x107000 0x115000 memory (omega arith) (omega arith)
