-- ===== src/Handover/Tests/Whole.antt =====
-- The kernel of the boot loader's tests, started on a PC with one serial port.
use ziemniak.Base.{
  ℕ, ◌+◌, ◌-◌, ◌*◌, ◌/◌, ◌%◌, ◌^◌, ◌<◌, ◌≡◌, refl, arith, [], ◌∷◌, true, map, some, codes, leb, ltb,
  ◌&&◌, if◌then◌else◌, Returns, u32,
}
use ziemniak.Pages.{page_up}
use ziemniak.Kernel.Entry.{main}
use ziemniak.Kernel.Entry.Start.{IsStarted, screen_size}
use ziemniak.Kernel.Tests.Devices.{com1, slow_uart, com1-Drains}
use ziemniak.Kernel.Tests.Entry.{bda, table, firmware, booted, port}
use ziemniak.Stage2.Disc.{Buffer, load32}
use ziemniak.Stage2.Disc.Directory.{Lookup}
use ziemniak.Stage2.Disc.Search.Outcome.{Outcome, present}
use ziemniak.Stage2.Boot.{MemMap, KernelHeader, Layout, total_size, required, layout}
use ziemniak.Stage2.Boot.Memory.{load64, header_in, mem_maps, mem_map_at}
use ziemniak.Stage2.Boot.Memory.Tables.{tables_at}
use ziemniak.Stage2.Boot.Memory.Build.{build_tables-IsBuilt}
use ziemniak.Stage2.Boot.Paging.{walk, IsLow}
use ziemniak.Stage2.Boot.Placement.{IsLoaded, layout-IsLow, load_kernel-IsLoaded}
use ziemniak.Stage2.Boot.Region.{First, Fits, suits, layout-Fits}
use ziemniak.Stage2.Loader.{entered, kernel_name, memmap, long_mode_data}
use ziemniak.Stage2.Main.Run.{Ran, supported, found, loaded}
use ziemniak.Stage2.Main.Print.Report.{
  memmap_text, header_text, found_text, required_text, layout_text, loading_text,
}
use ziemniak.Stage2.Tests.Main.{header_sector, sector, memory, rm_data, entries, image}
use ziemniak.Handover.{as_entry, with_window, received, map_in}
use ziemniak.Handover.Started.{entered-IsStarted}

abbrev header : KernelHeader
header = header_in header_sector

abbrev region : MemMap
region = mem_map_at memory 0x5000 0

abbrev l : Layout
l = layout header (page_up region.base)

suit : suits (total_size header) region ≡ true
unfolding mem_map_at header_in load64 load32 total_size required
suit = refl

fits : Fits header region l
unfolding mem_map_at load64 load32
fits = layout-Fits header region image.sane suit (omega arith)

low : IsLow header l
unfolding mem_map_at load64 load32
low = layout-IsLow header 30 0x6000 region image fits (omega arith)

abbrev built : Buffer
built = (build_tables-IsBuilt (2 ^ 32) header l memory low (omega arith)).0

-- The memory with the file in it.
abbrev final : Buffer
final p =
    if leb l.load_buf p && ltb p (l.load_buf + (0x6000 + 2047) / 2048 * 2048)
    then sector (30 + (p - l.load_buf) / 2048) ((p - l.load_buf) % 2048)
    else built p

is_loaded : IsLoaded header l 30 0x6000 sector memory final
is_loaded =
    load_kernel-IsLoaded header 30 0x6000 region l sector memory built final image fits low
      (build_tables-IsBuilt (2 ^ 32) header l memory low (omega arith)).2 (λ p. refl)

outcome : Outcome sector (λ _. 0) kernel_name entries (30, 0x6000)
unfolding load32
outcome =
    present {c = 0} {at = 0} (omega arith) (λ c h. absurd (omega arith))
      (Lookup.first
        (refl, (refl, (refl, (refl, (refl, (refl, (refl, (refl, (refl, (refl, tt)))))))))))

ran :
    Ran rm_data sector memory 0xEB14
      (λ _. 0)
      entries
      (entered header.start (u32 l.pages) (long_mode_data rm_data l))
      (codes "Memory detection successful\n"
        ∷ memmap_text (memmap rm_data memory)
        ∷ codes "Searching for kernel image...\n"
        ∷ found_text 30 0x6000
        ∷ header_text header
        ∷ required_text header
        ∷ layout_text l
        ∷ loading_text 0x6000
        ∷ [])
      final
unfolding mem_maps
ran =
    supported refl
      (found outcome (omega arith) (loaded {m = region} (First.first suit) fits is_loaded))

entered-IsStarted_example :
    Returns
      (λ _ s'.
        IsStarted table 0xFFFFFFFF80003000 firmware com1 0x5000
          (map as_entry (memmap rm_data memory))
          (received (long_mode_data rm_data l))
          booted
          s'
        × ((off : ℕ)
            → off < screen_size (received (long_mode_data rm_data l))
            → walk
                (u32 l.pages)
                (with_window
                  (u32 l.pages)
                  s'.mm.peek_pde
                  s'.mm.entries
                  (tables_at final (u32 l.pages)))
                (s'.mm.pointers 0x5000 + off)
              ≡ some (0xE0000000 + off))
        × ((a : ℕ)
            → a < 4096
            → walk
                (u32 l.pages)
                (tables_at final (u32 l.pages))
                ((long_mode_data rm_data l).peek_entry + a)
              ≡ some ((long_mode_data rm_data l).peek_entry + a)))
      (main slow_uart 2 table 0xFFFFFFFF80003000 bda 0x5000
        (map_in final (received (long_mode_data rm_data l)))
        (received (long_mode_data rm_data l))
        booted)
unfolding long_mode_data layout page_up header_in mem_map_at load64 load32
entered-IsStarted_example =
    entered-IsStarted slow_uart 2 bda com1-Drains (omega arith) table (λ v. omega arith) firmware
      0xFFFFFFFF80003000 0x5000 booted ran (omega arith) (omega arith) port (omega arith)
      (omega arith) (omega arith) (omega arith) (omega arith)
