-- ===== src/Stage2/Main.antt =====
-- `main` of bootloader/stage2/src/stage2.c.
pub mod Calls
pub mod Print
pub mod Refused
pub mod Run
use ziemniak.Base.{
  ℕ, zero, suc, ◌+◌, ◌-◌, ◌*◌, ◌/◌, ◌%◌, ◌^◌, List, [], ◌∷◌, ◌==◌, not, if◌then◌else◌, Option, none,
  some, Cmd, pure, ◌>>=◌, ◌>>◌, codes, u32, u64, ◌<<<◌,
}
use ziemniak.Stage2.Interrupts.{Handler, Interrupts, init_idt}
use ziemniak.Stage2.Video.{Video, video_init, video_clr, video_print, video_print_hex}
use ziemniak.Stage2.Disc.{Buffer, Drive, Disc, cdrom_init, cdrom_read_sector}
use ziemniak.Stage2.Disc.Search.{Reader, cdrom_search}
use ziemniak.Stage2.Boot.{
  MemMap, KernelHeader, Layout, required, total_size, choose, layout, at_table,
}
use ziemniak.Stage2.Boot.Load.{load, load_sectors}
use ziemniak.Stage2.Boot.Memory.{mem_maps, header_in, build_tables}
use ziemniak.Stage2.Loader.{
  RealModeData, LongModeData, Loader, Outcome, halted, entered, with_video, on_video, with_disc,
  on_disc, with_memory, on_memory, kernel_name, mem_map, memmap, long_mode_data, print, print_hex,
}
use ziemniak.Stage2.Loader.Messages.{
  memmap_loop, print_memmap, print_header, halt, print_layout, print_found, print_required,
  print_loading,
}

module _ (fuel : ℕ) where
  module _ (drive : Drive) where
    -- A read into `cdrom_buf`.
    unfoldable pub read_buf : Reader Loader
    read_buf lba buf s =
        (on_disc (cdrom_read_sector drive fuel lba buf) >>= λ (n, buf') s'.
        pure (n, buf') (record s' { cdrom_buf = buf' }))
          s

    unfoldable pub load_kernel : (kernel_lba load_size load_buf : ℕ) → Cmd Loader (Unit {0})
    load_kernel kernel_lba load_size load_buf s =
        (on_disc (load (cdrom_read_sector drive fuel) load_size kernel_lba load_buf s.memory)
            >>= λ memory s'. pure tt (record s' { memory = memory }))
          s

    module _ (rm_data : RealModeData) where
      -- From the message on the layout on.
      unfoldable pub enter_kernel :
          (kernel_lba load_size : ℕ) → KernelHeader → Layout → Cmd Loader Outcome
      enter_kernel kernel_lba load_size header l = do
        print_layout fuel l
        on_memory (build_tables fuel header l)
        print_loading fuel load_size
        load_kernel kernel_lba load_size l.load_buf
        pure (entered header.start (u32 l.pages) (long_mode_data rm_data l))

      -- From `print_header` on.
      unfoldable pub place_kernel : (kernel_lba load_size : ℕ) → KernelHeader → Cmd Loader Outcome
      place_kernel kernel_lba load_size header = do
        print_header fuel header
        print_required fuel header
        λ s.
            (let buf = choose (total_size header) (memmap rm_data s.memory) in
              if buf == 0
              then halt fuel (codes "Could not allocate sufficient memory :<\n") s
              else enter_kernel kernel_lba load_size header (layout header buf) s)

      -- `cdrom_search` and what follows; `load_size` is what the variable holds before.
      unfoldable pub find_kernel : (load_size : ℕ) → Cmd Loader Outcome
      find_kernel load_size =
          (λ s. cdrom_search read_buf fuel kernel_name load_size s.cdrom_buf s)
          >>= λ (kernel_lba, load_size').
              if kernel_lba == 0 then halt fuel (codes "Kernel not found :<\n") else (do
                print_found fuel kernel_lba load_size'
                λ s. read_buf kernel_lba s.cdrom_buf s
                λ s. place_kernel kernel_lba load_size' (header_in s.cdrom_buf) s)

-- Where the linker places the handlers and the table, what the frame buffer at an address holds, and
-- the drive are not part of the program.
module _ (place : Handler → ℕ) (idt_addr : ℕ) (frame : ℕ → ℕ → ℕ) (rm_data : RealModeData) where
  unfoldable pub start_up : Cmd Loader (Unit {0})
  start_up s =
      let font : ℕ → ℕ = λ i. s.memory (rm_data.font_ptr + i) in
      let video =
        video_init rm_data.scr_width rm_data.scr_height (frame rm_data.framebuf_ptr) font s.video in
      pure tt
        (record s { interrupts = init_idt place idt_addr s.interrupts; video = video_clr video })

  unfoldable pub main : (fuel : ℕ) (drive : Drive) (load_size : ℕ) → Cmd Loader Outcome
  main fuel drive load_size = do
    start_up
    print fuel (codes "Memory detection successful\n")
    λ s. print_memmap fuel (memmap rm_data s.memory) s
    print fuel (codes "Searching for kernel image...\n")
    bad ←
        on_disc (
          cdrom_init drive fuel rm_data.boot_disk_io rm_data.boot_disk_ctl rm_data.is_boot_disk_slv)
    if not (bad == 0)
        then halt fuel (codes "Disk not supported :<\n")
        else find_kernel fuel drive rm_data load_size
