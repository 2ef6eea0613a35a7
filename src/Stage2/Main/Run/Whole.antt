-- ===== src/Stage2/Main/Run/Whole.antt =====
-- `main` of bootloader/stage2/src/stage2.c ends as `Ran` says.
use ziemniak.Base.{
  ℕ, ◌+◌, ◌^◌, ◌<◌, ◌≤◌, ◌≡◌, ◌≢◌, refl, ap, arith, List, ◌∷◌, ◌==◌, inl, inr, ==-cases, ne→==,
  codes, length, Returns, returns, Returns-bind, Returns-mono,
}
use ziemniak.Stage2.Interrupts.{Handler, init_idt}
use ziemniak.Stage2.Video.{Video, video_init, video_clr}
use ziemniak.Stage2.Video.Terminal.{IsScreen}
use ziemniak.Stage2.Video.Print.{blank, video_clr-Shows}
use ziemniak.Stage2.Disc.{Buffer, Drive, cdrom_init}
use ziemniak.Stage2.Disc.Atapi.{IsAtapi}
use ziemniak.Stage2.Disc.Probe.{IsChannel, cdrom_init-Checks}
use ziemniak.Stage2.Disc.Search.Outcome.{Outcome, IsVolume}
use ziemniak.Stage2.Boot.{MemMap}
use ziemniak.Stage2.Boot.Memory.{header_in}
use ziemniak.Stage2.Boot.Placement.{IsImage}
use ziemniak.Stage2.Boot.Region.{First}
use ziemniak.Stage2.Loader.{RealModeData, Loader, kernel_name, memmap}
use ziemniak.Stage2.Main.{start_up, main}
use ziemniak.Stage2.Main.Calls.{on_disc-Returns}
use ziemniak.Stage2.Main.Print.{literal}
use ziemniak.Stage2.Main.Print.Report.{memmap_text, print_memmap-Prints}
use ziemniak.Stage2.Main.Run.{Ran, unsupported, supported, Ends}
use ziemniak.Stage2.Main.Run.Search.{find_kernel-Ends}

-- The video driver after `video_init`.
abbrev pub opened : (frame : ℕ → ℕ → ℕ) (rm_data : RealModeData) → Loader → Video
opened frame rm_data s =
    video_init rm_data.scr_width rm_data.scr_height (frame rm_data.framebuf_ptr)
      (λ i. s.memory (rm_data.font_ptr + i)) s.video

module _ {drive : Drive} {depth signature : ℕ} {sector : ℕ → Buffer} (place : Handler → ℕ)
    (idt_addr : ℕ) (frame : ℕ → ℕ → ℕ) (rm_data : RealModeData) where
  -- On a disc with an ISO 9660 volume descriptor in sector 16, in an ATAPI drive whose waits are
  -- bounded by the fuel, which is at least 2^32, at ports that can be addressed, with a screen that
  -- has room for a character, a static buffer of 17 bytes for `video_convert_hex`, a memory map whose
  -- suitable regions end below 4 GiB, and files of the kernel's name that hold an image of at most
  -- 2 MiB with a stack of less: `main` of the boot loader returns from every loop. It halts for a
  -- wrong signature, for a missing file or without a region that suits, and otherwise enters the
  -- kernel at the address of its header, with a memory in which the page tables map the file at
  -- 0xFFFFFFFF80000000 and nothing outside kernel, tables and stack has changed. Either way the screen
  -- shows all that it says and nothing else, and the interrupt table is set up.
  pub main-Ends :
      (fuel load_size : ℕ) (entries : ℕ → List ℕ) (s : Loader)
      → IsAtapi drive rm_data.boot_disk_io depth sector
      → IsChannel drive rm_data.boot_disk_io rm_data.boot_disk_ctl rm_data.is_boot_disk_slv depth
          signature
      → rm_data.boot_disk_io + 7 < 2 ^ 16
      → rm_data.boot_disk_ctl < 2 ^ 16
      → depth ≤ fuel
      → 2 ^ 32 ≤ fuel
      → IsScreen (opened frame rm_data s)
      → length s.video.buf ≡ 17
      → IsVolume sector s.cdrom_buf kernel_name entries fuel
      → ((lba size : ℕ)
          → Outcome sector s.cdrom_buf kernel_name entries (lba, size)
          → lba ≢ 0
          → IsImage (header_in (sector lba)) lba size)
      → ((total : ℕ) (m : MemMap)
          → First total m (memmap rm_data s.memory)
          → m.base + m.len < 2 ^ 32)
      → Returns
          (Ends
            (opened frame rm_data s)
            (Ran rm_data sector s.memory signature s.cdrom_buf entries)
            blank
            (init_idt place idt_addr s.interrupts))
          (main place idt_addr frame rm_data fuel drive load_size s)
  unfolding main start_up
  main-Ends fuel load_size entries s atapi channel ports ctl_port deep enough visible room volume
        images space =
      let screen = opened frame rm_data s in
      let interrupts = init_idt place idt_addr s.interrupts in
      let clear =
        video_clr-Shows rm_data.scr_width rm_data.scr_height (frame rm_data.framebuf_ptr)
          (λ i. s.memory (rm_data.font_ptr + i)) s.video visible room in
      Returns-bind
        ((literal screen visible fuel (omega arith) (codes "Memory detection successful\n")
            refl).prints
          blank (record s { interrupts = interrupts; video = video_clr screen }) clear)
        λ _ s1 (v1, shows1, same1). rw same1 (
          Returns-bind
            ((print_memmap-Prints screen visible fuel (omega arith)
                (memmap rm_data s.memory)).prints
              _ (record s { interrupts = interrupts; video = v1 }) shows1)
            λ _ s2 (v2, shows2, same2). rw same2 (
              Returns-bind
                ((literal screen visible fuel (omega arith)
                    (codes "Searching for kernel image...\n") refl).prints
                  _ (record s { interrupts = interrupts; video = v2 }) shows2)
                λ _ s3 (v3, shows3, same3). rw same3 (
                  Returns-bind
                    (on_disc-Returns
                      (cdrom_init drive fuel rm_data.boot_disk_io rm_data.boot_disk_ctl
                        rm_data.is_boot_disk_slv)
                      (record s { interrupts = interrupts; video = v3 })
                      (cdrom_init-Checks channel ports ctl_port fuel s.disc deep))
                    λ bad s4 (d, (answer, port, _, _, _), same4).
                      rw (same4, answer)
                        (elim (==-cases signature 0xEB14) [
                          | inr other ↦ rw (ne→== signature 0xEB14 other) (
                              Returns-bind
                                ((literal screen visible fuel (omega arith)
                                    (codes "Disk not supported :<\n") refl).prints
                                  _ (record s { interrupts = interrupts; video = v3; disc = d })
                                  shows3)
                                λ _ s5 (v5, shows5, same5). rw same5 (
                                  returns (record {
                                    texts = _;
                                    spec = unsupported other;
                                    shows = shows5;
                                    interrupts = refl;
                                  })))
                          | inl atapi_drive ↦ rw (ap (λ n. n == 0xEB14) atapi_drive) (
                              Returns-mono
                                (find_kernel-Ends atapi ports fuel deep enough screen visible
                                  rm_data load_size entries _
                                  (record s { interrupts = interrupts; video = v3; disc = d })
                                  volume images space port shows3)
                                λ o s' ends. record {
                                  texts =
                                      codes "Memory detection successful\n"
                                      ∷ memmap_text (memmap rm_data s.memory)
                                      ∷ codes "Searching for kernel image...\n"
                                      ∷ ends.texts;
                                  spec = supported atapi_drive ends.spec;
                                  shows = ends.shows;
                                  interrupts = ends.interrupts;
                                })
                        ]))))
