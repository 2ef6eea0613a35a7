-- ===== src/Stage2/Main/Run/Search.antt =====
-- The run of `main` of bootloader/stage2/src/stage2.c from the search for the kernel on.
use ziemniak.Base.{
  ℕ, ◌+◌, ◌^◌, ◌<◌, ◌≤◌, ◌≡◌, ◌≢◌, refl, arith, List, ◌∷◌, none, inl, inr, ==-cases, ne→==, codes,
  Returns, returns, Returns-bind, Returns-mono,
}
use ziemniak.Stage2.Video.{Video}
use ziemniak.Stage2.Video.Terminal.{Terminal, IsScreen, Shows}
use ziemniak.Stage2.Disc.{Buffer, Drive}
use ziemniak.Stage2.Disc.Atapi.{IsAtapi}
use ziemniak.Stage2.Disc.Directory.{Lookup}
use ziemniak.Stage2.Disc.Search.Outcome.{
  Outcome, absent, present, IsVolume, root_sectors, view, over, cdrom_search-Outcome,
}
use ziemniak.Stage2.Boot.{MemMap}
use ziemniak.Stage2.Boot.Memory.{header_in}
use ziemniak.Stage2.Boot.Placement.{IsImage}
use ziemniak.Stage2.Boot.Region.{First}
use ziemniak.Stage2.Loader.{RealModeData, Loader, kernel_name, memmap}
use ziemniak.Stage2.Main.{find_kernel}
use ziemniak.Stage2.Main.Calls.{header_in-over, read_buf-over, read_buf-IsReader}
use ziemniak.Stage2.Main.Print.{literal}
use ziemniak.Stage2.Main.Print.Report.{print_found-Prints}
use ziemniak.Stage2.Main.Run.{Found, missing, found, Ends}
use ziemniak.Stage2.Main.Run.Load.{place_kernel-Ends}

module _ {drive : Drive} {io depth : ℕ} {sector : ℕ → Buffer}
    (atapi : IsAtapi drive io depth sector) (ports : io + 7 < 2 ^ 16) (fuel : ℕ)
    (deep : depth ≤ fuel) (enough : 2 ^ 32 ≤ fuel) (screen : Video) (visible : IsScreen screen)
    (rm_data : RealModeData) where
  -- A result with extent 0 is no record.
  missing-all :
      (buf : Buffer) (entries : ℕ → List ℕ) (r : ℕ × ℕ)
      → IsVolume sector buf kernel_name entries fuel
      → Outcome sector buf kernel_name entries r
      → r.0 ≡ 0
      → (c : ℕ) → c < root_sectors sector buf
      → Lookup kernel_name (view sector buf c) (entries c) none
  missing-all buf entries r volume (absent all) zero_lba = all
  missing-all buf entries r volume (present {c} {at} inside before named) zero_lba =
      absurd (volume.extents c at inside named zero_lba)

  pub find_kernel-Ends :
      (load_size : ℕ) (entries : ℕ → List ℕ) (t : Terminal) (s : Loader)
      → IsVolume sector s.cdrom_buf kernel_name entries fuel
      → ((lba size : ℕ)
          → Outcome sector s.cdrom_buf kernel_name entries (lba, size)
          → lba ≢ 0
          → IsImage (header_in (sector lba)) lba size)
      → ((total : ℕ) (m : MemMap)
          → First total m (memmap rm_data s.memory)
          → m.base + m.len < 2 ^ 32)
      → s.disc.io_port ≡ io
      → Shows screen t s.video
      → Returns
          (Ends screen (Found rm_data sector s.memory s.cdrom_buf entries) t s.interrupts)
          (find_kernel fuel drive rm_data load_size s)
  unfolding find_kernel
  find_kernel-Ends load_size entries t s volume images space port shows =
      Returns-bind
        (cdrom_search-Outcome (read_buf-IsReader atapi ports fuel deep s) volume (omega arith)
          (omega arith) load_size s (s.disc, s.cdrom_buf, port, refl) (omega arith))
        λ r s1 ((d, b, port1, same1), outcome). rw same1 (elim (==-cases r.0 0) [
          | inl zero_lba ↦ rw zero_lba (
              Returns-bind
                ((literal screen visible fuel (omega arith) (codes "Kernel not found :<\n")
                    refl).prints
                  t (record s { disc = d; cdrom_buf = b }) shows)
                λ _ s2 (v2, shows2, same2). rw same2 (
                  returns (record {
                    texts = _;
                    spec = missing (missing-all s.cdrom_buf entries r volume outcome zero_lba);
                    shows = shows2;
                    interrupts = refl;
                  })))
          | inr some_lba ↦
              let image = images r.0 r.1 outcome some_lba in
              rw (ne→== r.0 0 some_lba) (
                Returns-bind
                  ((print_found-Prints screen visible fuel (omega arith) r.0 r.1).prints t
                    (record s { disc = d; cdrom_buf = b }) shows)
                  λ _ s2 (v2, shows2, same2). rw same2 (
                    Returns-bind
                      (read_buf-over atapi ports fuel deep r.0 b
                        (record s { disc = d; cdrom_buf = b; video = v2 })
                        (omega (arith, image.sectors)) port1)
                      λ _ s3 (_, (d3, port3, same3)).
                        rw (same3, header_in-over (sector r.0) b)
                          (Returns-mono
                            (place_kernel-Ends atapi ports fuel deep enough screen visible rm_data
                              r.0 r.1 (header_in (sector r.0)) _
                              (record s { disc = d3; cdrom_buf = over (sector r.0) b; video = v2 })
                              image space port3 shows2)
                            λ o s' ends. record {
                              texts = _ ∷ ends.texts;
                              spec = found outcome some_lba ends.spec;
                              shows = ends.shows;
                              interrupts = ends.interrupts;
                            })))
        ])
