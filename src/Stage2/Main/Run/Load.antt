-- ===== src/Stage2/Main/Run/Load.antt =====
-- The run of `main` of bootloader/stage2/src/stage2.c from `print_header` on.
use ziemniak.Base.{
  ℕ, ◌+◌, ◌*◌, ◌/◌, ◌^◌, ◌<◌, ◌≤◌, ◌≡◌, refl, arith, ◌∷◌, ◌==◌, true, false, inl, inr, ne→==, codes,
  Returns, returns, Returns-bind, Returns-mono,
}
use ziemniak.Pages.{page_up, page_up_lem}
use ziemniak.Stage2.Video.{Video}
use ziemniak.Stage2.Video.Terminal.{Terminal, IsScreen, Shows}
use ziemniak.Stage2.Disc.{Buffer, Drive}
use ziemniak.Stage2.Disc.Atapi.{IsAtapi}
use ziemniak.Stage2.Boot.{MemMap, KernelHeader, Layout, total_size, layout}
use ziemniak.Stage2.Boot.Memory.Build.{build_tables-IsBuilt}
use ziemniak.Stage2.Boot.Paging.{IsLow}
use ziemniak.Stage2.Boot.Placement.{IsImage, layout-IsLow, load_kernel-IsLoaded}
use ziemniak.Stage2.Boot.Region.{First, Fits, First-suits, suits, choose-First, layout-Fits}
use ziemniak.Stage2.Loader.{RealModeData, Loader, memmap}
use ziemniak.Stage2.Main.{enter_kernel, place_kernel}
use ziemniak.Stage2.Main.Calls.{load_kernel-image}
use ziemniak.Stage2.Main.Print.{literal}
use ziemniak.Stage2.Main.Print.Report.{
  header_text, required_text, print_header-Prints, print_required-Prints, print_layout-Prints,
  print_loading-Prints,
}
use ziemniak.Stage2.Main.Run.{Placed, no_region, loaded, Ends}

pub base-lt : (total : ℕ) (m : MemMap) → suits total m ≡ true → 0x100000 ≤ m.base
base-lt total m suit = ground arith

module _ {drive : Drive} {io depth : ℕ} {sector : ℕ → Buffer}
    (atapi : IsAtapi drive io depth sector) (ports : io + 7 < 2 ^ 16) (fuel : ℕ)
    (deep : depth ≤ fuel) (enough : 2 ^ 32 ≤ fuel) (screen : Video) (visible : IsScreen screen)
    (rm_data : RealModeData) where
  enter_kernel-Ends :
      (lba size : ℕ) (header : KernelHeader) (m : MemMap) (l : Layout) (t : Terminal) (s : Loader)
      → IsImage header lba size
      → First (total_size header) m (memmap rm_data s.memory)
      → Fits header m l
      → IsLow header l
      → s.disc.io_port ≡ io
      → Shows screen t s.video
      → Returns
          (Ends screen
            (λ o texts.
              Placed rm_data sector s.memory lba size header o
                (header_text header ∷ required_text header ∷ texts))
            t
            s.interrupts)
          (enter_kernel fuel drive rm_data lba size header l s)
  unfolding enter_kernel
  enter_kernel-Ends lba size header m l t s image chosen fits low port shows =
      let (built, run, build) = build_tables-IsBuilt fuel header l s.memory low enough in
      let end : l.load_buf + (size + 2047) / 2048 * 2048 ≤ 2 ^ 32 = omega (
        arith, fits.kernel, image.inside, low.pages_aligned, low.buf_aligned, low.tables, low.top,
      ) in
      Returns-bind ((print_layout-Prints screen visible fuel (omega arith) l).prints t s shows)
        λ _ s1 (v1, shows1, same1).
          rw (same1, run)
            (Returns-bind
              ((print_loading-Prints screen visible fuel (omega arith) size).prints _
                (record s { video = v1; memory = built }) shows1)
              λ _ s2 (v2, shows2, same2). rw same2 (
                Returns-bind
                  (load_kernel-image atapi ports fuel deep lba size l.load_buf
                    (record s { video = v2; memory = built }) port
                    (omega (arith, image.inside, image.kernel)) (omega (arith, image.sectors)) end)
                  λ _ s3 (d, memory, same3, all). rw same3 (
                    returns (record {
                      texts = _;
                      spec = loaded chosen fits (
                          load_kernel-IsLoaded header lba size m l sector s.memory built memory
                            image fits low build all);
                      shows = shows2;
                      interrupts = refl;
                    }))))

  pub place_kernel-Ends :
      (lba size : ℕ) (header : KernelHeader) (t : Terminal) (s : Loader)
      → IsImage header lba size
      → ((total : ℕ) (m : MemMap)
          → First total m (memmap rm_data s.memory)
          → m.base + m.len < 2 ^ 32)
      → s.disc.io_port ≡ io
      → Shows screen t s.video
      → Returns
          (Ends screen (Placed rm_data sector s.memory lba size header) t s.interrupts)
          (place_kernel fuel drive rm_data lba size header s)
  unfolding place_kernel
  place_kernel-Ends lba size header t s image space port shows =
      Returns-bind ((print_header-Prints screen visible fuel (omega arith) header).prints t s shows)
        λ _ s1 (v1, shows1, same1). rw same1 (
          Returns-bind
            ((print_required-Prints screen visible fuel (omega arith) header).prints _
              (record s { video = v1 }) shows1)
            λ _ s2 (v2, shows2, same2).
              rw same2 (elim (choose-First (total_size header) (memmap rm_data s.memory)) [
                | inr (nothing, zero_buf) ↦ rw zero_buf (
                    Returns-bind
                      ((literal screen visible fuel (omega arith)
                          (codes "Could not allocate sufficient memory :<\n") refl).prints
                        _ (record s { video = v2 }) shows2)
                      λ _ s3 (v3, shows3, same3). rw same3 (
                        returns (record {
                          texts = _;
                          spec = no_region nothing;
                          shows = shows3;
                          interrupts = refl;
                        })))
                | inl (m, chosen, at) ↦
                    let suit = First-suits chosen in
                    let high = base-lt (total_size header) m suit in
                    let low_end = space (total_size header) m chosen in
                    let fits = layout-Fits header m image.sane suit (omega arith) in
                    let low = layout-IsLow header lba size m image fits low_end in
                    let some_buf : (page_up m.base == 0) ≡ false =
                      ne→== (page_up m.base) 0
                        λ nowhere. absurd (omega (arith, page_up_lem m.base (omega arith))) in
                    rw (at, some_buf)
                      (Returns-mono
                        (enter_kernel-Ends lba size header m (layout header (page_up m.base)) _
                          (record s { video = v2 }) image chosen fits low port shows2)
                        λ o s' ends. record {
                          texts = header_text header ∷ required_text header ∷ ends.texts;
                          spec = ends.spec;
                          shows = ends.shows;
                          interrupts = ends.interrupts;
                        })
              ]))
