-- ===== src/Stage2/Main/Run.antt =====
-- How a run of `main` of bootloader/stage2/src/stage2.c ends.
pub mod Load
pub mod Search
pub mod Whole
use ziemniak.Base.{
  ℕ, ◌+◌, ◌*◌, ◌^◌, ◌<◌, ◌≤◌, ◌≡◌, ◌≢◌, List, [], ◌∷◌, none, codes, u32, Returns, Returns-mono,
}
use ziemniak.Stage2.Interrupts.{Interrupts}
use ziemniak.Stage2.Video.{Video}
use ziemniak.Stage2.Video.Terminal.{Terminal, Shows, enter_all, cols, rows}
use ziemniak.Stage2.Disc.{Buffer}
use ziemniak.Stage2.Disc.Directory.{Lookup}
use ziemniak.Stage2.Disc.Search.Outcome.{Outcome, view, root_sectors}
use ziemniak.Stage2.Boot.{MemMap, KernelHeader, Layout, total_size, layout}
use ziemniak.Stage2.Boot.Region.{First, None, Fits}
use ziemniak.Stage2.Boot.Placement.{IsLoaded}
use ziemniak.Stage2.Boot.Memory.{header_in}
use ziemniak.Stage2.Loader.{
  RealModeData, Loader, entered, halted, kernel_name, memmap, long_mode_data,
}
use ziemniak.Stage2.Main.Print.Report.{
  memmap_text, header_text, found_text, required_text, layout_text, loading_text,
}

abbrev pub Result : Type 0
Result = ziemniak.Stage2.Loader.Outcome

module _ (rm_data : RealModeData) (sector : ℕ → Buffer) (start : Buffer) where
  -- The end of a run from `print_header` on, with the texts that it prints and the last memory.
  pub data Placed (lba size : ℕ) (header : KernelHeader)
      : Result → List (List ℕ) → Buffer → Type 0 where
    no_region :
        None (total_size header) (memmap rm_data start)
        → Placed lba size header halted
            (header_text header
              ∷ required_text header
              ∷ codes "Could not allocate sufficient memory :<\n"
              ∷ [])
            start
    loaded :
        {m : MemMap} {l : Layout} {memory : Buffer}
        → First (total_size header) m (memmap rm_data start)
        → Fits header m l
        → IsLoaded header l lba size sector start memory
        → Placed lba size header
            (entered header.start (u32 l.pages) (long_mode_data rm_data l))
            (header_text header ∷ required_text header ∷ layout_text l ∷ loading_text size ∷ [])
            memory

  -- From the search for the kernel on.
  pub data Found (buf : Buffer) (entries : ℕ → List ℕ)
      : Result → List (List ℕ) → Buffer → Type 0 where
    missing :
        ((c : ℕ)
          → c < root_sectors sector buf
          → Lookup kernel_name (view sector buf c) (entries c) none)
        → Found buf entries halted (codes "Kernel not found :<\n" ∷ []) start
    found :
        {lba size : ℕ} {o : Result} {texts : List (List ℕ)} {memory : Buffer}
        → Outcome sector buf kernel_name entries (lba, size)
        → lba ≢ 0
        → Placed lba size (header_in (sector lba)) o texts memory
        → Found buf entries o (found_text lba size ∷ texts) memory

  -- The whole run; `signature` is what the drive answers to the reset.
  pub data Ran (signature : ℕ) (buf : Buffer) (entries : ℕ → List ℕ)
      : Result → List (List ℕ) → Buffer → Type 0 where
    unsupported :
        signature ≢ 0xEB14
        → Ran signature buf entries halted
            (codes "Memory detection successful\n"
              ∷ memmap_text (memmap rm_data start)
              ∷ codes "Searching for kernel image...\n"
              ∷ codes "Disk not supported :<\n"
              ∷ [])
            start
    supported :
        {o : Result} {texts : List (List ℕ)} {memory : Buffer}
        → signature ≡ 0xEB14
        → Found buf entries o texts memory
        → Ran signature buf entries o
            (codes "Memory detection successful\n"
              ∷ memmap_text (memmap rm_data start)
              ∷ codes "Searching for kernel image...\n"
              ∷ texts)
            memory

-- Texts that are typed one after another.
abbrev pub typed_all : (cols rows : ℕ) → List (List ℕ) → Terminal → Terminal
typed_all cols rows [] t = t
typed_all cols rows (text ∷ texts) t = typed_all cols rows texts (enter_all cols rows text t)

-- The end of a run: what it printed is on the screen, and the interrupts are as they were.
pub record Ends (screen : Video) (Spec : Result → List (List ℕ) → Buffer → Type 0) (t : Terminal)
    (i : Interrupts) (o : Result) (s : Loader) : Type 0 where
  pub texts : List (List ℕ)
  pub spec : Spec o texts s.memory
  pub shows : Shows screen (typed_all (cols screen) (rows screen) texts t) s.video
  pub interrupts : s.interrupts ≡ i
