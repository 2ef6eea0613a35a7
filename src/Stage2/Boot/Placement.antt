-- ===== src/Stage2/Boot/Placement.antt =====
-- A kernel that the boot loader of bootloader/stage2/src/stage2.c can place, and the memory after it
-- has been loaded there.
use ziemniak.Base.{
  ℕ, ◌+◌, ◌-◌, ◌*◌, ◌/◌, ◌%◌, ◌^◌, ◌<◌, ◌≤◌, ◌≡◌, ◌⊎◌, inl, inr, refl, ap, ◌∙◌, arith, leb, ltb,
  ◌&&◌, if◌then◌else◌, sub64, some,
}
use ziemniak.Pages.{page_up, page_up_lem, page_cnt}
use ziemniak.Stage2.Disc.{Buffer}
use ziemniak.Stage2.Boot.{MemMap, KernelHeader, Layout, page_tables, layout}
use ziemniak.Stage2.Boot.Memory.{page_of}
use ziemniak.Stage2.Boot.Memory.Tables.{tables_at, load64-same}
use ziemniak.Stage2.Boot.Memory.Build.{IsBuilt}
use ziemniak.Stage2.Boot.Paging.{IsLow, IsMapped, walk}
use ziemniak.Stage2.Boot.Paging.Mapped.{same-IsMapped}
use ziemniak.Stage2.Boot.Region.{IsSane, Fits}

-- A file of `size` bytes from sector `lba` on, with a header for at most 2 MiB of kernel and less of
-- stack, in whole pages.
pub record IsImage (header : KernelHeader) (lba size : ℕ) : Type 0 where
  pub sane : IsSane header
  pub some_code : header.stext < header.ebss
  pub kernel : header.ebss - header.stext ≤ 512 * 4096
  pub stack_pages : header.stack_size ≤ 511 * 4096
  pub stack_aligned : header.stack_size % 4096 ≡ 0
  pub inside : size ≤ header.ebss - header.stext
  pub sectors : lba + (size + 2047) / 2048 < 2 ^ 32

layout-pages :
    (header : KernelHeader) (buf : ℕ)
    → (layout header buf).pages
      ≡ ((layout header buf).load_buf + page_up (sub64 header.ebss header.stext)) % 2 ^ 64
unfolding layout
layout-pages header buf = refl

Fits-IsLow :
    (header : KernelHeader) (lba size : ℕ) (m : MemMap) (l : Layout)
    → IsImage header lba size
    → Fits header m l
    → m.base + m.len < 2 ^ 32
    → l.pages ≡ (l.load_buf + page_up (sub64 header.ebss header.stext)) % 2 ^ 64
    → IsLow header l
unfolding page_cnt
Fits-IsLow header lba size m l image fits low pages =
    let sane = image.sane in
    let k : sub64 header.ebss header.stext ≡ header.ebss - header.stext =
      omega (arith, sane.ordered, sane.word) in
    let kernel : l.pages ≡ (l.load_buf + page_up (header.ebss - header.stext)) % 2 ^ 64 =
      pages ∙ ap (λ n. (l.load_buf + page_up n) % 2 ^ 64) k in
    let up = page_up_lem (header.ebss - header.stext) (omega (arith, image.kernel)) in
    let stack = page_up_lem header.stack_size (omega (arith, image.stack_pages)) in
    let top : l.load_end < 2 ^ 32 = omega (arith, fits.ends) in
    let order = fits.kernel in
    record {
      pages_aligned = fits.aligned.1;
      buf_aligned = fits.aligned.0;
      ordered = omega (arith, fits.aligned.0, fits.aligned.1, fits.kernel, image.some_code);
      kernel_size = omega (arith, image.kernel);
      tables = omega (arith, fits.tables, fits.stack);
      top = top;
      stack_size = omega (arith, image.stack_pages);
      stack_aligned = omega (arith, fits.tables, fits.stack, fits.aligned.1, image.stack_aligned);
      stack_fits = omega (arith, image.stack_aligned, fits.stack);
    }

-- For a kernel that can be placed, in a region that ends below 4 GiB, the layout is one that the page
-- tables are right for.
pub layout-IsLow :
    (header : KernelHeader) (lba size : ℕ) (m : MemMap)
    → IsImage header lba size
    → Fits header m (layout header (page_up m.base))
    → m.base + m.len < 2 ^ 32
    → IsLow header (layout header (page_up m.base))
layout-IsLow header lba size m image fits low =
    Fits-IsLow header lba size m (layout header (page_up m.base)) image fits low
      (layout-pages header (page_up m.base))

-- Memory in which the tables map the file at 0xFFFFFFFF80000000, the stack is cleared, and nothing
-- outside kernel, tables and stack has changed.
pub record IsLoaded (header : KernelHeader) (l : Layout) (lba size : ℕ) (sector : ℕ → Buffer)
    (start memory : Buffer) : Type 0 where
  pub code :
      (off : ℕ)
      → off < size
      → (p : ℕ) × (walk l.pages (tables_at memory l.pages) (0xFFFFFFFF80000000 + off) ≡ some p)
        × (memory p ≡ sector (lba + off / 2048) (off % 2048))
  pub low : IsLow header l
  pub tables : (j : ℕ) → j < 5120 → tables_at memory l.pages j ≡ page_tables header l j
  pub mapped : IsMapped header l (tables_at memory l.pages)
  pub stack : (p : ℕ) → l.stack ≤ p → p < l.load_end → memory p ≡ 0
  pub rest : (p : ℕ) → (p < l.load_buf) ⊎ (l.load_end ≤ p) → memory p ≡ start p

module _ (header : KernelHeader) (lba size : ℕ) (m : MemMap) (l : Layout) (sector : ℕ → Buffer)
    (start built memory : Buffer) (image : IsImage header lba size) (fits : Fits header m l)
    (low : IsLow header l) (build : IsBuilt header l start built)
    (load : (p : ℕ)
      → memory p ≡ (
          if leb l.load_buf p && ltb p (l.load_buf + (size + 2047) / 2048 * 2048)
          then sector (lba + (p - l.load_buf) / 2048) ((p - l.load_buf) % 2048)
          else built p)) where
  -- The last sector ends at the tables or below.
  image-le : l.load_buf + (size + 2047) / 2048 * 2048 ≤ l.pages
  image-le = omega (arith, fits.kernel, image.inside, low.pages_aligned, low.buf_aligned)

  above : (p : ℕ) → l.pages ≤ p → memory p ≡ built p
  above p h = load p ∙ ground (arith, image-le)

  below : (p : ℕ) → p < l.load_buf → memory p ≡ built p
  below p h = load p ∙ ground arith

  file : (off : ℕ) → off < size → memory (l.load_buf + off) ≡ sector (lba + off / 2048) (off % 2048)
  file off h =
      let back : l.load_buf + off - l.load_buf ≡ off = omega arith in
      load (l.load_buf + off) ∙ rw back (ground arith)

  tables_at-same : (j : ℕ) → tables_at memory l.pages j ≡ tables_at built l.pages j
  tables_at-same j =
      ap page_of (load64-same memory built (l.pages + j * 8) λ p from to. above p (omega arith))

  mapped : IsMapped header l (tables_at memory l.pages)
  mapped =
      same-IsMapped header l low (tables_at memory l.pages)
        λ j inside out. tables_at-same j ∙ build.tables j inside

  pub load_kernel-IsLoaded : IsLoaded header l lba size sector start memory
  load_kernel-IsLoaded = record {
    code = λ off h. (
      l.load_buf + off,
      mapped.kernel off (omega (arith, fits.kernel, image.inside)),
      file off h,
    );
    low = low;
    tables = λ j inside. tables_at-same j ∙ build.tables j inside;
    mapped = mapped;
    stack = λ p from to.
        above p (omega (arith, fits.tables)) ∙ build.stack p (omega (arith, fits.tables)) to;
    rest = λ p out. elim out [
      | inl before ↦ below p before ∙ build.rest p (inl (omega (arith, low.ordered)))
      | inr after ↦ above p (omega (arith, low.tables)) ∙ build.rest p (inr after)
    ];
  }
