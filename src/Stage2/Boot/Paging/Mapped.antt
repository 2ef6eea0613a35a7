-- ===== src/Stage2/Boot/Paging/Mapped.antt =====
-- What the tables of the boot loader map, by walks through their entries.
use ziemniak.Base.{
  ℕ, ◌+◌, ◌-◌, ◌*◌, ◌/◌, ◌%◌, ◌^◌, ◌<◌, ◌≤◌, ◌≡◌, refl, ap, ◌∙◌, arith, some, ltb, leb, inl, inr,
  ◌⊎◌, ◌&&◌, if◌then◌else◌, u32, sub32,
}
use ziemniak.Pages.{page_cnt, page_size}
use ziemniak.Stage2.Boot.{
  KernelHeader, Layout, Page, no_page, Tables, put, gen_pde, at_table, upper_tables, kernel_loop,
  fill_tables, page_tables, kernel_page, stack_page,
}
use ziemniak.Stage2.Boot.Paging.{
  index, walk, block, kernel_loop-at, stack_loop-at, walk-page, walk-block, IsLow, IsMapped, Agrees,
  count, rounds,
}

module _ (header : KernelHeader) (l : Layout) (low : IsLow header l) (tab : Tables)
    (same : Agrees header l tab) where
  -- Every entry of the tables.
  tab-at :
      (j : ℕ)
      → j < 5120
      → (j < 3072) ⊎ (3584 ≤ j)
      → tab j ≡ (
          if ltb (4608 + 511) (j + page_cnt header.stack_size) && leb j (4608 + 511)
          then stack_page l.load_end (j - 4608)
          else if leb 4096 j && ltb j (4096 + (l.pages - l.load_buf) / 4096)
          then kernel_page l.load_buf (j - 4096)
          else upper_tables put l.pages (λ _. no_page) j)
  unfolding page_tables fill_tables
  tab-at j inside out =
      same j inside out
      ∙ (let upper = upper_tables put l.pages (λ _. no_page) in
          let kernel = kernel_loop put ((l.pages - l.load_buf) / 4096) 0 l.load_buf upper in
          rw (rounds header l low, count header l low)
            (stack_loop-at (page_cnt header.stack_size) 511 l.load_end kernel j low.stack_size
                (omega arith)
              ∙ ground (
                arith,
                kernel_loop-at ((l.pages - l.load_buf) / 4096) 0 l.load_buf upper j
                    (omega (arith, low.kernel_size)),
              )))

  tab-upper :
      (j : ℕ)
      → j < 4096
      → (j < 3072) ⊎ (3584 ≤ j)
      → tab j ≡ upper_tables put l.pages (λ _. no_page) j
  tab-upper j h out = ground (arith, tab-at j (omega arith) out, low.stack_size)

  tab-kernel :
      (i : ℕ) → i < (l.pages - l.load_buf) / 4096 → tab (4096 + i) ≡ kernel_page l.load_buf i
  tab-kernel i h =
      let place : 4096 + i - 4096 ≡ i = omega arith in
      let entry = tab-at (4096 + i) (omega (arith, low.kernel_size)) (inr (omega arith)) in
      ground (arith, entry, low.stack_size, low.kernel_size)

  tab-stack :
      (q : ℕ)
      → q < page_cnt header.stack_size
      → tab (4608 + (511 - q)) ≡ stack_page l.load_end (511 - q)
  tab-stack q h =
      let place : 4608 + (511 - q) - 4608 ≡ 511 - q = omega (arith, low.stack_size) in
      ground (arith, tab-at (4608 + (511 - q)) (omega arith) (inr (omega arith)), low.stack_size)

  next-at : (t : ℕ) → t < 10 → u32 (at_table l.pages t) / 2 ^ 12 - l.pages / 4096 ≡ t
  next-at t h = omega (arith, low.pages_aligned, low.tables, low.top)

  abbrev entry : ℕ → Page
  entry = upper_tables put l.pages (λ _. no_page)

  -- The kernel is mapped at the top 2 GiB, page by page.
  kernel-walk :
      (off : ℕ)
      → off < l.pages - l.load_buf
      → walk l.pages tab (0xFFFFFFFF80000000 + off) ≡ some (l.load_buf + off)
  unfolding upper_tables put kernel_page
  kernel-walk off h =
      let virt = 0xFFFFFFFF80000000 + off in
      let i3 : index 3 virt ≡ 511 = omega (arith, low.kernel_size) in
      let i2 : index 2 virt ≡ 510 = omega (arith, low.kernel_size) in
      let i1 : index 1 virt ≡ 0 = omega (arith, low.kernel_size) in
      let i0 : index 0 virt ≡ off / 4096 = omega (arith, low.kernel_size) in
      walk-page l.pages tab virt (at_table l.pages 1) (at_table l.pages 4) (at_table l.pages 8)
        (u32 (u32 l.load_buf + off / 4096 * page_size))
        (rw i3 (tab-upper 511 (omega arith) (inl (omega arith))))
        (rw (next-at 1 (omega arith), i2) (tab-upper 1022 (omega arith) (inl (omega arith))))
        (rw (next-at 4 (omega arith), i1) (tab-upper 2048 (omega arith) (inl (omega arith))))
        (rw (next-at 8 (omega arith), i0)
          (tab-kernel (off / 4096) (omega (arith, low.pages_aligned, low.buf_aligned))))
      ∙ ap some (omega (arith, low.kernel_size, low.tables, low.top, low.buf_aligned))

  -- The boot loader's own memory stays where it is, as one block.
  low-walk : (virt : ℕ) → virt < 2 ^ 21 → walk l.pages tab virt ≡ some virt
  unfolding upper_tables put
  low-walk virt h =
      let i3 : index 3 virt ≡ 0 = omega arith in
      let i2 : index 2 virt ≡ 0 = omega arith in
      let i1 : index 1 virt ≡ 0 = omega arith in
      walk-block l.pages tab virt (at_table l.pages 3) (at_table l.pages 7) (gen_pde 0 1)
        (rw i3 (tab-upper 0 (omega arith) (inl (omega arith))))
        (rw (next-at 3 (omega arith), i2) (tab-upper 1536 (omega arith) (inl (omega arith))))
        (rw (next-at 7 (omega arith), i1) (tab-upper 3584 (omega arith) (inr (omega arith)))) refl
        refl
      ∙ ap some (omega arith)

  -- Page `q` below the end of the address space.
  stack-walk :
      (q r : ℕ)
      → q < page_cnt header.stack_size
      → r < 4096
      → walk l.pages tab (2 ^ 64 - (q + 1) * 4096 + r) ≡ some (l.load_end - q * 4096 + r)
  unfolding upper_tables put stack_page
  stack-walk q r h hr =
      let virt = 2 ^ 64 - (q + 1) * 4096 + r in
      let i3 : index 3 virt ≡ 511 = omega (arith, low.stack_size) in
      let i2 : index 2 virt ≡ 511 = omega (arith, low.stack_size) in
      let i1 : index 1 virt ≡ 511 = omega (arith, low.stack_size) in
      let i0 : index 0 virt ≡ 511 - q = omega (arith, low.stack_size) in
      walk-page l.pages tab virt (at_table l.pages 1) (at_table l.pages 5) (at_table l.pages 9)
        (sub32 (u32 l.load_end) ((511 - (511 - q)) * page_size))
        (rw i3 (tab-upper 511 (omega arith) (inl (omega arith))))
        (rw (next-at 1 (omega arith), i2) (tab-upper 1023 (omega arith) (inl (omega arith))))
        (rw (next-at 5 (omega arith), i1) (tab-upper 3071 (omega arith) (inl (omega arith))))
        (rw (next-at 9 (omega arith), i0) (tab-stack q h))
      ∙ ap some
          (omega (arith, low.stack_size, low.tables, low.top, low.stack_aligned, low.stack_fits))

pub same-IsMapped :
    (header : KernelHeader) (l : Layout)
    → IsLow header l
    → (tab : Tables) → Agrees header l tab
    → IsMapped header l tab
same-IsMapped header l low tab same = record {
  kernel = kernel-walk header l low tab same;
  boot = low-walk header l low tab same;
  stack = stack-walk header l low tab same;
}

-- The range of `mm_peek`, whose entries are those of table 6.
pub window-walk :
    (header : KernelHeader) (l : Layout)
    → IsLow header l
    → (tab : Tables) → Agrees header l tab
    → (off : ℕ) → off < 2 ^ 30
    → (tab (3072 + off / 2 ^ 21)).pres ≡ 1
    → (tab (3072 + off / 2 ^ 21)).big ≡ 1
    → walk l.pages tab (0xFFFF800000000000 + off)
      ≡ block (tab (3072 + off / 2 ^ 21)) ((0xFFFF800000000000 + off) % 2 ^ 21)
unfolding upper_tables put
window-walk header l low tab same off h present_entry big_entry =
    let virt = 0xFFFF800000000000 + off in
    let i3 : index 3 virt ≡ 256 = omega arith in
    let i2 : index 2 virt ≡ 0 = omega arith in
    let i1 : index 1 virt ≡ off / 2 ^ 21 = omega arith in
    walk-block l.pages tab virt (at_table l.pages 2) (at_table l.pages 6)
      (tab (3072 + off / 2 ^ 21))
      (rw i3 (tab-upper header l low tab same 256 (omega arith) (inl (omega arith))))
      (rw (next-at header l low tab same 2 (omega arith), i2)
        (tab-upper header l low tab same 1024 (omega arith) (inl (omega arith))))
      (rw (next-at header l low tab same 6 (omega arith), i1) refl) present_entry big_entry

-- For a layout below 4 GiB, a kernel of at most 2 MiB and a stack of less, the page tables map the
-- kernel at 0xFFFFFFFF80000000, the low 2 MiB to themselves, and page `q` from the end of the address
-- space to page `q` counted down from `load_end`, so the highest one to the page that starts at
-- `load_end`, past the stack.
pub page_tables-IsMapped :
    (header : KernelHeader) (l : Layout) → IsLow header l → IsMapped header l (page_tables header l)
page_tables-IsMapped header l low =
    same-IsMapped header l low (page_tables header l) (λ j inside out. refl)
