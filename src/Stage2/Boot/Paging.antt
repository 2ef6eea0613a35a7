-- ===== src/Stage2/Boot/Paging.antt =====
-- What the processor finds in the page tables of the boot loader.
pub mod Mapped
use ziemniak.Base.{
  ℕ, zero, suc, ◌+◌, ◌-◌, ◌*◌, ◌/◌, ◌%◌, ◌^◌, ◌<◌, ◌≤◌, ◌≡◌, refl, ap, ◌∙◌, arith, Option, none,
  some, ltb, leb, ==-cases, ne→==, inl, inr, ◌⊎◌, ◌==◌, ◌&&◌, if◌then◌else◌, u32, sub64, sub32,
}
use ziemniak.Pages.{page_up_lem, page_cnt, page_size}
use ziemniak.Stage2.Boot.{
  KernelHeader, Layout, Page, no_page, Tables, put, gen_pml4e_pdpe_pte, gen_pde, at_table,
  upper_tables, kernel_loop, stack_loop, fill_tables, stack_pages, page_tables, kernel_page,
  stack_page,
}

-- The index that a virtual address has into a table of level `k`, 0 for a page table.
abbrev pub index : (k virt : ℕ) → ℕ
index k virt = virt / 2 ^ (12 + 9 * k) % 512

-- The physical address: the tables stand one after another from `pages` on, an entry holds the page
-- number of the next one. A 2 MiB page ends the walk early.
abbrev pub next : (pages : ℕ) → Page → ℕ
next pages e = e.addr - pages / 4096

abbrev pub present : {A : Type 0} → Page → Option A → Option A
present e r = if e.pres == 1 then r else none

-- Of the bits 12 to 20 the first is no part of the address of a 2 MiB page, and an access faults if
-- another is set.
abbrev pub block : Page → (offset : ℕ) → Option ℕ
block e offset = if e.addr / 2 % 2 ^ 8 == 0 then some (e.addr / 2 ^ 9 * 2 ^ 21 + offset) else none

unfoldable pub walk : (pages : ℕ) → Tables → (virt : ℕ) → Option ℕ
walk pages tab virt =
    let e4 = tab (index 3 virt) in
    let e3 = tab (next pages e4 * 512 + index 2 virt) in
    let e2 = tab (next pages e3 * 512 + index 1 virt) in
    let e1 = tab (next pages e2 * 512 + index 0 virt) in
    present e4 (
      present e3 (
        present e2 (
          if e2.big == 1
          then block e2 (virt % 2 ^ 21)
          else present e1 (some (e1.addr * 4096 + virt % 4096)))))

-- The entry that a round writes, by its place.
put-at :
    (table i j : ℕ) (page : ℕ → Page) (tab : Tables)
    → put table i (page i) tab j ≡ (if j == table * 512 + i then page (j - table * 512) else tab j)
unfolding put
put-at table i j page tab = elim (==-cases j (table * 512 + i)) [
  | inl here ↦ let same : i ≡ j - table * 512 = omega arith in rw (← same) refl
  | inr other ↦ rw (ne→== j (table * 512 + i) other) refl
]

pub kernel_loop-at :
    (left i load_buf : ℕ) (tab : Tables) (j : ℕ)
    → i + left < 2 ^ 32
    → kernel_loop put left i load_buf tab j ≡ (
        if leb (8 * 512 + i) j && ltb j (8 * 512 + i + left)
        then kernel_page load_buf (j - 8 * 512)
        else tab j)
unfolding kernel_loop
kernel_loop-at zero i load_buf tab j h = ground arith
kernel_loop-at (suc left) i load_buf tab j h =
    let next : u32 (i + 1) ≡ i + 1 = omega arith in
    rw next (
      kernel_loop-at left (i + 1) load_buf (put 8 i (kernel_page load_buf i) tab) j (omega arith)
      ∙ ground (arith, put-at 8 i j (kernel_page load_buf) tab))

pub stack_loop-at :
    (left i load_end : ℕ) (tab : Tables) (j : ℕ)
    → left ≤ i
    → i < 512
    → stack_loop put left i load_end tab j ≡ (
        if ltb (9 * 512 + i) (j + left) && leb j (9 * 512 + i)
        then stack_page load_end (j - 9 * 512)
        else tab j)
unfolding stack_loop
stack_loop-at zero i load_end tab j h l = ground arith
stack_loop-at (suc left) i load_end tab j h l =
    stack_loop-at left (i - 1) load_end (put 9 i (stack_page load_end i) tab) j (omega arith)
      (omega arith)
    ∙ ground (arith, put-at 9 i j (stack_page load_end) tab)

-- A walk through four tables whose entries are known.
pub walk-page :
    (pages : ℕ) (tab : Tables) (virt a4 a3 a2 a1 : ℕ)
    → tab (index 3 virt) ≡ gen_pml4e_pdpe_pte a4
    → tab (next pages (gen_pml4e_pdpe_pte a4) * 512 + index 2 virt) ≡ gen_pml4e_pdpe_pte a3
    → tab (next pages (gen_pml4e_pdpe_pte a3) * 512 + index 1 virt) ≡ gen_pde a2 0
    → tab (next pages (gen_pde a2 0) * 512 + index 0 virt) ≡ gen_pml4e_pdpe_pte a1
    → walk pages tab virt ≡ some (u32 a1 / 2 ^ 12 * 4096 + virt % 4096)
unfolding walk
walk-page pages tab virt a4 a3 a2 a1 h4 h3 h2 h1 = rw (h4, h3, h2, h1) refl

pub walk-block :
    (pages : ℕ) (tab : Tables) (virt a4 a3 : ℕ) (e2 : Page)
    → tab (index 3 virt) ≡ gen_pml4e_pdpe_pte a4
    → tab (next pages (gen_pml4e_pdpe_pte a4) * 512 + index 2 virt) ≡ gen_pml4e_pdpe_pte a3
    → tab (next pages (gen_pml4e_pdpe_pte a3) * 512 + index 1 virt) ≡ e2
    → e2.pres ≡ 1
    → e2.big ≡ 1
    → walk pages tab virt ≡ block e2 (virt % 2 ^ 21)
unfolding walk
walk-block pages tab virt a4 a3 e2 h4 h3 h2 present_entry big_entry =
    rw (h4, h3, h2, present_entry, big_entry) refl

-- A layout below 4 GiB, for a kernel of at most 2 MiB and a stack of less than 2 MiB.
pub record IsLow (header : KernelHeader) (l : Layout) : Type 0 where
  pub pages_aligned : l.pages % 4096 ≡ 0
  pub buf_aligned : l.load_buf % 4096 ≡ 0
  pub ordered : l.load_buf + 4096 ≤ l.pages
  pub kernel_size : l.pages ≤ l.load_buf + 512 * 4096
  pub tables : l.pages + 10 * 4096 ≤ l.load_end
  pub top : l.load_end < 2 ^ 32
  pub stack_size : page_cnt header.stack_size ≤ 511
  pub stack_aligned : l.load_end % 4096 ≡ 0
  pub stack_fits : page_cnt header.stack_size * 4096 ≤ l.load_end

module _ (header : KernelHeader) (l : Layout) (low : IsLow header l) where
  pub rounds : stack_pages header.stack_size ≡ page_cnt header.stack_size
  rounds = ground (arith, low.stack_size)

  pub count : page_cnt (sub64 l.pages l.load_buf) ≡ (l.pages - l.load_buf) / 4096
  unfolding page_cnt
  count =
      let size : sub64 l.pages l.load_buf ≡ l.pages - l.load_buf =
        omega (arith, low.ordered, low.tables, low.top) in
      rw size (
        omega (
          arith,
          page_up_lem (l.pages - l.load_buf) (omega (arith, low.tables, low.top)),
          low.pages_aligned,
          low.buf_aligned,
          low.ordered,
        ))

-- The address space that the kernel is entered in.
pub record IsMapped (header : KernelHeader) (l : Layout) (tab : Tables) : Type 0 where
  pub kernel :
      (off : ℕ)
      → off < l.pages - l.load_buf
      → walk l.pages tab (0xFFFFFFFF80000000 + off) ≡ some (l.load_buf + off)
  pub boot : (virt : ℕ) → virt < 2 ^ 21 → walk l.pages tab virt ≡ some virt
  pub stack :
      (q r : ℕ)
      → q < page_cnt header.stack_size
      → r < 4096
      → walk l.pages tab (2 ^ 64 - (q + 1) * 4096 + r) ≡ some (l.load_end - q * 4096 + r)

-- The tables of the boot loader, but for the one that `mm_peek` of the kernel writes to.
abbrev pub Agrees : KernelHeader → Layout → Tables → Type 0
Agrees header l tab = (j : ℕ) → j < 5120 → (j < 3072) ⊎ (3584 ≤ j) → tab j ≡ page_tables header l j
