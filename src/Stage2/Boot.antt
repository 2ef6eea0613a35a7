-- ===== src/Stage2/Boot.antt =====
-- Where the boot loader puts the kernel and which page tables it builds: the parts of `main` of
-- bootloader/stage2/src/stage2.c that decide it. The ten tables that follow the kernel are one
-- function from an index, 512 entries for each table, so that an index past the end of a table is
-- one of the next.
pub mod Load
pub mod Memory
pub mod Paging
pub mod Placement
pub mod Region
use ziemniak.Base.{
  ℕ, zero, suc, ◌+◌, ◌-◌, ◌*◌, ◌/◌, ◌%◌, ◌^◌, List, [], ◌∷◌, not, ltb, leb, ◌==◌, if◌then◌else◌,
  u32, u64, sub64, sub32, ◌>>>◌,
}
use ziemniak.Pages.{page_up, page_cnt, page_size}

-- `struct mem_map`
pub record MemMap : Type 0 where
  pub base : ℕ
  pub len : ℕ
  pub type : ℕ
  pub attrs : ℕ

-- `struct kernel_header`
pub record KernelHeader : Type 0 where
  pub start : ℕ
  pub stext : ℕ
  pub etext : ℕ
  pub sdata : ℕ
  pub edata : ℕ
  pub srodata : ℕ
  pub erodata : ℕ
  pub sbss : ℕ
  pub ebss : ℕ
  pub stack_size : ℕ

-- `struct page`, a bit field of 64 bits.
pub record Page : Type 0 where
  pub pres : ℕ
  pub writ : ℕ
  pub user : ℕ
  pub wr_th : ℕ
  pub d_cach : ℕ
  pub accd : ℕ
  pub dirty : ℕ
  pub big : ℕ
  pub glob : ℕ
  pub avl2 : ℕ
  pub addr : ℕ
  pub avl1 : ℕ
  pub nx : ℕ

abbrev pub free_ram : ℕ
free_ram = 0x01

-- `total_size`, an `uint32_t`, as it is printed and as the regions are compared with it.
unfoldable pub required : KernelHeader → ℕ
required header = u32 (u32 (sub64 header.ebss header.stext + header.stack_size) + 10 * page_size)

unfoldable pub total_size : KernelHeader → ℕ
total_size header = u32 (required header + page_size * 2)

-- The loop on the memory map: `buf`, 0 if no region is large enough.
unfoldable pub choose : (total_size : ℕ) → List MemMap → ℕ
choose total_size [] = 0
choose total_size (m ∷ ms) =
    if not (m.type == free_ram)
    then choose total_size ms
    else if ltb m.base 0x100000
    then choose total_size ms
    else if leb total_size m.len
    then page_up m.base
    else choose total_size ms

-- `load_buf`, `pages`, `stack` and the last value of `buf`.
pub record Layout : Type 0 where
  pub load_buf : ℕ
  pub pages : ℕ
  pub stack : ℕ
  pub load_end : ℕ

unfoldable pub layout : KernelHeader → (buf : ℕ) → Layout
layout header buf =
    let pages = u64 (buf + page_up (sub64 header.ebss header.stext)) in
    let stack = u64 (pages + 10 * page_size) in
    record {
      load_buf = buf;
      pages = pages;
      stack = stack;
      load_end = u64 (stack + header.stack_size);
    }

abbrev pub no_page : Page
no_page = record {
  pres = 0;
  writ = 0;
  user = 0;
  wr_th = 0;
  d_cach = 0;
  accd = 0;
  dirty = 0;
  big = 0;
  glob = 0;
  avl2 = 0;
  addr = 0;
  avl1 = 0;
  nx = 0;
}

-- The argument is a pointer of 32 bits.
abbrev pub gen_pml4e_pdpe_pte : (addr : ℕ) → Page
gen_pml4e_pdpe_pte addr = record no_page { addr = u32 addr >>> 12; writ = 1; pres = 1 }

abbrev pub gen_pde : (addr big : ℕ) → Page
gen_pde addr big = record no_page { addr = u32 addr >>> 12; writ = 1; big = big; pres = 1 }

abbrev pub Tables : Type 0
Tables = ℕ → Page

-- `&page_tab[table][0]`
abbrev pub at_table : (pages table : ℕ) → ℕ
at_table pages table = u32 (u32 pages + table * page_size)

-- The entries of the last two loops.
unfoldable pub kernel_page : (load_buf i : ℕ) → Page
kernel_page load_buf i = gen_pml4e_pdpe_pte (u32 (u32 load_buf + i * page_size))

unfoldable pub stack_page : (load_end i : ℕ) → Page
stack_page load_end i = gen_pml4e_pdpe_pte (sub32 (u32 load_end) ((511 - i) * page_size))

-- The rounds of the loop on the stack: `i > 511 - PAGE_CNT(...)` on 64-bit numbers, so that there
-- are none if the difference wraps.
abbrev pub stack_pages : (stack_size : ℕ) → ℕ
stack_pages stack_size = if leb (page_cnt stack_size) 511 then page_cnt stack_size else 0

-- The assignments to `page_tab`, over a function that writes entry `i` of a table.
module _ {T : Type 0} (place : (table i : ℕ) → Page → T → T) where
  unfoldable pub upper_tables : (pages : ℕ) → T → T
  upper_tables pages tab =
      let tab = place 0 511 (gen_pml4e_pdpe_pte (at_table pages 1)) tab in
      let tab = place 0 256 (gen_pml4e_pdpe_pte (at_table pages 2)) tab in
      let tab = place 0 0 (gen_pml4e_pdpe_pte (at_table pages 3)) tab in
      let tab = place 1 510 (gen_pml4e_pdpe_pte (at_table pages 4)) tab in
      let tab = place 1 511 (gen_pml4e_pdpe_pte (at_table pages 5)) tab in
      let tab = place 2 0 (gen_pml4e_pdpe_pte (at_table pages 6)) tab in
      let tab = place 3 0 (gen_pml4e_pdpe_pte (at_table pages 7)) tab in
      let tab = place 4 0 (gen_pde (at_table pages 8) 0) tab in
      let tab = place 7 0 (gen_pde 0 1) tab in place 5 511 (gen_pde (at_table pages 9) 0) tab

  -- The rounds left and the `uint32_t i`. With a bound above 2^32 the loop of the code does not end.
  unfoldable pub kernel_loop : (left i load_buf : ℕ) → T → T
  kernel_loop zero i load_buf tab = tab
  kernel_loop (suc left) i load_buf tab =
      kernel_loop left (u32 (i + 1)) load_buf (place 8 i (kernel_page load_buf i) tab)

  -- From entry 511 down.
  unfoldable pub stack_loop : (left i load_end : ℕ) → T → T
  stack_loop zero i load_end tab = tab
  stack_loop (suc left) i load_end tab =
      stack_loop left (i - 1) load_end (place 9 i (stack_page load_end i) tab)

  unfoldable pub fill_tables : KernelHeader → Layout → T → T
  fill_tables header l tab =
      stack_loop (stack_pages header.stack_size) 511 l.load_end
        (kernel_loop (page_cnt (sub64 l.pages l.load_buf)) 0 l.load_buf (upper_tables l.pages tab))

unfoldable pub put : (table i : ℕ) → Page → Tables → Tables
put table i page tab j = if j == table * 512 + i then page else tab j

-- All the tables, which start cleared.
unfoldable pub page_tables : KernelHeader → Layout → Tables
page_tables header l = fill_tables put header l (λ _. no_page)
