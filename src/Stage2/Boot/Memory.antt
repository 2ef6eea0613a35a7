-- ===== src/Stage2/Boot/Memory.antt =====
-- The memory that `main` of bootloader/stage2/src/stage2.c reads its structures from and writes its
-- page tables to, a function from an address to a byte.
pub mod Build
pub mod Tables
use ziemniak.Base.{
  ℕ, zero, suc, ◌+◌, ◌-◌, ◌*◌, ◌/◌, ◌%◌, ◌^◌, ◌≡◌, refl, arith, ◌==◌, ◌&&◌, if◌then◌else◌, ltb, leb,
  List, [], ◌∷◌, Option, none, some, u16, u32, ◌>>>◌, ==-cases, ne→==, inl, inr, ◌∙◌,
}
use mathlib.Core.Option
use ziemniak.Stage2.Disc.{Buffer, load32}
use ziemniak.Stage2.Boot.{MemMap, KernelHeader, Layout, Page, fill_tables}

-- A `uint64_t`, the low byte first.
unfoldable pub load64 : Buffer → ℕ → ℕ
load64 memory at = load32 memory at + load32 memory (at + 4) * 2 ^ 32

unfoldable pub store64 : (at val : ℕ) → Buffer → Buffer
store64 at val memory j =
    if leb at j && ltb j (at + 8) then val / 2 ^ (8 * (j - at)) % 2 ^ 8 else memory j

-- Element `i` of an array of `struct mem_map`, which is packed.
unfoldable pub mem_map_at : Buffer → (mem_map i : ℕ) → MemMap
mem_map_at memory mem_map i =
    let at = mem_map + i * 24 in
    record {
      base = load64 memory at;
      len = load64 memory (at + 8);
      type = load32 memory (at + 16);
      attrs = load32 memory (at + 20);
    }

unfoldable pub mem_maps : Buffer → (mem_map left i : ℕ) → List MemMap
mem_maps memory mem_map zero i = []
mem_maps memory mem_map (suc left) i =
    mem_map_at memory mem_map i ∷ mem_maps memory mem_map left (i + 1)

-- The `struct kernel_header` at the start of a buffer.
unfoldable pub header_in : Buffer → KernelHeader
header_in buf = record {
  start = load64 buf 0;
  stext = load64 buf 8;
  etext = load64 buf 16;
  sdata = load64 buf 24;
  edata = load64 buf 32;
  srodata = load64 buf 40;
  erodata = load64 buf 48;
  sbss = load64 buf 56;
  ebss = load64 buf 64;
  stack_size = load64 buf 72;
}

-- The bit field, the first member in the lowest bit.
unfoldable pub page_word : Page → ℕ
page_word p =
    p.pres
    + p.writ * 2
    + p.user * 2 ^ 2
    + p.wr_th * 2 ^ 3
    + p.d_cach * 2 ^ 4
    + p.accd * 2 ^ 5
    + p.dirty * 2 ^ 6
    + p.big * 2 ^ 7
    + p.glob * 2 ^ 8
    + p.avl2 * 2 ^ 9
    + p.addr * 2 ^ 12
    + p.avl1 * 2 ^ 52
    + p.nx * 2 ^ 63

unfoldable pub page_of : (word : ℕ) → Page
page_of word = record {
  pres = word % 2;
  writ = word / 2 % 2;
  user = word / 2 ^ 2 % 2;
  wr_th = word / 2 ^ 3 % 2;
  d_cach = word / 2 ^ 4 % 2;
  accd = word / 2 ^ 5 % 2;
  dirty = word / 2 ^ 6 % 2;
  big = word / 2 ^ 7 % 2;
  glob = word / 2 ^ 8 % 2;
  avl2 = word / 2 ^ 9 % 2 ^ 3;
  addr = word / 2 ^ 12 % 2 ^ 40;
  avl1 = word / 2 ^ 52 % 2 ^ 11;
  nx = word / 2 ^ 63 % 2;
}

-- `page_tab[table][i] = page`
unfoldable pub store_page : (pages table i : ℕ) → Page → Buffer → Buffer
store_page pages table i page = store64 (u32 (u32 pages + (table * 512 + i) * 8)) (page_word page)

-- The loop that clears the tables and the stack: `i` is an `uint32_t`, `buf` an `uint64_t`.
unfoldable pub clear_loop : (fuel i buf : ℕ) → Buffer → Option Buffer
clear_loop zero i buf memory = none
clear_loop (suc fuel) i buf memory =
    let rest = clear_loop fuel (u32 (i + 1)) buf (λ p. if p == i then 0x00 else memory p) in
    if ltb i buf then rest else some memory

-- The clearing, and the assignments to the tables.
unfoldable pub build_tables : (fuel : ℕ) → KernelHeader → Layout → Buffer → Option Buffer
build_tables fuel header l memory =
    Option.map (fill_tables (store_page l.pages) header l)
      (clear_loop fuel (u32 l.pages) l.load_end memory)
