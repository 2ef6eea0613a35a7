-- ===== src/Kernel/Memory.antt =====
-- The memory manager, kernel/src/memory/mm.c: page entries, and `mm_peek`, which maps a range of
-- physical memory at a fixed virtual address.
pub mod Init
pub mod Mmu
pub mod Peek
pub mod Window
use ziemniak.Base.{
  ℕ, zero, suc, ◌+◌, ◌*◌, ◌/◌, ◌%◌, ◌^◌, Bool, true, false, bit_and, ltb, ◌==◌, if◌then◌else◌, u64,
  sub64, ◌>>>◌, ◌<<<◌,
}
use Prim.Native.Nat.{bit_xor}
use ziemniak.Machine.{History, invlpg, set_cr3}
use ziemniak.Pages.{page_down, block_up, block_down, block_size}
use ziemniak.Kernel.Errno.{einval, eperm, enotsup}

abbrev pub peek_addr : ℕ
peek_addr = 0xFFFF800000000000

abbrev pub m1gb : ℕ
m1gb = 0x40000000

abbrev pub entry_cnt : ℕ
entry_cnt = 512

abbrev pub entry_size : ℕ
entry_size = 8

-- `struct page_entry`, a bit field of widths 9, 3, 40, 11 and 1.
pub record PageEntry : Type 0 where
  pub flags : ℕ
  pub avl2 : ℕ
  pub addr : ℕ
  pub avl1 : ℕ
  pub nx : ℕ

-- An assignment to a field keeps the bits that fit its width.
unfoldable pub gen_entry : (addr : ℕ) (nx : Bool) (flags : ℕ) → PageEntry
gen_entry addr nx flags = record {
  flags = flags % 2 ^ 9;
  avl2 = 0;
  addr = (addr >>> 12) % 2 ^ 40;
  avl1 = 0;
  nx = if nx then 1 else 0;
}

unfoldable pub gen_pml4 : (addr : ℕ) (nx : Bool) (flags : ℕ) → PageEntry
gen_pml4 addr nx flags = gen_entry addr nx (bit_and flags 0x1F)

unfoldable pub gen_pdpe_pde : (addr : ℕ) (nx : Bool) (flags : ℕ) → PageEntry
gen_pdpe_pde addr nx flags = gen_entry addr nx (bit_and flags 0x9F)

unfoldable pub gen_pte : (addr : ℕ) (nx : Bool) (flags : ℕ) → PageEntry
gen_pte addr nx flags = gen_entry addr nx (bit_and flags 0x19F)

-- The static pointer `peek_pde`, the memory that it and `virt` point into, by address, and what
-- the processor has done. 0 is `NULL`.
pub record Mm : Type 0 where
  pub peek_pde : ℕ
  pub entries : ℕ → PageEntry
  pub pointers : ℕ → ℕ
  pub history : History

abbrev pub update : {A : Type 0} → (ℕ → A) → ℕ → A → ℕ → A
update f p v q = if q == p then v else f q

-- One round of the loop of `mm_peek`.
unfoldable pub peek_block : (addr i : ℕ) → Mm → Mm
peek_block addr i s =
    let tmp = page_down (u64 (addr + i * block_size)) in
    record s {
      entries = update s.entries (u64 (s.peek_pde + i * entry_size)) (gen_pdpe_pde tmp false 0x83);
      history = invlpg (u64 (peek_addr + i * block_size)) s.history;
    }

unfoldable pub peek_loop : (left i addr : ℕ) → Mm → Mm
peek_loop zero i addr s = s
peek_loop (suc left) i addr s = peek_loop left (i + 1) addr (peek_block addr i s)

-- The number of blocks that the range touches.
unfoldable pub peek_cnt : (addr size : ℕ) → ℕ
peek_cnt addr size = sub64 (block_up (u64 (addr + size))) (block_down addr) / block_size

unfoldable pub mm_peek : (virt phys size : ℕ) → Mm → ℕ × Mm
mm_peek virt phys size s =
    if s.peek_pde == 0
    then (eperm, s)
    else if virt == 0
    then (einval, s)
    else if ltb m1gb size
    then (enotsup, s)
    else let cnt = peek_cnt phys size in
      if ltb entry_cnt cnt
      then (enotsup, s)
      else let s' = peek_loop cnt 0 phys s in
        (0, record s' { pointers = update s'.pointers virt (u64 (peek_addr + phys % block_size)) })

abbrev cr3_flag_mask : ℕ
cr3_flag_mask = 3 <<< 3

abbrev cr3_addr_mask : ℕ
cr3_addr_mask = 0x000FFFFFFFFFF000

-- `register` is what the register of the assembly in `set_cr3` holds.
unfoldable pub mm_set_cr3 : (register : History → ℕ) (pml4 flags : ℕ) → History → History
mm_set_cr3 register pml4 flags h =
    let temp = bit_and pml4 cr3_addr_mask in
    let temp = bit_xor temp (bit_and flags cr3_flag_mask) in set_cr3 register temp h
