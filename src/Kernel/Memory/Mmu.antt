-- ===== src/Kernel/Memory/Mmu.antt =====
-- How an x86-64 processor reads a page directory entry that maps a 2 MiB page. This is the
-- description that the entries of mm.c are measured against.
use ziemniak.Base.{ℕ, ◌+◌, ◌*◌, ◌/◌, ◌%◌, ◌^◌, ◌-◌, Option, none, some, ◌&&◌, ◌==◌, if◌then◌else◌}
use ziemniak.Pages.{block_size}
use ziemniak.Kernel.Memory.{PageEntry, Mm, peek_addr}

-- The 64-bit word of a bit field, the first field lowest.
unfoldable pub word : PageEntry → ℕ
word e = e.flags + e.avl2 * 2 ^ 9 + e.addr * 2 ^ 12 + e.avl1 * 2 ^ 52 + e.nx * 2 ^ 63

-- Bit 0 is `present` and bit 7 `page size`; bits 13 to 20 are reserved, and an access through an
-- entry with one of them set faults. Bits 21 to 51 are the page's address.
unfoldable pub translate : (w offset : ℕ) → Option ℕ
translate w offset =
    if (w % 2 == 1) && (w / 2 ^ 7 % 2 == 1) && (w / 2 ^ 13 % 2 ^ 8 == 0)
    then some (w / 2 ^ 21 % 2 ^ 31 * 2 ^ 21 + offset)
    else none

-- An access at a virtual address of the window that `mm_peek` maps.
abbrev pub access : Mm → (virt : ℕ) → Option ℕ
access s virt =
    translate (word (s.entries (s.peek_pde + (virt - peek_addr) / block_size * 8)))
      (virt % block_size)
