-- ===== src/Pages.antt =====
-- The page and block macros of kernel/include/defs.h; those of bootloader/stage2/include/defs.h
-- have the same bodies. All arithmetic is on `uint64_t`.
use ziemniak.Base.{ℕ, ◌+◌, ◌*◌, ◌/◌, ◌%◌, ◌^◌, ◌<◌, ◌≤◌, ◌≡◌, arith, bit_and, u64}
use ziemniak.Base.Bits.{bit_and_high}

abbrev pub page_size : ℕ
page_size = 4096

abbrev pub block_size : ℕ
block_size = 2097152

unfoldable pub page_up : ℕ → ℕ
page_up x = bit_and (u64 (x + 4095)) 0xFFFFFFFFFFFFF000

unfoldable pub page_down : ℕ → ℕ
page_down x = bit_and x 0xFFFFFFFFFFFFF000

unfoldable pub page_cnt : ℕ → ℕ
page_cnt x = page_up x / page_size

unfoldable pub block_up : ℕ → ℕ
block_up x = bit_and (u64 (x + 2097151)) 0xFFFFFFFFFFE00000

unfoldable pub block_down : ℕ → ℕ
block_down x = bit_and x 0xFFFFFFFFFFE00000

pub page_down_lem : (x : ℕ) → x < 2 ^ 64 → page_down x ≡ x / 4096 * 4096
unfolding page_down
page_down_lem x h = bit_and_high 12 52 x (omega arith)

pub page_up_wrap : (x : ℕ) → page_up x ≡ u64 (x + 4095) / 4096 * 4096
unfolding page_up
page_up_wrap x = bit_and_high 12 52 (u64 (x + 4095)) (omega arith)

pub page_up_lem : (x : ℕ) → x + 4095 < 2 ^ 64 → page_up x ≡ (x + 4095) / 4096 * 4096
page_up_lem x h = omega (arith, page_up_wrap x)

pub block_down_lem : (x : ℕ) → x < 2 ^ 64 → block_down x ≡ x / block_size * block_size
unfolding block_down
block_down_lem x h = bit_and_high 21 43 x (omega arith)

pub block_up_lem :
    (x : ℕ) → x + 2097151 < 2 ^ 64 → block_up x ≡ (x + 2097151) / block_size * block_size
unfolding block_up
block_up_lem x h = omega (arith, bit_and_high 21 43 (u64 (x + 2097151)) (omega arith))

-- `PAGE_UP` and `PAGE_DOWN` give the two page borders nearest to an address, as long as the one
-- above it is an address too.
pub page_bounds :
    (x : ℕ)
    → x + 4095 < 2 ^ 64
    → (page_down x ≤ x)
      × (x < page_down x + 4096)
      × (x ≤ page_up x)
      × (page_up x < x + 4096)
      × (page_down x % 4096 ≡ 0)
      × (page_up x % 4096 ≡ 0)
page_bounds x h = omega (arith, page_down_lem x, page_up_lem x)
