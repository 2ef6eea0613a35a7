-- ===== src/Stage2/Boot/Load.antt =====
-- The loop of `main` of bootloader/stage2/src/stage2.c that loads the kernel, over a function that
-- reads sectors.
pub mod Image
use ziemniak.Base.{
  ℕ, zero, suc, ◌+◌, ◌-◌, ◌*◌, ◌/◌, ◌%◌, ◌^◌, leb, if◌then◌else◌, some, Cmd, pure, ◌>>=◌, u32,
}
use ziemniak.Stage2.Disc.{Buffer, cd_sector_size}
use ziemniak.Stage2.Disc.Search.{Reader}

-- The buffer that starts at an address, and the memory after it has been changed.
abbrev pub from : (at : ℕ) (memory : Buffer) → Buffer
from at memory j = memory (at + j)

abbrev pub back : (at : ℕ) (buf memory : Buffer) → Buffer
back at buf memory p = if leb at p then buf (p - at) else memory p

-- `load_size_sec`
unfoldable pub load_sectors : (load_size : ℕ) → ℕ
load_sectors load_size = u32 (load_size + 2047) / cd_sector_size

module _ {S : Type 0} (read : Reader S) where
  unfoldable pub load_loop : (left i kernel_lba load_buf : ℕ) (memory : Buffer) → Cmd S Buffer
  load_loop zero i kernel_lba load_buf memory s = some (memory, s)
  load_loop (suc left) i kernel_lba load_buf memory s =
      let at = u32 (u32 load_buf + i * cd_sector_size) in
      (read (u32 (kernel_lba + i)) (from at memory) >>= λ (_, buf).
      load_loop left (i + 1) kernel_lba load_buf (back at buf memory))
        s

  unfoldable pub load : (load_size kernel_lba load_buf : ℕ) (memory : Buffer) → Cmd S Buffer
  load load_size kernel_lba load_buf memory =
      load_loop (load_sectors load_size) 0 kernel_lba load_buf memory
