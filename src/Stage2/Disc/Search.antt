-- ===== src/Stage2/Disc/Search.antt =====
-- `cdrom_search` of bootloader/stage2/src/cdrom.c, over a function that reads sectors.
pub mod Outcome
use ziemniak.Base.{
  ℕ, zero, suc, ◌+◌, ◌/◌, ◌%◌, ◌^◌, List, Option, none, some, ◌==◌, not, if◌then◌else◌, Cmd, pure,
  ◌>>=◌, u16, u32,
}
use ziemniak.Stage2.Disc.{
  Buffer, Drive, Disc, cdrom_read_sector, search_directory, load32, cd_sector_size,
}

abbrev pub pvd_start : ℕ
pvd_start = 0x10

abbrev pub pvd_signature : ℕ
pvd_signature = 0x01

abbrev pub dir_offset : ℕ
dir_offset = 0x9C

-- A read of a sector into a buffer: the size that is returned, and the new contents.
abbrev pub Reader : Type 0 → Type 0
Reader S = (lba : ℕ) → Buffer → Cmd S (ℕ × Buffer)

-- The result of `search_directory`, as that of a command.
abbrev pub found_in : {S A : Type 0} → Option A → Cmd S A
found_in none s = none
found_in (some r) s = some (r, s)

module _ {S : Type 0} (read : Reader S) where
  unfoldable pub pvd_loop : (fuel lba_off : ℕ) (buf : Buffer) → Cmd S Buffer
  pvd_loop zero lba_off buf s = none
  pvd_loop (suc fuel) lba_off buf s =
      (if not (buf 0 == pvd_signature)
          then (read (u32 (pvd_start + lba_off)) buf >>= λ (_, buf').
              pvd_loop fuel (u32 (lba_off + 1)) buf')
          else pure buf)
        s

  -- The result and the new value of `*fsize`.
  unfoldable pub sector_loop :
      (left cur_dir_lba dir_lba fuel fsize : ℕ) (fname : List ℕ) (buf : Buffer) → Cmd S (ℕ × ℕ)
  sector_loop zero cur_dir_lba dir_lba fuel fsize fname buf s = some ((0x00, 0x00), s)
  sector_loop (suc left) cur_dir_lba dir_lba fuel fsize fname buf s =
      (read (u32 (dir_lba + cur_dir_lba)) buf >>= λ (_, buf').
      (found_in (search_directory fuel fsize buf' fname) >>= λ (temp, fsize').
      (if not (temp == 0)
        then pure (temp, fsize')
        else sector_loop left (cur_dir_lba + 1) dir_lba fuel fsize' fname buf')))
        s

  unfoldable pub cdrom_search :
      (fuel : ℕ) (fname : List ℕ) (fsize : ℕ) (buf : Buffer) → Cmd S (ℕ × ℕ)
  cdrom_search fuel fname fsize buf = pvd_loop fuel 0 buf >>= λ buf'.
      (let dir_lba = load32 buf' (dir_offset + 0x02) in
        let dir_size = load32 buf' (dir_offset + 0x0A) in
        let dir_sectors = u16 (dir_size / cd_sector_size) in
        sector_loop dir_sectors 0 dir_lba fuel fsize fname buf')

-- The driver's own reads.
abbrev pub disc_search :
    (drive : Drive) (fuel : ℕ) (fname : List ℕ) (fsize : ℕ) (buf : Buffer) → Cmd Disc (ℕ × ℕ)
disc_search drive fuel = cdrom_search (cdrom_read_sector drive fuel) fuel
