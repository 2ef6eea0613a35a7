-- ===== src/Stage2/Main/Calls.antt =====
-- The calls of the disc driver from `main` of bootloader/stage2/src/stage2.c.
use ziemniak.Base.{
  ℕ, ◌+◌, ◌*◌, ◌/◌, ◌%◌, ◌^◌, ◌<◌, ◌≤◌, ◌≡◌, refl, arith, Option, Cmd, leb, ltb, ◌&&◌, ◌-◌,
  if◌then◌else◌, Returns, returns, Returns-bind, Returns-mono, lt→ltb,
}
use ziemniak.Stage2.Disc.{Buffer, Drive, Disc, cdrom_read_sector}
use ziemniak.Stage2.Disc.Atapi.{IsAtapi}
use ziemniak.Stage2.Disc.Read.{cdrom_read_sector-over, cdrom_read_sector-IsReader}
use ziemniak.Stage2.Disc.Search.Outcome.{over, IsReader}
use ziemniak.Stage2.Boot.Load.{load}
use ziemniak.Stage2.Boot.Load.Image.{load-image}
use ziemniak.Stage2.Boot.Memory.{load64, header_in}
use ziemniak.Stage2.Boot.Memory.Tables.{load64-same}
use ziemniak.Stage2.Loader.{Loader, with_disc, on_disc}
use ziemniak.Stage2.Main.{read_buf, load_kernel}

-- What is known of a call of the driver, with the rest of the state as it was.
pub on_disc-Returns :
    {A : Type 0} {P : A → Disc → Type 0} (m : Cmd Disc A) (s : Loader)
    → Returns P (m s.disc)
    → Returns (λ a s'. (d : Disc) × P a d × (s' ≡ record s { disc = d })) (on_disc m s)
on_disc-Returns {A} {P} m s run = lift run
  where
    lift :
        {r : Option (A × Disc)}
        → Returns P r
        → Returns (λ a s'. (d : Disc) × P a d × (s' ≡ record s { disc = d })) (with_disc s r)
    lift (returns p) = returns (_, p, refl)

-- The header of a kernel, from a buffer that its first sector has been read over.
pub header_in-over : (sector buf : Buffer) → header_in (over sector buf) ≡ header_in sector
unfolding header_in
header_in-over sector buf =
    let word : (at : ℕ) → at + 8 ≤ 2048 → load64 (over sector buf) at ≡ load64 sector at = λ at h.
      load64-same (over sector buf) sector at λ p from to. rw (lt→ltb p 2048 (omega arith)) refl in
    rw
      (
        word 0 (omega arith),
        word 8 (omega arith),
        word 16 (omega arith),
        word 24 (omega arith),
        word 32 (omega arith),
        word 40 (omega arith),
        word 48 (omega arith),
        word 56 (omega arith),
        word 64 (omega arith),
        word 72 (omega arith),
      )
      refl

-- Only the driver and `cdrom_buf` have changed, and the driver still uses its port.
abbrev pub IsReady : (io : ℕ) (base s : Loader) → Type 0
IsReady io base s =
    (d : Disc) × (b : Buffer) × (d.io_port ≡ io) × (s ≡ record base { disc = d; cdrom_buf = b })

module _ {drive : Drive} {io depth : ℕ} {sector : ℕ → Buffer}
    (atapi : IsAtapi drive io depth sector) (ports : io + 7 < 2 ^ 16) (fuel : ℕ)
    (enough : depth ≤ fuel) where
  pub read_buf-over :
      (lba : ℕ) (buf : Buffer) (s : Loader)
      → lba < 2 ^ 32
      → s.disc.io_port ≡ io
      → Returns
          (λ r s'.
            (r.1 ≡ over (sector lba) buf)
            × ((d : Disc) × (d.io_port ≡ io)
                × (s' ≡ record s { disc = d; cdrom_buf = over (sector lba) buf })))
          (read_buf fuel drive lba buf s)
  unfolding read_buf
  read_buf-over lba buf s small port =
      Returns-bind
        (on_disc-Returns (cdrom_read_sector drive fuel lba buf) s
          (cdrom_read_sector-over atapi ports fuel lba buf s.disc enough small port))
        λ r s1 (d, (port', size, bytes), kept). rw (kept, bytes) (returns (refl, (d, port', refl)))

  pub read_buf-IsReader : (base : Loader) → IsReader sector (IsReady io base) (read_buf fuel drive)
  read_buf-IsReader base = record {
    reads = λ lba buf s small (d, b, port, kept). rw kept (
        Returns-mono (read_buf-over lba buf (record base { disc = d; cdrom_buf = b }) small port)
          λ r s' (bytes, (d', port', kept')). ((d', over (sector lba) buf, port', kept'), bytes));
  }

  pub load_kernel-image :
      (lba size load_buf : ℕ) (s : Loader)
      → s.disc.io_port ≡ io
      → size + 2047 < 2 ^ 32
      → lba + (size + 2047) / 2048 ≤ 2 ^ 32
      → load_buf + (size + 2047) / 2048 * 2048 ≤ 2 ^ 32
      → Returns
          (λ _ s'.
            (d : Disc) × (memory : Buffer) × (s' ≡ record s { disc = d; memory = memory })
            × ((p : ℕ)
                → memory p ≡ (
                    if leb load_buf p && ltb p (load_buf + (size + 2047) / 2048 * 2048)
                    then sector (lba + (p - load_buf) / 2048) ((p - load_buf) % 2048)
                    else s.memory p)))
          (load_kernel fuel drive lba size load_buf s)
  unfolding load_kernel
  load_kernel-image lba size load_buf s port small sectors fits =
      Returns-bind
        (on_disc-Returns (load (cdrom_read_sector drive fuel) size lba load_buf s.memory) s (
          load-image (cdrom_read_sector-IsReader atapi ports fuel enough) lba load_buf size s.memory
            s.disc port small sectors fits))
        λ memory s1 (d, (port', all), kept). rw kept (returns (d, memory, refl, all))
