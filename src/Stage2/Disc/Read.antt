-- ===== src/Stage2/Disc/Read.antt =====
-- `cdrom_read_sector` reads the sectors of an ATAPI drive.
use ziemniak.Base.{
  ℕ, ◌+◌, ◌*◌, ◌/◌, ◌%◌, ◌^◌, ◌<◌, ◌≤◌, ◌≡◌, refl, ap, ◌∙◌, arith, List, ◌∷◌, length, inl, inr, ltb,
  lt→ltb, le→ltb, ◌==◌, if◌then◌else◌, ==-cases, bit_and, pure, ◌>>=◌, ◌>>◌, Returns, returns,
  Returns-bind, Returns-mono, u16,
}
use ziemniak.Base.Bits.{bit_and_low}
use ziemniak.Stage2.Disc.{
  Buffer, History, got, sent, received, Drive, Disc, poll, four_reads, read_cmd, transfer,
  cdrom_read_sector,
}
use ziemniak.Stage2.Disc.Directory.{IsName}
use ziemniak.Stage2.Disc.Search.{disc_search}
use ziemniak.Stage2.Disc.Search.Outcome.{over, IsReader, IsVolume, Outcome, cdrom_search-Outcome}
use mathlib.Core.Path.{fun_ext}
use native.Mathlib.Decide.{dec_lt}
use ziemniak.Stage2.Disc.Atapi.{
  Since, now, got_later, IsRead, command, busy, waiting, unfinished, IsAtapi,
}
use ziemniak.Stage2.Disc.Waits.{poll-Waited, wait_flag-Waited}

pub read_cmd-IsRead : (lba : ℕ) → lba < 2 ^ 32 → IsRead lba (read_cmd lba)
unfolding read_cmd
read_cmd-IsRead lba h = record {
  operation = refl;
  place =
      rw
        (
          bit_and_low 8 (lba / 2 ^ 24),
          bit_and_low 8 (lba / 2 ^ 16),
          bit_and_low 8 (lba / 2 ^ 8),
          bit_and_low 8 (lba / 2 ^ 0),
        )
        (omega arith);
  count = refl;
  size = refl;
}

low_byte : (a b : ℕ) → a < 256 → b < 256 → (a + b * 2 ^ 8) / 2 ^ (8 * 0) % 2 ^ 8 ≡ a
low_byte a b ha hb = omega arith

high_byte : (a b : ℕ) → a < 256 → b < 256 → (a + b * 2 ^ 8) / 2 ^ (8 * 1) % 2 ^ 8 ≡ b
high_byte a b ha hb = omega arith

module _ {drive : Drive} {io depth : ℕ} {sector : ℕ → Buffer}
    (atapi : IsAtapi drive io depth sector) (ports : io + 7 < 2 ^ 16) where
  -- The words of the transfer, as bytes.
  words-over :
      (lba : ℕ) (packet : List ℕ) (h : History) (buf : Buffer)
      → IsRead lba packet
      → Since (sent io packet) h
      → (λ j. if ltb j (2 * 1024) then drive.word h (j / 2) / 2 ^ (8 * (j % 2)) % 2 ^ 8 else buf j)
        ≡ over (sector lba) buf
  words-over lba packet h buf reads since = fun_ext λ j. elim (dec_lt j 2048) [
    | no outside ↦ rw (le→ltb j 2048 (omega arith)) refl
    | yes inside ↦
        let word = atapi.data_words lba packet h (j / 2) reads since (omega arith) in
        let low = atapi.data_bytes lba (2 * (j / 2)) in
        let high = atapi.data_bytes lba (2 * (j / 2) + 1) in
        rw (lt→ltb j 2048 inside, word)
          (elim (==-cases (j % 2) 0) [
            | inl even ↦
                let at : 2 * (j / 2) ≡ j = omega arith in
                rw even (low_byte _ _ low high ∙ ap (sector lba) at)
            | inr odd ↦
                let one : j % 2 ≡ 1 = omega arith in
                let at : 2 * (j / 2) + 1 ≡ j = omega arith in
                rw one (high_byte _ _ low high ∙ ap (sector lba) at)
          ])
  ]

  transfer-over :
      (fuel lba : ℕ) (buf : Buffer) (s : Disc)
      → depth ≤ fuel
      → lba < 2 ^ 32
      → Returns
          (λ r s'. (s'.io_port ≡ s.io_port) × (r.0 ≡ 2048) × (r.1 ≡ over (sector lba) buf))
          (transfer drive fuel io lba buf s)
  unfolding transfer
  transfer-over fuel lba buf s enough small =
      let packet = read_cmd lba in
      let io0 : u16 io ≡ io = omega arith in
      let io4 : u16 (io + 0x04) ≡ io + 4 = omega arith in
      let io5 : u16 (io + 0x05) ≡ io + 5 = omega arith in
      let signals = atapi.signals packet in
      let start : Disc = record s { history = sent io packet ∷ s.history } in
      rw io0 (
        Returns-bind
          (wait_flag-Waited drive signals fuel start now
            (omega (arith, signals.bounded start.history now)))
          λ _ s1 w.
            let h1 = got (io + 5) 8 ∷ s1.history in
            let since : Since (sent io packet) (got (io + 4) 0 ∷ h1) =
              got_later (got_later w.still) in
            let high = atapi.high_size packet s1.history w.still in
            let low = atapi.low_size packet h1 (got_later w.still) in
            let last : Disc = record s1 { history = received io 1024 ∷ got (io + 4) 0 ∷ h1 } in
            let words =
              words-over lba packet (got (io + 4) 0 ∷ h1) buf (read_cmd-IsRead lba small) since in
            rw (io0, io5, high, io4, low)
              (Returns-bind
                (poll-Waited drive unfinished (io + 7) atapi.finishes fuel last (omega arith) now
                  (omega (arith, atapi.finishes.bounded last.history now)))
                λ _ s2 (w2, _, _). returns (
                  ap (λ (d : Disc). d.io_port) w2.kept ∙ ap (λ (d : Disc). d.io_port) w.kept,
                  refl,
                  words,
                )))

  -- From the packet command on.
  after_command-over :
      (fuel lba : ℕ) (buf : Buffer) (s : Disc)
      → depth ≤ fuel
      → lba < 2 ^ 32
      → s.io_port ≡ io
      → Since (command io) s.history
      → Returns
          (λ r s'. (s'.io_port ≡ io) × (r.0 ≡ 2048) × (r.1 ≡ over (sector lba) buf))
          ((poll drive busy fuel (io + 7)
              >> (poll drive waiting fuel (io + 7) >>= λ sts.
                  (if bit_and sts 0x01 == 0
                    then transfer drive fuel io lba buf
                    else pure (0, buf))))
            s)
  after_command-over fuel lba buf s enough small here since =
      let port : u16 (io + 7) ≡ io + 7 = omega arith in
      Returns-bind
        (poll-Waited drive busy (io + 7) atapi.accepts fuel s port since
          (omega (arith, atapi.accepts.bounded s.history since)))
        λ _ s1 (w1, _, _).
          Returns-bind
            (poll-Waited drive waiting (io + 7) atapi.asks fuel s1 port w1.still
              (omega (arith, atapi.asks.bounded s1.history w1.still)))
            λ sts s2 (w2, _, (h, asked, same)).
              let error : bit_and sts 0x01 ≡ 0 =
                ap (λ (v : ℕ). bit_and v 0x01) same ∙ atapi.no_error h asked in
              rw error (
                Returns-mono (transfer-over fuel lba buf s2 enough small) λ r s3 (io3, size, bytes).
                  (
                    io3
                        ∙ ap (λ (d : Disc). d.io_port) w2.kept
                        ∙ ap (λ (d : Disc). d.io_port) w1.kept
                        ∙ here,
                    size,
                    bytes,
                  ))

  -- For a sector number of 32 bits and a drive of which the waits are bounded by the fuel,
  -- `cdrom_read_sector` returns 2048 and the buffer with the sector over its first 2048 bytes.
  pub cdrom_read_sector-over :
      (fuel lba : ℕ) (buf : Buffer) (s : Disc)
      → depth ≤ fuel
      → lba < 2 ^ 32
      → s.io_port ≡ io
      → Returns
          (λ r s'. (s'.io_port ≡ io) × (r.0 ≡ 2048) × (r.1 ≡ over (sector lba) buf))
          (cdrom_read_sector drive fuel lba buf s)
  unfolding cdrom_read_sector four_reads
  cdrom_read_sector-over fuel lba buf s enough small here =
      let io7 : u16 (io + 0x07) ≡ io + 7 = omega arith in
      rw (here, io7) (after_command-over fuel lba buf _ enough small refl now)

  -- So it is the reader that `cdrom_search` needs.
  pub cdrom_read_sector-IsReader :
      (fuel : ℕ)
      → depth ≤ fuel
      → IsReader sector (λ (s : Disc). s.io_port ≡ io) (cdrom_read_sector drive fuel)
  cdrom_read_sector-IsReader fuel enough = record {
    reads = λ lba buf s small here.
        Returns-mono (cdrom_read_sector-over fuel lba buf s enough small here)
          λ r s' (here', size, bytes). (here', bytes);
  }

  -- On an ATAPI drive whose waits are bounded by the fuel, and a disc with an ISO 9660 volume
  -- descriptor in sector 16, `cdrom_search` with the driver's own reads returns with the extent and
  -- the size of the first record of the root directory whose name starts with `fname`, and with 0
  -- and 0 if no record has such a name.
  pub disc_search-Outcome :
      (fuel : ℕ) (fname : List ℕ) (entries : ℕ → List ℕ) (buf : Buffer) (fsize : ℕ) (s : Disc)
      → IsVolume sector buf fname entries fuel
      → IsName fname
      → length fname ≤ 256
      → depth ≤ fuel
      → 2 ≤ fuel
      → s.io_port ≡ io
      → Returns
          (λ r s'. (s'.io_port ≡ io) × Outcome sector buf fname entries r)
          (disc_search drive fuel fname fsize buf s)
  disc_search-Outcome fuel fname entries buf fsize s volume name short enough two here =
      cdrom_search-Outcome (cdrom_read_sector-IsReader fuel enough) volume name short fsize s here
        two
