-- ===== src/Stage2/Disc/Refused.antt =====
-- The driver on a drive that answers the packet command with an error, as without a disc.
use ziemniak.Base.{
  ℕ, zero, suc, ◌∷◌, Cmd, Partly-none, ◌+◌, ◌^◌, ◌<◌, ◌≤◌, ◌≡◌, ◌≢◌, refl, ap, ◌∙◌, arith, List,
  none, Bool, false, Bool-cases, inl, inr, ◌==◌, ne→==, if◌then◌else◌, bit_and, pure, ◌>>=◌, ◌>>◌,
  Returns, returns, Returns-bind, Partly, stuck, done, Partly-bind, Partly-mono, u16, u32,
}
use ziemniak.Stage2.Disc.{
  Buffer, History, got, Drive, Disc, poll, four_reads, transfer, cdrom_read_sector,
}
use ziemniak.Stage2.Disc.Atapi.{Since, now, got_later, value, command, busy, waiting, Settles}
use ziemniak.Stage2.Disc.Waits.{poll-Waited}
use ziemniak.Stage2.Disc.Search.{Reader, disc_search, pvd_loop, cdrom_search}

-- After the packet command, a status with which the driver stops waiting has the error bit.
abbrev pub Refuses : Drive → (io : ℕ) → Type 0
Refuses drive io =
    (h : History)
    → Since (command io) h
    → waiting (value drive (io + 7) h) ≡ false
    → bit_and (value drive (io + 7) h) 0x01 ≢ 0

-- What is left: no size, the buffer as it was, and no packet and no transfer after the command.
abbrev pub IsRefused : (io : ℕ) → Buffer → ℕ × Buffer → Disc → Type 0
IsRefused io buf r s' = (r.0 ≡ 0) × (r.1 ≡ buf) × (s'.io_port ≡ io) × Since (command io) s'.history

-- The value that ends a loop was read in the phase, whether or not the loop ends.
poll-Partly :
    (drive : Drive) (io : ℕ) (again : ℕ → Bool) (port fuel : ℕ) (s : Disc)
    → u16 port ≡ port
    → s.io_port ≡ io
    → Since (command io) s.history
    → Partly
        (λ sts s'.
          (s'.io_port ≡ io)
          × Since (command io) s'.history
          × ((h : History) × Since (command io) h
              × (sts ≡ value drive port h)
              × (again sts ≡ false)))
        (poll drive again fuel port s)
unfolding poll
poll-Partly drive io again port zero s fits here since = stuck
poll-Partly drive io again port (suc fuel) s fits here since =
    rw fits (elim (Bool-cases (again (value drive port s.history))) [
      | inr stop ↦ rw stop (done (here, got_later since, (s.history, since, refl, stop)))
      | inl go ↦ rw go (
          poll-Partly drive io again port fuel
            (record s { history = got port (value drive port s.history) ∷ s.history }) fits here
            (got_later since))
    ])

-- A loop whose reads leave the buffer finds no descriptor in it.
module _ {S : Type 0} (read : Reader S) (Holds : S → Type 0)
    (keeps : (lba : ℕ) (buf : Buffer) (s : S)
      → Holds s
      → Partly (λ r s'. (r.1 ≡ buf) × Holds s') (read lba buf s)) where
  pvd_loop-runs :
      (fuel lba_off : ℕ) (buf : Buffer) (s : S)
      → buf 0 ≢ 1
      → Holds s
      → pvd_loop read fuel lba_off buf s ≡ none
  unfolding pvd_loop
  pvd_loop-runs zero lba_off buf s other holds = refl
  pvd_loop-runs (suc fuel) lba_off buf s other holds = rw (ne→== (buf 0) 1 other) (
      Partly-none (keeps (u32 (0x10 + lba_off)) buf s holds) λ (n, buf') s' (same, holds').
        rw same (pvd_loop-runs fuel (u32 (lba_off + 1)) buf s' other holds'))

  pub cdrom_search-runs :
      (fuel : ℕ) (fname : List ℕ) (fsize : ℕ) (buf : Buffer) (s : S)
      → buf 0 ≢ 1
      → Holds s
      → cdrom_search read fuel fname fsize buf s ≡ none
  unfolding cdrom_search
  cdrom_search-runs fuel fname fsize buf s other holds =
      rw (pvd_loop-runs fuel 0 buf s other holds) refl

module _ (drive : Drive) (io : ℕ) (refuses : Refuses drive io) (ports : io + 7 < 2 ^ 16) where
  error_bit :
      (sts : ℕ) (h : History)
      → Since (command io) h
      → sts ≡ value drive (io + 7) h
      → waiting sts ≡ false
      → (bit_and sts 0x01 == 0) ≡ false
  error_bit sts h since same stop =
      rw same (ne→== (bit_and (value drive (io + 7) h) 0x01) 0 (refuses h since (rw same at stop)))

  -- From the packet command on.
  abbrev rest : (fuel lba : ℕ) (buf : Buffer) → Cmd Disc (ℕ × Buffer)
  rest fuel lba buf =
      poll drive busy fuel (io + 7)
      >> (poll drive waiting fuel (io + 7) >>= λ sts.
          (if bit_and sts 0x01 == 0 then transfer drive fuel io lba buf else pure (0, buf)))

  rest-Partly :
      (fuel lba : ℕ) (buf : Buffer) (s : Disc)
      → s.io_port ≡ io
      → Since (command io) s.history
      → Partly (IsRefused io buf) (rest fuel lba buf s)
  rest-Partly fuel lba buf s here since =
      let io7 : u16 (io + 7) ≡ io + 7 = omega arith in
      Partly-bind (poll-Partly drive io busy (io + 7) fuel s io7 here since)
        λ _ s1 (here1, since1, _).
          Partly-bind (poll-Partly drive io waiting (io + 7) fuel s1 io7 here1 since1)
            λ sts s2 (here2, since2, (h, asked, same, stop)).
              rw (error_bit sts h asked same stop) (done (refl, refl, here2, since2))

  rest-IsRefused :
      {depth : ℕ} (accepts : Settles drive (command io) busy (io + 7) depth)
      (asks : Settles drive (command io) waiting (io + 7) depth) (fuel lba : ℕ) (buf : Buffer)
      (s : Disc)
      → depth ≤ fuel
      → s.io_port ≡ io
      → Since (command io) s.history
      → Returns (IsRefused io buf) (rest fuel lba buf s)
  rest-IsRefused accepts asks fuel lba buf s enough here since =
      let io7 : u16 (io + 7) ≡ io + 7 = omega arith in
      Returns-bind
        (poll-Waited drive busy (io + 7) accepts fuel s io7 since
          (omega (arith, accepts.bounded s.history since)))
        λ _ s1 (w1, _, _).
          Returns-bind
            (poll-Waited drive waiting (io + 7) asks fuel s1 io7 w1.still
              (omega (arith, asks.bounded s1.history w1.still)))
            λ sts s2 (w2, stop, (h, asked, same)). rw (error_bit sts h asked same stop) (
              returns (
                refl,
                refl,
                ap (λ (d : Disc). d.io_port) w2.kept ∙ ap (λ (d : Disc). d.io_port) w1.kept ∙ here,
                w2.still,
              ))

  -- On a drive that refuses the packet command within the waits, `cdrom_read_sector` returns 0 and
  -- leaves the buffer; no packet is sent and nothing transferred after the command.
  pub cdrom_read_sector-IsRefused :
      {depth : ℕ}
      → Settles drive (command io) busy (io + 7) depth
      → Settles drive (command io) waiting (io + 7) depth
      → (fuel lba : ℕ) (buf : Buffer) (s : Disc) → depth ≤ fuel
      → s.io_port ≡ io
      → Returns (IsRefused io buf) (cdrom_read_sector drive fuel lba buf s)
  unfolding cdrom_read_sector four_reads
  cdrom_read_sector-IsRefused accepts asks fuel lba buf s enough here =
      let io7 : u16 (io + 0x07) ≡ io + 7 = omega arith in
      rw (here, io7) (rest-IsRefused accepts asks fuel lba buf _ enough refl now)

  pub read-Partly :
      (fuel lba : ℕ) (buf : Buffer) (s : Disc)
      → s.io_port ≡ io
      → Partly (IsRefused io buf) (cdrom_read_sector drive fuel lba buf s)
  unfolding cdrom_read_sector four_reads
  read-Partly fuel lba buf s here =
      let io7 : u16 (io + 0x07) ≡ io + 7 = omega arith in
      rw (here, io7) (rest-Partly fuel lba buf _ refl now)

  -- On such a drive, for a buffer that does not start with the byte 1, `cdrom_search` does not return
  -- with any fuel.
  pub disc_search-runs :
      (fuel : ℕ) (fname : List ℕ) (fsize : ℕ) (buf : Buffer) (s : Disc)
      → buf 0 ≢ 1
      → s.io_port ≡ io
      → disc_search drive fuel fname fsize buf s ≡ none
  disc_search-runs fuel fname fsize buf s other here =
      cdrom_search-runs (cdrom_read_sector drive fuel) (λ d. d.io_port ≡ io)
        (λ lba buf' s' port.
          Partly-mono (read-Partly fuel lba buf' s' port)
            λ r s'' (n, same, port', _). (same, port'))
        fuel fname fsize buf s other here
