-- ===== src/Stage2/Disc/Probe.antt =====
-- `cdrom_init` of bootloader/stage2/src/cdrom.c: the soft reset ends, and the signature decides.
use ziemniak.Base.{
  ℕ, ◌+◌, ◌*◌, ◌/◌, ◌%◌, ◌^◌, ◌<◌, ◌≤◌, ◌≡◌, refl, ap, ◌∙◌, arith, Bool, bit_and, bit_or, ◌==◌, not,
  if◌then◌else◌, Returns, returns, Returns-bind, u8, u16, ◌<<<◌, ◌∷◌,
}
use ziemniak.Base.Bits.{bit_or_disjoint}
use ziemniak.Stage2.Disc.{
  Drive, Disc, Event, History, wrote, got, minus_one, cdrom_soft_reset, cdrom_init,
}
use ziemniak.Stage2.Disc.Atapi.{Since, now, got_later, value, Settles}
use ziemniak.Stage2.Disc.Waits.{
  Looks, here, got_first, Looks-append, poll-Waited, four_reads-Waited,
}

abbrev pub resetting : ℕ → Bool
resetting sts = bit_and sts 0xC0 == 0x80

-- The end of a soft reset, and the choice of the drive.
abbrev pub reset : ℕ → Event
reset ctl = wrote ctl 0x00

abbrev pub slave_bit : ℕ → ℕ
slave_bit is_slv = if not (is_slv == 0) then 1 else 0

abbrev pub chosen : (io is_slv : ℕ) → Event
chosen io is_slv = wrote (io + 6) (u8 (bit_or 0xA0 (slave_bit is_slv <<< 4)))

-- After the pulse of a soft reset.
abbrev pub pulsed : (ctl : ℕ) → History → History
pulsed ctl h = reset ctl ∷ wrote ctl 0x04 ∷ h

-- From `h` to `h'` the driver has reset the channel, chosen the drive, and else only looked.
pub record Probes (io ctl is_slv : ℕ) (h h' : History) : Type 0 where
  pub between : History
  pub waits : Looks (pulsed ctl h) between
  pub reads : Looks (chosen io is_slv ∷ between) h'

-- A channel whose soft reset ends after at most `depth` reads, and that then shows `signature` for
-- the drive that is asked for.
pub record IsChannel (drive : Drive) (io ctl is_slv depth signature : ℕ) : Type 0 where
  pub resets : Settles drive (reset ctl) resetting ctl depth
  pub low : (h : _) → Since (chosen io is_slv) h → value drive (io + 4) h ≡ signature % 2 ^ 8
  pub high : (h : _) → Since (chosen io is_slv) h → value drive (io + 5) h ≡ signature / 2 ^ 8
  pub word : signature < 2 ^ 16

module _ {drive : Drive} {io ctl is_slv depth signature : ℕ}
    (channel : IsChannel drive io ctl is_slv depth signature) (ports : io + 7 < 2 ^ 16)
    (ctl_port : ctl < 2 ^ 16) where
  cdrom_soft_reset-ends :
      (fuel : ℕ) (s : Disc)
      → depth ≤ fuel
      → Returns
          (λ _ s'.
            (s' ≡ record s { ctl_port = ctl; history = s'.history })
            × Looks (pulsed ctl s.history) s'.history)
          (cdrom_soft_reset drive fuel (record s { ctl_port = ctl }))
  unfolding cdrom_soft_reset
  cdrom_soft_reset-ends fuel s enough =
      let port : u16 ctl ≡ ctl = omega arith in
      rw port (
        Returns-bind (four_reads-Waited drive ctl _ port now) λ _ s1 w1.
          Returns-bind
            (poll-Waited drive resetting ctl channel.resets fuel s1 port w1.still
              (omega (arith, channel.resets.bounded s1.history w1.still)))
            λ _ s2 (w2, _, _). returns (
              w2.kept ∙ ap (λ (d : Disc). record d { history = s2.history }) w1.kept,
              Looks-append w1.looks w2.looks,
            ))

  -- On a channel at 16-bit ports whose soft reset ends in time, `cdrom_init` returns 0 exactly for the
  -- signature of an ATAPI drive and -1 for any other; the driver then uses the ports and the drive
  -- asked for, and it has set and cleared the reset bit of the channel, then written the choice of the
  -- drive, and besides only read ports.
  pub cdrom_init-Checks :
      (fuel : ℕ) (s : Disc)
      → depth ≤ fuel
      → Returns
          (λ r s'.
            (r ≡ (if signature == 0xEB14 then 0 else minus_one))
            × (s'.io_port ≡ io)
            × (s'.ctl_port ≡ ctl)
            × (s'.is_slave ≡ slave_bit is_slv)
            × Probes io ctl is_slv s.history s'.history)
          (cdrom_init drive fuel io ctl is_slv s)
  unfolding cdrom_init
  cdrom_init-Checks fuel s enough =
      let io6 : u16 (io + 0x06) ≡ io + 6 = omega arith in
      let port : u16 ctl ≡ ctl = omega arith in
      Returns-bind
        (cdrom_soft_reset-ends fuel (record s { io_port = io; is_slave = slave_bit is_slv }) enough)
        λ _ s1 (kept1, waits). rw io6 (
          Returns-bind (four_reads-Waited drive ctl _ port now) λ _ s2 w2.
            let io4 : u16 (io + 0x04) ≡ io + 4 = omega arith in
            let io5 : u16 (io + 0x05) ≡ io + 5 = omega arith in
            let low = channel.low s2.history w2.still in
            let high =
              channel.high (got (io + 4) (signature % 2 ^ 8) ∷ s2.history) (got_later w2.still) in
            let whole : bit_or (signature / 2 ^ 8 * 2 ^ 8) (signature % 2 ^ 8) ≡ signature =
              bit_or_disjoint 8 (signature / 2 ^ 8) (signature % 2 ^ 8) (omega arith)
              ∙ omega arith in
            rw (io4, low, io5, high, whole)
              (returns (
                refl,
                ap (λ (d : Disc). d.io_port) w2.kept ∙ ap (λ (d : Disc). d.io_port) kept1,
                ap (λ (d : Disc). d.ctl_port) w2.kept ∙ ap (λ (d : Disc). d.ctl_port) kept1,
                ap (λ (d : Disc). d.is_slave) w2.kept ∙ ap (λ (d : Disc). d.is_slave) kept1,
                record {
                  between = s1.history;
                  waits = waits;
                  reads = Looks-append w2.looks (got_first (got_first here));
                },
              )))
