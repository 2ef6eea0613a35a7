-- ===== src/Stage2/Disc/Atapi.antt =====
-- An ATAPI drive, as far as `cdrom_read_sector` relies on one: how long it keeps the driver waiting,
-- and what it sends for a packet.
use ziemniak.Base.{
  ℕ, ◌+◌, ◌*◌, ◌^◌, ◌<◌, ◌≡◌, List, ◌∷◌, Bool, true, not, ◌&&◌, ◌==◌, bit_and, get_or, length, u8,
}
use ziemniak.Stage2.Disc.{Buffer, Event, wrote, got, sent, received, looked, History, Drive}

-- The event has happened, and after it the driver has only looked at ports and at the flag.
pub data Since (mark : Event) : History → Type 0 where
  now : {h : History} → Since mark (mark ∷ h)
  got_later : {port val : ℕ} {h : History} → Since mark h → Since mark (got port val ∷ h)
  looked_later : {flag : ℕ} {h : History} → Since mark h → Since mark (looked flag ∷ h)

abbrev pub value : Drive → (port : ℕ) → History → ℕ
value drive port h = u8 (drive.byte h port)

-- In a phase of the command, a loop that reads `port` as long as `again` asks for it ends after at
-- most `depth` reads.
pub record Settles (drive : Drive) (mark : Event) (again : ℕ → Bool) (port depth : ℕ) : Type 0 where
  pub backlog : History → ℕ
  pub bounded : (h : History) → Since mark h → backlog h < depth
  pub shrinks :
      (h : History)
      → Since mark h
      → again (value drive port h) ≡ true
      → backlog (got port (value drive port h) ∷ h) < backlog h

-- The same for the flag of the interrupt handler.
pub record Signals (drive : Drive) (mark : Event) (depth : ℕ) : Type 0 where
  pub backlog : History → ℕ
  pub bounded : (h : History) → Since mark h → backlog h < depth
  pub shrinks :
      (h : History)
      → Since mark h
      → drive.flag h ≡ 0
      → backlog (looked (drive.flag h) ∷ h) < backlog h

-- The packet READ(10) for one sector: operation, sector and count, the high byte first.
pub record IsRead (lba : ℕ) (packet : List ℕ) : Type 0 where
  pub operation : get_or packet 0 0 ≡ 0x28
  pub place :
      get_or packet 2 0 * 2 ^ 24
        + get_or packet 3 0 * 2 ^ 16
        + get_or packet 4 0 * 2 ^ 8
        + get_or packet 5 0
      ≡ lba
  pub count : get_or packet 7 0 * 2 ^ 8 + get_or packet 8 0 ≡ 1
  pub size : length packet ≡ 12

-- The marks of the phases: the packet command, the packet, the transfer of a sector.
abbrev pub command : ℕ → Event
command io = wrote (io + 7) 0xA0

abbrev pub busy : ℕ → Bool
busy sts = not (bit_and sts 0x80 == 0)

abbrev pub waiting : ℕ → Bool
waiting sts = bit_and sts 0x8 == 0 && bit_and sts 0x1 == 0

abbrev pub unfinished : ℕ → Bool
unfinished sts = not (bit_and sts 0x88 == 0)

-- A drive at the ports from `io` on with a disc in it.
pub record IsAtapi (drive : Drive) (io depth : ℕ) (sector : ℕ → Buffer) : Type 0 where
  pub accepts : Settles drive (command io) busy (io + 7) depth
  pub asks : Settles drive (command io) waiting (io + 7) depth
  pub no_error : (h : History) → Since (command io) h → bit_and (value drive (io + 7) h) 0x01 ≡ 0
  pub signals : (packet : List ℕ) → Signals drive (sent io packet) depth
  pub high_size :
      (packet : List ℕ) (h : History) → Since (sent io packet) h → value drive (io + 5) h ≡ 8
  pub low_size :
      (packet : List ℕ) (h : History) → Since (sent io packet) h → value drive (io + 4) h ≡ 0
  pub data_words :
      (lba : ℕ) (packet : List ℕ) (h : History) (k : ℕ)
      → IsRead lba packet
      → Since (sent io packet) h
      → k < 1024
      → drive.word h k ≡ sector lba (2 * k) + sector lba (2 * k + 1) * 2 ^ 8
  pub finishes : Settles drive (received io 1024) unfinished (io + 7) depth
  pub data_bytes : (lba j : ℕ) → sector lba j < 256
