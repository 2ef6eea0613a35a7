-- ===== src/Stage2/Tests/Drive.antt =====
-- A drive that never keeps the driver waiting, with the disc of the other tests in it.
use ziemniak.Base.{
  ℕ, ◌+◌, ◌*◌, ◌^◌, ◌<◌, ◌≡◌, refl, arith, List, [], ◌∷◌, get_or, ◌==◌, if◌then◌else◌, Returns,
  codes, false, Bool-cases, inl, inr,
}
use ziemniak.Stage2.Disc.{
  Buffer, wrote, got, sent, received, looked, History, Drive, Disc, cdrom_init,
}
use ziemniak.Stage2.Disc.Atapi.{
  Since, now, got_later, looked_later, value, command, busy, waiting, unfinished, IsAtapi,
}
use ziemniak.Stage2.Disc.Probe.{resetting, IsChannel, Probes, cdrom_init-Checks}
use ziemniak.Stage2.Disc.Read.{disc_search-Outcome}
use ziemniak.Stage2.Disc.Search.{disc_search}
use ziemniak.Stage2.Disc.Search.Outcome.{Outcome}
use ziemniak.Stage2.Tests.Disc.{sector, memory, entries, volume}

-- The status after the last command, and the size or the signature that is shown.
abbrev status : History → ℕ
status [] = 0x40
status (wrote _ _ ∷ _) = 0x08
status (sent _ _ ∷ _) = 0x80
status (received _ _ ∷ _) = 0x40
status (_ ∷ h) = status h

abbrev high : History → ℕ
high [] = 0
high (wrote _ _ ∷ _) = 0xEB
high (sent _ _ ∷ _) = 8
high (_ ∷ h) = high h

abbrev low : History → ℕ
low [] = 0
low (wrote _ _ ∷ _) = 0x14
low (sent _ _ ∷ _) = 0
low (_ ∷ h) = low h

abbrev packet : History → List ℕ
packet [] = []
packet (sent _ bytes ∷ _) = bytes
packet (_ ∷ h) = packet h

abbrev wanted : List ℕ → ℕ
wanted p = get_or p 2 0 * 2 ^ 24 + get_or p 3 0 * 2 ^ 16 + get_or p 4 0 * 2 ^ 8 + get_or p 5 0

abbrev pub drive : (ℕ → Buffer) → Drive
drive sector = record {
  byte = λ h port. if port == 0x1F5 then high h else if port == 0x1F4 then low h else status h;
  word = λ h k. sector (wanted (packet h)) (2 * k) + sector (wanted (packet h)) (2 * k + 1) * 2 ^ 8;
  flag = λ _. 1;
}

asked : (h : History) → Since (command 0x1F0) h → status h ≡ 0x08
asked h now = refl
asked (got _ _ ∷ h) (got_later since) = asked h since
asked (looked _ ∷ h) (looked_later since) = asked h since

finished : (h : History) → Since (received 0x1F0 1024) h → status h ≡ 0x40
finished h now = refl
finished (got _ _ ∷ h) (got_later since) = finished h since
finished (looked _ ∷ h) (looked_later since) = finished h since

given :
    (p : List ℕ) (h : History)
    → Since (sent 0x1F0 p) h
    → (packet h ≡ p) × (high h ≡ 8) × (low h ≡ 0)
given p h now = (refl, refl, refl)
given p (got _ _ ∷ h) (got_later since) = given p h since
given p (looked _ ∷ h) (looked_later since) = given p h since

-- After any byte to a port.
written :
    (port val : ℕ) (h : History)
    → Since (wrote port val) h
    → (status h ≡ 0x08) × (high h ≡ 0xEB) × (low h ≡ 0x14)
written port val h now = (refl, refl, refl)
written port val (got _ _ ∷ h) (got_later since) = written port val h since
written port val (looked _ ∷ h) (looked_later since) = written port val h since

module _ (sector : ℕ → Buffer) where
  not_busy : (h : History) → Since (command 0x1F0) h → busy (value (drive sector) 0x1F7 h) ≡ false
  not_busy h since = rw (asked h since) refl

  not_waiting :
      (h : History) → Since (command 0x1F0) h → waiting (value (drive sector) 0x1F7 h) ≡ false
  not_waiting h since = rw (asked h since) refl

  done :
      (h : History)
      → Since (received 0x1F0 1024) h
      → unfinished (value (drive sector) 0x1F7 h) ≡ false
  done h since = rw (finished h since) refl

  pub drive-IsAtapi : ((lba j : ℕ) → sector lba j < 256) → IsAtapi (drive sector) 0x1F0 1 sector
  drive-IsAtapi bytes = record {
    accepts = record {
      backlog = λ _. 0;
      bounded = λ _ _. omega arith;
      shrinks = λ h since again. let no = not_busy h since in cc;
    };
    asks = record {
      backlog = λ _. 0;
      bounded = λ _ _. omega arith;
      shrinks = λ h since again. let no = not_waiting h since in cc;
    };
    no_error = λ h since. rw (asked h since) refl;
    signals = λ p. record {
      backlog = λ _. 0;
      bounded = λ _ _. omega arith;
      shrinks = λ h since unset. omega arith;
    };
    high_size = λ p h since. rw (given p h since).1 refl;
    low_size = λ p h since. rw (given p h since).2 refl;
    data_words = λ lba p h k reads since small. rw ((given p h since).0, reads.place) refl;
    finishes = record {
      backlog = λ _. 0;
      bounded = λ _ _. omega arith;
      shrinks = λ h since again. let no = done h since in cc;
    };
    data_bytes = bytes;
  }

  pub drive-IsChannel : IsChannel (drive sector) 0x1F0 0x3F6 0 1 0xEB14
  drive-IsChannel = record {
    resets = record {
      backlog = λ _. 0;
      bounded = λ _ _. omega arith;
      shrinks = λ h since again.
          let no : resetting (value (drive sector) 0x3F6 h) ≡ false =
            rw (written 0x3F6 0x00 h since).0 refl in
          cc;
    };
    low = λ h since. rw (written 0x1F6 0xA0 h since).2 refl;
    high = λ h since. rw (written 0x1F6 0xA0 h since).1 refl;
    word = omega arith;
  }

sector-lt : (lba j : ℕ) → sector lba j < 256
sector-lt lba j = elim (Bool-cases (lba == 16)) [
  | inl first ↦ rw first (ground arith)
  | inr other ↦ rw other (elim (Bool-cases (lba == 20)) [
    | inl root ↦ rw root (ground arith)
    | inr free ↦ rw free (omega arith)
  ])
]

abbrev pub set_up : Disc
set_up = record { io_port = 0x1F0; ctl_port = 0x3F6; is_slave = 0; history = [] }

disc_search-Outcome_example :
    Returns
      (λ r s'. (s'.io_port ≡ 0x1F0) × Outcome sector memory (codes "K") entries r)
      (disc_search (drive sector) 3 (codes "K") 7 memory set_up)
disc_search-Outcome_example =
    disc_search-Outcome (drive-IsAtapi sector sector-lt) (omega arith) 3 (codes "K") entries memory
      7 set_up volume (omega arith, tt) (omega arith) (omega arith) (omega arith) refl

cdrom_init-Checks_example :
    Returns
      (λ r s'.
        (r ≡ 0)
        × (s'.io_port ≡ 0x1F0)
        × (s'.ctl_port ≡ 0x3F6)
        × (s'.is_slave ≡ 0)
        × Probes 0x1F0 0x3F6 0 [] s'.history)
      (cdrom_init (drive sector) 1 0x1F0 0x3F6 0 set_up)
cdrom_init-Checks_example =
    cdrom_init-Checks (drive-IsChannel sector) (omega arith) (omega arith) 1 set_up (omega arith)
