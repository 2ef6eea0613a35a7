-- ===== src/Stage2/Tests/Refusing.antt =====
-- A drive without a disc, which is busy for one read of its status and then reports an error.
use ziemniak.Base.{ℕ, ◌<◌, ◌≡◌, refl, arith, [], ◌∷◌, none, true, Returns, Partly, codes}
use ziemniak.Stage2.Disc.{wrote, got, looked, History, Drive, Disc, cdrom_read_sector}
use ziemniak.Stage2.Disc.Atapi.{
  Since, now, got_later, looked_later, value, command, busy, waiting, Settles,
}
use ziemniak.Stage2.Disc.Search.{disc_search}
use ziemniak.Stage2.Loader.{halted}
use ziemniak.Stage2.Main.{main}
use ziemniak.Stage2.Main.Refused.{main-Halts}
use ziemniak.Stage2.Tests.Main.{place, frame, loader, fuel, rm_data}
use ziemniak.Stage2.Disc.Refused.{Refuses, IsRefused, cdrom_read_sector-IsRefused, disc_search-runs}

abbrev status : History → ℕ
status [] = 0x41
status (wrote _ _ ∷ _) = 0x80
status (_ ∷ _) = 0x41

abbrev drive : Drive
drive = record { byte = λ h port. status h; word = λ h k. 0; flag = λ _. 0 }

abbrev pending : History → ℕ
pending [] = 0
pending (wrote _ _ ∷ _) = 1
pending (_ ∷ _) = 0

settled : (h : History) → Since (command 0x1F0) h → pending h < 2
settled h now = omega arith
settled (got _ _ ∷ h) (got_later since) = omega arith
settled (looked _ ∷ h) (looked_later since) = omega arith

busy_first :
    (h : History)
    → Since (command 0x1F0) h
    → busy (value drive 0x1F7 h) ≡ true
    → pending (got 0x1F7 (value drive 0x1F7 h) ∷ h) < pending h
busy_first h now more = omega arith
busy_first (got _ _ ∷ h) (got_later since) more = cc
busy_first (looked _ ∷ h) (looked_later since) more = cc

waiting_first :
    (h : History)
    → Since (command 0x1F0) h
    → waiting (value drive 0x1F7 h) ≡ true
    → pending (got 0x1F7 (value drive 0x1F7 h) ∷ h) < pending h
waiting_first h now more = omega arith
waiting_first (got _ _ ∷ h) (got_later since) more = cc
waiting_first (looked _ ∷ h) (looked_later since) more = cc

accepts : Settles drive (command 0x1F0) busy 0x1F7 2
accepts = record { backlog = pending; bounded = settled; shrinks = busy_first }

asks : Settles drive (command 0x1F0) waiting 0x1F7 2
asks = record { backlog = pending; bounded = settled; shrinks = waiting_first }

refuses : Refuses drive 0x1F0
refuses h now stop = cc
refuses (got _ _ ∷ h) (got_later since) stop = omega arith
refuses (looked _ ∷ h) (looked_later since) stop = omega arith

abbrev disc : Disc
disc = record { io_port = 0x1F0; ctl_port = 0x3F6; is_slave = 0; history = [] }

cdrom_read_sector-IsRefused_example :
    Returns (IsRefused 0x1F0 (λ j. 7)) (cdrom_read_sector drive 3 16 (λ j. 7) disc)
cdrom_read_sector-IsRefused_example =
    cdrom_read_sector-IsRefused drive 0x1F0 refuses (omega arith) accepts asks 3 16 (λ j. 7) disc
      (omega arith) refl

disc_search-runs_example : disc_search drive 50 (codes "POTATO.BIN") 7 (λ j. 0) disc ≡ none
disc_search-runs_example =
    disc_search-runs drive 0x1F0 refuses (omega arith) 50 (codes "POTATO.BIN") 7 (λ j. 0) disc
      (omega arith) refl

main-Halts_example :
    Partly (λ o _. o ≡ halted) (main place 0x9000 frame rm_data fuel drive 0 loader)
main-Halts_example =
    main-Halts drive 0x1F0 refuses (omega arith) place 0x9000 frame rm_data fuel 0 loader refl
      (omega arith)
