-- ===== src/Stage2/Tests/Wake.antt =====
-- The master's timer, then the first disc channel, then nothing.
use ziemniak.Base.{ℕ, zero, suc, ◌+◌, ◌<◌, ◌≤◌, ◌≡◌, ◌≢◌, refl, arith, [], ◌∷◌, none, Returns}
use ziemniak.Stage2.Interrupts.{Interrupts}
use ziemniak.Stage2.Disc.{Drive, Disc, History, looked, cleared, wait_flag}
use ziemniak.Stage2.Wake.{
  Arrival, quiet, low, disk1, IsDisc, first_channel, served, tests, wait_flag-Wakes,
}

abbrev arrivals : ℕ → Arrival
arrivals zero = low
arrivals (suc zero) = disk1
arrivals (suc (suc n)) = quiet

abbrev calm : Interrupts
calm = record {
  idt = λ _. record { offset_low = 0; sel = 0; zero_byte = 0; attr = 0; offset_high = 0 };
  data_ready = 0;
  history = [];
}

abbrev drive : Drive
drive = record {
  byte = λ _ _. 0;
  word = λ _ _. 0;
  flag = λ h. (served arrivals (tests h) calm).data_ready;
}

abbrev waiting : Disc
waiting = record { io_port = 0x1F0; ctl_port = 0x3F6; is_slave = 0; history = cleared ∷ [] }

wait_flag-Wakes_example :
    ((n fuel : ℕ)
      → IsDisc (arrivals n)
      → n + 2 ≤ fuel
      → Returns
          (λ _ s'.
            (v : ℕ) × (h : History) × (s' ≡ record waiting { history = looked v ∷ h }) × (v ≢ 0))
          (wait_flag drive fuel waiting))
    × ((fuel : ℕ)
        → ((j : ℕ) → j < fuel → ¬ (IsDisc (arrivals j)))
        → wait_flag drive fuel waiting ≡ none)
wait_flag-Wakes_example = wait_flag-Wakes drive arrivals calm refl (λ h. refl) waiting refl

third_test :
    Returns
      (λ _ s'. (v : ℕ) × (h : History) × (s' ≡ record waiting { history = looked v ∷ h }) × (v ≢ 0))
      (wait_flag drive 3 waiting)
third_test =
    (wait_flag-Wakes drive arrivals calm refl (λ h. refl) waiting refl).0 1 3 first_channel
      (omega arith)
