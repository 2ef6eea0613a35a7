-- ===== src/Stage2/Wake.antt =====
-- The flag `data_ready` between the driver of bootloader/stage2/src/cdrom.c, which waits for it, and
-- the handlers of bootloader/stage2/src/interrupt.c, which set it: interrupts come between the tests of
-- the flag, in any order.
use ziemniak.Base.{
  ℕ, zero, suc, ◌+◌, ◌<◌, ◌≤◌, ◌≡◌, ◌≢◌, refl, sym, ◌∙◌, arith, ◌∷◌, [], none, ==-cases, ne→==,
  true, ◌==◌, inl, inr, Returns, returns,
}
use mathlib.Core.Path.{subst}
use native.Mathlib.Decide.{dec_lt}
use ziemniak.Base.Bits.{or_bit}
use ziemniak.Stage2.Interrupts.{Interrupts, run_irq_low, run_irq_high, run_irq_disk1, run_irq_disk2}
use ziemniak.Stage2.Disc.{Drive, Disc, History, looked, cleared, wait_flag}

-- What happens between two tests: nothing, or an interrupt.
pub data Arrival : Type 0 where
  quiet low high disk1 disk2 : Arrival

unfoldable pub serve : Arrival → Interrupts → Interrupts
serve quiet s = s
serve low s = run_irq_low s
serve high s = run_irq_high s
serve disk1 s = run_irq_disk1 s
serve disk2 s = run_irq_disk2 s

-- After the first `n` arrivals.
unfoldable pub served : (arrivals : ℕ → Arrival) → ℕ → Interrupts → Interrupts
served arrivals zero s = s
served arrivals (suc n) s = serve (arrivals n) (served arrivals n s)

-- An interrupt of a disc channel.
pub data IsDisc : Arrival → Type 0 where
  first_channel : IsDisc disk1
  second_channel : IsDisc disk2

serve-sets : {m : Arrival} (s : Interrupts) → IsDisc m → (serve m s).data_ready ≢ 0
unfolding serve run_irq_disk1 run_irq_disk2
serve-sets s first_channel =
    λ unset. absurd (omega (arith, or_bit s.data_ready 1 (omega arith) (omega arith)))
serve-sets s second_channel =
    λ unset. absurd (omega (arith, or_bit s.data_ready 2 (omega arith) (omega arith)))

-- A flag that is set stays set.
serve-keeps : (m : Arrival) (s : Interrupts) → s.data_ready ≢ 0 → (serve m s).data_ready ≢ 0
unfolding serve run_irq_low run_irq_high
serve-keeps quiet s set = set
serve-keeps low s set = set
serve-keeps high s set = set
serve-keeps disk1 s set = serve-sets s first_channel
serve-keeps disk2 s set = serve-sets s second_channel

served-set :
    (arrivals : ℕ → Arrival) (s : Interrupts) (n m : ℕ)
    → IsDisc (arrivals n)
    → n < m
    → (served arrivals m s).data_ready ≢ 0
unfolding served
served-set arrivals s n zero disc later = absurd (omega arith)
served-set arrivals s n (suc m) disc later = elim (dec_lt n m) [
  | yes before ↦
      serve-keeps (arrivals m) (served arrivals m s) (served-set arrivals s n m disc before)
  | no last ↦
      let same : n ≡ m = omega arith in
      serve-sets (served arrivals m s) (subst (λ j. IsDisc (arrivals j)) same disc)
]

-- Without an interrupt of a disc channel the flag stays as it is.
serve-idle : (m : Arrival) (s : Interrupts) → ¬ (IsDisc m) → (serve m s).data_ready ≡ s.data_ready
unfolding serve run_irq_low run_irq_high
serve-idle quiet s other = refl
serve-idle low s other = refl
serve-idle high s other = refl
serve-idle disk1 s other = absurd (other first_channel)
serve-idle disk2 s other = absurd (other second_channel)

served-idle :
    (arrivals : ℕ → Arrival) (s : Interrupts) (n : ℕ)
    → ((j : ℕ) → j < n → ¬ (IsDisc (arrivals j)))
    → (served arrivals n s).data_ready ≡ s.data_ready
unfolding served
served-idle arrivals s zero none_yet = refl
served-idle arrivals s (suc n) none_yet =
    serve-idle (arrivals n) (served arrivals n s) (none_yet n (omega arith))
    ∙ served-idle arrivals s n (λ j h. none_yet j (omega arith))

-- How often the driver has tested the flag since it cleared it.
abbrev pub tests : History → ℕ
tests [] = 0
tests (cleared ∷ h) = 0
tests (looked _ ∷ h) = suc (tests h)
tests (_ ∷ h) = tests h

module _ (drive : Drive) (arrivals : ℕ → Arrival) (start : Interrupts)
    (clear : start.data_ready ≡ 0)
    (follows : (h : History) → drive.flag h ≡ (served arrivals (tests h) start).data_ready) where
  wait_flag-ends :
      (fuel n : ℕ) (s : Disc)
      → IsDisc (arrivals n)
      → n + 2 ≤ fuel + tests s.history
      → 0 < fuel
      → Returns
          (λ _ s'. (v : ℕ) × (h : History) × (s' ≡ record s { history = looked v ∷ h }) × (v ≢ 0))
          (wait_flag drive fuel s)
  unfolding wait_flag
  wait_flag-ends zero n s disc enough some_fuel = absurd (omega arith)
  wait_flag-ends (suc fuel) n s disc enough some_fuel = elim (==-cases (drive.flag s.history) 0) [
    | inr set ↦ rw (ne→== (drive.flag s.history) 0 set) (returns (_, _, refl, set))
    | inl unset ↦ elim (dec_lt n (tests s.history)) [
      | yes past ↦ absurd (
          served-set arrivals start n (tests s.history) disc past (sym (follows s.history) ∙ unset))
      | no before ↦
          let test : (drive.flag s.history == 0) ≡ true = ground arith in
          rw test (
            wait_flag-ends fuel n (record s { history = looked (drive.flag s.history) ∷ s.history })
              disc (omega arith) (omega arith))
    ]
  ]

  wait_flag-waits :
      (fuel : ℕ) (s : Disc)
      → ((j : ℕ) → j < fuel + tests s.history → ¬ (IsDisc (arrivals j)))
      → wait_flag drive fuel s ≡ none
  unfolding wait_flag
  wait_flag-waits zero s none_yet = refl
  wait_flag-waits (suc fuel) s none_yet =
      let idle = served-idle arrivals start (tests s.history) (λ j h. none_yet j (omega arith)) in
      let unset : drive.flag s.history ≡ 0 = follows s.history ∙ idle ∙ clear in
      let test : (drive.flag s.history == 0) ≡ true = ground arith in
      rw test (
        wait_flag-waits fuel (record s { history = looked (drive.flag s.history) ∷ s.history })
          (λ j h. none_yet j (omega arith)))

  -- For a flag that the driver has cleared and that the handlers then set as interrupts arrive between
  -- the tests, one arrival or none before each further test: if arrival `n` is an interrupt of a disc
  -- channel, the wait ends by test `n + 2`, whatever else arrives, and the last test has found the flag
  -- set; and it does not end in as many tests as bring no such interrupt.
  pub wait_flag-Wakes :
      (s : Disc)
      → tests s.history ≡ 0
      → ((n fuel : ℕ)
          → IsDisc (arrivals n)
          → n + 2 ≤ fuel
          → Returns
              (λ _ s'.
                (v : ℕ) × (h : History) × (s' ≡ record s { history = looked v ∷ h }) × (v ≢ 0))
              (wait_flag drive fuel s))
        × ((fuel : ℕ)
            → ((j : ℕ) → j < fuel → ¬ (IsDisc (arrivals j)))
            → wait_flag drive fuel s ≡ none)
  wait_flag-Wakes s fresh = (
    λ n fuel disc enough. wait_flag-ends fuel n s disc (omega arith) (omega arith),
    λ fuel none_yet. wait_flag-waits fuel s (λ j h. none_yet j (omega arith)),
  )
