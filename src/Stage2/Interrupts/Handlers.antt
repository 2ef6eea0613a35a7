-- ===== src/Stage2/Interrupts/Handlers.antt =====
-- What the handlers of the interrupt lines do.
use ziemniak.Base.{ℕ, ◌+◌, ◌<◌, ◌≤◌, ◌≡◌, refl, arith, bit_or, some, ltb, ◌==◌, if◌then◌else◌}
use native.Mathlib.Decide.{dec_lt}
use ziemniak.Pic.{Pics, pics}
use ziemniak.Stage2.Interrupts.{
  Handler, irq_low, irq_high, irq_disk1, irq_disk2, Interrupts, run_handler, run_irq_low,
  run_irq_high, run_irq_disk1, run_irq_disk2,
}
use ziemniak.Stage2.Interrupts.Vectors.{wanted}

-- The handler has returned in `s'`; `master` and `slave` count the interrupts that it has ended.
pub record Ended (start : Pics) (s : Interrupts) (slave flag : ℕ) (s' : Interrupts) : Type 0 where
  pub master_ended : (pics start s'.history).master.ended ≡ (pics start s.history).master.ended + 1
  pub slave_ended : (pics start s'.history).slave.ended ≡ (pics start s.history).slave.ended + slave
  pub ready : s'.data_ready ≡ flag
  pub table : s'.idt ≡ s.idt

abbrev flag_after : ℕ → Interrupts → ℕ
flag_after irq s =
    if irq == 14
    then bit_or s.data_ready 1
    else if irq == 15
    then bit_or s.data_ready 2
    else s.data_ready

-- What is wanted of the handler of a line, and what each handler does at the lines that it serves.
abbrev Ends : Pics → Interrupts → (irq : ℕ) → Handler → Type 0
Ends start s irq h =
    (s' : Interrupts) × (run_handler h s ≡ some s')
    × Ended start s (if ltb irq 8 then 0 else 1) (flag_after irq s) s'

module _ (start : Pics) (s : Interrupts) (irq : ℕ) where
  low-Ends : irq < 8 → Ends start s irq irq_low
  unfolding run_handler pics
  low-Ends h = (
    run_irq_low s,
    refl,
    record { master_ended = refl; slave_ended = ground arith; ready = ground arith; table = refl },
  )

  high-Ends : 8 ≤ irq → irq < 14 → Ends start s irq irq_high
  unfolding run_handler pics
  high-Ends l h = (
    run_irq_high s,
    refl,
    record { master_ended = refl; slave_ended = ground arith; ready = ground arith; table = refl },
  )

  disk1-Ends : irq ≡ 14 → Ends start s irq irq_disk1
  unfolding run_handler pics
  disk1-Ends e = (
    run_irq_disk1 s,
    refl,
    record { master_ended = refl; slave_ended = ground arith; ready = ground arith; table = refl },
  )

  disk2-Ends : irq ≡ 15 → Ends start s irq irq_disk2
  unfolding run_handler pics
  disk2-Ends e = (
    run_irq_disk2 s,
    refl,
    record { master_ended = refl; slave_ended = ground arith; ready = ground arith; table = refl },
  )

  wanted-Ends : irq < 16 → Ends start s irq (wanted (32 + irq))
  unfolding wanted
  wanted-Ends h = elim (dec_lt irq 8) [
    | yes low ↦ let e : wanted (32 + irq) ≡ irq_low = ground arith in rw e (low-Ends low)
    | no above ↦ elim (dec_lt irq 14) [
      | yes high ↦
          let e : wanted (32 + irq) ≡ irq_high = ground arith in rw e (high-Ends (omega arith) high)
      | no disc ↦ elim (dec_lt irq 15) [
        | yes first ↦
            let e : wanted (32 + irq) ≡ irq_disk1 = ground arith in rw e (disk1-Ends (omega arith))
        | no last ↦
            let e : wanted (32 + irq) ≡ irq_disk2 = ground arith in rw e (disk2-Ends (omega arith))
      ]
    ]
  ]

-- The handler of interrupt line `irq` returns; it ends the interrupt at the master, and at the
-- slave exactly for the lines 8 to 15, and it sets bit 0 of the flag `data_ready` on line 14, bit 1
-- on line 15, and nothing on any other line.
pub run_handler-Ended :
    (start : Pics) (s : Interrupts) (irq : ℕ)
    → irq < 16
    → (s' : Interrupts) × (run_handler (wanted (32 + irq)) s ≡ some s')
      × Ended start s
          (if ltb irq 8 then 0 else 1)
          (if irq == 14
            then bit_or s.data_ready 1
            else if irq == 15
            then bit_or s.data_ready 2
            else s.data_ready)
          s'
run_handler-Ended start s irq h = wanted-Ends start s irq h
