-- ===== src/Kernel/Tests/Interrupts.antt =====
-- The kernel's interrupt set-up for one table of wrappers.
use ziemniak.Base.{ℕ, ◌+◌, ◌*◌, ◌%◌, ◌≡◌, arith, []}
use ziemniak.Pic.{Pics, running}
use ziemniak.Kernel.Interrupts.{Interrupts, interrupts_init}
use ziemniak.Kernel.Interrupts.Gates.{IsReady, interrupts_init-IsReady}

abbrev table : ℕ → ℕ
table v = 0xFFFFFFFF80001000 + v % 48 * 16

-- As a PC's firmware leaves it, its lines at the vectors of exceptions.
abbrev pub firmware : Pics
firmware = record {
  master = record { phase = running; base = 8; cascade = 4; mode = 1; mask = 0xB8; ended = 0 };
  slave = record { phase = running; base = 0x70; cascade = 2; mode = 1; mask = 0x8F; ended = 0 };
}

abbrev pub empty : Interrupts
empty = record {
  idt = λ _. record { isr_l = 0; cs = 0; ist = 0; attr = 0; isr_m = 0; isr_h = 0; rsrvd = 0 };
  history = [];
}

interrupts_init-IsReady_example :
    ((interrupts_init table 0xFFFFFFFF80003000 empty).0 ≡ 0)
    × IsReady table 0xFFFFFFFF80003000 firmware (interrupts_init table 0xFFFFFFFF80003000 empty).1
interrupts_init-IsReady_example =
    interrupts_init-IsReady table (λ v. omega arith) 0xFFFFFFFF80003000 firmware empty
