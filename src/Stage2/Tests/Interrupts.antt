-- ===== src/Stage2/Tests/Interrupts.antt =====
-- The boot loader's interrupts for one placement of the handlers.
use ziemniak.Base.{ℕ, ◌^◌, ◌<◌, ◌≡◌, arith, some, []}
use ziemniak.Pic.{Pics, running}
use ziemniak.Stage2.Interrupts.{
  Handler, exception, exception_err, irq_low, irq_high, irq_disk1, irq_disk2, Interrupts, init_idt,
  run_handler,
}
use ziemniak.Stage2.Interrupts.Vectors.{IsReady, wanted, init_idt-IsReady}
use ziemniak.Stage2.Interrupts.Handlers.{Ended, run_handler-Ended}

abbrev place : Handler → ℕ
place exception = 0x9000
place exception_err = 0x9020
place irq_low = 0x9040
place irq_high = 0x9060
place irq_disk1 = 0x9080
place irq_disk2 = 0x90A0

place-lt : (h : Handler) → place h < 2 ^ 32
place-lt exception = omega arith
place-lt exception_err = omega arith
place-lt irq_low = omega arith
place-lt irq_high = omega arith
place-lt irq_disk1 = omega arith
place-lt irq_disk2 = omega arith

abbrev firmware : Pics
firmware = record {
  master = record { phase = running; base = 8; cascade = 4; mode = 1; mask = 0xB8; ended = 0 };
  slave = record { phase = running; base = 0x70; cascade = 2; mode = 1; mask = 0x8F; ended = 0 };
}

abbrev empty : Interrupts
empty = record {
  idt = λ _. record { offset_low = 0; sel = 0; zero_byte = 0; attr = 0; offset_high = 0 };
  data_ready = 0;
  history = [];
}

init_idt-IsReady_example : IsReady place 0xA000 firmware empty (init_idt place 0xA000 empty)
init_idt-IsReady_example = init_idt-IsReady place 0xA000 firmware empty place-lt

run_handler-Ended_example :
    (s' : Interrupts) × (run_handler (wanted 46) empty ≡ some s') × Ended firmware empty 1 1 s'
run_handler-Ended_example = run_handler-Ended firmware empty 14 (omega arith)
