-- ===== src/Kernel/Tests.antt =====
-- Runs of the kernel's serial and debug output at concrete inputs, and the theorems at inputs that
-- meet their hypotheses.
pub mod Devices
pub mod Entry
mod Interrupts
mod Memory
mod Raised
mod Regions
mod Startup
use Devices.{com1, slow_uart, com1-Drains, ready_serial, ready_debug, ready}
use ziemniak.Base.{
  ℕ, ◌+◌, ◌*◌, ◌<◌, ◌≡◌, refl, arith, List, [], ◌∷◌, ◌++◌, none, some, inl, inr, length, leb,
  if◌then◌else◌, replicate, u16, Returns, codes, until_nul,
}
use ziemniak.Hex.{parse}
use ziemniak.Kernel.Errno.{einval, eio, eperm}
use ziemniak.Kernel.Serial.{
  Serial, boot, serial_cnt, serial_init, serial_print, print_loop, serial_putc, wait_tx,
  is_tx_empty, configure,
}
use ziemniak.Kernel.Serial.Print.{Sends, serial_print-Sends, serial_print_refused}
use ziemniak.Kernel.Serial.Init.{Outcome, serial_init-Outcome, serial_init_refused}
use ziemniak.Kernel.Serial.Uart.{uart}
use ziemniak.Kernel.Debug.{DumpData, Debug, hex, hex_loop, say, print_msg, debug_crash}
use ziemniak.Kernel.Debug.Hex.{parse-hex}
use ziemniak.Kernel.Debug.Output.{IsReady, Prints, num_line, debug_num-Prints}
use ziemniak.Kernel.Debug.Crash.{report, debug_crash-Prints}

abbrev bda : ℕ → ℕ
bda id = if leb 1 id then 0 else com1

abbrev dump : DumpData
dump = record {
  cr4 = 0xA0;
  cr3 = 0x104000;
  cr2 = 0xDEADBEEF;
  cr0 = 0x80000011;
  r15 = 15;
  r14 = 14;
  r13 = 13;
  r12 = 12;
  r11 = 11;
  r10 = 10;
  r9 = 9;
  r8 = 8;
  rbp = 7;
  rdi = 6;
  rsi = 5;
  rdx = 4;
  rcx = 3;
  rbx = 2;
  rax = 1;
  err = 2;
  rip = 0xFFFFFFFF80000123;
  cs = 8;
  rflags = 0x202;
  rsp = 0x10;
  ss = 0x10;
}

hex_runs : until_nul (hex 0xDEADBEEF (replicate 19 7)) ≡ codes "0x00000000DEADBEEF"
unfolding hex hex_loop
hex_runs = refl

-- With no fuel left while the port is busy the run does not return.
busy_runs : serial_print slow_uart 1 0 (codes "ab") ready_serial ≡ none
unfolding serial_print print_loop serial_putc wait_tx is_tx_empty
busy_runs = refl

serial_print-Sends_example :
    Returns
      (λ status s'.
        (status ≡ 0)
        × (s'.ctx ≡ ready_serial.ctx)
        × Sends com1 (codes "ok") ready_serial.history s'.history)
      (serial_print slow_uart 2 0 (codes "ok") ready_serial)
serial_print-Sends_example =
    serial_print-Sends slow_uart com1-Drains 2 0 (codes "ok") ready_serial (omega arith)
      (omega arith) (omega arith) (omega arith) refl

serial_init-Outcome_example :
    Returns (Outcome slow_uart 0 com1 none boot) (serial_init slow_uart bda 0 none boot)
unfolding uart
serial_init-Outcome_example =
    serial_init-Outcome slow_uart bda 0 none boot (omega arith) (omega arith) refl

parse-hex_example :
    (ds : List ℕ) × (until_nul (hex 0xDEADBEEF (replicate 19 7)) ≡ b'0' ∷ b'x' ∷ ds)
    × (length ds ≡ 16)
    × (parse 0 ds ≡ some 0xDEADBEEF)
parse-hex_example = parse-hex 0xDEADBEEF (replicate 19 7) refl (omega arith)

debug_crash-Prints_example :
    Returns
      (λ _ s'.
        IsReady com1 s' × Sends com1 (report 14 dump) ready_debug.serial.history s'.serial.history)
      (debug_crash slow_uart 2 14 dump ready_debug)
debug_crash-Prints_example =
    debug_crash-Prints slow_uart 2 com1-Drains (omega arith) (omega arith) 14 dump ready_debug ready
