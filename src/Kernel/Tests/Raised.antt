-- ===== src/Kernel/Tests/Raised.antt =====
-- Interrupts of a program that runs with 64 KiB of stack.
use ziemniak.Base.{
  ℕ, ◌+◌, ◌-◌, ◌*◌, ◌/◌, ◌%◌, ◌^◌, ◌<◌, ◌≡◌, refl, arith, [], inl, false, true, none, Option, some,
  ltb, lt→ltb, le→ltb, if◌then◌else◌, Returns,
}
use native.Mathlib.Decide.{dec_lt}
use ziemniak.Pic.{pics, vector}
use ziemniak.Cpu.{Reg, Cpu, iretq, taken, error_pushed}
use ziemniak.Kernel.Serial.Print.{Sends}
use ziemniak.Kernel.Debug.Crash.{report}
use ziemniak.Kernel.Interrupts.{Interrupts, interrupts_init}
use ziemniak.Kernel.Interrupts.Gates
use ziemniak.Kernel.Interrupts.Gates.{interrupts_init-IsReady}
use ziemniak.Kernel.Interrupts.Wrappers.{
  Wrapper, exc_wrapper, isr_wrapper_pic, exc_wrapped, isr_wrapped, isr_wrap,
}
use ziemniak.Kernel.Interrupts.Wrappers.Dump.{
  dump_data, shifted_data, Calls, exc_wrapped-Calls, exc_wrapped-shifted,
}
use ziemniak.Kernel.Interrupts.Wrappers.Resume.{is_preserved, Keeps, Resumes, EndsLine}
use ziemniak.Kernel.Interrupts.Raised.{halted, resumed, raised, isr_addresses}
use ziemniak.Kernel.Interrupts.Raised.Ends.{
  wrapper_at, isr_tab-exc, isr_tab-pic, raised-Reports, raised-Resumes,
}
use ziemniak.Kernel.Tests.Devices.{com1, slow_uart, com1-Drains, ready, ready_debug}
use ziemniak.Kernel.Tests.Interrupts.{firmware, empty}

abbrev address : Wrapper → ℕ
address (exc_wrapper n) = 0xFFFFFFFF80001000 + n % 32 * 64
address (isr_wrapper_pic n) = 0xFFFFFFFF80001800 + n % 16 * 64

abbrev fetched : ℕ → Option Wrapper
fetched a =
    let k = (a - 0xFFFFFFFF80001000) / 64 in
    some (if ltb k 32 then exc_wrapper k else isr_wrapper_pic (k - 32))

placed : (i : ℕ) → i < 48 → fetched (isr_addresses address i) ≡ wrapper_at i
unfolding isr_addresses
placed i h = elim (dec_lt i 32) [
  | yes low ↦
      let index : (address (exc_wrapper i) - 0xFFFFFFFF80001000) / 64 ≡ i = omega arith in
      rw (isr_tab-exc (exc_wrapper 0) i low, index, lt→ltb i 32 low) refl
  | no high ↦
      let split : 32 + (i - 32) ≡ i = omega arith in
      let entry = rw split at (isr_tab-pic (exc_wrapper 0) (i - 32) (omega arith)) in
      let index : (address (isr_wrapper_pic (i - 32)) - 0xFFFFFFFF80001000) / 64 ≡ i =
        omega arith in
      rw (entry, index, le→ltb i 32 (omega arith)) refl
]

address-lt : (w : Wrapper) → address w < 2 ^ 64
address-lt (exc_wrapper n) = omega arith
address-lt (isr_wrapper_pic n) = omega arith

small : (i : ℕ) → isr_addresses address i < 2 ^ 64
unfolding isr_addresses
small i = address-lt _

-- In the function at 0x401000, with a stack that is not aligned.
abbrev program : Cpu
program = record {
  regs = λ r. 7;
  stack = record { rsp = 0x1FFF8; mem = λ a. a };
  rip = 0x401000;
  cs = 8;
  rflags = 0x202;
  ss = 0x10;
  cr0 = 0x80000011;
  cr2 = 0xDEAD;
  cr3 = 0x100000;
  cr4 = 0x620;
}

abbrev started : Interrupts
started = (interrupts_init (isr_addresses address) 0xFFFFFFFF80003000 empty).1

set_up : Gates.IsReady (isr_addresses address) 0xFFFFFFFF80003000 firmware started
set_up = (interrupts_init-IsReady (isr_addresses address) small 0xFFFFFFFF80003000 firmware empty).1

-- Compiled handlers that clear every register they may.
abbrev called : ℕ → Cpu → Cpu
called irq c = record c { regs = λ r. if is_preserved r then c.regs r else 0 }

called-Keeps : (irq : ℕ) (c : Cpu) → Keeps c (called irq c)
called-Keeps irq c = record { regs = λ r h. rw h refl; rsp = refl; mem = λ a h. refl }

-- A register that a handler may change is changed in the interrupted program.
changed_runs :
    (isr_wrapped called 0 (taken 0xFFFFFFFF80001800 8 true none program) []).0.regs Reg.rcx ≡ 0
unfolding isr_wrapped isr_wrap iretq
changed_runs = refl

exc_wrapped-Calls_example :
    Calls 14
      (dump_data program 2)
      8
      (exc_wrapped 14 (taken 0xFFFFFFFF80001380 8 false (error_pushed 14 2) program))
exc_wrapped-Calls_example =
    exc_wrapped-Calls 14 0xFFFFFFFF80001380 8 false 2 program (omega arith) (omega arith)
      (omega arith) (omega arith)

exc_wrapped-shifted_example :
    Calls 21
      (shifted_data program 3)
      0
      (exc_wrapped 21 (taken 0xFFFFFFFF80001540 8 false (error_pushed 21 3) program))
exc_wrapped-shifted_example =
    exc_wrapped-shifted 21 0xFFFFFFFF80001540 8 false 3 program (omega arith) (inl refl)

raised-Reports_example :
    Returns
      (λ e d'.
        (e ≡ halted)
        × Sends com1 (report 0 (dump_data program 0)) ready_debug.serial.history d'.serial.history)
      (raised slow_uart 2 called fetched started.idt 0 0 program ready_debug)
raised-Reports_example =
    raised-Reports slow_uart 2 called address fetched placed 0xFFFFFFFF80003000 firmware started
      set_up com1-Drains (omega arith) (omega arith) 0 0 program ready_debug (omega arith)
      (omega arith) (omega arith) (omega arith) ready

raised-Resumes_example :
    Returns
      (λ e d'.
        (c' : Cpu) × (e ≡ resumed c')
        × Resumes program c'
        × EndsLine (pics firmware ready_debug.serial.history) (pics firmware d'.serial.history) 12)
      (raised slow_uart 2 called fetched started.idt
        (vector (pics firmware set_up.before) 12)
        0
        program
        ready_debug)
raised-Resumes_example =
    raised-Resumes slow_uart 2 called address fetched placed 0xFFFFFFFF80003000 firmware started
      set_up called-Keeps 12 0 program ready_debug (omega arith) (omega arith)
