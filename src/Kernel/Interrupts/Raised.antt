-- ===== src/Kernel/Interrupts/Raised.antt =====
-- An interrupt from the gate that the processor reads to the last instruction of its wrapper.
pub mod Ends
use ziemniak.Base.{ℕ, ◌+◌, ◌*◌, ◌%◌, ◌^◌, Bool, Option, none, some, ◌==◌, get_or, Cmd, pure, ◌>>◌}
use ziemniak.Machine.{Device}
use ziemniak.Cpu.{Cpu, taken, error_pushed}
use ziemniak.Kernel.Debug.{Debug}
use ziemniak.Kernel.Interrupts.{IdtEntry}
use ziemniak.Kernel.Interrupts.Gates.{target}
use ziemniak.Kernel.Interrupts.Wrappers.{
  Wrapper, exc_wrapper, isr_wrapper_pic, isr_tab, exc_wrapped, call_handler, isr_wrapped,
}

abbrev pub is_interrupt_gate : IdtEntry → Bool
is_interrupt_gate e = e.attr % 16 == 0x0E

-- An interrupted program is left for ever, or goes on.
pub data Ending : Type 0 where
  halted : Ending
  resumed : Cpu → Ending

-- `called` is the compiled code of the functions `isr_n`.
module _ (dev : Device) (fuel : ℕ) (called : (irq : ℕ) → Cpu → Cpu) where
  unfoldable pub run_wrapper : Wrapper → Cpu → Cmd Debug Ending
  run_wrapper (exc_wrapper number) c d =
      (call_handler dev fuel (exc_wrapped number c) >> pure halted) d
  run_wrapper (isr_wrapper_pic irq) c d =
      let (c, h) = isr_wrapped called irq c d.serial.history in
      some (resumed c, record d { serial = record d.serial { history = h } })

  abbrev pub run_at : Option Wrapper → Cpu → Cmd Debug Ending
  run_at none c d = none
  run_at (some w) c d = run_wrapper w c d

  -- Vector `v` is raised: `fetched` is the code at an address.
  unfoldable pub raised :
      (fetched : ℕ → Option Wrapper) (idt : ℕ → IdtEntry) (v code : ℕ) → Cpu → Cmd Debug Ending
  raised fetched idt v code c =
      let e = idt v in
      run_at (fetched (target e))
        (taken (target e) e.cs (is_interrupt_gate e) (error_pushed v code) c)

-- The table as addresses, for the linker's `address` of each wrapper.
unfoldable pub isr_addresses : (address : Wrapper → ℕ) → ℕ → ℕ
isr_addresses address i = address (get_or isr_tab i (exc_wrapper 0))
