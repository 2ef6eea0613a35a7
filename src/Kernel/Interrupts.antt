-- ===== src/Kernel/Interrupts.antt =====
-- The kernel's interrupt set-up, kernel/src/interrupts/interrupts.c. Here the table `isr_tab` is a
-- parameter, the addresses that the linker gives to the wrappers in assembly.
pub mod Gates
pub mod Raised
pub mod Wrappers
use ziemniak.Base.{
  ℕ, zero, suc, ◌+◌, ◌-◌, ◌*◌, ◌/◌, ◌%◌, ◌^◌, bit_and, bit_or, ◌==◌, if◌then◌else◌, u8, u32, ◌>>>◌,
  Cmd, pure, ◌>>=◌, ◌>>◌,
}
use ziemniak.Machine.{History, Device, outb, lidt, sti}
use ziemniak.Kernel.Debug.{Debug, DumpData, debug_crash}

abbrev pub present : ℕ
present = 0x80

abbrev pub gate_int : ℕ
gate_int = 0x0E

abbrev pub gate_trap : ℕ
gate_trap = 0x0F

-- `struct idt_entry`
pub record IdtEntry : Type 0 where
  pub isr_l : ℕ
  pub cs : ℕ
  pub ist : ℕ
  pub attr : ℕ
  pub isr_m : ℕ
  pub isr_h : ℕ
  pub rsrvd : ℕ

-- The static table `idt`, by index, and what the processor has done.
pub record Interrupts : Type 0 where
  pub idt : ℕ → IdtEntry
  pub history : History

-- Every field of the entry is assigned.
unfoldable pub gen_entry : (isr attr : ℕ) → IdtEntry
gen_entry isr attr = record {
  isr_l = bit_and isr 0xFFFF;
  cs = 0x08;
  ist = 0x00;
  attr = u8 attr;
  isr_m = bit_and (isr >>> 16) 0xFFFF;
  isr_h = bit_and (isr >>> 32) 0xFFFFFFFF;
  rsrvd = 0x00;
}

abbrev pub set_entry : (ℕ → IdtEntry) → ℕ → IdtEntry → ℕ → IdtEntry
set_entry idt i e j = if j == i then e else idt j

unfoldable pub remap_pic : History → History
remap_pic h =
    let h = outb 0x20 0x11 h in
    let h = outb 0xA0 0x11 h in
    let h = outb 0x21 0x20 h in
    let h = outb 0xA1 40 h in
    let h = outb 0x21 0x04 h in
    let h = outb 0xA1 0x02 h in
    let h = outb 0x21 0x01 h in
    let h = outb 0xA1 0x01 h in let h = outb 0x21 0x0 h in outb 0xA1 0x0 h

module _ (isr_tab : ℕ → ℕ) where
  unfoldable pub gate_loop : (left i attr : ℕ) → (ℕ → IdtEntry) → ℕ → IdtEntry
  gate_loop zero i attr idt = idt
  gate_loop (suc left) i attr idt =
      gate_loop left (i + 1) attr (set_entry idt i (gen_entry (isr_tab i) attr))

  -- `idt_addr` is where the linker places the table of 48 entries of 16 bytes.
  unfoldable pub interrupts_init : (idt_addr : ℕ) → Interrupts → ℕ × Interrupts
  interrupts_init idt_addr s =
      let idt = gate_loop 32 0 (bit_or present gate_trap) s.idt in
      let idt = gate_loop 16 32 (bit_or present gate_int) idt in
      let history = lidt idt_addr (48 * 16 - 1) s.history in
      (0, record { idt = idt; history = sti (remap_pic history) })

-- `while (1)`: the processor never leaves it.
pub data Stopped : Type 0 where
  stopped : Stopped

-- `debug_crash` is called through the prototype of debug.h, which takes an `int`.
unfoldable pub exception_handler : Device → (fuel number : ℕ) → DumpData → Cmd Debug Stopped
exception_handler dev fuel number dump = do debug_crash dev fuel (u32 number) dump; pure stopped
