-- ===== src/Stage2/Interrupts.antt =====
-- The boot loader's interrupt table and handlers, bootloader/stage2/src/interrupt.c. Where the
-- linker places each handler is a parameter.
pub mod Handlers
pub mod Vectors
use ziemniak.Base.{
  ℕ, zero, suc, ◌+◌, ◌-◌, ◌*◌, ◌/◌, ◌%◌, ◌^◌, bit_and, bit_or, ◌==◌, if◌then◌else◌, u8, u16, u32,
  ◌>>>◌, ◌∷◌, Option, none, some,
}
use ziemniak.Machine.{History, wrote, loaded_idt, enabled}

-- The file has its own copies of these instructions.
abbrev pub outb : (port val : ℕ) → History → History
outb port val h = wrote (u16 port) (u8 val) ∷ h

abbrev pub lidt : (base size : ℕ) → History → History
lidt base size h = loaded_idt base (u16 size) ∷ h

abbrev pub sti : History → History
sti h = enabled ∷ h

-- PRES_F | RING0_F | G_TRAP_32 and PRES_F | RING0_F | G_IRQ_32
abbrev pub trap_gate : ℕ
trap_gate = bit_or (bit_or 0x80 0x00) 0x0F

abbrev pub irq_gate : ℕ
irq_gate = bit_or (bit_or 0x80 0x00) 0x0E

-- `struct idt_entry`
pub record IdtEntry : Type 0 where
  pub offset_low : ℕ
  pub sel : ℕ
  pub zero_byte : ℕ
  pub attr : ℕ
  pub offset_high : ℕ

abbrev pub Idt : Type 0
Idt = ℕ → IdtEntry

-- The functions that the table points to.
pub data Handler : Type 0 where
  exception exception_err irq_low irq_high irq_disk1 irq_disk2 : Handler

unfoldable pub gen_entry : (id sel offset attr : ℕ) → Idt → Idt
gen_entry id sel offset attr idt j =
    let off = u32 offset in
    if j == id
    then record {
      offset_low = u16 (bit_and off 0xFFFF);
      sel = sel;
      zero_byte = 0x00;
      attr = u8 attr;
      offset_high = u16 (bit_and (off >>> 16) 0xFFFF);
    }
    else idt j

-- A statement after another.
infixl 10 ◌▷◌
abbrev ◌▷◌ {ℓ} : {A B : Type ℓ} → A → (A → B) → B
x ▷ f = f x

unfoldable pub remap_pic : History → History
remap_pic h =
    h
    ▷ outb 0x20 0x11
    ▷ outb 0xA0 0x11
    ▷ outb 0x21 0x20
    ▷ outb 0xA1 0x28
    ▷ outb 0x21 0x04
    ▷ outb 0xA1 0x02
    ▷ outb 0x21 0x01
    ▷ outb 0xA1 0x01
    ▷ outb 0x21 0x00
    ▷ outb 0xA1 0x00

module _ (place : Handler → ℕ) where
  abbrev pub trap : ℕ → Handler → Idt → Idt
  trap id h = gen_entry id 0x08 (place h) trap_gate

  abbrev pub irq : ℕ → Handler → Idt → Idt
  irq id h = gen_entry id 0x08 (place h) irq_gate

  unfoldable pub irq_loop : (left entry : ℕ) → Handler → Idt → Idt
  irq_loop zero entry h idt = idt
  irq_loop (suc left) entry h idt = irq_loop left (entry + 1) h (irq entry h idt)

  -- The entries of the 32 exceptions.
  unfoldable pub exceptions : Idt → Idt
  exceptions idt =
      idt
      ▷ trap 0 exception
      ▷ trap 1 exception
      ▷ trap 2 exception
      ▷ trap 3 exception
      ▷ trap 4 exception
      ▷ trap 5 exception
      ▷ trap 6 exception
      ▷ trap 7 exception
      ▷ trap 8 exception_err
      ▷ trap 9 exception
      ▷ trap 10 exception_err
      ▷ trap 11 exception_err
      ▷ trap 12 exception_err
      ▷ trap 13 exception_err
      ▷ trap 14 exception_err
      ▷ trap 15 exception
      ▷ trap 16 exception
      ▷ trap 17 exception_err
      ▷ trap 18 exception
      ▷ trap 19 exception
      ▷ trap 20 exception
      ▷ trap 21 exception_err
      ▷ trap 22 exception
      ▷ trap 23 exception
      ▷ trap 24 exception
      ▷ trap 25 exception
      ▷ trap 26 exception
      ▷ trap 27 exception
      ▷ trap 28 exception
      ▷ trap 29 exception_err
      ▷ trap 30 exception_err
      ▷ trap 31 exception

  unfoldable pub fill_idt : Idt → Idt
  fill_idt idt =
      exceptions idt
      ▷ irq_loop 8 32 irq_low
      ▷ irq_loop 6 40 irq_high
      ▷ irq 46 irq_disk1
      ▷ irq 47 irq_disk2

-- The static table, the flag that `data_ready` points to, and what the processor has done.
pub record Interrupts : Type 0 where
  pub idt : Idt
  pub data_ready : ℕ
  pub history : History

-- `idt_addr` is where the linker places the table of 48 entries of 8 bytes.
unfoldable pub init_idt : (place : Handler → ℕ) (idt_addr : ℕ) → Interrupts → Interrupts
init_idt place idt_addr s = record s {
  idt = fill_idt place s.idt;
  history = s.history ▷ lidt idt_addr (48 * 8 - 1) ▷ remap_pic ▷ sti;
}

-- The bodies of the handlers that return.
unfoldable pub run_irq_low : Interrupts → Interrupts
run_irq_low s = record s { history = outb 0x20 0x20 s.history }

unfoldable pub run_irq_high : Interrupts → Interrupts
run_irq_high s = record s { history = s.history ▷ outb 0xA0 0x20 ▷ outb 0x20 0x20 }

unfoldable pub run_irq_disk1 : Interrupts → Interrupts
run_irq_disk1 s = record s {
  data_ready = bit_or s.data_ready 0x01;
  history = s.history ▷ outb 0xA0 0x20 ▷ outb 0x20 0x20;
}

unfoldable pub run_irq_disk2 : Interrupts → Interrupts
run_irq_disk2 s = record s {
  data_ready = bit_or s.data_ready 0x02;
  history = s.history ▷ outb 0xA0 0x20 ▷ outb 0x20 0x20;
}

-- The handler that runs when a gate is taken; an exception's never returns.
unfoldable pub run_handler : Handler → Interrupts → Option Interrupts
unfolding run_irq_low run_irq_high run_irq_disk1 run_irq_disk2
run_handler exception s = none
run_handler exception_err s = none
run_handler irq_low s = some (run_irq_low s)
run_handler irq_high s = some (run_irq_high s)
run_handler irq_disk1 s = some (run_irq_disk1 s)
run_handler irq_disk2 s = some (run_irq_disk2 s)
