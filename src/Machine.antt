-- ===== src/Machine.antt =====
-- The processor's instructions that kernel/include/asm.h wraps, and the devices behind them.
-- A device is not part of the program: what a read of a port answers is a function of all that has
-- happened so far, and every theorem holds for each such function.
use ziemniak.Base.{
  ℕ, zero, suc, ◌+◌, ◌==◌, if◌then◌else◌, u64, List, [], ◌∷◌, Option, none, some, u8, u16,
}

-- What the processor does that is seen from outside, the latest event first.
pub data Event : Type 0 where
  wrote : (port val : ℕ) → Event
  got : (port val : ℕ) → Event
  flushed : (addr : ℕ) → Event
  loaded_cr3 : (val : ℕ) → Event
  loaded_idt : (base limit : ℕ) → Event
  enabled : Event
  disabled : Event
  wrote_word : (port val : ℕ) → Event
  got_word : (port val : ℕ) → Event

abbrev pub History : Type 0
History = List Event

-- The later history has all of the earlier one.
pub data Extends (h : History) : History → Type 0 where
  unchanged : Extends h h
  later : {e : Event} {h' : History} → Extends h h' → Extends h (e ∷ h')

pub record Device : Type 0 where
  pub answer : History → ℕ → ℕ

-- `outb`; the parameters are `uint16_t` and `uint8_t`.
abbrev pub outb : ℕ → ℕ → History → History
outb port val h = wrote (u16 port) (u8 val) ∷ h

-- The byte that `inb` reads, and the history after it.
abbrev pub inb_value : Device → ℕ → History → ℕ
inb_value dev port h = u8 (dev.answer h (u16 port))

abbrev pub inb : Device → ℕ → History → ℕ × History
inb dev port h = (inb_value dev port h, got (u16 port) (inb_value dev port h) ∷ h)

abbrev pub invlpg : ℕ → History → History
invlpg addr h = flushed addr ∷ h

-- The assembly names its operand as an output, so what is loaded is what the compiler has left in the
-- register, not the argument.
abbrev pub set_cr3 : (register : History → ℕ) → (val : ℕ) → History → History
set_cr3 register val h = loaded_cr3 (register h) ∷ h

abbrev pub lidt : ℕ → ℕ → History → History
lidt base len h = loaded_idt base (u16 len) ∷ h

abbrev pub sti : History → History
sti h = enabled ∷ h

abbrev pub cli : History → History
cli h = disabled ∷ h

-- Words of memory, each a function of its address.
abbrev pub Memory : Type 0
Memory = ℕ → ℕ

-- `rep outsw` and `rep insw`, a word at each step, upwards.
unfoldable pub outsw : (port addr cnt : ℕ) → Memory → History → History
outsw port addr zero mem h = h
outsw port addr (suc cnt) mem h =
    outsw port (u64 (addr + 2)) cnt mem (wrote_word (u16 port) (u16 (mem addr)) ∷ h)

abbrev pub at_addr : (addr val : ℕ) → Memory → Memory
at_addr addr val mem p = if p == addr then val else mem p

unfoldable pub insw : Device → (port addr cnt : ℕ) → Memory → History → Memory × History
insw dev port addr zero mem h = (mem, h)
insw dev port addr (suc cnt) mem h =
    let word = u16 (dev.answer h (u16 port)) in
    insw dev port (u64 (addr + 2)) cnt (at_addr addr word mem) (got_word (u16 port) word ∷ h)

-- The descriptor table that the processor uses: address and limit.
abbrev pub idtr : History → Option (ℕ × ℕ)
idtr [] = none
idtr (loaded_idt base limit ∷ h) = some (base, limit)
idtr (_ ∷ h) = idtr h
