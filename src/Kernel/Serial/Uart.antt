-- ===== src/Kernel/Serial/Uart.antt =====
-- What the registers of a 16550 mean: the state of the device after a history of port writes.
-- This is the description that the driver is measured against.
use ziemniak.Base.{
  ℕ, ◌+◌, ◌-◌, ◌/◌, ◌%◌, ◌^◌, ◌<◌, ◌≡◌, refl, arith, List, [], ◌∷◌, ◌==◌, if◌then◌else◌, u16,
}
use ziemniak.Machine.{wrote, got, History}

-- `line` holds the bytes that have left on the wire, the latest first.
pub record Uart : Type 0 where
  pub ier : ℕ
  pub fcr : ℕ
  pub lcr : ℕ
  pub mcr : ℕ
  pub dll : ℕ
  pub dlh : ℕ
  pub line : List ℕ

-- With the divisor latch bit of `lcr` set, registers 0 and 1 are the divisor; in loopback, bit 4
-- of `mcr`, a byte that is sent does not reach the wire.
abbrev pub write : (reg val : ℕ) → Uart → Uart
write reg val u =
    if reg == 0
    then (if u.lcr / 128 % 2 == 1
        then record u { dll = val }
        else if u.mcr / 16 % 2 == 1
        then u
        else record u { line = val ∷ u.line })
    else if reg == 1
    then (if u.lcr / 128 % 2 == 1 then record u { dlh = val } else record u { ier = val })
    else if reg == 2
    then record u { fcr = val }
    else if reg == 3
    then record u { lcr = val }
    else if reg == 4
    then record u { mcr = val }
    else u

abbrev pub offset : (base port : ℕ) → ℕ
offset base port = (port + 2 ^ 16 - base) % 2 ^ 16

-- After reset all registers are 0.
unfoldable pub uart : (base : ℕ) → History → Uart
uart base [] = record { ier = 0; fcr = 0; lcr = 0; mcr = 0; dll = 0; dlh = 0; line = [] }
uart base (wrote port val ∷ h) = write (offset base port) val (uart base h)
uart base (_ ∷ h) = uart base h

offset-add : (base reg : ℕ) → base < 2 ^ 16 → offset base (u16 (base + reg)) ≡ u16 reg
offset-add base reg h = omega arith

pub uart-wrote :
    {base : ℕ}
    → base < 2 ^ 16
    → (reg val : ℕ) (h : History)
    → uart base (wrote (u16 (base + reg)) val ∷ h) ≡ write (u16 reg) val (uart base h)
unfolding uart
uart-wrote {base} small reg val h = rw (offset-add base reg small) refl

pub uart-got : (base port val : ℕ) (h : History) → uart base (got port val ∷ h) ≡ uart base h
unfolding uart
uart-got base port val h = refl
