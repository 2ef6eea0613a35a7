-- ===== src/Pic.antt =====
-- The two 8259 interrupt controllers of a PC: what a history of port writes makes of them. This is
-- the description that the initialisations in the kernel and in the bootloader are measured
-- against.
use ziemniak.Base.{
  ℕ, ◌+◌, ◌-◌, ◌*◌, ◌/◌, ◌%◌, ◌<◌, ◌≡◌, ap, arith, ◌==◌, if◌then◌else◌, [], ◌∷◌, ltb,
}
use ziemniak.Machine.{History, wrote}

-- Which word the data port takes next.
pub data Phase : Type 0 where
  icw2 icw3 icw4 running : Phase

pub record Pic : Type 0 where
  pub phase : Phase
  pub base : ℕ
  pub cascade : ℕ
  pub mode : ℕ
  pub mask : ℕ
  pub ended : ℕ

-- Bit 4 of a command starts the initialisation, which clears the mask. The three words that follow
-- are those of cascaded controllers with a mode word, which bits 1 and 0 of the command ask for; no
-- other initialisation is described. 0x20 ends an interrupt.
abbrev pub command : ℕ → Pic → Pic
command val p =
    if val / 16 % 2 == 1
    then record p { phase = if val % 4 == 1 then icw2 else running; mask = 0; ended = 0 }
    else if val == 0x20
    then record p { ended = p.ended + 1 }
    else p

abbrev pub settle : Phase → ℕ → Pic → Pic
settle icw2 val p = record p { base = val / 8 * 8; phase = icw3 }
settle icw3 val p = record p { cascade = val; phase = icw4 }
settle icw4 val p = record p { mode = val; phase = running }
settle running val p = record p { mask = val }

abbrev pub settings : ℕ → Pic → Pic
settings val p = settle p.phase val p

pub record Pics : Type 0 where
  pub master : Pic
  pub slave : Pic

abbrev pub write : (port val : ℕ) → Pics → Pics
write port val p =
    if port == 0x20
    then record p { master = command val p.master }
    else if port == 0x21
    then record p { master = settings val p.master }
    else if port == 0xA0
    then record p { slave = command val p.slave }
    else if port == 0xA1
    then record p { slave = settings val p.slave }
    else p

-- The controllers after a history, from the state that the firmware left.
unfoldable pub pics : Pics → History → Pics
pics start [] = start
pics start (wrote port val ∷ h) = write port val (pics start h)
pics start (_ ∷ h) = pics start h

-- The vector that interrupt line `irq` raises.
abbrev pub vector : Pics → (irq : ℕ) → ℕ
vector p irq = if ltb irq 8 then p.master.base + irq else p.slave.base + (irq - 8)

-- Both controllers run with lines 0 to 15 at vectors 0x20 to 0x2F, the slave on line 2 of the
-- master, in 8086 mode, with no line masked and no interrupt pending an end.
pub record IsRemapped (p : Pics) : Type 0 where
  pub master :
      p.master ≡ record { phase = running; base = 0x20; cascade = 4; mode = 1; mask = 0; ended = 0 }
  pub slave :
      p.slave ≡ record { phase = running; base = 0x28; cascade = 2; mode = 1; mask = 0; ended = 0 }

pub vector-remapped : (p : Pics) (irq : ℕ) → IsRemapped p → irq < 16 → vector p irq ≡ 32 + irq
vector-remapped p irq r h =
    ground (arith, ap (λ (c : Pic). c.base) r.master, ap (λ (c : Pic). c.base) r.slave)
