-- ===== src/Kernel/Serial.antt =====
-- The serial port driver, kernel/src/serial/serial.c. Its two polling loops run on fuel, one unit
pub mod Init
pub mod Print
pub mod Uart
-- for each poll of the line status register.
use ziemniak.Base.{
  ℕ, zero, suc, ◌+◌, ◌*◌, ◌%◌, ◌^◌, List, [], ◌∷◌, Bool, true, false, not, Option, none, some,
  bit_and, leb, ◌==◌, if◌then◌else◌, get_or, set, replicate, Cmd, pure, ◌>>=◌, ◌>>◌, u16,
}
use ziemniak.Machine.{Device, History, outb, inb}
use ziemniak.Kernel.Errno.{eio, einval, eperm}

abbrev pub serial_cnt : ℕ
serial_cnt = 4

abbrev pub data_reg : ℕ
data_reg = 0

abbrev pub inten_reg : ℕ
inten_reg = 1

abbrev pub div_low_reg : ℕ
div_low_reg = 0

abbrev pub div_high_reg : ℕ
div_high_reg = 1

abbrev pub int_fifo_reg : ℕ
int_fifo_reg = 2

abbrev pub line_ctl_reg : ℕ
line_ctl_reg = 3

abbrev pub modem_ctl_reg : ℕ
modem_ctl_reg = 4

abbrev pub line_sts_reg : ℕ
line_sts_reg = 5

abbrev pub dlab : ℕ
dlab = 0x80

abbrev pub tx_empty : ℕ
tx_empty = 0x20

-- `struct serial_ctx`; a callback is the address of a function, `none` is `NULL`.
pub record SerialCtx : Type 0 where
  pub rx_cb : Option ℕ
  pub port : ℕ

abbrev pub no_ctx : SerialCtx
no_ctx = record { rx_cb = none; port = 0 }

-- The driver's static variable `ctx`, and all that the processor has done.
pub record Serial : Type 0 where
  pub ctx : List SerialCtx
  pub history : History

abbrev pub boot : Serial
boot = record { ctx = replicate serial_cnt no_ctx; history = [] }

abbrev pub out : ℕ → ℕ → Cmd Serial (Unit {0})
out port val s = some (tt, record s { history = outb port val s.history })

abbrev pub ctx_at : Serial → ℕ → SerialCtx
ctx_at s id = get_or s.ctx id no_ctx

module _ (dev : Device) where
  abbrev pub read : ℕ → Cmd Serial ℕ
  read port s = let (v, h) = inb dev port s.history in some (v, record s { history = h })

  unfoldable pub is_tx_empty : ℕ → Cmd Serial Bool
  is_tx_empty port = do sts ← read (port + line_sts_reg); pure (not (bit_and sts tx_empty == 0))

  -- `while (!is_tx_empty(port));`
  unfoldable pub wait_tx : (fuel : ℕ) → ℕ → Cmd Serial (Unit {0})
  wait_tx zero port s = none
  wait_tx (suc fuel) port s =
      (is_tx_empty port >>= λ ready. elim ready [ true ↦ pure tt | false ↦ wait_tx fuel port ]) s

  unfoldable pub serial_putc : (fuel : ℕ) → (port chr : ℕ) → Cmd Serial (Unit {0})
  serial_putc fuel port chr = do wait_tx fuel port; out (port + data_reg) chr

  -- The settings and the self test of `serial_init`, up to the echo that the test reads.
  unfoldable pub configure : ℕ → Cmd Serial ℕ
  configure port = do
    out (port + inten_reg) 0x00
    out (port + line_ctl_reg) dlab
    out (port + div_low_reg) 0x01
    out (port + div_high_reg) 0x00
    out (port + line_ctl_reg) 0x03
    out (port + int_fifo_reg) 0xC7
    out (port + modem_ctl_reg) 0x0B
    out (port + modem_ctl_reg) 0x1E
    out (port + data_reg) 0x5A
    read (port + data_reg)

  -- `bda_coms id` is the 16-bit word that the BIOS data area holds at 0x400 + 2 * id.
  unfoldable pub serial_init : (bda_coms : ℕ → ℕ) (id : ℕ) (rx_cb : Option ℕ) → Cmd Serial ℕ
  serial_init bda_coms id rx_cb =
      if leb serial_cnt id
      then pure einval
      else let port = u16 (bda_coms id) in
        if port == 0 then pure eio else do
          echo ← configure port
          if not (echo == 0x5A) then pure eio else do
            λ s. some (tt, record s { ctx = set s.ctx id (record { rx_cb = rx_cb; port = port }) })
            out (port + modem_ctl_reg) 0x0B
            pure 0

  unfoldable pub print_loop : (fuel port : ℕ) → List ℕ → Cmd Serial (Unit {0})
  print_loop fuel port [] s = some (tt, s)
  print_loop fuel port (c ∷ cs) s =
      (if c == 0 then pure tt else (serial_putc fuel port c >> print_loop fuel port cs)) s

  unfoldable pub serial_print : (fuel id : ℕ) → List ℕ → Cmd Serial ℕ
  serial_print fuel id text s =
      (if leb serial_cnt id
          then pure einval
          else if (ctx_at s id).port == 0
          then pure eperm
          else do print_loop fuel (ctx_at s id).port text; pure 0)
        s
