-- ===== src/Kernel/Serial/Init.antt =====
-- `serial_init`: the state it leaves the device and the driver in, on each of its returns.
use ziemniak.Base.{
  ℕ, ◌+◌, ◌/◌, ◌%◌, ◌^◌, ◌<◌, ◌≤◌, ◌≡◌, ◌≢◌, refl, ap, arith, Option, some, ◌∷◌, false, ◌==◌,
  if◌then◌else◌, Returns, returns, ==_iff, ◌∙◌, ◌⊎◌, Bool-cases, inl, inr, leb, set, u16,
}
use ziemniak.Machine.{Device, wrote, got, History, Extends, unchanged, later, inb_value}
use ziemniak.Kernel.Errno.{eio, einval}
use ziemniak.Kernel.Serial.{Serial, serial_cnt, data_reg, configure, serial_init}
use ziemniak.Kernel.Serial.Uart.{Uart, uart, write, uart-wrote, uart-got}

-- The settings of a port that is ready for use: no interrupts, the divisor of 115200 baud, 8 data
-- bits with one stop bit and no parity, cleared FIFOs.
pub record IsConfigured (u : Uart) : Type 0 where
  pub ier : u.ier ≡ 0
  pub dll : u.dll ≡ 1
  pub dlh : u.dlh ≡ 0
  pub lcr : u.lcr ≡ 0x03
  pub fcr : u.fcr ≡ 0xC7

-- The history after the settings and the self test's byte, before the echo is read.
abbrev pub configured : ℕ → History → History
configured port h =
    wrote (u16 (port + 0)) 0x5A
    ∷ wrote (u16 (port + 4)) 0x1E
    ∷ wrote (u16 (port + 4)) 0x0B
    ∷ wrote (u16 (port + 2)) 0xC7
    ∷ wrote (u16 (port + 3)) 0x03
    ∷ wrote (u16 (port + 1)) 0x00
    ∷ wrote (u16 (port + 0)) 0x01
    ∷ wrote (u16 (port + 3)) 0x80
    ∷ wrote (u16 (port + 1)) 0x00
    ∷ h

configured-Extends : (port : ℕ) (h : History) → Extends h (configured port h)
configured-Extends port h =
    later (later (later (later (later (later (later (later (later unchanged))))))))

-- The device's state at that point: the test byte stays off the wire.
abbrev under_test : Uart → Uart
under_test u = record u { ier = 0; fcr = 0xC7; lcr = 0x03; mcr = 0x1E; dll = 0x01; dlh = 0x00 }

abbrev pub Off : Uart → Type 0
Off u = (u.lcr / 128 % 2 == 1) ≡ false

uart-configured :
    (port : ℕ) (h : History)
    → port < 2 ^ 16
    → Off (uart port h)
    → uart port (configured port h) ≡ under_test (uart port h)
uart-configured port h small off = simp (uart-wrote small, off)

module _ (dev : Device) where
  abbrev pub echo : ℕ → History → ℕ
  echo port h = inb_value dev (port + data_reg) (configured port h)

  abbrev tested : ℕ → Serial → Serial
  tested port s = record s {
    history = got (u16 (port + data_reg)) (echo port s.history) ∷ configured port s.history;
  }

  configure-tested :
      (port : ℕ) (s : Serial) → configure dev port s ≡ some (echo port s.history, tested port s)
  unfolding configure
  configure-tested port s = refl

  -- What a call with a valid port number leaves behind.
  pub record Outcome (id port : ℕ) (rx_cb : Option ℕ) (s : Serial) (status : ℕ) (s' : Serial)
      : Type 0 where
    pub settings : IsConfigured (uart port s'.history)
    pub quiet : (uart port s'.history).line ≡ (uart port s.history).line
    pub extends : Extends s.history s'.history
    pub passed :
        echo port s.history ≡ 0x5A
        → (status ≡ 0)
          × ((uart port s'.history).mcr ≡ 0x0B)
          × (s'.ctx ≡ set s.ctx id (record { rx_cb = rx_cb; port = port }))
    pub failed :
        echo port s.history ≢ 0x5A
        → (status ≡ eio) × ((uart port s'.history).mcr ≡ 0x1E) × (s'.ctx ≡ s.ctx)

  -- For a port that the BIOS reports and whose divisor latch is closed, `serial_init` returns with
  -- the device configured and nothing sent on the wire.
  pub serial_init-Outcome :
      (bda_coms : ℕ → ℕ) (id : ℕ) (rx_cb : Option ℕ) (s : Serial)
      → id < serial_cnt
      → u16 (bda_coms id) ≢ 0
      → Off (uart (u16 (bda_coms id)) s.history)
      → Returns (Outcome id (u16 (bda_coms id)) rx_cb s) (serial_init dev bda_coms id rx_cb s)
  unfolding serial_init
  serial_init-Outcome bda_coms id rx_cb s known present off =
      let port = u16 (bda_coms id) in
      let valid : leb serial_cnt id ≡ false = ground arith in
      let some_port : (port == 0) ≡ false = ground arith in
      let small : port < 2 ^ 16 = omega arith in
      let test =
        uart-got port (u16 (port + data_reg)) (echo port s.history) (configured port s.history)
        ∙ uart-configured port s.history small off in
      let ready = uart-wrote small 4 0x0B (tested port s).history ∙ ap (write 4 0x0B) test in
      rw (valid, some_port, configure-tested port s)
        (elim (Bool-cases (echo port s.history == 0x5A)) [
          | inl same ↦ rw same (
              returns (record {
                settings = rw ready (omega arith);
                quiet = rw ready;
                extends = later (later (configured-Extends _ _));
                passed = λ _. (refl, rw ready, refl);
                failed = λ ne. absurd (ne ((==_iff _ _).0 same));
              }))
          | inr other ↦ rw other (
              returns (record {
                settings = rw test (omega arith);
                quiet = rw test;
                extends = later (configured-Extends _ _);
                passed = λ e. absurd (ground arith);
                failed = λ ne. (refl, rw test, refl);
              }))
        ])

-- A port number that is out of range, or that the BIOS reports as absent, is an error: `EINVAL` or
-- `EIO`, with no access to the hardware and no change of the driver's state.
pub serial_init_refused :
    (dev : Device) (bda_coms : ℕ → ℕ) (id : ℕ) (rx_cb : Option ℕ) (s : Serial)
    → (serial_cnt ≤ id) ⊎ (u16 (bda_coms id) ≡ 0)
    → serial_init dev bda_coms id rx_cb s ≡ some (if leb serial_cnt id then einval else eio, s)
unfolding serial_init
serial_init_refused dev bda_coms id rx_cb s h = ground arith
