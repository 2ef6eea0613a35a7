-- ===== src/Kernel/Serial/Print.antt =====
-- `serial_print`: what reaches the wire, and when.
use ziemniak.Base.{
  ℕ, zero, suc, ◌+◌, ◌<◌, ◌≤◌, ◌≡◌, refl, arith, List, [], ◌∷◌, true, false, some, bit_and, ◌==◌,
  if◌then◌else◌, Bool-cases, inl, inr, Returns, returns, Returns-mono, Returns-bind, IsBytes,
  until_nul, leb, ◌⊎◌, ◌∙◌, u8, u16,
}
use ziemniak.Machine.{Device, wrote, got, History, inb_value}
use ziemniak.Kernel.Serial.{
  Serial, ctx_at, line_sts_reg, data_reg, tx_empty, serial_cnt, is_tx_empty, wait_tx, serial_putc,
  print_loop, serial_print,
}
use ziemniak.Kernel.Errno.{einval, eperm}

abbrev pub IsIdle : ℕ → Type 0
IsIdle sts = (bit_and sts tx_empty == 0) ≡ false

abbrev pub IsBusy : ℕ → Type 0
IsBusy sts = (bit_and sts tx_empty == 0) ≡ true

-- The transmitter of the port at `port` sends at most `depth` characters ahead and is never stuck:
-- whenever its status says busy, the next poll finds it with less left to send.
pub record Drains (dev : Device) (port depth : ℕ) : Type 0 where
  pub backlog : History → ℕ
  pub bounded : (h : History) → backlog h < depth
  pub shrinks :
      (h : History)
      → IsBusy (inb_value dev (port + line_sts_reg) h)
      → backlog (got (u16 (port + line_sts_reg)) (inb_value dev (port + line_sts_reg) h) ∷ h)
        < backlog h

-- From `h` to `h'` the driver polls the line status register until it says idle, and no longer.
pub data Waits (port : ℕ) : History → History → Type 0 where
  idle : {h : History} (v : ℕ) → IsIdle v → Waits port h (got (u16 (port + line_sts_reg)) v ∷ h)
  busy :
      {h h' : History} (v : ℕ)
      → IsBusy v
      → Waits port (got (u16 (port + line_sts_reg)) v ∷ h) h'
      → Waits port h h'

-- From `h` to `h'` the driver writes the bytes of a text in order, each after such a wait, and
-- does nothing else.
pub data Sends (port : ℕ) : List ℕ → History → History → Type 0 where
  nothing : {h : History} → Sends port [] h h
  send :
      {c : ℕ} {cs : List ℕ} {h h' h'' : History}
      → Waits port h h'
      → Sends port cs (wrote (u16 (port + data_reg)) c ∷ h') h''
      → Sends port (c ∷ cs) h h''

module _ (dev : Device) {port depth : ℕ} (drains : Drains dev port depth) where
  abbrev Waited : Serial → Unit {0} → Serial → Type 0
  Waited s _ s' = (s'.ctx ≡ s.ctx) × Waits port s.history s'.history

  wait_tx-Waits :
      (fuel : ℕ) (s : Serial)
      → drains.backlog s.history < fuel
      → Returns (Waited s) (wait_tx dev fuel port s)
  unfolding wait_tx is_tx_empty
  wait_tx-Waits zero s h = absurd (omega arith)
  wait_tx-Waits (suc fuel) s h =
      let v = inb_value dev (port + line_sts_reg) s.history in
      elim (Bool-cases (bit_and v tx_empty == 0)) [
        | inl full ↦ rw full (
            Returns-mono
              (wait_tx-Waits fuel
                (record s { history = got (u16 (port + line_sts_reg)) v ∷ s.history })
                (omega (arith, drains.shrinks s.history full)))
              λ _ s' (kept, w). (kept, busy v full w))
        | inr free ↦ rw free (returns (refl, idle v free))
      ]

  -- One character: a wait, then the write.
  abbrev Put : Serial → ℕ → Unit {0} → Serial → Type 0
  Put s c _ s' =
      (s'.ctx ≡ s.ctx)
      × (h : History) × Waits port s.history h
      × (s'.history ≡ wrote (u16 (port + data_reg)) (u8 c) ∷ h)

  serial_putc-Put :
      (fuel : ℕ) (c : ℕ) (s : Serial)
      → depth ≤ fuel
      → Returns (Put s c) (serial_putc dev fuel port c s)
  unfolding serial_putc
  serial_putc-Put fuel c s h =
      Returns-bind (wait_tx-Waits fuel s (omega (arith, drains.bounded s.history)))
        λ _ s' (kept, w). returns (kept, s'.history, w, refl)

  abbrev Sent : Serial → List ℕ → Unit {0} → Serial → Type 0
  Sent s cs _ s' = (s'.ctx ≡ s.ctx) × Sends port cs s.history s'.history

  print_loop-Sends :
      (fuel : ℕ) (text : List ℕ) (s : Serial)
      → depth ≤ fuel
      → IsBytes text
      → Returns (Sent s (until_nul text)) (print_loop dev fuel port text s)
  unfolding print_loop
  print_loop-Sends fuel [] s h t = returns (refl, nothing)
  print_loop-Sends fuel (c ∷ cs) s h (small, t) =
      let byte : u8 c ≡ c = omega arith in
      elim (Bool-cases (c == 0)) [
        | inl nul ↦ rw nul (returns (refl, nothing))
        | inr more ↦ rw more (
            Returns-bind (serial_putc-Put fuel c s h) λ _ s' (kept, h', w, e).
              Returns-mono (print_loop-Sends fuel cs s' h t)
                λ _ s'' (kept', sends). (kept' ∙ kept, send w (rw (e, byte) at sends)))
      ]

  -- On a port that `serial_init` has set up and whose transmitter drains, `serial_print` returns 0
  -- and has sent exactly the text before its first NUL, each byte right after a poll that found the transmitter idle;
  -- `depth` polls of fuel for each byte are enough.
  pub serial_print-Sends :
      (fuel id : ℕ) (text : List ℕ) (s : Serial)
      → depth ≤ fuel
      → IsBytes text
      → id < serial_cnt
      → 0 < port
      → (ctx_at s id).port ≡ port
      → Returns
          (λ status s'.
            (status ≡ 0) × (s'.ctx ≡ s.ctx) × Sends port (until_nul text) s.history s'.history)
          (serial_print dev fuel id text s)
  unfolding serial_print
  serial_print-Sends fuel id text s h t known pos here =
      let valid : leb serial_cnt id ≡ false = ground arith in
      let ready : (port == 0) ≡ false = ground arith in
      rw (valid, here, ready)
        (Returns-bind (print_loop-Sends fuel text s h t)
          λ _ s' (kept, sends). returns (refl, kept, sends))

-- On a port number that does not exist or that was never set up, `serial_print` returns `EINVAL` or
-- `EPERM`, and neither touches the hardware nor changes the driver's state.
pub serial_print_refused :
    (dev : Device) (fuel id : ℕ) (text : List ℕ) (s : Serial)
    → (serial_cnt ≤ id) ⊎ ((ctx_at s id).port ≡ 0)
    → serial_print dev fuel id text s ≡ some (if leb serial_cnt id then einval else eperm, s)
unfolding serial_print
serial_print_refused dev fuel id text s h = ground arith
