-- ===== src/Kernel/Interrupts/Raised/Ends.antt =====
-- What an interrupt after `interrupts_init` does.
use ziemniak.Base.{
  ℕ, zero, suc, ◌+◌, ◌%◌, ◌<◌, ◌≤◌, ◌≡◌, ◌≢◌, refl, ap, ◌∙◌, arith, List, [], ◌∷◌, true, Option,
  none, some, ◌==◌, if◌then◌else◌, get_or, Returns, returns, Returns-bind, u32,
}
use ziemniak.Machine.{Device}
use ziemniak.Pic.{Pics, pics, vector, vector-remapped}
use ziemniak.Cpu.{Cpu, pushes_error, error_pushed}
use ziemniak.Cpu.Taken.{HasRoom}
use ziemniak.Kernel.Serial.Print.{Drains, Sends}
use ziemniak.Kernel.Debug.{Debug}
use ziemniak.Kernel.Debug.Output.{IsReady}
use ziemniak.Kernel.Debug.Crash.{report, debug_crash-Prints}
use ziemniak.Kernel.Interrupts.{IdtEntry, Interrupts, exception_handler}
use ziemniak.Kernel.Interrupts.Gates
use ziemniak.Kernel.Interrupts.Gates.{IsGate, target, interrupts_init-IsReady}
use ziemniak.Kernel.Interrupts.Wrappers.{
  Wrapper, exc_wrapper, isr_wrapper_pic, isr_tab, call_handler,
}
use ziemniak.Kernel.Interrupts.Wrappers.Dump.{dump_data, exc_wrapped-Calls}
use ziemniak.Kernel.Interrupts.Wrappers.Resume.{
  Keeps, Resumes, EndsLine, isr_wrapped-Resumes, isr_wrapped-EndsLine,
}
use ziemniak.Kernel.Interrupts.Raised.{
  is_interrupt_gate, halted, resumed, run_wrapper, raised, isr_addresses,
}

-- The wrapper that entry `i` of the table points to.
abbrev pub wrapper_at : ℕ → Option Wrapper
wrapper_at i = some (get_or isr_tab i (exc_wrapper 0))

-- The table is the exceptions, then the lines.
counted : (ℕ → Wrapper) → (left i : ℕ) → List Wrapper → List Wrapper
counted f zero i rest = rest
counted f (suc left) i rest = f i ∷ counted f left (suc i) rest

get-counted :
    (f : ℕ → Wrapper) (left i k : ℕ) (rest : List Wrapper) (w : Wrapper)
    → k < left
    → get_or (counted f left i rest) k w ≡ f (i + k)
unfolding counted
get-counted f zero i k rest w h = absurd (omega arith)
get-counted f (suc left) i zero rest w h = ap f (omega arith)
get-counted f (suc left) i (suc k) rest w h =
    get-counted f left (suc i) k rest w (omega arith) ∙ ap f (omega arith)

get-counted_rest :
    (f : ℕ → Wrapper) (left i k : ℕ) (rest : List Wrapper) (w : Wrapper)
    → get_or (counted f left i rest) (left + k) w ≡ get_or rest k w
unfolding counted
get-counted_rest f zero i k rest w = rw (the_sum) refl
  where
    the_sum : 0 + k ≡ k
    the_sum = omega arith
get-counted_rest f (suc left) i k rest w =
    let next : suc left + k ≡ suc (left + k) = omega arith in
    rw next (get-counted_rest f left (suc i) k rest w)

isr_tab_lem : isr_tab ≡ counted exc_wrapper 32 0 (counted isr_wrapper_pic 16 0 [])
unfolding isr_tab counted
isr_tab_lem = refl

module _ (w : Wrapper) where
  pub isr_tab-exc : (v : ℕ) → v < 32 → get_or isr_tab v w ≡ exc_wrapper v
  isr_tab-exc v h =
      ap (λ (t : List Wrapper). get_or t v w) isr_tab_lem
      ∙ get-counted exc_wrapper 32 0 v _ w h
      ∙ ap exc_wrapper (omega arith)

  pub isr_tab-pic : (irq : ℕ) → irq < 16 → get_or isr_tab (32 + irq) w ≡ isr_wrapper_pic irq
  isr_tab-pic irq h =
      ap (λ (t : List Wrapper). get_or t (32 + irq) w) isr_tab_lem
      ∙ get-counted_rest exc_wrapper 32 0 irq _ w
      ∙ get-counted isr_wrapper_pic 16 0 irq _ w h
      ∙ ap isr_wrapper_pic (omega arith)

module _ (dev : Device) (fuel : ℕ) (called : (irq : ℕ) → Cpu → Cpu) (address : Wrapper → ℕ)
    (fetched : ℕ → Option Wrapper)
    (placed : (i : ℕ) → i < 48 → fetched (isr_addresses address i) ≡ wrapper_at i) where
  found_exc :
      (kind v : ℕ) (e : IdtEntry)
      → v < 32
      → IsGate kind (isr_addresses address v) e
      → fetched (target e) ≡ some (exc_wrapper v)
  found_exc kind v e h gate =
      ap fetched gate.handler ∙ placed v (omega arith) ∙ ap some (isr_tab-exc (exc_wrapper 0) v h)

  found_pic :
      (kind irq : ℕ) (e : IdtEntry)
      → irq < 16
      → IsGate kind (isr_addresses address (32 + irq)) e
      → fetched (target e) ≡ some (isr_wrapper_pic irq)
  found_pic kind irq e h gate =
      ap fetched gate.handler
      ∙ placed (32 + irq) (omega arith)
      ∙ ap some (isr_tab-pic (exc_wrapper 0) irq h)

  module _ (idt_addr : ℕ) (start : Pics) (i : Interrupts)
      (ready : Gates.IsReady (isr_addresses address) idt_addr start i) where
    -- Once the interrupts are ready, with the wrappers where the table points and a first serial port
    -- whose transmitter drains, an exception `v` other than 21 and 29, at any state of the processor
    -- with room on the stack, is reported by its number with the registers and the error code of the
    -- interrupted program, and nothing else is sent, before the processor stops for good.
    pub raised-Reports :
        {port depth : ℕ}
        → Drains dev port depth
        → 0 < port
        → depth ≤ fuel
        → (v code : ℕ) (c : Cpu) (d : Debug) → v < 32
        → v ≢ 21
        → v ≢ 29
        → HasRoom c
        → IsReady port d
        → Returns
            (λ e d'.
              (e ≡ halted)
              × Sends port
                  (report v (dump_data c (if pushes_error v then code else 0)))
                  d.serial.history
                  d'.serial.history)
            (raised dev fuel called fetched i.idt v code c d)
    unfolding raised run_wrapper call_handler exception_handler
    raised-Reports drains pos enough v code c d small first second room set_up =
        let e = i.idt v in
        let found = found_exc 0x0F v e small (ready.exceptions v small) in
        let calls =
          exc_wrapped-Calls v (target e) e.cs (e.attr % 16 == 0x0E) code c room small first
            second in
        let number : u32 v ≡ v = omega arith in
        rw (found, calls.number, calls.dump, number)
          (Returns-bind
            (Returns-bind (debug_crash-Prints dev fuel drains pos enough v _ d set_up)
              λ _ d' (_, sent). returns sent)
            λ _ d' sent. returns (refl, sent))

    -- Once the interrupts are ready, with the wrappers where the table points and handlers compiled by
    -- the calling convention, interrupt line `irq`, at the vector that the controllers raise for it and
    -- at any state of the processor with room on the stack, is ended once at the master, and at the
    -- slave exactly for the lines 8 to 15; the interrupted program goes on at its instruction, with its
    -- flags, stack pointer and the stack from there up, `rax` and the registers that a function
    -- preserves.
    pub raised-Resumes :
        ((irq : ℕ) (c : Cpu) → Keeps c (called irq c))
        → (irq code : ℕ) (c : Cpu) (d : Debug) → irq < 16
        → HasRoom c
        → Returns
            (λ e d'.
              (c' : Cpu) × (e ≡ resumed c')
              × Resumes c c'
              × EndsLine (pics start d.serial.history) (pics start d'.serial.history) irq)
            (raised dev fuel called fetched i.idt (vector (pics start ready.before) irq) code c d)
    unfolding raised run_wrapper
    raised-Resumes keeps irq code c d small room =
        let vec = vector-remapped (pics start ready.before) irq ready.controllers small in
        let gate = rw vec at (ready.lines irq small) in
        let e = i.idt (32 + irq) in
        let found = found_pic 0x0E irq e small gate in
        let kind : is_interrupt_gate e ≡ true = ground (arith, gate.attr) in
        let no_code : error_pushed (32 + irq) code ≡ none = ground arith in
        rw (vec, found, kind, no_code)
          (returns (
            _,
            refl,
            isr_wrapped-Resumes called keeps (target e) e.cs irq c d.serial.history room,
            isr_wrapped-EndsLine called keeps start irq _ d.serial.history,
          ))
