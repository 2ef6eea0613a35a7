-- ===== src/Stage2/Interrupts/Vectors.antt =====
-- `init_idt`: the gate that each vector finds.
use ziemniak.Base.{
  ℕ, zero, suc, ◌+◌, ◌*◌, ◌/◌, ◌%◌, ◌^◌, ◌<◌, ◌≡◌, refl, arith, ◌∷◌, some, bit_and, ltb, leb,
  lt→ltb, le→ltb, ◌==◌, ◌&&◌, if◌then◌else◌, u8, u16, u32,
}
use native.Mathlib.Decide.{dec_lt}
use ziemniak.Base.Bits.{bit_and_low}
use ziemniak.Machine.{History, enabled, loaded_idt, idtr}
use ziemniak.Cpu.{pushes_error}
use ziemniak.Pic.{Pics, pics, IsRemapped, vector, vector-remapped}
use ziemniak.Stage2.Interrupts.{
  IdtEntry, Idt, Handler, exception, exception_err, irq_low, irq_high, irq_disk1, irq_disk2,
  Interrupts, gen_entry, irq, irq_loop, exceptions, fill_idt, remap_pic, init_idt, trap_gate,
  irq_gate,
}

-- The handler that a vector needs: one that pops the error code where there is one, one that ends
-- the interrupt at the controllers that raised it, and one that records a disc's interrupt.
unfoldable pub wanted : ℕ → Handler
wanted v =
    if ltb v 32
    then (if pushes_error v then exception_err else exception)
    else if ltb v 40
    then irq_low
    else if ltb v 46
    then irq_high
    else if v == 46
    then irq_disk1
    else irq_disk2

gate : (offset attr : ℕ) → IdtEntry
gate offset attr = record {
  offset_low = u16 (bit_and (u32 offset) 0xFFFF);
  sel = 0x08;
  zero_byte = 0x00;
  attr = u8 attr;
  offset_high = u16 (bit_and (u32 offset / 2 ^ 16) 0xFFFF);
}

gen_entry_lem :
    (id offset attr : ℕ) (idt : Idt) (v : ℕ)
    → gen_entry id 0x08 offset attr idt v ≡ (if v == id then gate offset attr else idt v)
unfolding gen_entry gate
gen_entry_lem id offset attr idt v = refl

abbrev Every : ℕ → (ℕ → Type 0) → Type 0
Every zero P = Unit
Every (suc n) P = P n × Every n P

Every_get : (n : ℕ) (P : ℕ → Type 0) (v : ℕ) → Every n P → v < n → P v
Every_get zero P v e h = absurd (omega arith)
Every_get (suc n) P v e h = elim (dec_lt v n) [
  | yes below ↦ Every_get n P v e.1 below
  | no last ↦ let top : v ≡ n = omega arith in rw top e.0
]

module _ (place : Handler → ℕ) where
  abbrev Sound : Idt → ℕ → Type 0
  Sound idt v = exceptions place idt v ≡ gate (place (wanted v)) trap_gate

  exceptions_table : (idt : Idt) → Every 32 (Sound idt)
  unfolding exceptions gen_entry gate wanted
  exceptions_table idt = assumption (refl)

  irq_loop_lem :
      (left entry : ℕ) (h : Handler) (idt : Idt) (v : ℕ)
      → irq_loop place left entry h idt v
        ≡ (if leb entry v && ltb v (entry + left) then gate (place h) irq_gate else idt v)
  unfolding irq_loop
  irq_loop_lem zero entry h idt v = ground arith
  irq_loop_lem (suc left) entry h idt v = ground (
    arith,
    irq_loop_lem left (entry + 1) h (irq place entry h idt) v,
    gen_entry_lem entry (place h) irq_gate idt v,
  )

  abbrev kind : ℕ → ℕ
  kind v = if ltb v 32 then trap_gate else irq_gate

  fill_idt-gate :
      (idt : Idt) (v : ℕ) → v < 48 → fill_idt place idt v ≡ gate (place (wanted v)) (kind v)
  unfolding fill_idt
  fill_idt-gate idt v h =
      let low_lines = irq_loop place 8 32 irq_low (exceptions place idt) in
      let all_lines = irq_loop place 6 40 irq_high low_lines in
      elim (dec_lt v 32) [
        | yes low ↦ ground (
          arith,
          gen_entry_lem 47 (place irq_disk2) irq_gate (irq place 46 irq_disk1 all_lines) v,
          gen_entry_lem 46 (place irq_disk1) irq_gate all_lines v,
          irq_loop_lem 6 40 irq_high low_lines v,
          irq_loop_lem 8 32 irq_low (exceptions place idt) v,
          Every_get 32 (Sound idt) v (exceptions_table idt) low,
        )
        | no high ↦
            unfold wanted in
            ground (
              arith,
              gen_entry_lem 47 (place irq_disk2) irq_gate (irq place 46 irq_disk1 all_lines) v,
              gen_entry_lem 46 (place irq_disk1) irq_gate all_lines v,
              irq_loop_lem 6 40 irq_high low_lines v,
              irq_loop_lem 8 32 irq_low (exceptions place idt) v,
            )
      ]

-- What the processor reads of a 32-bit gate.
abbrev pub target : IdtEntry → ℕ
target e = e.offset_low + e.offset_high * 2 ^ 16

pub record IsGate (attr handler : ℕ) (e : IdtEntry) : Type 0 where
  pub offset : target e ≡ handler
  pub kind : e.attr ≡ attr
  pub segment : e.sel ≡ 8
  pub reserved : e.zero_byte ≡ 0

gate-IsGate :
    (offset attr : ℕ) → offset < 2 ^ 32 → attr < 256 → IsGate attr offset (gate offset attr)
unfolding gate
gate-IsGate offset attr h k =
    let whole : offset % 2 ^ 32 ≡ offset = omega arith in
    rw (whole, bit_and_low 16 offset, bit_and_low 16 (offset / 2 ^ 16)) (omega arith)

-- Interrupts can arrive: each exception finds a trap gate, each interrupt line an interrupt gate,
-- for the handler that it needs.
pub record IsReady (place : Handler → ℕ) (idt_addr : ℕ) (start : Pics) (s s' : Interrupts)
    : Type 0 where
  pub before : History
  pub enabled_last : s'.history ≡ enabled ∷ before
  pub controllers : IsRemapped (pics start before)
  pub table : idtr before ≡ some (idt_addr, 383)
  pub exceptions : (v : ℕ) → v < 32 → IsGate 0x8F (place (wanted v)) (s'.idt v)
  pub lines :
      (irq : ℕ)
      → irq < 16
      → IsGate 0x8E (place (wanted (32 + irq))) (s'.idt (vector (pics start before) irq))
  pub flag : s'.data_ready ≡ s.data_ready

remap_pic-IsRemapped :
    (start : Pics) (h : History)
    → IsRemapped (pics start (remap_pic h)) × (idtr (remap_pic h) ≡ idtr h)
unfolding remap_pic pics
remap_pic-IsRemapped start h = (record { master = refl; slave = refl }, refl)

-- Whatever state the firmware left the controllers and the table in, after `init_idt` interrupts
-- are enabled last, with the table of 48 gates loaded and both controllers remapped; every vector
-- finds a gate for the handler that it needs: exceptions with an error code one that pops it, the
-- lines of the slave one that ends the interrupt there too, the disc lines those that record it.
pub init_idt-IsReady :
    (place : Handler → ℕ) (idt_addr : ℕ) (start : Pics) (s : Interrupts)
    → ((h : Handler) → place h < 2 ^ 32)
    → IsReady place idt_addr start s (init_idt place idt_addr s)
unfolding init_idt
init_idt-IsReady place idt_addr start s small =
    let loaded = loaded_idt idt_addr 383 ∷ s.history in
    let (remapped, table) = remap_pic-IsRemapped start loaded in
    record {
      before = remap_pic loaded;
      enabled_last = refl;
      controllers = remapped;
      table = table;
      exceptions = λ v h.
          rw (fill_idt-gate place s.idt v (omega arith), lt→ltb v 32 h)
            (gate-IsGate (place (wanted v)) 0x8F (small (wanted v)) (omega arith));
      lines = λ irq h.
          rw
            (
              vector-remapped (pics start (remap_pic loaded)) irq remapped h,
              fill_idt-gate place s.idt (32 + irq) (omega arith),
              le→ltb (32 + irq) 32 (omega arith),
            )
            (gate-IsGate (place (wanted (32 + irq))) 0x8E (small (wanted (32 + irq)))
              (omega arith));
      flag = refl;
    }
