-- ===== src/Kernel/Interrupts/Gates.antt =====
-- `interrupts_init`: the gate that each vector finds, and the controllers that raise them.
use ziemniak.Base.{
  ℕ, zero, suc, ◌+◌, ◌*◌, ◌/◌, ◌^◌, ◌<◌, ◌≤◌, ◌≡◌, refl, arith, ◌∷◌, some, ltb, leb, ◌&&◌,
  if◌then◌else◌,
}
use ziemniak.Base.Bits.{bit_and_low}
use ziemniak.Machine.{History, enabled, loaded_idt, idtr}
use ziemniak.Pic.{Pics, pics, IsRemapped, vector, vector-remapped}
use ziemniak.Kernel.Interrupts.{
  IdtEntry, Interrupts, gen_entry, set_entry, gate_loop, remap_pic, interrupts_init,
}

-- What the processor reads of a 64-bit gate: the handler's address, and a present gate of privilege
-- 0 for the code segment 8 and the stack in use.
abbrev pub target : IdtEntry → ℕ
target e = e.isr_l + e.isr_m * 2 ^ 16 + e.isr_h * 2 ^ 32

pub record IsGate (kind isr : ℕ) (e : IdtEntry) : Type 0 where
  pub handler : target e ≡ isr
  pub attr : e.attr ≡ 0x80 + kind
  pub segment : e.cs ≡ 8
  pub stack : e.ist ≡ 0
  pub reserved : e.rsrvd ≡ 0

gen_entry-IsGate :
    (isr kind : ℕ) → isr < 2 ^ 64 → kind < 16 → IsGate kind isr (gen_entry isr (0x80 + kind))
unfolding gen_entry
gen_entry-IsGate isr kind h k =
    rw (bit_and_low 16 isr, bit_and_low 16 (isr / 2 ^ 16), bit_and_low 32 (isr / 2 ^ 32))
      (omega arith)

gate_loop_lem :
    (isr_tab : ℕ → ℕ) (left i attr : ℕ) (idt : ℕ → IdtEntry) (j : ℕ)
    → gate_loop isr_tab left i attr idt j
      ≡ (if leb i j && ltb j (i + left) then gen_entry (isr_tab j) attr else idt j)
unfolding gate_loop
gate_loop_lem isr_tab zero i attr idt j = ground arith
gate_loop_lem isr_tab (suc left) i attr idt j = ground (
  arith,
  gate_loop_lem isr_tab left (i + 1) attr (set_entry idt i (gen_entry (isr_tab i) attr)) j,
)

remap_pic-IsRemapped : (start : Pics) (h : History) → IsRemapped (pics start (remap_pic h))
unfolding remap_pic pics
remap_pic-IsRemapped start h = record { master = refl; slave = refl }

idtr-remap_pic : (h : History) → idtr (remap_pic h) ≡ idtr h
unfolding remap_pic
idtr-remap_pic h = refl

-- Interrupts can arrive, and each vector finds its wrapper: exceptions through trap gates, the
-- lines of the controllers through gates that disable interrupts.
pub record IsReady (isr_tab : ℕ → ℕ) (idt_addr : ℕ) (start : Pics) (s : Interrupts) : Type 0 where
  pub before : History
  pub enabled_last : s.history ≡ enabled ∷ before
  pub controllers : IsRemapped (pics start before)
  pub table : idtr before ≡ some (idt_addr, 767)
  pub exceptions : (v : ℕ) → v < 32 → IsGate 0x0F (isr_tab v) (s.idt v)
  pub lines :
      (irq : ℕ)
      → irq < 16
      → IsGate 0x0E (isr_tab (32 + irq)) (s.idt (vector (pics start before) irq))

module _ (isr_tab : ℕ → ℕ) (small : (i : ℕ) → isr_tab i < 2 ^ 64) where
  gates : (ℕ → IdtEntry) → ℕ → IdtEntry
  gates idt = gate_loop isr_tab 16 32 0x8E (gate_loop isr_tab 32 0 0x8F idt)

  gates-exception : (idt : ℕ → IdtEntry) (v : ℕ) → v < 32 → IsGate 0x0F (isr_tab v) (gates idt v)
  unfolding gates
  gates-exception idt v h =
      let same : gates idt v ≡ gen_entry (isr_tab v) 0x8F = ground (
        arith,
        gate_loop_lem isr_tab 16 32 0x8E (gate_loop isr_tab 32 0 0x8F idt) v,
        gate_loop_lem isr_tab 32 0 0x8F idt v,
      ) in
      rw same (gen_entry-IsGate (isr_tab v) 0x0F (small v) (omega arith))

  gates-line :
      (idt : ℕ → IdtEntry) (v : ℕ) → 32 ≤ v → v < 48 → IsGate 0x0E (isr_tab v) (gates idt v)
  unfolding gates
  gates-line idt v l h =
      let same : gates idt v ≡ gen_entry (isr_tab v) 0x8E =
        ground (arith, gate_loop_lem isr_tab 16 32 0x8E (gate_loop isr_tab 32 0 0x8F idt) v) in
      rw same (gen_entry-IsGate (isr_tab v) 0x0E (small v) (omega arith))

  -- Whatever state the firmware left the interrupt controllers and the table in, `interrupts_init`
  -- returns 0 with interrupts enabled last, after the table of 48 gates is loaded and both
  -- controllers are remapped; exception `v` then finds the trap gate of its wrapper, and interrupt
  -- line `irq`, at the vector that the controllers raise for it, the interrupt gate of its own.
  pub interrupts_init-IsReady :
      (idt_addr : ℕ) (start : Pics) (s : Interrupts)
      → ((interrupts_init isr_tab idt_addr s).0 ≡ 0)
        × IsReady isr_tab idt_addr start (interrupts_init isr_tab idt_addr s).1
  unfolding interrupts_init gates
  interrupts_init-IsReady idt_addr start s =
      let before = remap_pic (loaded_idt idt_addr 767 ∷ s.history) in
      let remapped = remap_pic-IsRemapped start (loaded_idt idt_addr 767 ∷ s.history) in
      (
        refl,
        record {
          before = before;
          enabled_last = refl;
          controllers = remapped;
          table = idtr-remap_pic (loaded_idt idt_addr 767 ∷ s.history);
          exceptions = gates-exception s.idt;
          lines = λ irq h.
              rw (vector-remapped (pics start before) irq remapped h)
                (gates-line s.idt (32 + irq) (omega arith) (omega arith));
        },
      )
