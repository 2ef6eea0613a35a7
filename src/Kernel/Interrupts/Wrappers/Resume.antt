-- ===== src/Kernel/Interrupts/Wrappers/Resume.antt =====
-- What the wrappers of the interrupt lines leave: an ended interrupt and the interrupted program.
use ziemniak.Base.{
  ℕ, ◌+◌, ◌*◌, ◌/◌, ◌^◌, ◌≤◌, ◌≡◌, refl, ap, ◌∙◌, arith, ◌∷◌, Bool, Bool-cases, true, false, inl,
  inr, none, ltb, if◌then◌else◌, u8,
}
use ziemniak.Machine.{History}
use ziemniak.Pic.{Pics, pics}
use ziemniak.Cpu.{
  Reg, rax, rbx, rcx, rdx, rsi, rdi, rbp, r8, r9, r10, r11, r12, r13, r14, r15, Cpu, with_rax, push,
  taken, iretq,
}
use ziemniak.Cpu.Pushed.{
  IsStack, Holds, Holds_rest, Holds_tail, Holds_same, pushed-IsStack, pushed_above,
}
use ziemniak.Cpu.Taken.{HasRoom, top_of, returned, taken-IsStack, taken_above}
use ziemniak.Kernel.Interrupts.Wrappers.{mov_al, pop_rax, isr, isr_wrap, isr_wrap_h, isr_wrapped}

-- The registers that a function preserves by the calling convention.
abbrev pub is_preserved : Reg → Bool
is_preserved rbx = true
is_preserved rbp = true
is_preserved r12 = true
is_preserved r13 = true
is_preserved r14 = true
is_preserved r15 = true
is_preserved _ = false

-- What the calling convention promises of a call without stack arguments: preserved registers, the
-- stack pointer, and the stack from there up.
pub record Keeps (c d : Cpu) : Type 0 where
  pub regs : (r : Reg) → is_preserved r ≡ true → d.regs r ≡ c.regs r
  pub rsp : d.stack.rsp ≡ c.stack.rsp
  pub mem : (a : ℕ) → c.stack.rsp ≤ a → d.stack.mem a ≡ c.stack.mem a

-- The interrupted program goes on where it was, with its flags, its stack, and of its registers
-- `rax` and the preserved ones.
pub record Resumes (c d : Cpu) : Type 0 where
  pub rip : d.rip ≡ c.rip
  pub cs : d.cs ≡ c.cs
  pub rflags : d.rflags ≡ c.rflags
  pub rsp : d.stack.rsp ≡ c.stack.rsp
  pub ss : d.ss ≡ c.ss
  pub accumulator : d.regs rax ≡ c.regs rax
  pub regs : (r : Reg) → is_preserved r ≡ true → d.regs r ≡ c.regs r
  pub mem : (a : ℕ) → c.stack.rsp ≤ a → d.stack.mem a ≡ c.stack.mem a

-- The interrupt has been ended once at the master, and at the slave for its lines.
pub record EndsLine (before after : Pics) (irq : ℕ) : Type 0 where
  pub master : after.master ≡ record before.master { ended = before.master.ended + 1 }
  pub slave : after.slave ≡ record before.slave {
    ended = if ltb irq 8 then before.slave.ended else before.slave.ended + 1;
  }

with_rax_kept : (v : ℕ) (f : Reg → ℕ) (r : Reg) → is_preserved r ≡ true → with_rax v f r ≡ f r
with_rax_kept v f rax h = absurd (ground arith)
with_rax_kept v f rbx h = refl
with_rax_kept v f rcx h = refl
with_rax_kept v f rdx h = refl
with_rax_kept v f rsi h = refl
with_rax_kept v f rdi h = refl
with_rax_kept v f rbp h = refl
with_rax_kept v f r8 h = refl
with_rax_kept v f r9 h = refl
with_rax_kept v f r10 h = refl
with_rax_kept v f r11 h = refl
with_rax_kept v f r12 h = refl
with_rax_kept v f r13 h = refl
with_rax_kept v f r14 h = refl
with_rax_kept v f r15 h = refl

record Popped (c d : Cpu) : Type 0 where
  rip : d.rip ≡ c.rip
  cs : d.cs ≡ c.cs
  rflags : d.rflags ≡ c.rflags
  rsp : d.stack.rsp ≡ c.stack.rsp
  ss : d.ss ≡ c.ss

iretq-Popped : (c d : Cpu) → Holds d.stack.mem d.stack.rsp 0 (returned c) → Popped c (iretq d)
unfolding iretq Holds
iretq-Popped c d (rip, (cs, (rflags, (rsp, (ss, _))))) =
    let place : d.stack.rsp + 8 * 0 ≡ d.stack.rsp = omega arith in
    record { rip = rw place at rip; cs = cs; rflags = rflags; rsp = rsp; ss = ss }

-- From the call on: `d` is what it leaves, with `rax` and the frame of the interrupt on the stack.
last : Cpu → Cpu
last d = iretq (pop_rax (mov_al 0x20 d))

last-Popped :
    (c d : Cpu) → Holds d.stack.mem d.stack.rsp 0 (c.regs rax ∷ returned c) → Popped c (last d)
unfolding last
last-Popped c d held = iretq-Popped c (pop_rax (mov_al 0x20 d)) (
    Holds_rest d.stack.mem d.stack.rsp 0 (returned c)
      (Holds_tail d.stack.mem d.stack.rsp 0 _ _ held))

last-rax :
    (c d : Cpu)
    → Holds d.stack.mem d.stack.rsp 0 (c.regs rax ∷ returned c)
    → (last d).regs rax ≡ c.regs rax
unfolding last Holds iretq
last-rax c d (top, _) =
    let place : d.stack.rsp + 8 * 0 ≡ d.stack.rsp = omega arith in rw place at top

last-regs : (d : Cpu) (r : Reg) → is_preserved r ≡ true → (last d).regs r ≡ d.regs r
unfolding last iretq
last-regs d r h =
    let low = mov_al 0x20 d in
    with_rax_kept (low.stack.mem low.stack.rsp) low.regs r h
    ∙ with_rax_kept (d.regs rax / 2 ^ 8 * 2 ^ 8 + 0x20) d.regs r h

last-mem : (d : Cpu) → (last d).stack.mem ≡ d.stack.mem
unfolding last iretq
last-mem d = refl

module _ (called : (irq : ℕ) → Cpu → Cpu)
    (keeps : (irq : ℕ) (c : Cpu) → Keeps c (called irq c)) where
  -- The state after the call.
  after : (target segment irq : ℕ) → Cpu → Cpu
  after target segment irq c =
      let e = taken target segment true none c in called irq (push (e.regs rax) e)

  last-Resumes :
      (target segment irq : ℕ) (c : Cpu) → HasRoom c → Resumes c (last (after target segment irq c))
  unfolding after taken
  last-Resumes target segment irq c room =
      let e = taken target segment true none c in
      let p = push (e.regs rax) e in
      let d = called irq p in
      let kept = keeps irq p in
      let framed : IsStack 21 (top_of c) e.stack (returned c) =
        taken-IsStack target segment true none c room in
      let on_stack = pushed-IsStack 20 e.stack (c.regs rax) (returned c) framed in
      let held : Holds d.stack.mem d.stack.rsp 0 (c.regs rax ∷ returned c) =
        rw kept.rsp (Holds_same p.stack.mem d.stack.mem p.stack.rsp 0 _ kept.mem on_stack.words) in
      let popped = last-Popped c d held in
      record {
        rip = popped.rip;
        cs = popped.cs;
        rflags = popped.rflags;
        rsp = popped.rsp;
        ss = popped.ss;
        accumulator = last-rax c d held;
        regs = λ r h. last-regs d r h ∙ kept.regs r h;
        mem = λ a above.
            ap (λ (m : ℕ → ℕ). m a) (last-mem d)
            ∙ kept.mem a (omega (arith, on_stack.depth, room))
            ∙ pushed_above 20 e.stack _ a framed (omega (arith, framed.depth, room))
            ∙ taken_above target segment true c a room above;
      }

  low_byte : (d : Cpu) → u8 (u8 ((mov_al 0x20 d).regs rax)) ≡ 0x20
  low_byte d = omega arith

  isr_wrapped-last :
      (target segment irq : ℕ) (c : Cpu) (h : History)
      → (isr_wrapped called irq (taken target segment true none c) h).0
        ≡ last (after target segment irq c)
  unfolding isr_wrapped isr_wrap isr_wrap_h last after
  isr_wrapped-last target segment irq c h = elim (Bool-cases (ltb irq 8)) [
    | inl low ↦ rw low refl
    | inr high ↦ rw high refl
  ]

  pub isr_wrapped-Resumes :
      (target segment irq : ℕ) (c : Cpu) (h : History)
      → HasRoom c
      → Resumes c (isr_wrapped called irq (taken target segment true none c) h).0
  isr_wrapped-Resumes target segment irq c h room =
      rw (isr_wrapped-last target segment irq c h) (last-Resumes target segment irq c room)

  pub isr_wrapped-EndsLine :
      (start : Pics) (irq : ℕ) (c : Cpu) (h : History)
      → EndsLine (pics start h) (pics start (isr_wrapped called irq c h).1) irq
  unfolding isr_wrapped isr_wrap isr_wrap_h isr pics
  isr_wrapped-EndsLine start irq c h =
      let byte = low_byte (called irq (push (c.regs rax) c)) in
      elim (Bool-cases (ltb irq 8)) [
        | inl low ↦ rw (low, byte) (record { master = refl; slave = rw low refl })
        | inr high ↦ rw (high, byte) (record { master = refl; slave = rw high refl })
      ]
