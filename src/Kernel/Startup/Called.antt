-- ===== src/Kernel/Startup/Called.antt =====
-- What `main` finds.
use ziemniak.Base.{
  ℕ, zero, suc, ◌+◌, ◌-◌, ◌*◌, ◌/◌, ◌%◌, ◌^◌, ◌<◌, ◌≤◌, ◌≡◌, ◌≢◌, refl, ◌∙◌, arith, ◌⊎◌, ◌==◌, ◌&&◌,
  ltb, leb, if◌then◌else◌, u64, u32, bit_or, bit_and, sub64,
}
use ziemniak.Base.Bits.{bit_or_shift, bit_or_two, bit_or_three, bit_and_but_two}
use ziemniak.Cpu.{rax, rdi, rbp, Cpu, stored, below, pushed}
use ziemniak.Cpu.Pushed.{below_lem}
use ziemniak.Kernel.Startup.{
  Symbols, Startup, stosq_loop, clear_bss, init_sse, gdt_tss, tss_bases, init_gdt, call_main,
  kernel_start,
}

stosq_loop_lem :
    (left addr v : ℕ) (mem : ℕ → ℕ) (p : ℕ)
    → addr + 8 * left < 2 ^ 64
    → stosq_loop left addr v mem p
      ≡ (if leb addr p && ltb p (addr + 8 * left) && (p - addr) % 8 == 0 then v else mem p)
unfolding stosq_loop
stosq_loop_lem zero addr v mem p h = ground arith
stosq_loop_lem (suc left) addr v mem p h =
    let next : u64 (addr + 8) ≡ addr + 8 = omega arith in
    rw next (ground (arith, stosq_loop_lem left (addr + 8) v (stored addr v mem) p (omega arith)))

-- The base address in a descriptor of a task state segment.
abbrev pub tss_base : (ℕ → ℕ) → ℕ
tss_base b =
    b 2
    + b 3 * 2 ^ 8
    + b 4 * 2 ^ 16
    + b 7 * 2 ^ 24
    + (b 8 + b 9 * 2 ^ 8 + b 10 * 2 ^ 16 + b 11 * 2 ^ 24) * 2 ^ 32

tss_bases_lem :
    (tss : ℕ) → 0xFFFFFFFF00000000 ≤ tss → tss < 2 ^ 64 → tss_base (tss_bases tss gdt_tss) ≡ tss
unfolding tss_bases gdt_tss
tss_bases_lem tss h top = omega arith

-- Bits 1 and 2 of CR0 and bits 9 and 10 of CR4.
cr0_lem : (x : ℕ) → bit_or (bit_and (u32 x) 0xFFFFFFFB) 2 ≡ x % 2 + 2 + x / 8 % 2 ^ 29 * 8
cr0_lem x = omega (arith, bit_or_two (bit_and (u32 x) 0xFFFFFFFB), bit_and_but_two (u32 x))

cr4_lem : (x : ℕ) → bit_or x (3 * 2 ^ 9) ≡ x % 2 ^ 9 + 3 * 2 ^ 9 + x / 2 ^ 11 * 2 ^ 11
cr4_lem x = omega (arith, bit_or_shift 9 x 3, bit_or_three (x / 2 ^ 9))

-- Where the linker and the boot loader have put things: 64-bit addresses, a section of whole words
-- for zeroes, the kernel in the top 4 GiB, and the stack not in that section.
pub record IsPlaced (sym : Symbols) (c : Cpu) : Type 0 where
  pub words : (sym.sbss % 8 ≡ 0) × (sym.ebss % 8 ≡ 0)
  pub ordered : (sym.sbss ≤ sym.ebss) × (sym.ebss < 2 ^ 64)
  pub top : (0xFFFFFFFF00000000 ≤ sym.tss) × (sym.tss < 2 ^ 64)
  pub room : (8 ≤ c.stack.rsp) × (c.stack.rsp < 2 ^ 64)
  pub apart : (c.stack.rsp ≤ sym.sbss) ⊎ (sym.ebss + 8 ≤ c.stack.rsp)

-- The state at the call of `main`.
pub record IsCalled (sym : Symbols) (c : Cpu) (s : Startup) : Type 0 where
  pub argument : s.cpu.regs rdi ≡ c.regs rax
  pub stack : s.cpu.stack.rsp ≡ c.stack.rsp
  pub frame : s.cpu.regs rbp ≡ c.stack.rsp
  pub zeroed : (p : ℕ) → sym.sbss ≤ p → p < sym.ebss → p % 8 ≡ 0 → s.cpu.stack.mem p ≡ 0
  pub others :
      (p : ℕ)
      → (p < sym.sbss) ⊎ (sym.ebss ≤ p)
      → p ≢ c.stack.rsp - 8
      → s.cpu.stack.mem p ≡ c.stack.mem p
  pub cr0 : s.cpu.cr0 ≡ c.cr0 % 2 + 2 + c.cr0 / 8 % 2 ^ 29 * 8
  pub cr4 : s.cpu.cr4 ≡ c.cr4 % 2 ^ 9 + 3 * 2 ^ 9 + c.cr4 / 2 ^ 11 * 2 ^ 11
  pub segment : tss_base s.descriptor ≡ sym.tss

module _ (sym : Symbols) (c : Cpu) (is : IsPlaced sym c) where
  pushed_word : ℕ → ℕ
  pushed_word = stored (c.stack.rsp - 8) (c.regs rax) c.stack.mem

  memory-at :
      (p : ℕ)
      → stosq_loop
          (sub64 sym.ebss sym.sbss / 2 ^ 3)
          sym.sbss
          0
          (stored (below c.stack.rsp) (c.regs rax) c.stack.mem)
          p
        ≡ (if leb sym.sbss p && ltb p sym.ebss && (p - sym.sbss) % 8 == 0 then 0 else pushed_word p)
  unfolding pushed_word
  memory-at p =
      let low = below_lem c.stack.rsp is.room.0 is.room.1 in
      let size : sym.sbss + 8 * (sub64 sym.ebss sym.sbss / 2 ^ 3) ≡ sym.ebss =
        omega (arith, is.words, is.ordered) in
      rw low (
        stosq_loop_lem (sub64 sym.ebss sym.sbss / 2 ^ 3) sym.sbss 0 pushed_word p
          (omega (arith, is.ordered, size))
        ∙ rw size refl)

  -- From the jump into `_start` to the call of `main`, with the sections and the stack where
  -- `IsPlaced` says: `main` gets as its argument what the boot loader left in `rax`, and finds the
  -- stack pointer of the boot loader; every word of the section for zeroes is 0, and of the rest of
  -- the memory at most the word below the stack pointer has changed; CR0 has MP set and EM clear, CR4
  -- has bits 9 and 10 set, and other bits of CR4 and of the low half of CR0 are kept; and the
  -- descriptor of the task state segment has the address of `tss`.
  pub kernel_start-IsCalled : IsCalled sym c (kernel_start sym c)
  unfolding kernel_start clear_bss init_sse init_gdt call_main pushed pushed_word
  kernel_start-IsCalled =
      let low = below_lem c.stack.rsp is.room.0 is.room.1 in
      record {
        argument = memory-at (below c.stack.rsp) ∙ rw low (ground (arith, is.apart, is.room));
        stack = omega (arith, is.room);
        frame = omega (arith, is.room);
        zeroed = λ p from to whole. memory-at p ∙ ground (arith, is.words);
        others = λ p out other. memory-at p ∙ ground arith;
        cr0 = cr0_lem c.cr0;
        cr4 = cr4_lem c.cr4;
        segment = tss_bases_lem sym.tss is.top.0 is.top.1;
      }
