-- ===== src/Kernel/Startup.antt =====
-- The entry of the kernel in assembly, kernel/src/init/init.asm, up to the call of `main`.
pub mod Called
use ziemniak.Base.{
  ℕ, zero, suc, ◌+◌, ◌-◌, ◌*◌, ◌/◌, ◌%◌, ◌^◌, bit_and, bit_or, ◌==◌, if◌then◌else◌, u8, u16, u32,
  u64, sub64, ◌>>>◌, ◌<<<◌, List, [], ◌∷◌, get_or,
}
use ziemniak.Cpu.{
  Reg, rax, rbx, rcx, rdx, rsi, rdi, rbp, r8, r9, r10, r11, r12, r13, r14, r15, Stack, Cpu, mov_rax,
  mov_rdi, with_rdi, push, stored,
}

-- The symbols of the linker script, and the address of the label `tss`.
pub record Symbols : Type 0 where
  pub sbss : ℕ
  pub ebss : ℕ
  pub tss : ℕ

-- The processor, and the bytes of the descriptor `gdt_tss`.
pub record Startup : Type 0 where
  pub cpu : Cpu
  pub descriptor : ℕ → ℕ

abbrev pub with_rcx : ℕ → (Reg → ℕ) → Reg → ℕ
with_rcx v regs Reg.rcx = v
with_rcx v regs r = regs r

abbrev pub with_rbp : ℕ → (Reg → ℕ) → Reg → ℕ
with_rbp v regs Reg.rbp = v
with_rbp v regs r = regs r

-- `rep stosq` with the direction flag clear: `left` is the counter, `addr` the destination.
unfoldable pub stosq_loop : (left addr val : ℕ) → (ℕ → ℕ) → ℕ → ℕ
stosq_loop zero addr val mem = mem
stosq_loop (suc left) addr val mem = stosq_loop left (u64 (addr + 8)) val (stored addr val mem)

unfoldable pub clear_bss : Symbols → Cpu → Cpu
clear_bss sym c =
    let count = sub64 sym.ebss sym.sbss >>> 3 in
    let c = mov_rax 0 c in
    let c = mov_rdi (u64 (sym.sbss + 8 * count)) c in
    record c {
      regs = with_rcx 0 c.regs;
      stack = record c.stack { mem = stosq_loop count sym.sbss 0 c.stack.mem };
    }

unfoldable pub init_sse : Cpu → Cpu
init_sse c =
    let cr0 = bit_or (bit_and (u32 c.cr0) 0xFFFFFFFB) 0x02 in
    let cr4 = bit_or c.cr4 (3 * 2 ^ 9) in record (mov_rax cr4 c) { cr0 = cr0; cr4 = cr4 }

-- The bytes from `gdt_tss` on, as assembled.
unfoldable pub gdt_tss : ℕ → ℕ
gdt_tss = λ p.
    get_or
      (0x68 ∷ 0 ∷ 0 ∷ 0 ∷ 0x00 ∷ 0x89 ∷ 0x00 ∷ 0x11 ∷ 0xFF ∷ 0xFF ∷ 0xFF ∷ 0xFF ∷ 0 ∷ 0 ∷ 0 ∷ 0
        ∷ [])
      p 0

-- `basel` is at byte 2 of the descriptor, `baseh` at byte 4.
unfoldable pub tss_bases : (tss : ℕ) → (ℕ → ℕ) → ℕ → ℕ
tss_bases tss bytes p =
    let ax = u16 tss in
    if p == 2
    then u8 ax
    else if p == 3
    then u8 (ax >>> 8)
    else if p == 4
    then u8 (tss >>> 16)
    else if p == 7
    then u8 (tss >>> 16 >>> 8)
    else bytes p

unfoldable pub init_gdt : Symbols → Startup → Startup
init_gdt sym s = record s {
  cpu = record (mov_rax (sym.tss >>> 40 <<< 16 + 0x10) s.cpu) { ss = 0x10 };
  descriptor = tss_bases sym.tss s.descriptor;
}

-- `pop rdi` and `mov rbp, rsp`
unfoldable pub call_main : Cpu → Cpu
call_main c =
    let rsp = u64 (c.stack.rsp + 8) in
    record c {
      regs = with_rbp rsp (with_rdi (c.stack.mem c.stack.rsp) c.regs);
      stack = record c.stack { rsp = rsp };
    }

-- From the jump of the boot loader to the call of `main`.
unfoldable pub kernel_start : Symbols → Cpu → Startup
kernel_start sym c =
    let c = push (c.regs rax) c in
    let c = clear_bss sym c in
    let c = init_sse c in
    let s = init_gdt sym (record { cpu = c; descriptor = gdt_tss }) in
    record s { cpu = call_main s.cpu }
