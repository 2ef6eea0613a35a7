-- ===== src/Kernel/Interrupts/Wrappers.antt =====
-- The wrappers of the kernel's interrupt handlers, kernel/src/interrupts/wrapper_exc.asm and
-- wrapper_pic.asm, with the table of them and the empty handlers in interrupts.c.
pub mod Dump
pub mod Resume
use ziemniak.Base.{
  ℕ, ◌+◌, ◌*◌, ◌/◌, ◌^◌, List, [], ◌∷◌, Bool, ◌==◌, ◌&&◌, ◌||◌, leb, ltb, if◌then◌else◌, get_or,
  Cmd, u8,
}
use ziemniak.Machine.{History, Device, outb}
use ziemniak.Cpu.{
  Reg, rax, rbx, rcx, rdx, rsi, rdi, rbp, r8, r9, r10, r11, r12, r13, r14, r15, Cpu, mov_rax,
  mov_rdi, mov_rsi, push, pushes, iretq, words,
}
use ziemniak.Kernel.Debug.{Debug, DumpData}
use ziemniak.Kernel.Interrupts.{Stopped, exception_handler}

pub data Wrapper : Type 0 where
  exc_wrapper : ℕ → Wrapper
  isr_wrapper_pic : ℕ → Wrapper

unfoldable pub isr_tab : List Wrapper
isr_tab =
    exc_wrapper 0
    ∷ exc_wrapper 1
    ∷ exc_wrapper 2
    ∷ exc_wrapper 3
    ∷ exc_wrapper 4
    ∷ exc_wrapper 5
    ∷ exc_wrapper 6
    ∷ exc_wrapper 7
    ∷ exc_wrapper 8
    ∷ exc_wrapper 9
    ∷ exc_wrapper 10
    ∷ exc_wrapper 11
    ∷ exc_wrapper 12
    ∷ exc_wrapper 13
    ∷ exc_wrapper 14
    ∷ exc_wrapper 15
    ∷ exc_wrapper 16
    ∷ exc_wrapper 17
    ∷ exc_wrapper 18
    ∷ exc_wrapper 19
    ∷ exc_wrapper 20
    ∷ exc_wrapper 21
    ∷ exc_wrapper 22
    ∷ exc_wrapper 23
    ∷ exc_wrapper 24
    ∷ exc_wrapper 25
    ∷ exc_wrapper 26
    ∷ exc_wrapper 27
    ∷ exc_wrapper 28
    ∷ exc_wrapper 29
    ∷ exc_wrapper 30
    ∷ exc_wrapper 31
    ∷ isr_wrapper_pic 0
    ∷ isr_wrapper_pic 1
    ∷ isr_wrapper_pic 2
    ∷ isr_wrapper_pic 3
    ∷ isr_wrapper_pic 4
    ∷ isr_wrapper_pic 5
    ∷ isr_wrapper_pic 6
    ∷ isr_wrapper_pic 7
    ∷ isr_wrapper_pic 8
    ∷ isr_wrapper_pic 9
    ∷ isr_wrapper_pic 10
    ∷ isr_wrapper_pic 11
    ∷ isr_wrapper_pic 12
    ∷ isr_wrapper_pic 13
    ∷ isr_wrapper_pic 14
    ∷ isr_wrapper_pic 15
    ∷ []

abbrev pub pushaq : Cpu → Cpu
pushaq c =
    pushes
      (c.regs rax
        ∷ c.regs rbx
        ∷ c.regs rcx
        ∷ c.regs rdx
        ∷ c.regs rsi
        ∷ c.regs rdi
        ∷ c.regs rbp
        ∷ c.regs r8
        ∷ c.regs r9
        ∷ c.regs r10
        ∷ c.regs r11
        ∷ c.regs r12
        ∷ c.regs r13
        ∷ c.regs r14
        ∷ c.regs r15
        ∷ [])
      c

-- `mov rax, crN` and `push rax`
abbrev pub push_cr : ℕ → Cpu → Cpu
push_cr v c = push v (mov_rax v c)

-- The state at the call of `exception_handler`, for the two macros.
unfoldable pub exc_wrap_err : (number : ℕ) → Cpu → Cpu
exc_wrap_err number c =
    let c = pushaq c in
    let c = push_cr c.cr0 c in
    let c = push_cr c.cr2 c in
    let c = push_cr c.cr3 c in
    let c = push_cr c.cr4 c in let c = mov_rdi number c in mov_rsi c.stack.rsp c

unfoldable pub exc_wrap_no_err : (number : ℕ) → Cpu → Cpu
exc_wrap_no_err number c =
    let c = push 0 c in
    let c = pushaq c in
    let c = push_cr c.cr0 c in
    let c = push_cr c.cr2 c in
    let c = push_cr c.cr3 c in
    let c = push_cr c.cr4 c in let c = mov_rdi number c in mov_rsi c.stack.rsp c

-- The exceptions that the file wraps by `exc_wrap_err`.
abbrev pub wraps_error : ℕ → Bool
wraps_error number = number == 8 || leb 10 number && leb number 14 || number == 17 || number == 30

unfoldable pub exc_wrapped : (number : ℕ) → Cpu → Cpu
exc_wrapped number c =
    if wraps_error number then exc_wrap_err number c else exc_wrap_no_err number c

-- `struct dump_data` at an address: 25 words.
abbrev pub dump_of : List ℕ → DumpData
dump_of ws = record {
  cr4 = get_or ws 0 0;
  cr3 = get_or ws 1 0;
  cr2 = get_or ws 2 0;
  cr0 = get_or ws 3 0;
  r15 = get_or ws 4 0;
  r14 = get_or ws 5 0;
  r13 = get_or ws 6 0;
  r12 = get_or ws 7 0;
  r11 = get_or ws 8 0;
  r10 = get_or ws 9 0;
  r9 = get_or ws 10 0;
  r8 = get_or ws 11 0;
  rbp = get_or ws 12 0;
  rdi = get_or ws 13 0;
  rsi = get_or ws 14 0;
  rdx = get_or ws 15 0;
  rcx = get_or ws 16 0;
  rbx = get_or ws 17 0;
  rax = get_or ws 18 0;
  err = get_or ws 19 0;
  rip = get_or ws 20 0;
  cs = get_or ws 21 0;
  rflags = get_or ws 22 0;
  rsp = get_or ws 23 0;
  ss = get_or ws 24 0;
}

abbrev pub dump_at : (ℕ → ℕ) → ℕ → DumpData
dump_at mem addr = dump_of (words mem addr 25 0)

-- The call, from which the wrapper does not return.
unfoldable pub call_handler : Device → (fuel : ℕ) → Cpu → Cmd Debug Stopped
call_handler dev fuel c = exception_handler dev fuel (c.regs rdi) (dump_at c.stack.mem (c.regs rsi))

-- `isr_0` to `isr_15`: all bodies are empty.
unfoldable pub isr : (irq : ℕ) → History → History
isr irq h = h

-- `mov al, value`
abbrev pub mov_al : ℕ → Cpu → Cpu
mov_al v c = mov_rax (c.regs rax / 2 ^ 8 * 2 ^ 8 + v) c

-- `out port, al`
abbrev pub out_al : (port : ℕ) → Cpu → History → History
out_al port c h = outb port (u8 (c.regs rax)) h

abbrev pub pop_rax : Cpu → Cpu
pop_rax c = record (mov_rax (c.stack.mem c.stack.rsp) c) {
  stack = record c.stack { rsp = c.stack.rsp + 8 };
}

-- `called irq c` is the processor after the call of the compiled `isr_n`.
module _ (called : (irq : ℕ) → Cpu → Cpu) where
  unfoldable pub isr_wrap : (irq : ℕ) → Cpu → History → Cpu × History
  isr_wrap irq c h =
      let c = push (c.regs rax) c in
      let h = isr irq h in
      let c = mov_al 0x20 (called irq c) in let h = out_al 0x20 c h in (iretq (pop_rax c), h)

  unfoldable pub isr_wrap_h : (irq : ℕ) → Cpu → History → Cpu × History
  isr_wrap_h irq c h =
      let c = push (c.regs rax) c in
      let h = isr irq h in
      let c = mov_al 0x20 (called irq c) in
      let h = out_al 0xA0 c h in let h = out_al 0x20 c h in (iretq (pop_rax c), h)

  unfoldable pub isr_wrapped : (irq : ℕ) → Cpu → History → Cpu × History
  isr_wrapped irq c h = if ltb irq 8 then isr_wrap irq c h else isr_wrap_h irq c h
