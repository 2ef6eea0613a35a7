-- ===== src/Cpu.antt =====
-- The processor in 64-bit mode, as far as the assembly of the kernel uses it: registers, a stack of
-- 64-bit words, and how an interrupt is taken and left.
pub mod Pushed
pub mod Taken
use ziemniak.Base.{
  ℕ, ◌+◌, ◌-◌, ◌*◌, ◌/◌, ◌%◌, ◌^◌, List, [], ◌∷◌, Bool, Option, none, some, bit_and, ◌==◌, leb,
  ◌&&◌, ◌||◌, zero, suc, if◌then◌else◌, u64,
}

-- The general registers but the stack pointer.
pub data Reg : Type 0 where
  rax rbx rcx rdx rsi rdi rbp r8 r9 r10 r11 r12 r13 r14 r15 : Reg

-- The stack pointer, and the 64-bit words of the memory, each at its address, a multiple of 8.
pub record Stack : Type 0 where
  pub rsp : ℕ
  pub mem : ℕ → ℕ

pub record Cpu : Type 0 where
  pub regs : Reg → ℕ
  pub stack : Stack
  pub rip : ℕ
  pub cs : ℕ
  pub rflags : ℕ
  pub ss : ℕ
  pub cr0 : ℕ
  pub cr2 : ℕ
  pub cr3 : ℕ
  pub cr4 : ℕ

abbrev pub with_rax : ℕ → (Reg → ℕ) → Reg → ℕ
with_rax v regs Reg.rax = v
with_rax v regs r = regs r

abbrev pub with_rdi : ℕ → (Reg → ℕ) → Reg → ℕ
with_rdi v regs Reg.rdi = v
with_rdi v regs r = regs r

abbrev pub with_rsi : ℕ → (Reg → ℕ) → Reg → ℕ
with_rsi v regs Reg.rsi = v
with_rsi v regs r = regs r

-- `mov` to the register.
abbrev pub mov_rax : ℕ → Cpu → Cpu
mov_rax v c = record c { regs = with_rax v c.regs }

abbrev pub mov_rdi : ℕ → Cpu → Cpu
mov_rdi v c = record c { regs = with_rdi v c.regs }

abbrev pub mov_rsi : ℕ → Cpu → Cpu
mov_rsi v c = record c { regs = with_rsi v c.regs }

abbrev pub stored : (addr v : ℕ) → (ℕ → ℕ) → ℕ → ℕ
stored addr v mem a = if a == addr then v else mem a

-- The stack pointer, 8 lower.
abbrev pub below : ℕ → ℕ
below rsp = u64 (rsp + (2 ^ 64 - 8))

unfoldable pub pushed : ℕ → Stack → Stack
pushed v s = record { rsp = below s.rsp; mem = stored (below s.rsp) v s.mem }

unfoldable pub pushed_all : List ℕ → Stack → Stack
pushed_all [] s = s
pushed_all (v ∷ vs) s = pushed_all vs (pushed v s)

abbrev pub push : ℕ → Cpu → Cpu
push v c = record c { stack = pushed v c.stack }

abbrev pub pushes : List ℕ → Cpu → Cpu
pushes vs c = record c { stack = pushed_all vs c.stack }

-- The processor takes an interrupt through a gate of privilege 0, with the handler at `target` in
-- the segment `segment`: it aligns the stack to 16 bytes, pushes where it was and, for some
-- exceptions, an error code, and clears the flags TF, NT and RF, and for an interrupt gate IF.
abbrev pub entry_flags : (is_interrupt : Bool) → ℕ → ℕ
entry_flags is_interrupt rflags =
    bit_and rflags (2 ^ 64 - 1 - (2 ^ 8 + 2 ^ 14 + 2 ^ 16) - (if is_interrupt then 2 ^ 9 else 0))

abbrev pub frame : Cpu → List ℕ
frame c = c.ss ∷ c.stack.rsp ∷ c.rflags ∷ c.cs ∷ c.rip ∷ []

abbrev pub aligned : Stack → Stack
aligned s = record s { rsp = s.rsp / 16 * 16 }

abbrev pub push_error : Option ℕ → Cpu → Cpu
push_error none c = c
push_error (some code) c = push code c

unfoldable pub taken : (target segment : ℕ) → (is_interrupt : Bool) → Option ℕ → Cpu → Cpu
taken target segment is_interrupt err c =
    record (push_error err (pushes (frame c) (record c { stack = aligned c.stack }))) {
      rip = target;
      cs = segment;
      rflags = entry_flags is_interrupt c.rflags;
    }

-- `iretq`
unfoldable pub iretq : Cpu → Cpu
iretq c = record c {
  rip = c.stack.mem c.stack.rsp;
  cs = c.stack.mem (c.stack.rsp + 8);
  rflags = c.stack.mem (c.stack.rsp + 16);
  stack = record c.stack { rsp = c.stack.mem (c.stack.rsp + 24) };
  ss = c.stack.mem (c.stack.rsp + 32);
}

-- The exceptions for which the processor pushes an error code.
abbrev pub pushes_error : ℕ → Bool
pushes_error v = v == 8 || leb 10 v && leb v 14 || v == 17 || v == 21 || v == 29 || v == 30

-- `code` is the error code of exception `v`, if it has one.
abbrev pub error_pushed : (v code : ℕ) → Option ℕ
error_pushed v code = if pushes_error v then some code else none

-- `n` words of memory from `base + 8 * i` on.
abbrev pub words : (ℕ → ℕ) → (base n i : ℕ) → List ℕ
words mem base zero i = []
words mem base (suc n) i = mem (base + 8 * i) ∷ words mem base n (suc i)
