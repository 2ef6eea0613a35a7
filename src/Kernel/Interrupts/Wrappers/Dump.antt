-- ===== src/Kernel/Interrupts/Wrappers/Dump.antt =====
-- What the exception wrappers hand to `exception_handler`.
use ziemniak.Base.{
  ℕ, ◌*◌, ◌%◌, ◌<◌, ◌≡◌, ◌≢◌, refl, ap, arith, List, [], ◌∷◌, ◌++◌, Bool, Bool-cases, true, false,
  inl, inr, ◌⊎◌, Option, none, some, length, if◌then◌else◌,
}
use ziemniak.Cpu.{
  Reg, rax, rbx, rcx, rdx, rsi, rdi, rbp, r8, r9, r10, r11, r12, r13, r14, r15, Cpu, push, taken,
  pushes_error, error_pushed,
}
use ziemniak.Cpu.Pushed.{
  IsStack, pushed-IsStack, pushed_all-IsStack, words-Holds, Holds_front, IsStack-less,
}
use ziemniak.Cpu.Taken.{HasRoom, returned, taken-IsStack}
use ziemniak.Kernel.Debug.{DumpData}
use ziemniak.Kernel.Interrupts.Wrappers.{
  exc_wrapped, wraps_error, exc_wrap_err, exc_wrap_no_err, dump_of, dump_at,
}

-- The words that a wrapper pushes after the error code, the last in front.
abbrev saved_words : Cpu → List ℕ
saved_words c =
    c.cr4
    ∷ c.cr3
    ∷ c.cr2
    ∷ c.cr0
    ∷ c.regs r15
    ∷ c.regs r14
    ∷ c.regs r13
    ∷ c.regs r12
    ∷ c.regs r11
    ∷ c.regs r10
    ∷ c.regs r9
    ∷ c.regs r8
    ∷ c.regs rbp
    ∷ c.regs rdi
    ∷ c.regs rsi
    ∷ c.regs rdx
    ∷ c.regs rcx
    ∷ c.regs rbx
    ∷ c.regs rax
    ∷ []

-- The stack after a wrapper's pushes, whose address the call is given in `rsi`.
record IsSaved (number base : ℕ) (ws : List ℕ) (c : Cpu) : Type 0 where
  stack : IsStack 0 base c.stack ws
  first : c.regs rdi ≡ number
  dump : c.regs rsi ≡ c.stack.rsp

module _ (number : ℕ) (c : Cpu) (ws : List ℕ) {base : ℕ} where
  exc_wrap_err-IsSaved :
      IsStack 19 base c.stack ws → IsSaved number base (saved_words c ++ ws) (exc_wrap_err number c)
  unfolding exc_wrap_err
  exc_wrap_err-IsSaved is =
      let a = pushed_all-IsStack 4 _ c.stack ws is in
      let b = pushed-IsStack 3 _ c.cr0 _ a in
      let d = pushed-IsStack 2 _ c.cr2 _ b in
      let e = pushed-IsStack 1 _ c.cr3 _ d in
      record { stack = pushed-IsStack 0 _ c.cr4 _ e; first = refl; dump = refl }

exc_wrap_no_err-IsSaved :
    (number : ℕ) (c : Cpu) (ws : List ℕ) {base : ℕ}
    → IsStack 20 base c.stack ws
    → IsSaved number base (saved_words c ++ 0 ∷ ws) (exc_wrap_no_err number c)
unfolding exc_wrap_no_err exc_wrap_err
exc_wrap_no_err-IsSaved number c ws is =
    exc_wrap_err-IsSaved number (push 0 c) (0 ∷ ws) (pushed-IsStack 19 c.stack 0 ws is)

-- The registers of an interrupted program, with an error code.
abbrev pub dump_data : Cpu → (err : ℕ) → DumpData
dump_data c err = record {
  cr4 = c.cr4;
  cr3 = c.cr3;
  cr2 = c.cr2;
  cr0 = c.cr0;
  r15 = c.regs Reg.r15;
  r14 = c.regs Reg.r14;
  r13 = c.regs Reg.r13;
  r12 = c.regs Reg.r12;
  r11 = c.regs Reg.r11;
  r10 = c.regs Reg.r10;
  r9 = c.regs Reg.r9;
  r8 = c.regs Reg.r8;
  rbp = c.regs Reg.rbp;
  rdi = c.regs Reg.rdi;
  rsi = c.regs Reg.rsi;
  rdx = c.regs Reg.rdx;
  rcx = c.regs Reg.rcx;
  rbx = c.regs Reg.rbx;
  rax = c.regs Reg.rax;
  err = err;
  rip = c.rip;
  cs = c.cs;
  rflags = c.rflags;
  rsp = c.stack.rsp;
  ss = c.ss;
}

-- The same, with an error code and all words that the processor has pushed one field too far up.
abbrev pub shifted_data : Cpu → (code : ℕ) → DumpData
shifted_data c code = record {
  cr4 = c.cr4;
  cr3 = c.cr3;
  cr2 = c.cr2;
  cr0 = c.cr0;
  r15 = c.regs Reg.r15;
  r14 = c.regs Reg.r14;
  r13 = c.regs Reg.r13;
  r12 = c.regs Reg.r12;
  r11 = c.regs Reg.r11;
  r10 = c.regs Reg.r10;
  r9 = c.regs Reg.r9;
  r8 = c.regs Reg.r8;
  rbp = c.regs Reg.rbp;
  rdi = c.regs Reg.rdi;
  rsi = c.regs Reg.rsi;
  rdx = c.regs Reg.rdx;
  rcx = c.regs Reg.rcx;
  rbx = c.regs Reg.rbx;
  rax = c.regs Reg.rax;
  err = 0;
  rip = code;
  cs = c.rip;
  rflags = c.cs;
  rsp = c.rflags;
  ss = c.stack.rsp;
}

-- The arguments of `exception_handler`, and by how much its call misses a multiple of 16.
pub record Calls (v : ℕ) (d : DumpData) (off : ℕ) (c : Cpu) : Type 0 where
  pub number : c.regs rdi ≡ v
  pub dump : dump_at c.stack.mem (c.regs rsi) ≡ d
  pub alignment : c.stack.rsp % 16 ≡ off

IsSaved-Calls :
    {v base : ℕ} {ws : List ℕ} {c : Cpu} (front rest : List ℕ)
    → IsSaved v base ws c
    → ws ≡ front ++ rest
    → length front ≡ 25
    → base % 16 ≡ 0
    → Calls v (dump_of front) (8 * (length ws % 2)) c
IsSaved-Calls {v} {base} {ws} {c} front rest is split size whole =
    let held = rw split at is.stack.words in
    let read = words-Holds _ _ 0 front (Holds_front _ _ 0 front rest held) in
    record {
      number = is.first;
      dump = rw is.dump (ap dump_of (rw size at read));
      alignment = omega (arith, is.stack.depth, whole);
    }

module _ (v target segment : ℕ) (is_interrupt : Bool) (code : ℕ) (c : Cpu) (room : HasRoom c) where
  entered : Option ℕ → Cpu
  entered err = taken target segment is_interrupt err c

  with_code : Calls v (dump_data c code) 8 (exc_wrap_err v (entered (some code)))
  unfolding entered taken
  with_code =
      IsSaved-Calls (saved_words c ++ code ∷ returned c) []
        (exc_wrap_err-IsSaved v _ _ (
          IsStack-less (taken-IsStack target segment is_interrupt (some code) c room)
            (omega arith)))
        refl refl (omega arith)

  without_code : Calls v (dump_data c 0) 8 (exc_wrap_no_err v (entered none))
  unfolding entered taken
  without_code =
      IsSaved-Calls (saved_words c ++ 0 ∷ returned c) []
        (exc_wrap_no_err-IsSaved v _ _
          (IsStack-less (taken-IsStack target segment is_interrupt none c room) (omega arith)))
        refl refl (omega arith)

  -- For every exception but 21 and 29 the wrapper calls `exception_handler` with its number and with a
  -- structure that holds the registers of the interrupted program and the error code, 0 where there
  -- is none; the call finds the stack 8 bytes off a multiple of 16.
  pub exc_wrapped-Calls :
      v < 32
      → v ≢ 21
      → v ≢ 29
      → Calls v
          (dump_data c (if pushes_error v then code else 0))
          8
          (exc_wrapped v (taken target segment is_interrupt (error_pushed v code) c))
  unfolding exc_wrapped entered
  exc_wrapped-Calls small first second =
      let same : wraps_error v ≡ pushes_error v = ground arith in
      rw same (elim (Bool-cases (pushes_error v)) [
        | inl yes_code ↦ rw yes_code with_code
        | inr no_code ↦ rw no_code without_code
      ])

  -- For the exceptions 21 and 29 the structure has the error code 0, the code that the processor pushed
  -- for the instruction pointer, and in each later field the value of the one before.
  pub exc_wrapped-shifted :
      (v ≡ 21) ⊎ (v ≡ 29)
      → Calls v
          (shifted_data c code)
          0
          (exc_wrapped v (taken target segment is_interrupt (error_pushed v code) c))
  unfolding exc_wrapped entered taken
  exc_wrapped-shifted which =
      let none_wrapped : wraps_error v ≡ false = ground (arith, which) in
      let pushed_code : pushes_error v ≡ true = ground (arith, which) in
      rw (none_wrapped, pushed_code)
        (IsSaved-Calls (saved_words c ++ 0 ∷ code ∷ c.rip ∷ c.cs ∷ c.rflags ∷ c.stack.rsp ∷ [])
          (c.ss ∷ [])
          (exc_wrap_no_err-IsSaved v _ _ (
            IsStack-less (taken-IsStack target segment is_interrupt (some code) c room)
              (omega arith)))
          refl refl (omega arith))
