-- ===== src/Kernel/Debug/Crash.antt =====
-- `debug_crash`: the report that it sends.
use ziemniak.Base.{
  ℕ, zero, suc, ◌<◌, ◌≤◌, arith, List, [], ◌∷◌, ◌++◌, Bool-cases, inl, inr, ltb, if◌then◌else◌,
  get_or, Cmd, ◌>>◌, returns, codes, IsBytes,
}
use ziemniak.Machine.{Device}
use ziemniak.Kernel.Serial.Print.{Drains, nothing}
use ziemniak.Kernel.Debug.{DumpData, Debug, error_msg, debug_num, print_exception, debug_crash}
use ziemniak.Kernel.Debug.Output.{
  Prints, Prints->>, line, num_line, print_msg-Prints, debug_num-Prints,
}

-- A register's label and value.
abbrev Row : Type 0
Row = List ℕ × ℕ

abbrev rows : DumpData → List Row
rows d =
    (codes "RAX: ", d.rax)
    ∷ (codes "RBX: ", d.rbx)
    ∷ (codes "RCX: ", d.rcx)
    ∷ (codes "RDX: ", d.rdx)
    ∷ (codes "RSP: ", d.rsp)
    ∷ (codes "RBP: ", d.rbp)
    ∷ (codes "RSI: ", d.rsi)
    ∷ (codes "RDI: ", d.rdi)
    ∷ (codes "R8: ", d.r8)
    ∷ (codes "R9: ", d.r9)
    ∷ (codes "R10: ", d.r10)
    ∷ (codes "R11: ", d.r11)
    ∷ (codes "R12: ", d.r12)
    ∷ (codes "R13: ", d.r13)
    ∷ (codes "R14: ", d.r14)
    ∷ (codes "R15: ", d.r15)
    ∷ (codes "RIP: ", d.rip)
    ∷ (codes "RFLAGS: ", d.rflags)
    ∷ (codes "CR0: ", d.cr0)
    ∷ (codes "CR2: ", d.cr2)
    ∷ (codes "CR3: ", d.cr3)
    ∷ (codes "CR4: ", d.cr4)
    ∷ (codes "CS: ", d.cs)
    ∷ (codes "SS: ", d.ss)
    ∷ []

abbrev AreBytes : List Row → Type 0
AreBytes [] = Unit
AreBytes ((label, _) ∷ rs) = IsBytes label × AreBytes rs

-- A line for each row.
abbrev table : Row → List Row → List ℕ
table (label, v) [] = num_line label v
table (label, v) (r ∷ rs) = num_line label v ++ table r rs

-- The name of the exception, for a number below 32.
abbrev pub exception_line : ℕ → List ℕ
exception_line excep =
    if ltb excep 32 then line (get_or error_msg excep []) (codes " EXCEPTION") else []

abbrev pub report : ℕ → DumpData → List ℕ
report excep dump =
    codes "CRASH\n" ++ (exception_line excep ++ table (codes "ERROR CODE: ", dump.err) (rows dump))

abbrev AreTexts : List (List ℕ) → Type 0
AreTexts [] = Unit
AreTexts (t ∷ ts) = IsBytes t × AreTexts ts

texts_get : (ts : List (List ℕ)) (i : ℕ) → AreTexts ts → IsBytes (get_or ts i [])
texts_get [] i b = tt
texts_get (t ∷ ts) zero b = b.0
texts_get (t ∷ ts) (suc i) b = texts_get ts i b.1

error_msg-IsBytes : (excep : ℕ) → IsBytes (get_or error_msg excep [])
error_msg-IsBytes excep = texts_get error_msg excep (omega arith)

module _ (dev : Device) (fuel : ℕ) {port depth : ℕ} (drains : Drains dev port depth)
    (pos : 0 < port) (enough : depth ≤ fuel) where
  abbrev each : Row → List Row → Cmd Debug (Unit {0})
  each (label, v) [] = debug_num dev fuel label v
  each (label, v) (r ∷ rs) = debug_num dev fuel label v >> each r rs

  each-Prints : (r : Row) (rs : List Row) → AreBytes (r ∷ rs) → Prints port (table r rs) (each r rs)
  each-Prints (label, v) [] b = debug_num-Prints dev fuel drains pos enough label v b.0
  each-Prints (label, v) (r ∷ rs) b =
      Prints->> port _ _ _ _ (debug_num-Prints dev fuel drains pos enough label v b.0)
        (each-Prints r rs b.1)

  print_exception-Prints :
      (excep : ℕ) → Prints port (exception_line excep) (print_exception dev fuel excep)
  unfolding print_exception
  print_exception-Prints excep s ready = elim (Bool-cases (ltb excep 32)) [
    | inl known ↦ rw known (
        print_msg-Prints dev fuel drains pos enough (get_or error_msg excep []) (codes " EXCEPTION")
          (error_msg-IsBytes excep) (omega arith) s ready)
    | inr unknown ↦ rw unknown (returns (ready, nothing))
  ]

  -- On a port whose transmitter drains, `debug_crash` returns and has sent the whole report: the
  -- exception's name if the number has one, the error code and all registers, in order.
  pub debug_crash-Prints :
      (excep : ℕ) (dump : DumpData)
      → Prints port (report excep dump) (debug_crash dev fuel excep dump)
  unfolding debug_crash
  debug_crash-Prints excep dump =
      Prints->> port _ _ _ _
        (print_msg-Prints dev fuel drains pos enough (codes "CRASH") (0 ∷ []) (omega arith)
          (omega arith))
        (Prints->> port _ _ _ _ (print_exception-Prints excep)
          (each-Prints (codes "ERROR CODE: ", dump.err) (rows dump) (omega arith)))
