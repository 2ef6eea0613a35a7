-- ===== src/Kernel/Debug.antt =====
-- Debug output over the first serial port, kernel/src/debug/debug.c, in the configuration of
-- kernel/include/config.h, which defines DEBUG.
pub mod Crash
pub mod Hex
pub mod Output
use ziemniak.Base.{
  ℕ, zero, suc, ◌+◌, ◌-◌, ◌*◌, ◌/◌, ◌%◌, ◌^◌, List, [], ◌∷◌, Option, none, some, bit_and, ltb,
  if◌then◌else◌, get_or, set, replicate, Cmd, pure, ◌>>=◌, ◌>>◌, codes, u8, ◌>>>◌,
}
use ziemniak.Machine.{Device}
use ziemniak.Kernel.Serial.{Serial, serial_init, serial_print}

-- `struct dump_data`, what the exception wrappers push.
pub record DumpData : Type 0 where
  pub cr4 : ℕ
  pub cr3 : ℕ
  pub cr2 : ℕ
  pub cr0 : ℕ
  pub r15 : ℕ
  pub r14 : ℕ
  pub r13 : ℕ
  pub r12 : ℕ
  pub r11 : ℕ
  pub r10 : ℕ
  pub r9 : ℕ
  pub r8 : ℕ
  pub rbp : ℕ
  pub rdi : ℕ
  pub rsi : ℕ
  pub rdx : ℕ
  pub rcx : ℕ
  pub rbx : ℕ
  pub rax : ℕ
  pub err : ℕ
  pub rip : ℕ
  pub cs : ℕ
  pub rflags : ℕ
  pub rsp : ℕ
  pub ss : ℕ

abbrev pub error_msg : List (List ℕ)
error_msg =
    codes "DIVIDE BY ZERO"
    ∷ codes "DEBUG"
    ∷ codes "NON MASKABLE INTERRUPT"
    ∷ codes "BREAKPOINT"
    ∷ codes "OVERFLOW"
    ∷ codes "BOUND RANGE"
    ∷ codes "INVALID OPCODE"
    ∷ codes "FPU NOT PRESENT"
    ∷ codes "DOUBLE FAULT"
    ∷ codes "COPROCESSOR SEGMENT OVERRUN"
    ∷ codes "INVALID TASK STATE SEGMENT"
    ∷ codes "SEGMENT NOT PRESENT"
    ∷ codes "STACK SEGMENT FAULT"
    ∷ codes "GENERAL PROTECTION FAULT"
    ∷ codes "PAGE FAULT"
    ∷ codes "RESERVED"
    ∷ codes "X87 FLOATING POINT"
    ∷ codes "ALIGNMENT CHECK"
    ∷ codes "MACHINE CHECK"
    ∷ codes "SIMD"
    ∷ codes "VIRTUALIZATION"
    ∷ codes "CONTROL PROTECTION"
    ∷ codes "RESERVED"
    ∷ codes "RESERVED"
    ∷ codes "RESERVED"
    ∷ codes "RESERVED"
    ∷ codes "RESERVED"
    ∷ codes "RESERVED"
    ∷ codes "HYPERVISON INJECTION"
    ∷ codes "VMM COMMUNICATION"
    ∷ codes "SECURITY"
    ∷ codes "RESERVED"
    ∷ []

-- The state of the serial driver, and the static buffer `buf` of `hex`, of 19 bytes.
pub record Debug : Type 0 where
  pub serial : Serial
  pub buf : List ℕ

unfoldable pub hex_loop : (left i num : ℕ) → List ℕ → List ℕ
hex_loop zero i num buf = buf
hex_loop (suc left) i num buf =
    let tmp = u8 (bit_and (num >>> (4 * (15 - i))) 0x0F) in
    hex_loop left (i + 1) num
      (if ltb 9 tmp then set buf (i + 2) (tmp - 10 + b'A') else set buf (i + 2) (tmp + b'0'))

-- The new contents of the buffer.
unfoldable pub hex : (num : ℕ) → List ℕ → List ℕ
hex num buf = hex_loop 16 0 num (set (set (set buf 0 b'0') 1 b'x') 18 0)

-- A command of the serial driver, as one of the whole state.
abbrev pub put_back : {A : Type 0} → Debug → Option (A × Serial) → Option (A × Debug)
put_back s none = none
put_back s (some (a, serial)) = some (a, record s { serial = serial })

abbrev pub lift : {A : Type 0} → Cmd Serial A → Cmd Debug A
lift m s = put_back s (m s.serial)

unfoldable pub debug_init : Device → (bda_coms : ℕ → ℕ) → Cmd Debug ℕ
debug_init dev bda_coms = lift (serial_init dev bda_coms 0 none)

module _ (dev : Device) (fuel : ℕ) where
  -- A call of `serial_print` on port 0; the callers ignore its status.
  unfoldable pub say : List ℕ → Cmd Debug (Unit {0})
  say text = lift (serial_print dev fuel 0 text) >>= λ _. pure tt

  unfoldable pub print_msg : (header msg : List ℕ) → Cmd Debug (Unit {0})
  print_msg header msg = do say header; say msg; say (codes "\n")

  unfoldable pub debug_info : List ℕ → Cmd Debug (Unit {0})
  debug_info msg = print_msg (codes "INFO: ") msg

  unfoldable pub debug_warn : List ℕ → Cmd Debug (Unit {0})
  debug_warn msg = print_msg (codes "WARN: ") msg

  unfoldable pub debug_err : List ℕ → Cmd Debug (Unit {0})
  debug_err msg = print_msg (codes "ERR: ") msg

  unfoldable pub debug_num : (msg : List ℕ) (num : ℕ) → Cmd Debug (Unit {0})
  debug_num msg num s = let buf = hex num s.buf in print_msg msg buf (record s { buf = buf })

  unfoldable pub print_exception : (excep : ℕ) → Cmd Debug (Unit {0})
  print_exception excep =
      if ltb excep 32 then print_msg (get_or error_msg excep []) (codes " EXCEPTION") else pure tt

  unfoldable pub debug_crash : (excep : ℕ) → DumpData → Cmd Debug (Unit {0})
  debug_crash excep dump = do
    print_msg (codes "CRASH") (0 ∷ [])
    print_exception excep
    debug_num (codes "ERROR CODE: ") dump.err
    debug_num (codes "RAX: ") dump.rax
    debug_num (codes "RBX: ") dump.rbx
    debug_num (codes "RCX: ") dump.rcx
    debug_num (codes "RDX: ") dump.rdx
    debug_num (codes "RSP: ") dump.rsp
    debug_num (codes "RBP: ") dump.rbp
    debug_num (codes "RSI: ") dump.rsi
    debug_num (codes "RDI: ") dump.rdi
    debug_num (codes "R8: ") dump.r8
    debug_num (codes "R9: ") dump.r9
    debug_num (codes "R10: ") dump.r10
    debug_num (codes "R11: ") dump.r11
    debug_num (codes "R12: ") dump.r12
    debug_num (codes "R13: ") dump.r13
    debug_num (codes "R14: ") dump.r14
    debug_num (codes "R15: ") dump.r15
    debug_num (codes "RIP: ") dump.rip
    debug_num (codes "RFLAGS: ") dump.rflags
    debug_num (codes "CR0: ") dump.cr0
    debug_num (codes "CR2: ") dump.cr2
    debug_num (codes "CR3: ") dump.cr3
    debug_num (codes "CR4: ") dump.cr4
    debug_num (codes "CS: ") dump.cs
    debug_num (codes "SS: ") dump.ss
