-- ===== src/Cpu/Taken.antt =====
-- The stack when an interrupt has been taken.
use ziemniak.Base.{
  ℕ, ◌*◌, ◌/◌, ◌^◌, ◌<◌, ◌≤◌, ◌≡◌, arith, List, [], ◌∷◌, ◌++◌, Bool, Option, none, some,
}
use ziemniak.Cpu.{Cpu, pushes, aligned, frame, push_error, taken}
use ziemniak.Cpu.Pushed.{
  IsStack, Holds, pushed-IsStack, pushed_all-IsStack, pushed_all_above, IsStack-less,
}

-- The processor has room for what an interrupt and its wrapper push, and for the alignment.
abbrev pub HasRoom : Cpu → Type 0
HasRoom c = (232 ≤ c.stack.rsp) × (c.stack.rsp < 2 ^ 64)

abbrev pub error_words : Option ℕ → List ℕ
error_words none = []
error_words (some code) = code ∷ []

abbrev pub returned : Cpu → List ℕ
returned c = c.rip ∷ c.cs ∷ c.rflags ∷ c.stack.rsp ∷ c.ss ∷ []

abbrev pub top_of : Cpu → ℕ
top_of c = c.stack.rsp / 16 * 16

-- The stack below which the processor pushes.
start-IsStack : (c : Cpu) → HasRoom c → IsStack 27 (top_of c) (aligned c.stack) []
unfolding Holds
start-IsStack c room = record {
  room = omega arith;
  top = omega arith;
  depth = omega arith;
  words = tt;
}

with_frame : Cpu → Cpu
with_frame c = pushes (frame c) (record c { stack = aligned c.stack })

with_frame-IsStack : (c : Cpu) → HasRoom c → IsStack 22 (top_of c) (with_frame c).stack (returned c)
unfolding with_frame
with_frame-IsStack c room =
    pushed_all-IsStack 22 (frame c) (aligned c.stack) [] (start-IsStack c room)

push_error-IsStack :
    (err : Option ℕ) (c : Cpu)
    → HasRoom c
    → IsStack 21 (top_of c) (push_error err (with_frame c)).stack (error_words err ++ returned c)
push_error-IsStack none c room = IsStack-less (with_frame-IsStack c room) (omega arith)
push_error-IsStack (some code) c room =
    pushed-IsStack 21 _ code (returned c) (with_frame-IsStack c room)

pub taken-IsStack :
    (target segment : ℕ) (is_interrupt : Bool) (err : Option ℕ) (c : Cpu)
    → HasRoom c
    → IsStack 21
        (top_of c)
        (taken target segment is_interrupt err c).stack
        (error_words err ++ returned c)
unfolding taken with_frame
taken-IsStack target segment is_interrupt err c room = push_error-IsStack err c room

-- What lies above the stack pointer is left.
pub taken_above :
    (target segment : ℕ) (is_interrupt : Bool) (c : Cpu) (a : ℕ)
    → HasRoom c
    → c.stack.rsp ≤ a
    → (taken target segment is_interrupt none c).stack.mem a ≡ c.stack.mem a
unfolding taken
taken_above target segment is_interrupt c a room above =
    pushed_all_above 22 (frame c) (aligned c.stack) [] a (start-IsStack c room) (omega arith)
