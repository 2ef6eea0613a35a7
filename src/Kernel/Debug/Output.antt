-- ===== src/Kernel/Debug/Output.antt =====
-- What the functions of debug.c send over the serial port.
use ziemniak.Base.{
  ℕ, ◌<◌, ◌≤◌, ◌≡◌, refl, ap, ◌∙◌, arith, List, ◌∷◌, ◌++◌, Option, get_or, length, Cmd, ◌>>◌,
  Returns, returns, Returns-bind, Returns-mono, codes, until_nul, IsBytes,
}
use ziemniak.Hex.{digits, digits-IsBytes}
use ziemniak.Machine.{Device, History}
use ziemniak.Kernel.Serial.{Serial, no_ctx, ctx_at}
use ziemniak.Kernel.Serial.Print.{Drains, Sends, nothing, send, serial_print-Sends}
use ziemniak.Kernel.Debug.{Debug, put_back, say, print_msg, debug_num}
use ziemniak.Kernel.Debug.Hex.{hex_buf, hex-hex_buf, length-hex_buf, until_nul-hex_buf}

pub Sends-append :
    {port : ℕ} {a b : List ℕ} {h h' h'' : History}
    → Sends port a h h'
    → Sends port b h' h''
    → Sends port (a ++ b) h h''
Sends-append nothing t = t
Sends-append (send w s) t = send w (Sends-append s t)

-- The texts of `print_msg` and of `debug_num`: a label, a message or `0x` and 16 digits, a newline.
abbrev pub line : (header msg : List ℕ) → List ℕ
line header msg = until_nul header ++ (until_nul msg ++ codes "\n")

abbrev pub num_line : (label : List ℕ) (num : ℕ) → List ℕ
num_line label num = until_nul label ++ (b'0' ∷ b'x' ∷ digits 16 num ++ codes "\n")

line-hex_buf : (label : List ℕ) (num : ℕ) → line label (hex_buf num) ≡ num_line label num
line-hex_buf label num = ap (λ t. until_nul label ++ (t ++ codes "\n")) (until_nul-hex_buf num)

pub Returns-put_back :
    {A : Type 0} {P : A → Serial → Type 0} {m : Option (A × Serial)} (s : Debug)
    → Returns P m
    → Returns (λ a s'. P a s'.serial × (s'.buf ≡ s.buf)) (put_back s m)
Returns-put_back s (returns p) = returns (p, refl)

-- `debug_init` has set up the port at `port`, and the static buffer of `hex` is in place.
pub record IsReady (port : ℕ) (s : Debug) : Type 0 where
  pub set_up : (ctx_at s.serial 0).port ≡ port
  pub room : length s.buf ≡ 19

-- From a ready state the command returns in one, and has sent exactly `text`.
abbrev pub Prints : (port : ℕ) → List ℕ → Cmd Debug (Unit {0}) → Type 0
Prints port text m =
    (s : Debug)
    → IsReady port s
    → Returns (λ _ s'. IsReady port s' × Sends port text s.serial.history s'.serial.history) (m s)

pub Prints->> :
    (port : ℕ) (a b : List ℕ) (m k : Cmd Debug (Unit {0}))
    → Prints port a m
    → Prints port b k
    → Prints port (a ++ b) (m >> k)
Prints->> port a b m k p q s ready = Returns-bind (p s ready) λ _ s' (ready', sent).
    Returns-mono (q s' ready') λ _ s'' (ready'', sent'). (ready'', Sends-append sent sent')

module _ (dev : Device) (fuel : ℕ) {port depth : ℕ} (drains : Drains dev port depth)
    (pos : 0 < port) (enough : depth ≤ fuel) where
  say-Prints : (text : List ℕ) → IsBytes text → Prints port (until_nul text) (say dev fuel text)
  unfolding say
  say-Prints text bytes s ready =
      Returns-bind
        (Returns-put_back s (
          serial_print-Sends dev drains fuel 0 text s.serial enough bytes (omega arith) pos
            ready.set_up))
        λ status s' ((ok, kept, sent), same_buf). returns (
          record {
            set_up = ap (λ c. (get_or c 0 no_ctx).port) kept ∙ ready.set_up;
            room = ap length same_buf ∙ ready.room;
          },
          sent,
        )

  pub print_msg-Prints :
      (header msg : List ℕ)
      → IsBytes header
      → IsBytes msg
      → Prints port (line header msg) (print_msg dev fuel header msg)
  unfolding print_msg
  print_msg-Prints header msg h m =
      Prints->> port _ _ _ _ (say-Prints header h)
        (Prints->> port _ _ _ _ (say-Prints msg m) (say-Prints (codes "\n") (omega arith)))

  pub debug_num-Prints :
      (label : List ℕ) (num : ℕ)
      → IsBytes label
      → Prints port (num_line label num) (debug_num dev fuel label num)
  unfolding debug_num
  debug_num-Prints label num b s ready =
      let bytes : IsBytes (hex_buf num) = (omega arith, (omega arith, digits-IsBytes 16 num)) in
      rw (hex-hex_buf num s.buf ready.room, ← line-hex_buf label num)
        (print_msg-Prints label (hex_buf num) b bytes (record s { buf = hex_buf num })
          (record { set_up = ready.set_up; room = rw (length-hex_buf num) }))
