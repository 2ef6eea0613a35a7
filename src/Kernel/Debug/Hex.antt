-- ===== src/Kernel/Debug/Hex.antt =====
-- `hex` writes the 16 digits of its argument, and they read back as the argument.
use ziemniak.Base.{
  ℕ, zero, suc, ◌+◌, ◌-◌, ◌/◌, ◌%◌, ◌^◌, ◌<◌, ◌≡◌, refl, ap, sym, ◌∙◌, arith, List, [], ◌∷◌, ◌++◌,
  some, ltb, if◌then◌else◌, length, length-append, set, set-append, split_last, until_nul,
}
use mathlib.Core.List.{append_assoc}
use ziemniak.Hex.{digit, nibble, digits, parse, parse-digits, length-digits, until_nul-digits}
use ziemniak.Kernel.Debug.{hex_loop, hex}

-- One round stores a digit, whichever branch it takes.
store-digit :
    (buf : List ℕ) (i d : ℕ)
    → (if ltb 9 d then set buf i (d - 10 + b'A') else set buf i (d + b'0')) ≡ set buf i (digit d)
unfolding digit
store-digit buf i d = ground arith

hex_loop-digits :
    (left i num : ℕ) (front rest : List ℕ)
    → left + i ≡ 16
    → length front ≡ i + 2
    → length rest ≡ left
    → hex_loop left i num (front ++ (rest ++ 0 ∷ [])) ≡ front ++ (digits left num ++ 0 ∷ [])
unfolding hex_loop digits
hex_loop-digits zero i num front [] e f r = refl
hex_loop-digits zero i num front (x ∷ rest) e f r = absurd (omega arith)
hex_loop-digits (suc left) i num front [] e f r = absurd (omega arith)
hex_loop-digits (suc left) i num front (x ∷ rest) e f r =
    let d = num / 16 ^ left % 16 in
    let place : 15 - i ≡ left = omega arith in
    let long : length (front ++ (digit d ∷ [])) ≡ i + 1 + 2 =
      omega (arith, length-append front (digit d ∷ [])) in
    rw (place, nibble num left)
      (ap (hex_loop left (i + 1) num) (
          store-digit (front ++ (x ∷ (rest ++ 0 ∷ []))) (i + 2) d
          ∙ set-append front (rest ++ 0 ∷ []) x (digit d) (i + 2) (sym f)
          ∙ sym (append_assoc front (digit d ∷ []) (rest ++ 0 ∷ [])))
        ∙ hex_loop-digits left (i + 1) num (front ++ (digit d ∷ [])) rest (omega arith) long
            (omega arith)
        ∙ append_assoc front (digit d ∷ []) (digits left num ++ 0 ∷ []))

-- What the buffer holds: the prefix, 16 digits and the final NUL.
abbrev pub hex_buf : ℕ → List ℕ
hex_buf num = b'0' ∷ b'x' ∷ (digits 16 num ++ 0 ∷ [])

-- Whatever the static buffer held before.
pub hex-hex_buf : (num : ℕ) (buf : List ℕ) → length buf ≡ 19 → hex num buf ≡ hex_buf num
unfolding hex
hex-hex_buf num [] h = absurd (omega arith)
hex-hex_buf num (x ∷ []) h = absurd (omega arith)
hex-hex_buf num (x ∷ y ∷ rest) h =
    let (middle, z, l, e) = split_last 16 rest (omega arith) in
    ap (λ t. hex_loop 16 0 num (b'0' ∷ b'x' ∷ t))
      (ap (λ t. set t 16 0) e ∙ set-append middle [] z 0 16 (sym l))
    ∙ hex_loop-digits 16 0 num (b'0' ∷ b'x' ∷ []) middle refl refl l

pub length-hex_buf : (num : ℕ) → length (hex_buf num) ≡ 19
length-hex_buf num = omega (arith, length-append (digits 16 num) (0 ∷ []), length-digits 16 num)

pub until_nul-hex_buf : (num : ℕ) → until_nul (hex_buf num) ≡ b'0' ∷ b'x' ∷ digits 16 num
until_nul-hex_buf num = ap (λ t. b'0' ∷ b'x' ∷ t) (until_nul-digits 16 num)

-- The text that the buffer holds reads back as the number: 16 digits, without loss, for every
-- `uint64_t` and whatever the static buffer held before.
pub parse-hex :
    (num : ℕ) (buf : List ℕ)
    → length buf ≡ 19
    → num < 2 ^ 64
    → (ds : List ℕ) × (until_nul (hex num buf) ≡ b'0' ∷ b'x' ∷ ds)
      × (length ds ≡ 16)
      × (parse 0 ds ≡ some num)
parse-hex num buf h small = (
  digits 16 num,
  rw (hex-hex_buf num buf h) (until_nul-hex_buf num),
  length-digits 16 num,
  parse-digits 0 16 num ∙ ap some (omega arith),
)
