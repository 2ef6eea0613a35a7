-- ===== src/Hex.antt =====
-- Hexadecimal text: how it is read back, and the digits that both printers of the repository,
-- `hex` of the kernel and `video_convert_hex` of the bootloader, are compared with.
use ziemniak.Base.{
  bit_and, u8, ℕ, zero, suc, ◌+◌, ◌-◌, ◌*◌, ◌/◌, ◌%◌, ◌^◌, ◌<◌, ◌≡◌, refl, arith, List, [], ◌∷◌,
  Option, none, some, false, ◌&&◌, leb, ltb, if◌then◌else◌, ◌++◌, ◌==◌, until_nul, IsBytes, length,
  ap, ◌∙◌,
}
use ziemniak.Base.Bits.{bit_and_low}
use native.Mathlib.Nat.{pow-suc, div-div-eq-div-mul, div-add-mod}

-- The value of an upper case hexadecimal digit.
abbrev pub value : ℕ → Option ℕ
value c =
    if leb b'0' c && leb c b'9'
    then some (c - b'0')
    else if leb b'A' c && leb c b'F'
    then some (c - b'A' + 10)
    else none

-- The number that a text of such digits stands for, with `acc` in front of it.
abbrev pub parse : ℕ → List ℕ → Option ℕ
parse acc [] = some acc
parse acc (c ∷ cs) = elim (value c) [ none ↦ none | some d ↦ parse (acc * 16 + d) cs ]

unfoldable pub digit : ℕ → ℕ
digit d = if ltb d 10 then d + b'0' else d - 10 + b'A'

-- The `k` lowest hexadecimal digits of `n`, the highest first.
unfoldable pub digits : ℕ → ℕ → List ℕ
digits zero n = []
digits (suc k) n = digit (n / 16 ^ k % 16) ∷ digits k n

value-digit : (d : ℕ) → d < 16 → value (digit d) ≡ some d
unfolding digit
value-digit d h = ground arith

parse-value :
    (c d acc : ℕ) (cs : List ℕ) → value c ≡ some d → parse acc (c ∷ cs) ≡ parse (acc * 16 + d) cs
parse-value c d acc cs e = rw (e, parse) refl

mod-split : (n k : ℕ) → n % 16 ^ suc k ≡ n / 16 ^ k % 16 * 16 ^ k + n % 16 ^ k
mod-split n k = omega (arith, whole, low, ap (λ (t : ℕ). 16 ^ k * t) high)
  where
    whole : 16 ^ k * 16 * (n / 16 ^ k / 16) + n % 16 ^ suc k ≡ n
    whole = rw (div-div-eq-div-mul n (16 ^ k) 16, ← pow-suc 16 k) (div-add-mod n (16 ^ suc k))

    low : 16 ^ k * (n / 16 ^ k) + n % 16 ^ k ≡ n
    low = div-add-mod n (16 ^ k)

    high : n / 16 ^ k ≡ n / 16 ^ k / 16 * 16 + n / 16 ^ k % 16
    high = omega arith

pub parse-digits : (acc k n : ℕ) → parse acc (digits k n) ≡ some (acc * 16 ^ k + n % 16 ^ k)
unfolding digits
parse-digits acc zero n = ap some (omega arith)
parse-digits acc (suc k) n =
    parse-value (digit (n / 16 ^ k % 16)) _ acc (digits k n)
      (value-digit (n / 16 ^ k % 16) (omega arith))
    ∙ parse-digits (acc * 16 + n / 16 ^ k % 16) k n
    ∙ ap some (omega (arith, mod-split n k, ap (λ (t : ℕ). acc * t) (pow-suc 16 k)))

pub length-digits : (k n : ℕ) → length (digits k n) ≡ k
unfolding digits
length-digits zero n = refl
length-digits (suc k) n = ap suc (length-digits k n)

pub until_nul-digits : (k num : ℕ) → until_nul (digits k num ++ 0 ∷ []) ≡ digits k num
unfolding digits
until_nul-digits zero num = refl
until_nul-digits (suc k) num =
    let full : (digit (num / 16 ^ k % 16) == 0) ≡ false = unfold digit in ground arith in
    rw full (ap (λ t. digit (num / 16 ^ k % 16) ∷ t) (until_nul-digits k num))

pub digits-IsBytes : (k num : ℕ) → IsBytes (digits k num ++ 0 ∷ [])
unfolding digits
digits-IsBytes zero num = omega arith
digits-IsBytes (suc k) num = (unfold digit in ground arith, digits-IsBytes k num)

pow-four : (k : ℕ) → 2 ^ (4 * k) ≡ 16 ^ k
pow-four zero = refl
pow-four (suc k) =
    let split : 4 * suc k ≡ suc (suc (suc (suc (4 * k)))) = omega arith in
    rw split (simp pow-suc (omega (arith, pow-four k)))

-- The nibble that a printer shifts out.
pub nibble : (num k : ℕ) → u8 (bit_and (num / 2 ^ (4 * k)) 0x0F) ≡ num / 16 ^ k % 16
nibble num k = rw (pow-four k, bit_and_low 4 (num / 16 ^ k)) (omega arith)
