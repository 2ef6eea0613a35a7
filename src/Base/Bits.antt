-- ===== src/Base/Bits.antt =====
-- `&` and `|` with masks, as arithmetic.
mod Step
use Step.{or_digit, and_digit}
use Prim.Native.Nat.{ℕ, zero, suc, ◌+◌, ◌-◌, ◌*◌, ◌/◌, ◌%◌, ◌^◌, ◌≤◌, ◌<◌, bit_and, bit_or}
use mathlib.Core.Path.{◌≡◌, refl, ap, sym, ◌∙◌}
use native.Mathlib.Nat.{
  pow-suc, one-le-pow, mul_comm, mod-eq_of_lt, div-div-eq-div-mul, div-add-mod,
}
use native.Mathlib.Omega.{arith}

module _ (k : ℕ) where
  two-pow-suc : 2 ^ suc k ≡ 2 * 2 ^ k
  two-pow-suc = omega (arith, pow-suc 2 k)

  times_suc : (x : ℕ) → x * 2 ^ suc k ≡ 2 * (x * 2 ^ k)
  times_suc x = omega (arith, ap (λ (t : ℕ). x * t) two-pow-suc)

  div_suc : (x : ℕ) → x / 2 ^ suc k ≡ x / 2 / 2 ^ k
  div_suc x = ap (λ (t : ℕ). x / t) two-pow-suc ∙ sym (div-div-eq-div-mul x 2 (2 ^ k))

  mod_suc : (x : ℕ) → x % 2 ^ suc k ≡ x / 2 % 2 ^ k * 2 + x % 2
  mod_suc x = omega (arith, whole, div-add-mod (x / 2) (2 ^ k))
    where
      whole : 2 * (2 ^ k * (x / 2 / 2 ^ k)) + x % 2 ^ suc k ≡ x
      whole = omega (
        arith,
        div-add-mod x (2 ^ suc k),
        ap (λ (t : ℕ). 2 ^ suc k * t) (div_suc x),
        ap (λ (t : ℕ). t * (x / 2 / 2 ^ k)) two-pow-suc,
      )

-- An empty mask, by recursion on a bound of the other operand.
zero_mask : (bound a : ℕ) → a ≤ bound → (bit_and a 0 ≡ 0) × (bit_or a 0 ≡ a)
zero_mask bound zero h = (refl, refl)
zero_mask zero (suc a) h = absurd (omega arith)
zero_mask (suc bound) (suc a) h =
    let half = zero_mask bound (suc a / 2) (omega arith) in
    (omega (arith, and_digit (suc a) 0, half.0), omega (arith, or_digit (suc a) 0, half.1))

-- A mask of `k` low bits is the remainder by `2 ^ k`.
pub bit_and_low : (k a : ℕ) → bit_and a (2 ^ k - 1) ≡ a % 2 ^ k
bit_and_low zero a = (zero_mask a a (omega arith)).0 ∙ omega arith
bit_and_low (suc k) a =
    let odd : (2 ^ suc k - 1) / 2 ≡ 2 ^ k - 1 = omega (arith, two-pow-suc k) in
    let one : (2 ^ suc k - 1) % 2 ≡ 1 = omega (arith, two-pow-suc k, one-le-pow k 2) in
    and_digit a (2 ^ suc k - 1) ∙ rw (odd, one, bit_and_low k (a / 2)) (omega (arith, mod_suc k a))

-- A mask shifted up by `k` bits reads the digits from the `k`-th on.
pub bit_and_shift : (k a m : ℕ) → bit_and a (m * 2 ^ k) ≡ bit_and (a / 2 ^ k) m * 2 ^ k
bit_and_shift zero a m =
    let low : m * 1 ≡ m = omega arith in
    let whole : a / 1 ≡ a = omega arith in rw (low, whole) (omega arith)
bit_and_shift (suc k) a m = ground (
  arith,
  and_digit a (m * 2 ^ suc k),
  times_suc k m,
  times_suc k (bit_and (a / 2 ^ suc k) m),
  div_suc k a,
  bit_and_shift k (a / 2) m,
)

-- A mask that clears the low `k` bits of an `n`-bit word rounds down.
pub bit_and_high :
    (k n a : ℕ) → a / 2 ^ k < 2 ^ n → bit_and a ((2 ^ n - 1) * 2 ^ k) ≡ a / 2 ^ k * 2 ^ k
bit_and_high k n a h =
    rw (bit_and_shift k a (2 ^ n - 1), bit_and_low n (a / 2 ^ k), mod-eq_of_lt h) refl

-- `|` of a value that is clear below the `k`-th bit with one that fits below it.
pub bit_or_disjoint : (k hi lo : ℕ) → lo < 2 ^ k → bit_or (hi * 2 ^ k) lo ≡ hi * 2 ^ k + lo
bit_or_disjoint zero hi lo h =
    let none_below : lo ≡ 0 = omega arith in
    rw none_below ((zero_mask (hi * 1) (hi * 1) (omega arith)).1 ∙ omega arith)
bit_or_disjoint (suc k) hi lo h =
    let upper = bit_or_disjoint k hi (lo / 2) (omega (arith, two-pow-suc k)) in
    rw (times_suc k hi) (ground (arith, upper, or_digit (2 * (hi * 2 ^ k)) lo))

-- A bit of the two lowest that the mask sets is set.
pub or_bit : (x b : ℕ) → 0 < b → b < 4 → 0 < bit_or x b
or_bit x b some_bit low = omega (arith, or_digit x b, or_digit (x / 2) (b / 2))

-- `|` with a mask shifted up by `k` bits keeps the digits below.
pub bit_or_shift : (k a m : ℕ) → bit_or a (m * 2 ^ k) ≡ bit_or (a / 2 ^ k) m * 2 ^ k + a % 2 ^ k
bit_or_shift zero a m =
    let low : m * 1 ≡ m = omega arith in
    let whole : a / 1 ≡ a = omega arith in rw (low, whole) (omega arith)
bit_or_shift (suc k) a m = ground (
  arith,
  or_digit a (m * 2 ^ suc k),
  times_suc k m,
  times_suc k (bit_or (a / 2 ^ suc k) m),
  div_suc k a,
  mod_suc k a,
  bit_or_shift k (a / 2) m,
)

module _ (a : ℕ) where
  or_none : (x : ℕ) → bit_or x 0 ≡ x
  or_none x = (zero_mask x x (omega arith)).1

  pub bit_or_two : bit_or a 2 ≡ a / 4 * 4 + 2 + a % 2
  bit_or_two = omega (arith, or_digit a 2, or_digit (a / 2) 1, or_none (a / 2 / 2))

  pub bit_or_three : bit_or a 3 ≡ a / 4 * 4 + 3
  bit_or_three = omega (arith, or_digit a 3, or_digit (a / 2) 1, or_none (a / 2 / 2))

  -- The mask of 32 bits without bit 2.
  pub bit_and_but_two : bit_and a 0xFFFFFFFB ≡ a % 4 + a / 8 % 2 ^ 29 * 8
  bit_and_but_two = omega (
    arith,
    and_digit a 0xFFFFFFFB,
    and_digit (a / 2) 0x7FFFFFFD,
    and_digit (a / 2 / 2) 0x3FFFFFFE,
    bit_and_low 29 (a / 2 / 2 / 2),
  )
