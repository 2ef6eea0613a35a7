-- ===== src/Base/Bits/Step.antt =====
-- The library defines `&` and `|` by a recursion on binary digits that carries fuel. Fuel beyond
-- the first operand changes nothing, which leaves one equation for the lowest digit.
use Prim.Native.Nat.{
  ℕ, zero, suc, ◌+◌, ◌*◌, ◌/◌, ◌%◌, ◌≤◌, min, max, digits, bitwise, bit_and, bit_or,
  bit_and-bitwise, bit_or-bitwise,
}
use mathlib.Core.Path.{◌≡◌, refl, ap, ◌∙◌}
use native.Mathlib.Decide.{dec_le}
use native.Mathlib.Omega.{arith}

module _ (rest : ℕ → ℕ) (op : ℕ → ℕ → ℕ) where
  one_more : (fuel a b : ℕ) → a ≤ fuel → digits rest op (suc fuel) a b ≡ digits rest op fuel a b
  one_more zero zero b h = refl
  one_more zero (suc a) b h = absurd (omega arith)
  one_more (suc fuel) zero b h = refl
  one_more (suc fuel) (suc a) b h =
      ap (λ t. t * 2 + op (suc a % 2) (b % 2)) (one_more fuel (suc a / 2) (b / 2) (omega arith))

  enough : (fuel a b : ℕ) → a ≤ fuel → digits rest op fuel a b ≡ bitwise rest op a b
  enough zero zero b h = refl
  enough zero (suc a) b h = absurd (omega arith)
  enough (suc fuel) a b h = elim (dec_le a fuel) [
    | yes below ↦ one_more fuel a b below ∙ enough fuel a b below
    | no top ↦ let same : a ≡ suc fuel = omega arith in rw same
  ]

  last_digit :
      (a b : ℕ)
      → bitwise rest op (suc a) b ≡ bitwise rest op (suc a / 2) (b / 2) * 2 + op (suc a % 2) (b % 2)
  last_digit a b =
      ap (λ t. t * 2 + op (suc a % 2) (b % 2)) (enough a (suc a / 2) (b / 2) (omega arith))

pub and_digit : (x y : ℕ) → bit_and x y ≡ min (x % 2) (y % 2) + 2 * bit_and (x / 2) (y / 2)
and_digit zero y = simp bit_and-bitwise (omega arith)
and_digit (suc x) y = simp bit_and-bitwise (omega (arith, last_digit (λ d. 0) min x y))

pub or_digit : (x y : ℕ) → bit_or x y ≡ max (x % 2) (y % 2) + 2 * bit_or (x / 2) (y / 2)
or_digit zero y = simp bit_or-bitwise (omega arith)
or_digit (suc x) y = simp bit_or-bitwise (omega (arith, last_digit (λ d. d) max x y))
