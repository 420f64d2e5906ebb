-- ===== src/Common/Bits.antt =====
-- Bitwise operations on the native numbers: when an exclusive or, and an or, come to nothing.
use Prim.Native.Nat.{
  ℕ, zero, suc, ◌/◌, ◌%◌, ◌≤◌, max, digits, differ, bit_or, bit_xor, bit_or-bitwise,
  bit_xor-bitwise,
}
use mathlib.Core.Path.{◌≡◌}
use mathlib.Core.Logic.{◌↔◌}
use native.Mathlib.Omega.{arith}

abbrev xor_digits : ℕ → ℕ → ℕ → ℕ
xor_digits left a b = digits (λ rest. rest) differ left a b

abbrev or_digits : ℕ → ℕ → ℕ → ℕ
or_digits left a b = digits (λ rest. rest) max left a b

differ-eq-zero : (x y : ℕ) → (differ x y ≡ 0) ↔ (x ≡ y)
differ-eq-zero zero zero = ground arith
differ-eq-zero zero (suc y) = ground arith
differ-eq-zero (suc x) zero = ground arith
differ-eq-zero (suc x) (suc y) = ground (arith, differ-eq-zero x y)

xor_digits-eq-zero : (left a b : ℕ) → a ≤ left → (xor_digits left a b ≡ 0) ↔ (a ≡ b)
xor_digits-eq-zero zero zero b h = ground arith
xor_digits-eq-zero zero (suc a) b h = absurd (omega arith)
xor_digits-eq-zero (suc left) zero b h = ground arith
xor_digits-eq-zero (suc left) (suc a) b h = ground (
  arith,
  xor_digits-eq-zero left (suc a / 2) (b / 2) (omega arith),
  differ-eq-zero (suc a % 2) (b % 2),
)

or_digits-eq-zero : (left a b : ℕ) → a ≤ left → (or_digits left a b ≡ 0) ↔ ((a ≡ 0) × (b ≡ 0))
or_digits-eq-zero zero zero b h = ground arith
or_digits-eq-zero zero (suc a) b h = absurd (omega arith)
or_digits-eq-zero (suc left) zero b h = ground arith
or_digits-eq-zero (suc left) (suc a) b h =
    ground (arith, or_digits-eq-zero left (suc a / 2) (b / 2) (omega arith))

pub bit_xor-eq-zero : (a b : ℕ) → (bit_xor a b ≡ 0) ↔ (a ≡ b)
bit_xor-eq-zero a b = ground (arith, bit_xor-bitwise a b, xor_digits-eq-zero a a b (omega arith))

pub bit_or-eq-zero : (a b : ℕ) → (bit_or a b ≡ 0) ↔ ((a ≡ 0) × (b ≡ 0))
bit_or-eq-zero a b = ground (arith, bit_or-bitwise a b, or_digits-eq-zero a a b (omega arith))
