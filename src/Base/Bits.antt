-- ===== src/Base/Bits.antt =====
-- Or and exclusive or of binary digits, at zero.
use Prim.Native.Nat.{
  ℕ, zero, suc, ◌/◌, ◌%◌, ◌≤◌, max, bit_or, bit_xor, bit_or-bitwise, bit_xor-bitwise, digits,
  differ,
}
use mathlib.Core.Path.{◌≡◌}
use mathlib.Core.Logic.{◌↔◌}
use native.Mathlib.Omega.{arith}

differ_iff : (x y : ℕ) → (differ x y ≡ 0) ↔ (x ≡ y)
differ_iff zero y = ground arith
differ_iff (suc x) zero = ground arith
differ_iff (suc x) (suc y) = ground (arith, differ_iff x y)

max_iff : (x y : ℕ) → (max x y ≡ 0) ↔ ((x ≡ 0) × (y ≡ 0))
max_iff x y = ground arith

digits_or_iff : (n a b : ℕ) → a ≤ n → (digits (λ b. b) max n a b ≡ 0) ↔ ((a ≡ 0) × (b ≡ 0))
digits_or_iff zero a b h = ground arith
digits_or_iff (suc n) zero b h = ground arith
digits_or_iff (suc n) (suc a) b h =
    ground (arith, digits_or_iff n (suc a / 2) (b / 2) (omega arith), max_iff (suc a % 2) (b % 2))

digits_xor_iff : (n a b : ℕ) → a ≤ n → (digits (λ b. b) differ n a b ≡ 0) ↔ (a ≡ b)
digits_xor_iff zero a b h = ground arith
digits_xor_iff (suc n) zero b h = ground arith
digits_xor_iff (suc n) (suc a) b h =
    ground
      (arith, digits_xor_iff n (suc a / 2) (b / 2) (omega arith), differ_iff (suc a % 2) (b % 2))

pub bit_or_iff : (a b : ℕ) → (bit_or a b ≡ 0) ↔ ((a ≡ 0) × (b ≡ 0))
bit_or_iff a b = rw (bit_or-bitwise a b) (digits_or_iff a a b (omega arith))

pub bit_xor_iff : (a b : ℕ) → (bit_xor a b ≡ 0) ↔ (a ≡ b)
bit_xor_iff a b = rw (bit_xor-bitwise a b) (digits_xor_iff a a b (omega arith))
