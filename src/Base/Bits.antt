-- ===== src/Base/Bits.antt =====
-- When an exclusive or, and an or, of two numbers is zero.
use Prim.Native.Nat.{
  ℕ, zero, suc, ◌+◌, ◌/◌, ◌%◌, ◌≤◌, max, differ, digits, bit_xor, bit_or, bit_xor-bitwise,
  bit_or-bitwise,
}
use mathlib.Core.Path.{◌≡◌, refl}
use native.Mathlib.Omega.{arith}

differ_zero : (x y : ℕ) → differ x y ≡ 0 → x ≡ y
differ_zero zero y h = omega (arith, h)
differ_zero (suc x) zero h = omega (arith, h)
differ_zero (suc x) (suc y) h = omega (arith, differ_zero x y h)

differ_same : (x : ℕ) → differ x x ≡ 0
differ_same zero = refl
differ_same (suc x) = differ_same x

xor_digits_zero : (n a b : ℕ) → a ≤ n → digits (λ b. b) differ n a b ≡ 0 → a ≡ b
xor_digits_zero zero a b p h = omega (arith, h)
xor_digits_zero (suc n) zero b p h = omega (arith, h)
xor_digits_zero (suc n) (suc a) b p h = omega (
  arith,
  h,
  xor_digits_zero n (suc a / 2) (b / 2) (omega arith) (omega (arith, h)),
  differ_zero (suc a % 2) (b % 2) (omega (arith, h)),
)

xor_digits_same : (n a : ℕ) → a ≤ n → digits (λ b. b) differ n a a ≡ 0
xor_digits_same zero a p = omega arith
xor_digits_same (suc n) zero p = refl
xor_digits_same (suc n) (suc a) p =
    omega (arith, xor_digits_same n (suc a / 2) (omega arith), differ_same (suc a % 2))

or_digits_zero : (n a b : ℕ) → a ≤ n → digits (λ b. b) max n a b ≡ 0 → a + b ≡ 0
or_digits_zero zero a b p h = omega (arith, h)
or_digits_zero (suc n) zero b p h = omega (arith, h)
or_digits_zero (suc n) (suc a) b p h =
    omega (arith, h, or_digits_zero n (suc a / 2) (b / 2) (omega arith) (omega (arith, h)))

pub bit_xor_zero : (a b : ℕ) → bit_xor a b ≡ 0 → a ≡ b
bit_xor_zero a b h = xor_digits_zero a a b (omega arith) (omega (arith, h, bit_xor-bitwise a b))

pub bit_xor_same : (a : ℕ) → bit_xor a a ≡ 0
bit_xor_same a = omega (arith, bit_xor-bitwise a a, xor_digits_same a a (omega arith))

pub bit_or_zero : (a b : ℕ) → bit_or a b ≡ 0 → a + b ≡ 0
bit_or_zero a b h = or_digits_zero a a b (omega arith) (omega (arith, h, bit_or-bitwise a b))
