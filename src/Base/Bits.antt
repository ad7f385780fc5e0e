-- ===== src/Base/Bits.antt =====
-- The bit laws behind the byte loops `acc |= x` and `diff |= a ^ b`, at every width.
use Prim.Native.Nat.{
  ℕ, zero, suc, ◌+◌, ◌-◌, ◌*◌, ◌/◌, ◌%◌, ◌≤◌, max, bit_or, bit_xor, digits, differ, bit_or-bitwise,
  bit_xor-bitwise,
}
use mathlib.Core.Path.{◌≡◌, refl}
use native.Mathlib.Omega.{arith}

abbrev or_digits : ℕ → ℕ → ℕ → ℕ
or_digits n a b = digits (λ b. b) max n a b

-- More rounds than the first number has digits change nothing.
or_digits_rounds : (n m a b : ℕ) → a ≤ n → a ≤ m → or_digits n a b ≡ or_digits m a b
or_digits_rounds zero zero a b p q = refl
or_digits_rounds zero (suc m) zero b p q = refl
or_digits_rounds zero (suc m) (suc a) b p q = absurd (omega arith)
or_digits_rounds (suc n) zero zero b p q = refl
or_digits_rounds (suc n) zero (suc a) b p q = absurd (omega arith)
or_digits_rounds (suc n) (suc m) zero b p q = refl
or_digits_rounds (suc n) (suc m) (suc a) b p q =
    omega (arith, or_digits_rounds n m (suc a / 2) (b / 2) (omega arith) (omega arith))

abbrev xor_digits : ℕ → ℕ → ℕ → ℕ
xor_digits n a b = digits (λ b. b) differ n a b

xor_digits_rounds : (n m a b : ℕ) → a ≤ n → a ≤ m → xor_digits n a b ≡ xor_digits m a b
xor_digits_rounds zero zero a b p q = refl
xor_digits_rounds zero (suc m) zero b p q = refl
xor_digits_rounds zero (suc m) (suc a) b p q = absurd (omega arith)
xor_digits_rounds (suc n) zero zero b p q = refl
xor_digits_rounds (suc n) zero (suc a) b p q = absurd (omega arith)
xor_digits_rounds (suc n) (suc m) zero b p q = refl
xor_digits_rounds (suc n) (suc m) (suc a) b p q =
    ground (arith, xor_digits_rounds n m (suc a / 2) (b / 2) (omega arith) (omega arith))

zero-bit_or : (b : ℕ) → bit_or 0 b ≡ b
zero-bit_or b = bit_or-bitwise 0 b

zero-bit_xor : (b : ℕ) → bit_xor 0 b ≡ b
zero-bit_xor b = bit_xor-bitwise 0 b

pub bit_or_step : (a b : ℕ) → bit_or a b ≡ bit_or (a / 2) (b / 2) * 2 + max (a % 2) (b % 2)
bit_or_step zero b = omega (arith, zero-bit_or b, zero-bit_or (b / 2))
bit_or_step (suc a) b = omega (
  arith,
  bit_or-bitwise (suc a) b,
  bit_or-bitwise (suc a / 2) (b / 2),
  or_digits_rounds a (suc a / 2) (suc a / 2) (b / 2) (omega arith) (omega arith),
)

differ-eq-sub : (x y : ℕ) → differ x y ≡ (x - y) + (y - x)
differ-eq-sub zero y = omega arith
differ-eq-sub (suc x) zero = omega arith
differ-eq-sub (suc x) (suc y) = omega (arith, differ-eq-sub x y)

bit_xor_step :
    (a b : ℕ) → bit_xor a b ≡ bit_xor (a / 2) (b / 2) * 2 + ((a % 2 - b % 2) + (b % 2 - a % 2))
bit_xor_step zero b = omega (arith, zero-bit_xor b, zero-bit_xor (b / 2))
bit_xor_step (suc a) b = omega (
  arith,
  bit_xor-bitwise (suc a) b,
  bit_xor-bitwise (suc a / 2) (b / 2),
  differ-eq-sub (suc a % 2) (b % 2),
  xor_digits_rounds a (suc a / 2) (suc a / 2) (b / 2) (omega arith) (omega arith),
)

bit_or-zero_rounds : (n a b : ℕ) → a ≤ n → bit_or a b ≡ 0 → (a ≡ 0) × (b ≡ 0)
bit_or-zero_rounds n zero b h e = omega (arith, zero-bit_or b)
bit_or-zero_rounds zero (suc a) b h e = absurd (omega arith)
bit_or-zero_rounds (suc n) (suc a) b h e =
    let half : bit_or (suc a / 2) (b / 2) ≡ 0 = omega (arith, bit_or_step (suc a) b) in
    omega
      (arith, bit_or_step (suc a) b, bit_or-zero_rounds n (suc a / 2) (b / 2) (omega arith) half)

-- `a | b` is 0 only where both are.
pub bit_or_zero : (a b : ℕ) → bit_or a b ≡ 0 → (a ≡ 0) × (b ≡ 0)
bit_or_zero a b e = bit_or-zero_rounds a a b (omega arith) e

bit_xor-zero_rounds : (n a b : ℕ) → a ≤ n → bit_xor a b ≡ 0 → a ≡ b
bit_xor-zero_rounds n zero b h e = omega (arith, zero-bit_xor b)
bit_xor-zero_rounds zero (suc a) b h e = absurd (omega arith)
bit_xor-zero_rounds (suc n) (suc a) b h e =
    let half : bit_xor (suc a / 2) (b / 2) ≡ 0 = omega (arith, bit_xor_step (suc a) b) in
    omega
      (arith, bit_xor_step (suc a) b, bit_xor-zero_rounds n (suc a / 2) (b / 2) (omega arith) half)

-- `a ^ b` is 0 only where they are equal.
pub bit_xor_zero : (a b : ℕ) → bit_xor a b ≡ 0 → a ≡ b
bit_xor_zero a b e = bit_xor-zero_rounds a a b (omega arith) e

bit_xor-self_rounds : (n a : ℕ) → a ≤ n → bit_xor a a ≡ 0
bit_xor-self_rounds n zero h = zero-bit_xor 0
bit_xor-self_rounds zero (suc a) h = absurd (omega arith)
bit_xor-self_rounds (suc n) (suc a) h =
    omega (arith, bit_xor_step (suc a) (suc a), bit_xor-self_rounds n (suc a / 2) (omega arith))

pub bit_xor_self : (a : ℕ) → bit_xor a a ≡ 0
bit_xor_self a = bit_xor-self_rounds a a (omega arith)

pub bit_or-zero_zero : bit_or 0 0 ≡ 0
bit_or-zero_zero = refl
