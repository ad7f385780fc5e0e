-- ===== src/Base/Shift.antt =====
-- A byte or-ed behind a shifted number, and the bytes of a number.
use Prim.Native.Nat.{ℕ, zero, suc, ◌+◌, ◌*◌, ◌/◌, ◌^◌, ◌≤◌, ◌<◌, bit_or}
use mathlib.Core.Path.{◌≡◌, refl, ap, ◌∙◌}
use mathlib.Core.Logic.{◌⊎◌, inl, inr}
use native.Mathlib.Omega.{arith}
use meshpay_v.Base.Bits.{bit_or_step}

bit_or-zero_rounds_right : (n x : ℕ) → x ≤ n → bit_or x 0 ≡ x
bit_or-zero_rounds_right zero x h = let e : x ≡ 0 = omega arith in rw e refl
bit_or-zero_rounds_right (suc n) zero h = refl
bit_or-zero_rounds_right (suc n) (suc x) h =
    omega (arith, bit_or_step (suc x) 0, bit_or-zero_rounds_right n (suc x / 2) (omega arith))

abbrev doubled : ℕ → ℕ → ℕ
doubled zero x = x
doubled (suc n) x = doubled n x * 2

bit_or-doubled : (n x b : ℕ) → b < doubled n 1 → bit_or (doubled n x) b ≡ doubled n x + b
bit_or-doubled zero x b h =
    let e : b ≡ 0 = omega arith in rw e (bit_or-zero_rounds_right x x (omega arith) ∙ omega arith)
bit_or-doubled (suc n) x b h =
    let half : doubled n x * 2 / 2 ≡ doubled n x = omega arith in
    let whole = bit_or-doubled n x (b / 2) (omega arith) in
    omega (arith, bit_or_step (doubled n x * 2) b, ap (λ (k : ℕ). bit_or k (b / 2)) half, whole)

-- `(value << 8) | byte`
pub bit_or_byte : (x b : ℕ) → b < 256 → bit_or (x * 256) b ≡ x * 256 + b
bit_or_byte x b h =
    let e : x * 256 ≡ doubled 8 x = omega arith in rw e (bit_or-doubled 8 x b (omega arith))

-- The number without its last `n` bytes.
abbrev pub shift_right : ℕ → ℕ → ℕ
shift_right zero v = v
shift_right (suc n) v = shift_right n v / 256

pub shift_right-le : (n v : ℕ) → shift_right n v ≤ v
shift_right-le zero v = omega arith
shift_right-le (suc n) v = omega (arith, shift_right-le n v)

below_8 :
    (n : ℕ) → n < 8 → (n ≡ 0) ⊎ (n ≡ 1) ⊎ (n ≡ 2) ⊎ (n ≡ 3) ⊎ (n ≡ 4) ⊎ (n ≡ 5) ⊎ (n ≡ 6) ⊎ (n ≡ 7)
below_8 n h = omega arith

-- `value >> 8 * n`
pub div-shift_right : (n v : ℕ) → n < 8 → v / 2 ^ (8 * n) ≡ shift_right n v
div-shift_right n v h = elim (below_8 n h) [
  | inl e ↦ rw e (omega arith)
  | inr (inl e) ↦ rw e (omega arith)
  | inr (inr (inl e)) ↦ rw e (omega arith)
  | inr (inr (inr (inl e))) ↦ rw e (omega arith)
  | inr (inr (inr (inr (inl e)))) ↦ rw e (omega arith)
  | inr (inr (inr (inr (inr (inl e))))) ↦ rw e (omega arith)
  | inr (inr (inr (inr (inr (inr (inl e)))))) ↦ rw e (omega arith)
  | inr (inr (inr (inr (inr (inr (inr e)))))) ↦ rw e (omega arith)
]
