-- ===== src/Base/Arrays.antt =====
-- Byte arrays: the zero test and the constant-time comparison that the components repeat, and
-- `memcmp`. A fixed-size array is a list; the loops stop at its end.
use Prim.Native.Nat.{ℕ, bit_or, bit_xor}
use mathlib.Core.Path.{◌≡◌, refl, ap₂}
use mathlib.Core.Logic.{◌↔◌}
use mathlib.Core.Bool.{Bool, true, false, ◌&&◌}
use mathlib.Core.List.{List, [], ◌∷◌}
use native.Mathlib.Omega.{arith}
use meshpay_v.Base.Tests.{◌==◌, ==_iff}
use meshpay_v.Base.Lists.{All, replicate}
use meshpay_v.Base.Bits.{bit_or_zero, bit_xor_zero, bit_xor_self, bit_or-zero_zero}

abbrev pub Bytes : Type 0
Bytes = List ℕ

-- `memset(p, 0, n)`
unfoldable pub zeros : ℕ → Bytes
zeros n = replicate n 0

-- `acc |= data[i]`
or_loop : ℕ → Bytes → ℕ
or_loop acc [] = acc
or_loop acc (b ∷ bs) = or_loop (bit_or acc b) bs

-- `bytes_zero`, `hash_is_zero`, `account_zero`, `destination_hash_zero`
unfoldable pub bytes_zero : Bytes → Bool
unfolding or_loop
bytes_zero bs = or_loop 0 bs == 0

-- `diff |= a[i] ^ b[i]`. Arrays of two sizes are never compared; they count as different here.
diff_loop : ℕ → Bytes → Bytes → ℕ
diff_loop acc [] [] = acc
diff_loop acc (a ∷ as') (b ∷ bs) = diff_loop (bit_or acc (bit_xor a b)) as' bs
diff_loop acc _ _ = 1

-- `rns_crypto_constant_equal`
unfoldable pub constant_equal : Bytes → Bytes → Bool
unfolding diff_loop
constant_equal a b = diff_loop 0 a b == 0

-- `memcmp(a, b, n) == 0`
unfoldable pub mem_equal : Bytes → Bytes → Bool
mem_equal [] [] = true
mem_equal (a ∷ as') (b ∷ bs) = a == b && mem_equal as' bs
mem_equal _ _ = false

or_loop_zero : (acc : ℕ) (bs : Bytes) → or_loop acc bs ≡ 0 → (acc ≡ 0) × All (λ b. b ≡ 0) bs
unfolding or_loop
or_loop_zero acc [] e = (e, tt)
or_loop_zero acc (b ∷ bs) e =
    let (here, rest) = or_loop_zero (bit_or acc b) bs e in
    let (a0, b0) = bit_or_zero acc b here in (a0, (b0, rest))

or_loop-zeros : (bs : Bytes) → All (λ b. b ≡ 0) bs → or_loop 0 bs ≡ 0
unfolding or_loop
or_loop-zeros [] h = refl
or_loop-zeros (b ∷ bs) (e, h) = rw (e, bit_or-zero_zero) (or_loop-zeros bs h)

-- The accumulating loop finds exactly the arrays of zeros.
pub bytes_zero_iff : (bs : Bytes) → (bytes_zero bs ≡ true) ↔ All (λ b. b ≡ 0) bs
unfolding bytes_zero
bytes_zero_iff bs =
    (λ e. (or_loop_zero 0 bs ((==_iff _ 0).0 e)).1, λ h. (==_iff _ 0).1 (or_loop-zeros bs h))

diff_loop_zero : (acc : ℕ) (a b : Bytes) → diff_loop acc a b ≡ 0 → (acc ≡ 0) × (a ≡ b)
unfolding diff_loop
diff_loop_zero acc [] [] e = (e, refl)
diff_loop_zero acc [] (b ∷ bs) e = cc
diff_loop_zero acc (a ∷ as') [] e = cc
diff_loop_zero acc (a ∷ as') (b ∷ bs) e =
    let (here, rest) = diff_loop_zero (bit_or acc (bit_xor a b)) as' bs e in
    let (acc0, x0) = bit_or_zero acc (bit_xor a b) here in
    (acc0, ap₂ ◌∷◌ (bit_xor_zero a b x0) rest)

diff_loop_self : (a : Bytes) → diff_loop 0 a a ≡ 0
unfolding diff_loop
diff_loop_self [] = refl
diff_loop_self (a ∷ as') = rw (bit_xor_self, bit_or-zero_zero) (diff_loop_self as')

-- The constant-time comparison decides equality.
pub constant_equal_iff : (a b : Bytes) → (constant_equal a b ≡ true) ↔ (a ≡ b)
unfolding constant_equal
constant_equal_iff a b = (
  λ e. (diff_loop_zero 0 a b ((==_iff _ 0).0 e)).1,
  λ h. (==_iff _ 0).1 (rw h (diff_loop_self b)),
)

mem_equal_eq : (a b : Bytes) → mem_equal a b ≡ true → a ≡ b
unfolding mem_equal
mem_equal_eq [] [] h = refl
mem_equal_eq [] (b ∷ bs) h = cc
mem_equal_eq (a ∷ as') [] h = cc
mem_equal_eq (a ∷ as') (b ∷ bs) h = ground (arith, mem_equal_eq as' bs)

mem_equal_self : (a : Bytes) → mem_equal a a ≡ true
unfolding mem_equal
mem_equal_self [] = refl
mem_equal_self (a ∷ as') = ground (arith, mem_equal_self as')

pub mem_equal_iff : (a b : Bytes) → (mem_equal a b ≡ true) ↔ (a ≡ b)
mem_equal_iff a b = (mem_equal_eq a b, λ h. rw h (mem_equal_self b))

-- Both comparisons are one function.
pub constant_equal-eq-mem_equal : (a b : Bytes) → constant_equal a b ≡ mem_equal a b
constant_equal-eq-mem_equal a b = ground (arith, constant_equal_iff a b, mem_equal_iff a b)
