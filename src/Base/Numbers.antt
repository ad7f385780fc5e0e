-- ===== src/Base/Numbers.antt =====
-- Small facts on native numbers that computed calls wait for.
use Prim.Native.Nat.{ℕ, suc, ◌+◌}
use mathlib.Core.Path.{◌≡◌}
use native.Mathlib.Omega.{arith}

pub add_one : (n : ℕ) → n + 1 ≡ suc n
add_one n = omega arith

pub add_suc : (n m : ℕ) → n + suc m ≡ suc n + m
add_suc n m = omega arith
