-- ===== src/Base/Runs.antt =====
-- A test that holds of all numbers below a bound, by a run.
use Prim.Native.Nat.{ℕ, zero, suc, ◌<◌}
use mathlib.Core.Path.{◌≡◌}
use mathlib.Core.Logic.{inl, inr}
use mathlib.Core.Bool.{Bool, true, ◌&&◌}
use native.Mathlib.Omega.{arith}
use meshpay_v.Base.Tests.{◌==◌, Bool-cases}

abbrev pub for_all_below : ℕ → (ℕ → Bool) → Bool
for_all_below zero p = true
for_all_below (suc n) p = p n && for_all_below n p

pub for_all_below_lem :
    (n : ℕ) (p : ℕ → Bool) (k : ℕ) → for_all_below n p ≡ true → k < n → p k ≡ true
for_all_below_lem zero p k h l = absurd (omega arith)
for_all_below_lem (suc n) p k h l = elim (Bool-cases (k == n)) [
  | inl last ↦ let e : k ≡ n = ground arith in rw e (ground arith)
  | inr before ↦ for_all_below_lem n p k (ground arith) (ground arith)
]
