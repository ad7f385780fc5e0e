-- ===== src/Currency/Order.antt =====
-- The order of a window's transactions, for `meshpay_currency_get_balance` and
-- `meshpay_currency_total_minted` (components/currency/currency.c).
use mathlib.Core.Logic.{∥∥₁_elim}
use mathlib.Core.List.{Perm, Permᴰ}
use native.Mathlib.Nat.{ℕ_set}
use meshpay_v.Base.{ℕ, ◌+◌, ◌≡◌, refl, ap, ap₂, ◌∙◌, List, Bytes, arith}
use meshpay_v.Tx.{Tx}
use meshpay_v.Dag.{Dag, window}
use meshpay_v.Currency.{Config}
use meshpay_v.Currency.Ledger.{get_balance, total_minted}
use meshpay_v.Currency.Net.{total, credit, debit, get_balance-eq-net}
use meshpay_v.Currency.Supply.{minted, total_minted-eq-sum, checkpoint-base_supply}
use meshpay_v.Currency.Solvency.{base_balance-merge}

total-Permᴰ : (f : Tx → ℕ) {xs ys : List Tx} → Permᴰ xs ys → total f xs ≡ total f ys
total-Permᴰ f Permᴰ.nil = refl
total-Permᴰ f (Permᴰ.cons e h) = ap₂ ◌+◌ (ap f e) (total-Permᴰ f h)
total-Permᴰ f (Permᴰ.swap e e') = omega (arith, ap f e, ap f e')
total-Permᴰ f (Permᴰ.trans h k) = total-Permᴰ f h ∙ total-Permᴰ f k

pub total-perm : (f : Tx → ℕ) {xs ys : List Tx} → Perm xs ys → total f xs ≡ total f ys
total-perm f {xs} {ys} h = ∥∥₁_elim h (ℕ_set (total f xs) (total f ys)) (total-Permᴰ f)

-- Two windows over one checkpoint that hold the same transactions in any order give every account
-- the same balance.
pub get_balance-perm :
    (c : Config) (d e : Dag) (account : Bytes)
    → e.checkpoint ≡ d.checkpoint
    → Perm (window e) (window d)
    → get_balance c e account ≡ get_balance c d account
get_balance-perm c d e account cp h = omega (
  arith,
  get_balance-eq-net c e account,
  get_balance-eq-net c d account,
  base_balance-merge c d e account cp,
  total-perm (credit c account) h,
  total-perm (debit c account) h,
)

-- Two windows over one checkpoint that hold the same transactions in any order have the same minted
-- total.
pub total_minted-perm :
    (c : Config) (d e : Dag)
    → e.checkpoint ≡ d.checkpoint
    → Perm (window e) (window d)
    → total_minted c e ≡ total_minted c d
total_minted-perm c d e cp h = omega (
  arith,
  total_minted-eq-sum c e,
  total_minted-eq-sum c d,
  checkpoint-base_supply c d e cp,
  total-perm (minted c) h,
)
