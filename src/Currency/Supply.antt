-- ===== src/Currency/Supply.antt =====
-- The minted total as a sum, and the cap on it (components/currency/currency.c).
use meshpay_v.Base.{
  ℕ, ◌+◌, ◌≤◌, ◌<◌, ◌≡◌, refl, ap, ◌⊎◌, ◌||◌, inl, inr, not, ◌&&◌, List, [], ◌∷◌, ◌++◌, arith, ◌==◌,
  if◌then◌else◌, constant_equal,
}
use meshpay_v.Tx.{Tx, transfer, mint, claim}
use meshpay_v.Checkpoint.{table}
use meshpay_v.Crypto.{Provider}
use meshpay_v.Dag.{Dag, window, merge_tx}
use meshpay_v.Dag.Invariant.{merge_tx-window}
use meshpay_v.Currency.{Config, CurrencyResult, accepted, is_mint_authority, has_checkpoint}
use meshpay_v.Currency.Ledger.{sum_balances, mint_step, mint_loop, total_minted}
use meshpay_v.Currency.Net.{total}
use meshpay_v.Currency.Rules.{check_supply, check_signature, and_then, validate_tx}

-- What a transaction adds to the supply.
abbrev pub minted : Config → Tx → ℕ
minted c t =
    if t.currency_id == c.currency_id
      && (t.kind == mint && is_mint_authority c t.from
          || t.kind == claim && constant_equal t.from t.to && t.amount == c.initial_credit)
    then t.amount
    else 0

-- What circulated at the checkpoint.
abbrev pub base_supply : Config → Dag → ℕ
base_supply c d = if has_checkpoint c d then sum_balances 0 (table d.checkpoint) else 0

mint_step_lem : (c : Config) (tot : ℕ) (t : Tx) → mint_step c tot t ≡ tot + minted c t
unfolding mint_step
mint_step_lem c tot t = ground arith

mint_loop_lem :
    (c : Config) (tot : ℕ) (xs : List Tx) → mint_loop c tot xs ≡ tot + total (minted c) xs
unfolding mint_loop
mint_loop_lem c tot [] = omega arith
mint_loop_lem c tot (t ∷ xs) =
    omega (arith, mint_loop_lem c (mint_step c tot t) xs, mint_step_lem c tot t)

-- The minted total is what the checkpoint holds and what the window's mints and claims add.
pub total_minted-eq-sum :
    (c : Config) (d : Dag) → total_minted c d ≡ base_supply c d + total (minted c) (window d)
unfolding total_minted
total_minted-eq-sum c d = mint_loop_lem c (base_supply c d) (window d)

pub total-append : (f : Tx → ℕ) (xs ys : List Tx) → total f (xs ++ ys) ≡ total f xs + total f ys
total-append f [] ys = omega arith
total-append f (x ∷ xs) ys = omega (arith, total-append f xs ys)

-- An accepted transaction that mints fits under the cap.
check_supply_lem :
    (c : Config) (d : Dag) (t : Tx)
    → check_supply c d t ≡ accepted
    → 0 < c.max_supply
    → total_minted c d + t.amount ≤ c.max_supply
unfolding check_supply
check_supply_lem c d t h cap = ground arith

and_then_accepted :
    (r s : CurrencyResult) → and_then r s ≡ accepted → (r ≡ accepted) × (s ≡ accepted)
and_then_accepted accepted s h = (refl, h)
and_then_accepted _ s h = absurd (cc)

foreign-minted : (c : Config) (t : Tx) → t.kind ≡ transfer → minted c t ≡ 0
foreign-minted c t k = rw k (ground arith)

validate_tx-supply :
    (p : Provider) (c : Config) (d : Dag) (t : Tx)
    → validate_tx p c d t ≡ accepted
    → (minted c t ≡ 0) ⊎ (check_supply c d t ≡ accepted)
unfolding validate_tx
validate_tx-supply p c d t h = ground (
  arith,
  and_then_accepted (if c.has_descriptor then check_signature p c.founder_public t else accepted)
      (check_supply c d t),
)

pub checkpoint-base_supply :
    (c : Config) (d e : Dag) → e.checkpoint ≡ d.checkpoint → base_supply c e ≡ base_supply c d
checkpoint-base_supply c d e same =
    ap
      (λ cp.
        if not (cp.generation == 0) && cp.currency_id == c.currency_id
        then sum_balances 0 (table cp)
        else 0)
      same

-- What a merge adds to the minted total.
pub total_minted-merge :
    (c : Config) (d : Dag) (t : Tx)
    → total_minted c (merge_tx d t).0 ≤ total_minted c d + minted c t
total_minted-merge c d t = elim (merge_tx-window d t).1 [
  | inr (_, same) ↦ rw same (omega arith)
  | inl (_, w, cp) ↦ omega (
    arith,
    total_minted-eq-sum c (merge_tx d t).0,
    total_minted-eq-sum c d,
    checkpoint-base_supply c d (merge_tx d t).0 cp,
    ap (total (minted c)) w,
    total-append (minted c) (window d) (t ∷ []),
  )
]

minted-le : (c : Config) (t : Tx) → minted c t ≤ t.amount
minted-le c t = ground arith

-- Merging a transaction that `meshpay_currency_validate_tx` accepts keeps the minted total under
-- the cap of the currency, where it has one.
pub supply_capped :
    (p : Provider) (c : Config) (d : Dag) (t : Tx)
    → 0 < c.max_supply
    → total_minted c d ≤ c.max_supply
    → validate_tx p c d t ≡ accepted
    → total_minted c (merge_tx d t).0 ≤ c.max_supply
supply_capped p c d t cap before h = elim (validate_tx-supply p c d t h) [
  | inl none ↦ omega (arith, total_minted-merge c d t)
  | inr room ↦
      omega (arith, total_minted-merge c d t, minted-le c t, check_supply_lem c d t room cap)
]
