-- ===== src/Currency/Ledger.antt =====
-- components/currency/currency.c: `meshpay_currency_total_minted` and
-- `meshpay_currency_get_balance`. The sums stay far inside `uint64_t` and `int64_t`.
use meshpay_v.Base.{
  ℕ, ◌+◌, Bool, false, not, ◌&&◌, List, [], ◌∷◌, Option, none, some, Bytes, ltb, ◌==◌,
  if◌then◌else◌, get_or, constant_equal, ℤ, pos, pos_part, ltb_ℤ, ◌+ℤ◌, ◌-ℤ◌,
}
use meshpay_v.Tx.{Tx, transfer, mint, claim}
use meshpay_v.Checkpoint.{Account, find_account, table}
use meshpay_v.Dag.{Dag, window}
use meshpay_v.Currency.{Config, is_mint_authority, has_checkpoint}

abbrev pub u32_max : ℕ
u32_max = 0xffffffff

-- `total += accounts[i].balance`
unfoldable pub sum_balances : ℕ → List Account → ℕ
sum_balances total [] = total
sum_balances total (a ∷ rest) = sum_balances (total + a.balance) rest

-- One round of the loop over the window: what a transaction adds to the supply.
unfoldable pub mint_step : Config → ℕ → Tx → ℕ
mint_step c total t =
    if not (t.currency_id == c.currency_id)
    then total
    else if t.kind == mint && is_mint_authority c t.from
    then total + t.amount
    else if t.kind == claim && constant_equal t.from t.to && t.amount == c.initial_credit
    then total + t.amount
    else total

unfoldable pub mint_loop : Config → ℕ → List Tx → ℕ
mint_loop c total [] = total
mint_loop c total (t ∷ rest) = mint_loop c (mint_step c total t) rest

-- `meshpay_currency_total_minted`
unfoldable pub total_minted : Config → Dag → ℕ
unfolding mint_loop
total_minted c d =
    mint_loop c (if has_checkpoint c d then sum_balances 0 (table d.checkpoint) else 0) (window d)

-- `fee_recipient`
unfoldable pub fee_recipient : Config → Option Bytes
fee_recipient c =
    if c.mint_authority_count == 0 then none else some (get_or c.mint_authorities 0 [])

abbrev pub is_fee_recipient : Config → Bytes → Bool
is_fee_recipient c account = elim (fee_recipient c) [
  | none ↦ false
  | some r ↦ constant_equal r account
]

-- The three tests that a transfer passes through.
unfoldable pub transfer_step : Config → Bytes → ℤ → Tx → ℤ
transfer_step c account acc t =
    let credited = if constant_equal t.to account then acc +ℤ pos t.amount else acc in
    let debited =
      if constant_equal t.from account then credited -ℤ pos (t.amount + t.fee) else credited in
    if ltb 0 t.fee && is_fee_recipient c account then debited +ℤ pos t.fee else debited

-- One round of the loop over the window.
unfoldable pub balance_step : Config → Bytes → ℤ → Tx → ℤ
balance_step c account acc t =
    if not (t.currency_id == c.currency_id)
    then acc
    else if t.kind == mint
    then if is_mint_authority c t.from && constant_equal t.to account
      then acc +ℤ pos t.amount
      else acc
    else if t.kind == claim
    then if constant_equal t.from t.to
        && constant_equal t.to account
        && t.amount == c.initial_credit
      then acc +ℤ pos t.amount
      else acc
    else if t.kind == transfer
    then transfer_step c account acc t
    else acc

unfoldable pub balance_loop : Config → Bytes → ℤ → List Tx → ℤ
balance_loop c account acc [] = acc
balance_loop c account acc (t ∷ rest) = balance_loop c account (balance_step c account acc t) rest

-- What the checkpoint holds for an account.
unfoldable pub base_balance : Config → Dag → Bytes → ℕ
base_balance c d account =
    if has_checkpoint c d
    then elim (find_account d.checkpoint account) [ none ↦ 0 | some a ↦ a.balance ]
    else 0

-- `if (acc < 0) acc = 0; if (acc > UINT32_MAX) acc = UINT32_MAX`
abbrev pub clamp_u32 : ℤ → ℕ
clamp_u32 acc =
    if ltb_ℤ acc (pos 0) then 0 else if ltb_ℤ (pos u32_max) acc then u32_max else pos_part acc

-- `meshpay_currency_get_balance`
unfoldable pub get_balance : Config → Dag → Bytes → ℕ
get_balance c d account =
    clamp_u32 (balance_loop c account (pos (base_balance c d account)) (window d))
