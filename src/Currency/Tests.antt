-- ===== src/Currency/Tests.antt =====
-- Runs of components/currency/currency.c on small windows, and the theorems at these inputs.
use mathlib.Core.List.{Perm, Permᴰ}
use meshpay_v.Base.{◌≡◌, refl, ◌+ℤ◌, ◌-ℤ◌, ◌≤◌, ◌-◌, arith, min, bytes_zero, constant_equal}
use meshpay_v.Dag.{merge_tx, window}
use meshpay_v.Currency.{accepted, insufficient, is_mint_authority}
use meshpay_v.Currency.Ledger.{
  u32_max, get_balance, base_balance, balance_loop, balance_step, transfer_step, fee_recipient,
  total_minted, mint_loop, mint_step, sum_balances,
}
use meshpay_v.Currency.Rules.{check_supply, validate_tx}
use meshpay_v.Currency.Net.{credits, debits, get_balance-eq-net}
use meshpay_v.Currency.Order.{get_balance-perm}
use meshpay_v.Currency.Supply.{supply_capped}
use meshpay_v.Currency.Solvency.{IsSolvent, merge-IsSolvent}
use meshpay_v.Base.{mem_equal, zeros, ◌≢◌, ap, ok, All, esp_ok}
use meshpay_v.Checkpoint.{find_account}
use meshpay_v.Samples.{paid_checkpoint, coin}
use meshpay_v.Crypto.{sha256}
use meshpay_v.Dag.{Dag, adopt_checkpoint}
use meshpay_v.Dag.Digest.{digest, sort_ids, insert_id, mem_le, concat_ids}
use meshpay_v.Dag.Tests.{after_payment, after_payment-IsValid, after_payment-is}
use meshpay_v.Currency.{claim_valid}
use meshpay_v.Currency.Members.{member_key, refounded_key, published_key}
use meshpay_v.Currency.Refound.{
  build_checkpoint, intern, intern_table, intern_window, refound_accounts, refound_account,
  raise_floor, inherited_floor, refound_key,
}
use meshpay_v.Currency.Adoption.{adopt_checkpoint-build_checkpoint}
use meshpay_v.Samples.{
  alice, bob, founder, alice_claim, payment, rules, fresh_dag, paid_dag, claimed_dag, swapped_dag,
  trusting,
}

balance_runs :
    (get_balance rules paid_dag alice ≡ 69)
    × (get_balance rules paid_dag bob ≡ 30)
    × (get_balance rules paid_dag founder ≡ 1)
    × (total_minted rules paid_dag ≡ 100)
unfolding get_balance base_balance balance_loop balance_step transfer_step fee_recipient
    total_minted mint_loop mint_step sum_balances is_mint_authority bytes_zero constant_equal ◌+ℤ◌
    ◌-ℤ◌
balance_runs = (refl, refl, refl, refl)

claim_accepted : validate_tx trusting rules fresh_dag alice_claim ≡ accepted
unfolding validate_tx check_supply total_minted mint_loop mint_step constant_equal is_mint_authority
    sum_balances
claim_accepted = refl

payment_accepted : validate_tx trusting rules claimed_dag payment ≡ accepted
unfolding validate_tx get_balance base_balance balance_loop balance_step transfer_step fee_recipient
    is_mint_authority bytes_zero constant_equal ◌+ℤ◌ ◌-ℤ◌
payment_accepted = refl

overdraft_refused : validate_tx trusting rules fresh_dag payment ≡ insufficient
unfolding validate_tx get_balance base_balance balance_loop balance_step transfer_step fee_recipient
    is_mint_authority bytes_zero constant_equal ◌+ℤ◌ ◌-ℤ◌
overdraft_refused = refl

swapped : Perm (window swapped_dag) (window paid_dag)
swapped = ∣ Permᴰ.swap refl refl ∣₁

nothing_minted : total_minted rules fresh_dag ≡ 0
unfolding total_minted mint_loop mint_step sum_balances
nothing_minted = refl

claimed-IsSolvent : IsSolvent rules claimed_dag alice
unfolding base_balance is_mint_authority bytes_zero constant_equal fee_recipient
claimed-IsSolvent = omega arith

get_balance-eq-net_example :
    get_balance rules paid_dag alice
    ≡ min u32_max (credits rules paid_dag alice - debits rules paid_dag alice)
get_balance-eq-net_example = get_balance-eq-net rules paid_dag alice

get_balance-perm_example : get_balance rules swapped_dag alice ≡ get_balance rules paid_dag alice
get_balance-perm_example = get_balance-perm rules paid_dag swapped_dag alice refl swapped

supply_capped_example : total_minted rules (merge_tx fresh_dag alice_claim).0 ≤ 1000
supply_capped_example =
    supply_capped trusting rules fresh_dag alice_claim (omega arith) (omega (arith, nothing_minted))
      claim_accepted

merge-IsSolvent_example : IsSolvent rules (merge_tx claimed_dag payment).0 alice
merge-IsSolvent_example =
    merge-IsSolvent trusting rules claimed_dag payment alice payment_accepted claimed-IsSolvent

pub paid_dag-build_checkpoint : build_checkpoint trusting rules paid_dag 5000 4 ≡ ok paid_checkpoint
unfolding build_checkpoint digest sort_ids insert_id mem_le concat_ids sha256 member_key
    refounded_key published_key find_account intern intern_table intern_window refound_accounts
    refound_account raise_floor inherited_floor refound_key claim_valid get_balance base_balance
    balance_loop balance_step transfer_step fee_recipient is_mint_authority bytes_zero
    constant_equal mem_equal zeros ◌+ℤ◌ ◌-ℤ◌
paid_dag-build_checkpoint = refl

adopt_checkpoint-build_checkpoint_example :
    let (d', e, purged) = adopt_checkpoint after_payment paid_checkpoint in
    (e ≡ esp_ok)
    × All (λ t. t.currency_id ≢ coin) (window d')
    × (get_balance rules d' alice ≡ get_balance rules after_payment alice)
adopt_checkpoint-build_checkpoint_example =
    adopt_checkpoint-build_checkpoint trusting rules after_payment 5000 4 paid_checkpoint alice
      after_payment-IsValid
      (omega (arith, ap (λ (d : Dag). d.checkpoint.generation) after_payment-is))
      (rw after_payment-is paid_dag-build_checkpoint)
