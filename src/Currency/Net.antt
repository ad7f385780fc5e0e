-- ===== src/Currency/Net.antt =====
-- Credits and debits, with no running sum, for `meshpay_currency_get_balance`
-- (components/currency/currency.c).
use meshpay_v.Base.{
  ℕ, ◌+◌, ◌-◌, ◌≡◌, ap, ap₂, inl, inr, ◌∙◌, min, Bool, true, false, not, ◌&&◌, List, [], ◌∷◌, Bytes,
  arith, ltb, ◌==◌, if◌then◌else◌, Bool-cases, constant_equal, ℤ, pos, sub_ℕ, ◌+ℤ◌, ◌-ℤ◌, +ℤ_sub,
  -ℤ_sub,
}
use meshpay_v.Tx.{Tx, transfer, mint, claim}
use meshpay_v.Dag.{Dag, window}
use meshpay_v.Currency.{Config, is_mint_authority}
use meshpay_v.Currency.Ledger.{
  u32_max, is_fee_recipient, transfer_step, balance_step, balance_loop, base_balance, get_balance,
  clamp_u32,
}

-- What a transaction of this currency brings to an account.
abbrev pub credit : Config → Bytes → Tx → ℕ
credit c account t =
    if not (t.currency_id == c.currency_id)
    then 0
    else if t.kind == mint
    then if is_mint_authority c t.from && constant_equal t.to account then t.amount else 0
    else if t.kind == claim
    then if constant_equal t.from t.to
        && constant_equal t.to account
        && t.amount == c.initial_credit
      then t.amount
      else 0
    else if t.kind == transfer
    then (if constant_equal t.to account then t.amount else 0)
      + (if is_fee_recipient c account then t.fee else 0)
    else 0

-- What it takes from an account.
abbrev pub debit : Config → Bytes → Tx → ℕ
debit c account t =
    if t.currency_id == c.currency_id && t.kind == transfer && constant_equal t.from account
    then t.amount + t.fee
    else 0

abbrev pub total : (Tx → ℕ) → List Tx → ℕ
total f [] = 0
total f (t ∷ rest) = f t + total f rest

-- All that an account was credited: the checkpoint's balance and the window's credits.
abbrev pub credits : Config → Dag → Bytes → ℕ
credits c d account = base_balance c d account + total (credit c account) (window d)

abbrev pub debits : Config → Dag → Bytes → ℕ
debits c d account = total (debit c account) (window d)

add_if :
    (q : Bool) (a b n : ℕ)
    → (if q then sub_ℕ a b +ℤ pos n else sub_ℕ a b) ≡ sub_ℕ (a + (if q then n else 0)) b
add_if true a b n = +ℤ_sub a b n
add_if false a b n = ap (λ (k : ℕ). sub_ℕ k b) {x = a} {y = a + 0} (omega arith)

sub_if :
    (q : Bool) (a b n : ℕ)
    → (if q then sub_ℕ a b -ℤ pos n else sub_ℕ a b) ≡ sub_ℕ a (b + (if q then n else 0))
sub_if true a b n = -ℤ_sub a b n
sub_if false a b n = ap (λ (k : ℕ). sub_ℕ a k) {x = b} {y = b + 0} (omega arith)

fee_if : (q : Bool) (fee : ℕ) → (if ltb 0 fee && q then fee else 0) ≡ (if q then fee else 0)
fee_if q fee = ground arith

transfer_step_lem :
    (c : Config) (account : Bytes) (t : Tx) (a b : ℕ)
    → transfer_step c account (sub_ℕ a b) t
      ≡ sub_ℕ
          (a
            + ((if constant_equal t.to account then t.amount else 0)
                + (if is_fee_recipient c account then t.fee else 0)))
          (b + (if constant_equal t.from account then t.amount + t.fee else 0))
unfolding transfer_step
transfer_step_lem c account t a b =
    let x : ℕ = if constant_equal t.to account then t.amount else 0 in
    let y : ℕ = if constant_equal t.from account then t.amount + t.fee else 0 in
    rw (add_if (constant_equal t.to account) a b t.amount) (
      rw (sub_if (constant_equal t.from account) (a + x) b (t.amount + t.fee)) (
        rw (add_if (ltb 0 t.fee && is_fee_recipient c account) (a + x) (b + y) t.fee) (
          rw (fee_if (is_fee_recipient c account) t.fee)
            (ap (λ (k : ℕ). sub_ℕ k (b + y)) (omega arith)))))

sub_ℕ-add_zero : (a b : ℕ) → sub_ℕ a b ≡ sub_ℕ a (b + 0)
sub_ℕ-add_zero a b = ap (λ (k : ℕ). sub_ℕ a k) {x = b} {y = b + 0} (omega arith)

pad_both : (a b : ℕ) → sub_ℕ a b ≡ sub_ℕ (a + 0) (b + 0)
pad_both a b =
    ap (λ (k : ℕ). sub_ℕ k b) {x = a} {y = a + 0} (omega arith) ∙ sub_ℕ-add_zero (a + 0) b

-- One round of the loop adds the credit and the debit of its transaction.
balance_step_lem :
    (c : Config) (account : Bytes) (t : Tx) (a b : ℕ)
    → balance_step c account (sub_ℕ a b) t ≡ sub_ℕ (a + credit c account t) (b + debit c account t)
unfolding balance_step
balance_step_lem c account t a b = elim (Bool-cases (t.currency_id == c.currency_id)) [
  | inr foreign ↦ rw foreign (pad_both a b)
  | inl own ↦ elim (Bool-cases (t.kind == mint)) [
    | inl m ↦
        let nt : (t.kind == transfer) ≡ false = ground arith in
        rw (own, m, nt) (add_if _ a b t.amount ∙ sub_ℕ-add_zero _ b)
    | inr nm ↦ elim (Bool-cases (t.kind == claim)) [
      | inl k ↦
          let nt : (t.kind == transfer) ≡ false = ground arith in
          rw (own, nm, k, nt) (add_if _ a b t.amount ∙ sub_ℕ-add_zero _ b)
      | inr nk ↦ elim (Bool-cases (t.kind == transfer)) [
        | inl tr ↦ rw (own, nm, nk, tr) (transfer_step_lem c account t a b)
        | inr nt ↦ rw (own, nm, nk, nt) (pad_both a b)
      ]
    ]
  ]
]

balance_loop_lem :
    (c : Config) (account : Bytes) (xs : List Tx) (a b : ℕ)
    → balance_loop c account (sub_ℕ a b) xs
      ≡ sub_ℕ (a + total (credit c account) xs) (b + total (debit c account) xs)
unfolding balance_loop
balance_loop_lem c account [] a b = pad_both a b
balance_loop_lem c account (t ∷ xs) a b = rw (balance_step_lem c account t a b) (
    balance_loop_lem c account xs (a + credit c account t) (b + debit c account t)
    ∙ ap₂ sub_ℕ (omega arith) (omega arith))

clamp-sub : (a b : ℕ) → clamp_u32 (sub_ℕ a b) ≡ min u32_max (a - b)
clamp-sub a b = ground arith

-- The balance is what the account was credited less what it was debited, cut off at 0 and at the
-- largest `uint32_t`.
pub get_balance-eq-net :
    (c : Config) (d : Dag) (account : Bytes)
    → get_balance c d account ≡ min u32_max (credits c d account - debits c d account)
unfolding get_balance
get_balance-eq-net c d account =
    ap clamp_u32 (
      ap (λ (z : ℤ). balance_loop c account z (window d)) (start (base_balance c d account))
      ∙ balance_loop_lem c account (window d) (base_balance c d account) 0)
    ∙ clamp-sub _ _
    ∙ ap (λ (k : ℕ). min u32_max (credits c d account - k)) {x = 0 + debits c d account}
        {y = debits c d account} (omega arith)
  where
    start : (n : ℕ) → pos n ≡ sub_ℕ n 0
    start n = ground arith
