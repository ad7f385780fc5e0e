-- ===== src/Currency/Solvency.antt =====
-- Overdrafts: the cost of a transfer in `meshpay_currency_validate_tx`
-- (components/currency/currency.c) and the window that it is merged into.
use meshpay_v.Base.{
  ◌+◌, ◌≤◌, ◌≡◌, sym, ap, subst, inl, inr, not, ◌&&◌, [], ◌∷◌, Bytes, arith, none, some, ◌==◌,
  if◌then◌else◌, Bool-cases, constant_equal, constant_equal_iff,
}
use meshpay_v.Tx.{Tx, transfer}
use meshpay_v.Checkpoint.{find_account}
use meshpay_v.Crypto.{Provider}
use meshpay_v.Dag.{Dag, window, merge_tx}
use meshpay_v.Dag.Invariant.{merge_tx-window}
use meshpay_v.Currency.{Config, accepted}
use meshpay_v.Currency.Ledger.{get_balance, base_balance}
use meshpay_v.Currency.Net.{total, credit, debit, credits, debits, get_balance-eq-net}
use meshpay_v.Currency.Supply.{total-append}
use meshpay_v.Currency.Rules.{validate_tx}

-- An account has been debited no more than it was credited.
abbrev pub IsSolvent : Config → Dag → Bytes → Type 0
IsSolvent c d account = debits c d account ≤ credits c d account

-- An accepted transfer costs its sender no more than the balance.
validate_tx-transfer :
    (p : Provider) (c : Config) (d : Dag) (t : Tx)
    → validate_tx p c d t ≡ accepted
    → t.kind ≡ transfer
    → t.amount + t.fee ≤ get_balance c d t.from
unfolding validate_tx
validate_tx-transfer p c d t h k = ground arith

pub base_balance-merge :
    (c : Config) (d e : Dag) (account : Bytes)
    → e.checkpoint ≡ d.checkpoint
    → base_balance c e account ≡ base_balance c d account
unfolding base_balance
base_balance-merge c d e account same =
    ap
      (λ cp.
        if not (cp.generation == 0) && cp.currency_id == c.currency_id
        then elim (find_account cp account) [ none ↦ 0 | some a ↦ a.balance ]
        else 0)
      same

-- The debit of an accepted transaction is covered.
debit_covered :
    (p : Provider) (c : Config) (d : Dag) (t : Tx) (account : Bytes)
    → validate_tx p c d t ≡ accepted
    → IsSolvent c d account
    → debits c d account + debit c account t ≤ credits c d account
debit_covered p c d t account h solvent =
    elim (Bool-cases
      (t.currency_id == c.currency_id && t.kind == transfer && constant_equal t.from account)) [
        | inr q ↦ rw q (omega arith)
        | inl q ↦
            let same : t.from ≡ account = ground (arith, constant_equal_iff t.from account) in
            let cost : t.amount + t.fee ≤ get_balance c d account =
              subst (λ a. t.amount + t.fee ≤ get_balance c d a) same
                (validate_tx-transfer p c d t h (ground arith)) in
            rw q (omega (arith, get_balance-eq-net c d account))
      ]

-- Merging a transaction that `meshpay_currency_validate_tx` accepts leaves every solvent account
-- solvent.
pub merge-IsSolvent :
    (p : Provider) (c : Config) (d : Dag) (t : Tx) (account : Bytes)
    → validate_tx p c d t ≡ accepted
    → IsSolvent c d account
    → IsSolvent c (merge_tx d t).0 account
merge-IsSolvent p c d t account h solvent = elim (merge_tx-window d t).1 [
  | inr (_, same) ↦ subst (λ e. IsSolvent c e account) (sym same) solvent
  | inl (_, w, cp) ↦ omega (
    arith,
    debit_covered p c d t account h solvent,
    base_balance-merge c d (merge_tx d t).0 account cp,
    ap (total (credit c account)) w,
    ap (total (debit c account)) w,
    total-append (credit c account) (window d) (t ∷ []),
    total-append (debit c account) (window d) (t ∷ []),
  )
]
