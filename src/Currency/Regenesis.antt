-- ===== src/Currency/Regenesis.antt =====
-- The re-genesis: the checkpoint that `meshpay_currency_build_checkpoint`
-- (components/currency/currency.c) makes of a window.
use meshpay_v.Base.{
  ℕ, zero, suc, ◌+◌, ◌≤◌, ◌%◌, ◌^◌, ◌≡◌, ◌≢◌, refl, sym, ap, ◌∙◌, inl, inr, true, false, not, ◌||◌,
  List, [], ◌∷◌, none, some, Bytes, arith, ltb, ◌==◌, if◌then◌else◌, Bool-cases, Option-cases,
  get_or, take, All, All-imp, All-In, constant_equal, constant_equal_iff, mem_equal, mem_equal_iff,
  find_first, find_first-none, find_first-In, find_first_test,
}
use meshpay_v.Tx.{Tx}
use meshpay_v.Checkpoint.{Checkpoint, Account, find_account, table}
use meshpay_v.Dag.{Dag, window}
use meshpay_v.Currency.{Config, has_checkpoint}
use meshpay_v.Currency.Ledger.{get_balance, base_balance, is_fee_recipient, fee_recipient}
use meshpay_v.Currency.Net.{total, credit, get_balance-eq-net}
use meshpay_v.Currency.Refound.{raise_floor, refound_account, refound_accounts}
use meshpay_v.Currency.Interned.{holds, HoldsSides}

-- The floor of a sender is at least the sequence number of each of its transactions.
abbrev pub IsCovered : Config → Bytes → ℕ → Tx → Type 0
IsCovered c account floor t = t.currency_id ≡ c.currency_id → t.from ≡ account → t.seq ≤ floor

raise_floor-le :
    (c : Config) (account : Bytes) (floor : ℕ) (xs : List Tx)
    → floor ≤ raise_floor c account floor xs
unfolding raise_floor
raise_floor-le c account floor [] = omega arith
raise_floor-le c account floor (t ∷ xs) =
    let next : ℕ =
      if not (t.currency_id == c.currency_id) || not (constant_equal t.from account)
      then floor
      else if ltb floor t.seq
      then t.seq
      else floor in
    let here : floor ≤ next = ground arith in omega (arith, raise_floor-le c account next xs)

pub raise_floor-IsCovered :
    (c : Config) (account : Bytes) (floor : ℕ) (xs : List Tx)
    → All (IsCovered c account (raise_floor c account floor xs)) xs
unfolding raise_floor
raise_floor-IsCovered c account floor [] = tt
raise_floor-IsCovered c account floor (t ∷ xs) =
    let next : ℕ =
      if not (t.currency_id == c.currency_id) || not (constant_equal t.from account)
      then floor
      else if ltb floor t.seq
      then t.seq
      else floor in
    let here : IsCovered c account next t =
      λ own same. ground (arith, constant_equal_iff t.from account) in
    (
      (λ own same. omega (arith, raise_floor-le c account next xs, here own same)),
      raise_floor-IsCovered c account next xs,
    )

account-refound_account :
    (c : Config) (d : Dag) (b : Account) → (refound_account c d b).account ≡ b.account
unfolding refound_account
account-refound_account c d b = refl

pub refound-none :
    (c : Config) (d : Dag) (x : Bytes) (n : ℕ) (xs : List Account)
    → find_first (λ a. mem_equal a.account x) (take n xs) ≡ none
    → find_first (λ a. mem_equal a.account x) (take n (refound_accounts c d n xs)) ≡ none
unfolding refound_accounts
refound-none c d x zero xs h = refl
refound-none c d x (suc n) [] h = refl
refound-none c d x (suc n) (a ∷ xs) h =
    ground (arith, refound-none c d x n xs, account-refound_account c d a)

pub some-inj : {b a : Account} → some b ≡ some a → b ≡ a
some-inj e = cc

pub refound-some :
    (c : Config) (d : Dag) (x : Bytes) (n : ℕ) (xs : List Account) (a : Account)
    → find_first (λ a. mem_equal a.account x) (take n xs) ≡ some a
    → find_first (λ a. mem_equal a.account x) (take n (refound_accounts c d n xs))
      ≡ some (refound_account c d a)
unfolding refound_accounts
refound-some c d x zero xs a h = cc
refound-some c d x (suc n) [] a h = cc
refound-some c d x (suc n) (b ∷ xs) a h = elim (Bool-cases (mem_equal b.account x)) [
  | inl hit ↦
      let same : b ≡ a = some-inj (rw hit at h) in
      let hit' = ap (λ y. mem_equal y x) (account-refound_account c d b) ∙ hit in
      rw hit' (ap (λ y. some (refound_account c d y)) same)
  | inr miss ↦
      let miss' = ap (λ y. mem_equal y x) (account-refound_account c d b) ∙ miss in
      rw miss' (refound-some c d x n xs a (rw miss at h))
]

-- The checkpoint of a window: no account with a balance is left out, each entry has the account's
-- balance and a floor above its transactions, and every sender and recipient has an entry.
pub record IsRefounded (c : Config) (d : Dag) (cp : Checkpoint) : Type 0 where
  pub generation : cp.generation ≡ (d.checkpoint.generation + 1) % 2 ^ 32
  pub currency : cp.currency_id ≡ c.currency_id
  pub complete : (x : Bytes) → find_account cp x ≡ none → get_balance c d x ≡ 0
  pub balances :
      (x : Bytes) (a : Account) → find_account cp x ≡ some a → a.balance ≡ get_balance c d x
  pub floors :
      (x : Bytes) (a : Account)
      → find_account cp x ≡ some a
      → All (IsCovered c x a.seq_floor) (window d)
  pub senders : All (λ t. t.currency_id ≡ c.currency_id → find_account cp t.from ≢ none) (window d)
  pub recipients : All (λ t. t.currency_id ≡ c.currency_id → find_account cp t.to ≢ none) (window d)

-- The table before the second loop has all accounts that matter.
pub record IsGathered (c : Config) (d : Dag) (cp : Checkpoint) : Type 0 where
  pub generation : cp.generation ≡ (d.checkpoint.generation + 1) % 2 ^ 32
  pub currency : cp.currency_id ≡ c.currency_id
  pub inherited :
      has_checkpoint c d ≡ true → All (λ a. holds cp a.account ≡ true) (table d.checkpoint)
  pub authority : holds cp (get_or c.mint_authorities 0 []) ≡ true
  pub sides : All (HoldsSides c cp) (window d)

pub not_held : (cp : Checkpoint) (x : Bytes) → find_account cp x ≡ none → holds cp x ≡ false
unfolding find_account
not_held cp x h = find_first-none (λ a. mem_equal a.account x) (table cp) h

held-ne : (cp : Checkpoint) (x y : Bytes) → holds cp x ≡ false → holds cp y ≡ true → x ≢ y
held-ne cp x y h k e = cc

credit_stranger :
    (c : Config) (x : Bytes) (t : Tx)
    → (t.currency_id ≡ c.currency_id → x ≢ t.to)
    → is_fee_recipient c x ≡ false
    → credit c x t ≡ 0
credit_stranger c x t h f = elim (Bool-cases (t.currency_id == c.currency_id)) [
  | inr foreign ↦ rw foreign refl
  | inl own ↦
      let other : constant_equal t.to x ≡ false = elim (Bool-cases (constant_equal t.to x)) [
        | inr differs ↦ differs
        | inl equal ↦ absurd (h (ground arith) (sym ((constant_equal_iff t.to x).0 equal)))
      ] in
      rw (own, other, f) (ground arith)
]

pub total_zero : (f : Tx → ℕ) (xs : List Tx) → All (λ t. f t ≡ 0) xs → total f xs ≡ 0
total_zero f [] h = refl
total_zero f (t ∷ xs) (e, h) = omega (arith, total_zero f xs h)

fee_stranger :
    (c : Config) (x : Bytes) → x ≢ get_or c.mint_authorities 0 [] → is_fee_recipient c x ≡ false
unfolding fee_recipient
fee_stranger c x h = ground (arith, constant_equal_iff (get_or c.mint_authorities 0 []) x)

base_stranger :
    (c : Config) (d : Dag) (cp : Checkpoint) (x : Bytes)
    → IsGathered c d cp
    → holds cp x ≡ false
    → base_balance c d x ≡ 0
unfolding base_balance find_account
base_stranger c d cp x g h = elim (Bool-cases (has_checkpoint c d)) [
  | inr without ↦ rw without refl
  | inl with_one ↦ elim (Option-cases (find_account d.checkpoint x)) [
    | inl none' ↦ rw (with_one, none') refl
    | inr (a, found) ↦
        let p = λ (a : Account). mem_equal a.account x in
        let i = find_first-In p (table d.checkpoint) a found in
        let same = (mem_equal_iff a.account x).0 (find_first_test p (table d.checkpoint) a found) in
        absurd (
          held-ne cp x a.account h
            (All-In (λ a. holds cp a.account ≡ true) (table d.checkpoint) a (g.inherited with_one)
              i)
            (sym same))
  ]
]

-- An account without an entry has nothing.
pub stranger_balance :
    (c : Config) (d : Dag) (cp : Checkpoint) (x : Bytes)
    → IsGathered c d cp
    → holds cp x ≡ false
    → get_balance c d x ≡ 0
stranger_balance c d cp x g h =
    let fee = fee_stranger c x (held-ne cp x _ h g.authority) in
    let none' = total_zero (credit c x) (window d) (
      All-imp (HoldsSides c cp) _
        (λ t s. credit_stranger c x t (λ own. held-ne cp x t.to h (s own).1) fee) (window d)
        g.sides) in
    omega (arith, get_balance-eq-net c d x, base_stranger c d cp x g h)
