-- ===== src/Currency/Adoption.antt =====
-- The checkpoint of `meshpay_currency_build_checkpoint` (components/currency/currency.c), adopted by
-- `meshpay_dag_adopt_checkpoint` (components/dag/dag.c).
use meshpay_v.Base.{
  ℕ, ◌+◌, ◌≤◌, ◌<◌, ◌^◌, ◌≡◌, ◌≢◌, refl, sym, subst, inl, inr, true, false, not, none, some, Bytes,
  ok, esp_ok, arith, ◌==◌, Option-cases, All, All-imp, All-and, All-In, All-of_In, All-keep, In,
}
use meshpay_v.Tx.{Tx}
use meshpay_v.Crypto.{Provider}
use meshpay_v.Checkpoint.{Checkpoint, Account, find_account}
use meshpay_v.Dag.{Dag, window, below_floor, adopt_checkpoint}
use meshpay_v.Dag.Invariant.{IsValid}
use meshpay_v.Dag.History.{IsAdopted, adopt_checkpoint_lem}
use meshpay_v.Currency.{Config, replay}
use meshpay_v.Currency.Rules.{ingest_check}
use meshpay_v.Currency.Ledger.{get_balance, base_balance}
use meshpay_v.Currency.Net.{credit, debit, get_balance-eq-net}
use meshpay_v.Currency.Refound.{build_checkpoint}
use meshpay_v.Currency.Regenesis.{IsCovered, IsRefounded, total_zero}
use meshpay_v.Currency.Rebuild.{build_checkpoint-IsRefounded, build_checkpoint-anchored}

below_floor_covered :
    (cp : Checkpoint) (t : Tx) (a : Account)
    → 0 < cp.generation
    → find_account cp t.from ≡ some a
    → t.seq ≤ a.seq_floor
    → below_floor cp t ≡ true
unfolding below_floor
below_floor_covered cp t a g found le =
    let later : (cp.generation == 0) ≡ false = ground arith in rw (later, found) (ground arith)

-- A refounded account's first sequence number is below its floor.
below_floor_first :
    (cp : Checkpoint) (t : Tx)
    → 0 < cp.generation
    → find_account cp t.from ≢ none
    → t.seq ≡ 0
    → below_floor cp t ≡ true
below_floor_first cp t g known first = elim (Option-cases (find_account cp t.from)) [
  | inl missing ↦ absurd (known missing)
  | inr (a, found) ↦ below_floor_covered cp t a g found (omega arith)
]

-- The whole window of the currency stands below the floors.
own-below_floor :
    (c : Config) (d : Dag) (cp : Checkpoint)
    → 0 < cp.generation
    → IsRefounded c d cp
    → All (λ t. t.currency_id ≡ c.currency_id → below_floor cp t ≡ true) (window d)
own-below_floor c d cp later r = All-of_In _ (window d) (λ t i own.
    elim (Option-cases (find_account cp t.from)) [
      | inl missing ↦ absurd (
          All-In (λ t. t.currency_id ≡ c.currency_id → find_account cp t.from ≢ none) (window d) t
            r.senders i own missing)
      | inr (a, found) ↦ below_floor_covered cp t a later found (
          All-In (IsCovered c t.from a.seq_floor) (window d) t (r.floors t.from a found) i own refl)
    ])

adopted-foreign :
    (c : Config) (d d' : Dag) (cp : Checkpoint) (purged : ℕ)
    → 0 < cp.generation
    → IsRefounded c d cp
    → IsAdopted d cp d' purged
    → All (λ t. t.currency_id ≢ c.currency_id) (window d')
adopted-foreign c d d' cp purged later r a =
    All-and _ _ _ (λ t below above own. let h = below own in cc) (window d')
      (subst (All (λ t. t.currency_id ≡ c.currency_id → below_floor cp t ≡ true)) (sym a.remains)
        (All-keep _ (λ t. not (below_floor cp t)) (window d) (own-below_floor c d cp later r)))
      a.above

credit_foreign :
    (c : Config) (x : Bytes) (t : Tx) → t.currency_id ≢ c.currency_id → credit c x t ≡ 0
credit_foreign c x t ne =
    let h : (t.currency_id == c.currency_id) ≡ false = ground arith in rw h refl

debit_foreign : (c : Config) (x : Bytes) (t : Tx) → t.currency_id ≢ c.currency_id → debit c x t ≡ 0
debit_foreign c x t ne =
    let h : (t.currency_id == c.currency_id) ≡ false = ground arith in rw h refl

base_refounded :
    (c : Config) (d d' : Dag) (cp : Checkpoint) (x : Bytes)
    → 0 < cp.generation
    → IsRefounded c d cp
    → d'.checkpoint ≡ cp
    → base_balance c d' x ≡ get_balance c d x
unfolding base_balance
base_refounded c d d' cp x later r same =
    let g : (cp.generation == 0) ≡ false = ground arith in
    let own : (cp.currency_id == c.currency_id) ≡ true = let e = r.currency in ground arith in
    elim (Option-cases (find_account cp x)) [
      | inl missing ↦ rw (same, g, own, missing) (sym (r.complete x missing))
      | inr (a, found) ↦ rw (same, g, own, found) (r.balances x a found)
    ]

-- A window without the currency, over the refounded balances.
balance_refounded :
    (c : Config) (d d' : Dag) (cp : Checkpoint) (x : Bytes)
    → 0 < cp.generation
    → IsRefounded c d cp
    → d'.checkpoint ≡ cp
    → All (λ t. t.currency_id ≢ c.currency_id) (window d')
    → get_balance c d' x ≡ get_balance c d x
balance_refounded c d d' cp x later r same foreign = omega (
  arith,
  get_balance-eq-net c d' x,
  get_balance-eq-net c d x,
  base_refounded c d d' cp x later r same,
  total_zero (credit c x) (window d') (All-imp _ _ (credit_foreign c x) (window d') foreign),
  total_zero (debit c x) (window d') (All-imp _ _ (debit_foreign c x) (window d') foreign),
)

-- Adopting the checkpoint that the founder builds of a valid window succeeds while the generation is
-- below the largest `uint32_t`, empties the window of the currency, and keeps the balance of every
-- account.
pub adopt_checkpoint-build_checkpoint :
    (p : Provider) (c : Config) (d : Dag) (created_at max : ℕ) (cp : Checkpoint) (account : Bytes)
    → IsValid d
    → d.checkpoint.generation + 1 < 2 ^ 32
    → build_checkpoint p c d created_at max ≡ ok cp
    → let (d', e, purged) = adopt_checkpoint d cp in
      (e ≡ esp_ok)
      × All (λ t. t.currency_id ≢ c.currency_id) (window d')
      × (get_balance c d' account ≡ get_balance c d account)
adopt_checkpoint-build_checkpoint p c d created_at max cp account v small built =
    let r = build_checkpoint-IsRefounded p c d created_at max cp built in
    let next : cp.generation ≡ d.checkpoint.generation + 1 = omega (arith, r.generation) in
    let later : 0 < cp.generation = omega arith in
    elim (adopt_checkpoint_lem d cp v) [
      | inr (old, _, _, _) ↦ absurd (omega arith)
      | inl (_, done, a) ↦
          let foreign = adopted-foreign c d _ cp _ later r a in
          (done, foreign, balance_refounded c d _ cp account later r a.checkpoint foreign)
    ]

ingest_check-replay :
    (p : Provider) (c : Config) (d : Dag) (t : Tx)
    → t.currency_id ≡ c.currency_id
    → c.has_descriptor ≡ true
    → below_floor d.checkpoint t ≡ true
    → ingest_check p c d t ≡ replay
unfolding ingest_check
ingest_check-replay p c d t own anchored below = ground arith

-- A node that adopted the checkpoint built of a window refuses every transaction of that window, if
-- it comes back, as a replay.
pub ingest_check-build_checkpoint :
    (p : Provider) (c : Config) (d e : Dag) (created_at max : ℕ) (cp : Checkpoint) (t : Tx)
    → d.checkpoint.generation + 1 < 2 ^ 32
    → build_checkpoint p c d created_at max ≡ ok cp
    → e.checkpoint ≡ cp
    → In t (window d)
    → t.currency_id ≡ c.currency_id
    → ingest_check p c e t ≡ replay
ingest_check-build_checkpoint p c d e created_at max cp t small built same i own =
    let r = build_checkpoint-IsRefounded p c d created_at max cp built in
    let later : 0 < cp.generation = omega (arith, r.generation) in
    ingest_check-replay p c e t own (build_checkpoint-anchored p c d created_at max cp built)
      (rw same (All-In _ (window d) t (own-below_floor c d cp later r) i own))

-- The first transaction, a claim too, of an account that only received money in the window of a
-- checkpoint is refused as a replay by every node that adopted the checkpoint, though no node has
-- seen it.
pub ingest_check-orphan :
    (p : Provider) (c : Config) (d e : Dag) (created_at max : ℕ) (cp : Checkpoint) (t u : Tx)
    → d.checkpoint.generation + 1 < 2 ^ 32
    → build_checkpoint p c d created_at max ≡ ok cp
    → e.checkpoint ≡ cp
    → In t (window d)
    → t.currency_id ≡ c.currency_id
    → u.currency_id ≡ c.currency_id
    → u.from ≡ t.to
    → u.seq ≡ 0
    → ingest_check p c e u ≡ replay
ingest_check-orphan p c d e created_at max cp t u small built same i own own' who first =
    let r = build_checkpoint-IsRefounded p c d created_at max cp built in
    let later : 0 < cp.generation = omega (arith, r.generation) in
    let known = All-In _ (window d) t r.recipients i own in
    ingest_check-replay p c e u own' (build_checkpoint-anchored p c d created_at max cp built) (
      rw same (
        below_floor_first cp u later (subst (λ x. find_account cp x ≢ none) (sym who) known) first))
