-- ===== src/Dag.antt =====
-- components/dag/dag.c: the sliding window of transactions. A function that updates `*dag` returns
-- the new window beside its result.
pub mod Compact
pub mod Merge
pub mod Invariant
pub mod History
pub mod Digest
pub mod Convergence
pub mod Tips
pub mod Newest
pub mod Selection
pub mod Tests
use meshpay_v.Base.{
  ℕ, zero, suc, ◌+◌, ◌-◌, Bool, true, false, not, ◌&&◌, ◌||◌, List, Option, none, some, Bytes, Err,
  esp_ok, invalid_arg, invalid_state, ltb, leb, ◌==◌, if◌then◌else◌, length, get_or, set, take,
  replicate, any, find_first, bytes_zero, constant_equal,
}
use meshpay_v.Tx.{Tx, cleared, transfer, mint, claim, max_parents}
use meshpay_v.Checkpoint.{Checkpoint, Account, find_account}
use meshpay_v.Checkpoint

-- `meshpay_dag_merge_result_t`
pub data MergeResult : Type 0 where
  merged duplicate conflict missing_parent full invalid : MergeResult

-- `meshpay_dag_t`. The length of `slots` is MESHPAY_DAG_MAX_TRANSACTIONS.
pub record Dag : Type 0 where
  pub slots : List Tx
  pub count : ℕ
  pub checkpoint : Checkpoint

abbrev pub capacity : Dag → ℕ
capacity d = length d.slots

-- The entries `transactions[i]` with `i < count`, which every loop over the window visits.
abbrev pub window : Dag → List Tx
window d = take d.count d.slots

-- `meshpay_dag_init`, for a window of `size` slots and a table of `max` accounts.
unfoldable pub init : ℕ → ℕ → Dag
init size max = record {
  slots = replicate size cleared;
  count = 0;
  checkpoint = Checkpoint.empty max;
}

-- `tx_shape_valid`
unfoldable pub shape_valid : Tx → Bool
shape_valid t =
    if not (t.kind == transfer) && not (t.kind == mint) && not (t.kind == claim)
    then false
    else if bytes_zero t.id
        || bytes_zero t.from
        || bytes_zero t.to
        || bytes_zero t.signature
        || t.amount == 0
        || ltb max_parents t.parent_count
    then false
    else if t.kind == transfer && leb t.amount t.fee
    then false
    else if t.kind == mint && not (t.fee == 0)
    then false
    else if t.kind == claim
        && (not (t.fee == 0) || not (constant_equal t.from t.to) || not (t.seq == 0))
    then false
    else true

-- `meshpay_dag_needs_checkpoint`, for a build's MESHPAY_DAG_CHECKPOINT_THRESHOLD.
unfoldable pub needs_checkpoint : ℕ → Dag → Bool
needs_checkpoint threshold d = leb threshold d.count

-- `meshpay_dag_find`
unfoldable pub find : Dag → Bytes → Option Tx
find d id = if bytes_zero id then none else find_first (λ t. constant_equal t.id id) (window d)

-- `meshpay_dag_contains`
unfoldable pub contains : Dag → Bytes → Bool
contains d id = elim (find d id) [ none ↦ false | some t ↦ true ]

-- Whether the loop of `meshpay_dag_validate_merge` stops at a candidate.
unfoldable pub conflicts : Tx → Tx → Bool
conflicts t candidate =
    candidate.seq == t.seq
    && candidate.currency_id == t.currency_id
    && constant_equal candidate.from t.from
    && not (constant_equal candidate.id t.id)

unfoldable pub check_conflict : Dag → Tx → MergeResult × Option Tx
check_conflict d t = elim (find_first (conflicts t) (window d)) [
  | some c ↦ (conflict, some c)
  | none ↦ (merged, none)
]

unfoldable pub check_known : Dag → Tx → MergeResult × Option Tx
check_known d t = elim (find d t.id) [
  | some same ↦ (duplicate, some same)
  | none ↦
      if any bytes_zero (take t.parent_count t.parents) then (invalid, none) else check_conflict d t
]

-- `meshpay_dag_validate_merge`; the option is what goes through `existing`.
unfoldable pub validate_merge : Dag → Tx → MergeResult × Option Tx
unfolding check_known check_conflict
validate_merge d t =
    if not (shape_valid t)
    then (invalid, none)
    else if leb (capacity d) d.count
    then (full, none)
    else check_known d t

-- `meshpay_dag_merge_tx`
unfoldable pub merge_tx : Dag → Tx → Dag × MergeResult
merge_tx d t = elim (validate_merge d t).0 [
  | merged ↦ (record d { slots = set d.slots d.count t; count = d.count + 1 }, merged)
  | result ↦ (d, result)
]

-- One round of the compacting loops: what `kept` and the slots become when `transactions[i]` stays.
abbrev pub move : ℕ → ℕ → List Tx → List Tx
move i kept slots = if kept == i then slots else set slots kept (get_or slots i cleared)

-- `for (i = 0; i < count; ++i) if (stays(transactions[i])) { move it to [kept]; kept++; }`
unfoldable pub compact_loop : (Tx → Bool) → ℕ → ℕ → ℕ → List Tx → List Tx × ℕ
compact_loop stays zero i kept slots = (slots, kept)
compact_loop stays (suc rounds) i kept slots =
    let here = stays (get_or slots i cleared) in
    compact_loop stays rounds (suc i) (if here then suc kept else kept)
      (if here then move i kept slots else slots)

-- `memset(&transactions[k], 0, n * sizeof)`
unfoldable pub clear_slots : ℕ → ℕ → List Tx → List Tx
clear_slots zero k slots = slots
clear_slots (suc n) k slots = clear_slots n (suc k) (set slots k cleared)

-- Compaction in place, freed slots zeroed; the number is what was purged.
unfoldable pub compact : (Tx → Bool) → Dag → Dag × ℕ
unfolding compact_loop clear_slots
compact stays d =
    let (slots, kept) = compact_loop stays d.count 0 0 d.slots in
    let purged = d.count - kept in
    (record d { slots = clear_slots purged kept slots; count = kept }, purged)

-- `meshpay_dag_purge_foreign`
unfoldable pub purge_foreign : Dag → ℕ → Dag × ℕ
purge_foreign d currency =
    if ltb (capacity d) d.count then (d, 0) else compact (λ t. t.currency_id == currency) d

-- `meshpay_dag_below_floor`
unfoldable pub below_floor : Checkpoint → Tx → Bool
below_floor cp t =
    if cp.generation == 0
    then false
    else elim (find_account cp t.from) [ none ↦ false | some a ↦ leb t.seq a.seq_floor ]

-- `meshpay_dag_adopt_checkpoint`; the number is what goes through `purged`.
unfoldable pub adopt_checkpoint : Dag → Checkpoint → Dag × Err × ℕ
adopt_checkpoint d cp =
    if cp.generation == 0
    then (d, invalid_arg, 0)
    else if leb cp.generation d.checkpoint.generation
    then (d, invalid_state, 0)
    else let (d', purged) = compact (λ t. not (below_floor cp t)) (record d { checkpoint = cp }) in
      (d', esp_ok, purged)
