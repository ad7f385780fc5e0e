-- ===== src/Dag/Tests.antt =====
-- Runs of components/dag/dag.c on small windows, and the theorems at these inputs.
use mathlib.Core.List.{Permᴰ}
use meshpay_v.Base.{
  arith, take, ◌≡◌, ◌≢◌, ◌⊎◌, refl, ◌+◌, ◌≤◌, ◌<◌, some, bytes_zero, constant_equal, zeros, length,
  keep, ◌==◌, mem_equal, esp_ok, invalid_state, [], ◌∷◌,
}
use meshpay_v.Dag.{
  Dag, init, window, merge_tx, validate_merge, merged, duplicate, conflict, purge_foreign,
  adopt_checkpoint, shape_valid, find, conflicts, compact, below_floor,
}
use meshpay_v.Dag.Merge.{Verdict, validate_merge-Verdict}
use meshpay_v.Dag.Invariant.{IsValid, init-IsValid, merge_tx-window, purge_foreign_lem}
use meshpay_v.Dag.History.{
  Reach, Step, Reach-IsValid, IsAdopted, adopt_checkpoint_lem, claims_once, is_claim_of,
}
use meshpay_v.Checkpoint.{find_account}
use meshpay_v.Tx.{cleared}
use meshpay_v.Dag.Digest.{digest}
use meshpay_v.Dag.Convergence.{digest-perm}
use meshpay_v.Dag.Tips.{is_parent_reference, referenced, insert_tip, add_tip, tips_loop, get_tips}
use meshpay_v.Dag.Newest.{unreferenced, newest_first, IsNewestFirst}
use meshpay_v.Dag.Selection.{get_tips-newest_first}
use meshpay_v.Samples.{
  trusting, swapped_dag, claimed_dag, alice, alice_claim, payment, double_spend, coin, fresh_dag,
  paid_dag, first_checkpoint,
}

merge_runs :
    (merge_tx (merge_tx fresh_dag alice_claim).0 payment ≡ (paid_dag, merged))
    × ((validate_merge paid_dag payment) ≡ (duplicate, some payment))
    × ((validate_merge paid_dag double_spend) ≡ (conflict, some payment))
unfolding merge_tx validate_merge shape_valid find conflicts bytes_zero constant_equal zeros
merge_runs = (refl, refl, refl)

adopt_runs :
    (adopt_checkpoint paid_dag first_checkpoint ≡ (
      record { slots = payment ∷ cleared ∷ cleared ∷ []; count = 1; checkpoint = first_checkpoint },
      esp_ok,
      1,
    ))
    × (adopt_checkpoint (record paid_dag { checkpoint = first_checkpoint }) first_checkpoint
        ≡ (record paid_dag { checkpoint = first_checkpoint }, invalid_state, 0))
unfolding adopt_checkpoint compact below_floor find_account mem_equal
adopt_runs = (refl, refl)

-- Two merges from the empty window.
abbrev pub after_claim : Dag
after_claim = (merge_tx (init 3 4) alice_claim).0

abbrev pub after_payment : Dag
after_payment = (merge_tx after_claim payment).0

after_payment-Reach : Reach (init 3 4) after_payment
after_payment-Reach =
    Reach.next (Reach.next Reach.here (Step.merge (init 3 4) alice_claim))
      (Step.merge after_claim payment)

pub after_payment-IsValid : IsValid after_payment
after_payment-IsValid = Reach-IsValid after_payment-Reach (init-IsValid 3 4)

pub after_payment-is : after_payment ≡ paid_dag
unfolding init merge_tx validate_merge shape_valid find conflicts bytes_zero constant_equal zeros
after_payment-is = refl

validate_merge-Verdict_example :
    Verdict paid_dag double_spend
      (validate_merge paid_dag double_spend).0
      (validate_merge paid_dag double_spend).1
validate_merge-Verdict_example = validate_merge-Verdict paid_dag double_spend

merge_tx-window_example :
    let (d', r) = merge_tx fresh_dag alice_claim in
    (r ≡ (validate_merge fresh_dag alice_claim).0)
    × ((r ≡ merged) × (window d' ≡ alice_claim ∷ []) × (d'.checkpoint ≡ fresh_dag.checkpoint)
        ⊎ (r ≢ merged) × (d' ≡ fresh_dag))
merge_tx-window_example = merge_tx-window fresh_dag alice_claim

Reach-IsValid_example : IsValid after_payment
Reach-IsValid_example = Reach-IsValid after_payment-Reach (init-IsValid 3 4)

purge_foreign_lem_example :
    let (d', purged) = purge_foreign after_payment 8 in
    (window d' ≡ keep (λ t. t.currency_id == 8) (window after_payment))
    × (d'.count + purged ≡ after_payment.count)
    × (d'.checkpoint ≡ after_payment.checkpoint)
    × IsValid d'
purge_foreign_lem_example = purge_foreign_lem after_payment 8 after_payment-IsValid

adopt_checkpoint_lem_example :
    let (d', e, purged) = adopt_checkpoint after_payment first_checkpoint in
    (after_payment.checkpoint.generation < 1)
      × (e ≡ esp_ok)
      × IsAdopted after_payment first_checkpoint d' purged
    ⊎ (1 ≤ after_payment.checkpoint.generation) × (e ≢ esp_ok) × (d' ≡ after_payment) × (purged ≡ 0)
adopt_checkpoint_lem_example =
    adopt_checkpoint_lem after_payment first_checkpoint after_payment-IsValid

claims_once_example : length (keep (is_claim_of coin alice) (window after_payment)) ≤ 1
claims_once_example = claims_once 3 4 after_payment coin alice after_payment-Reach

digest-perm_example : digest trusting swapped_dag ≡ digest trusting paid_dag
digest-perm_example =
    digest-perm trusting paid_dag swapped_dag (omega arith) (omega arith) ∣ Permᴰ.swap refl refl ∣₁

-- The payment is newer than the claim; once it names the claim as a parent, it is the only tip.
tips_run :
    (get_tips paid_dag 1 ≡ (payment ∷ [], 2))
    × (get_tips swapped_dag 2 ≡ (payment ∷ alice_claim ∷ [], 2))
    × (get_tips paid_dag 0 ≡ ([], 2))
    × (get_tips
          (merge_tx claimed_dag
            (record payment { parents = alice_claim.id ∷ zeros 32 ∷ []; parent_count = 1 })).0
          2
        ≡ (record payment { parents = alice_claim.id ∷ zeros 32 ∷ []; parent_count = 1 } ∷ [], 1))
unfolding get_tips tips_loop add_tip insert_tip referenced is_parent_reference merge_tx
    validate_merge shape_valid find conflicts bytes_zero constant_equal zeros
tips_run = (refl, refl, refl, refl)

get_tips-newest_first_example :
    (get_tips paid_dag 1
      ≡ (take 1 (newest_first (unreferenced paid_dag 2 0)), length (unreferenced paid_dag 2 0)))
    × IsNewestFirst (newest_first (unreferenced paid_dag 2 0))
get_tips-newest_first_example = get_tips-newest_first paid_dag 1
