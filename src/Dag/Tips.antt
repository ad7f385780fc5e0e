-- ===== src/Dag/Tips.antt =====
-- components/dag/dag.c: `meshpay_dag_get_tips`, the newest of the transactions of the window that no
-- other one names as a parent. `tips` holds the first `*tip_count` entries of the output.
use meshpay_v.Base.{
  ℕ, zero, suc, ◌+◌, ◌-◌, Bool, List, [], ◌∷◌, ◌++◌, Bytes, ltb, leb, ◌==◌, if◌then◌else◌, length,
  get_or, take, drop, any, constant_equal,
}
use meshpay_v.Tx.{Tx, cleared}
use meshpay_v.Dag.{Dag, window}

unfoldable pub is_parent_reference : Tx → Bytes → Bool
is_parent_reference t id = any (λ parent. constant_equal parent id) (take t.parent_count t.parents)

-- Whether some `transactions[j]` with `j != i` names `transactions[i]`.
unfoldable pub referenced : Dag → ℕ → Bool
referenced d i =
    any (λ t. is_parent_reference t (get_or d.slots i cleared).id)
      (take i (window d) ++ drop (i + 1) (window d))

-- `while (pos > 0 && tips[pos - 1]->timestamp_ms < candidate->timestamp_ms)`: the candidate goes
-- behind the last entry that is no older.
unfoldable pub insert_tip : Tx → List Tx → List Tx
insert_tip t [] = t ∷ []
insert_tip t (x ∷ xs) =
    if any (λ y. leb t.timestamp_ms y.timestamp_ms) (x ∷ xs)
    then x ∷ insert_tip t xs
    else t ∷ x ∷ xs

-- What the array becomes with one more candidate.
unfoldable pub add_tip : ℕ → List Tx → Tx → List Tx
unfolding insert_tip
add_tip max_tips tips t =
    if max_tips == 0
    then tips
    else if ltb (length tips) max_tips
    then insert_tip t tips
    else if ltb (get_or tips (max_tips - 1) cleared).timestamp_ms t.timestamp_ms
    then insert_tip t (take (max_tips - 1) tips)
    else tips

-- The outer loop: the tips and the total after `rounds` more entries.
unfoldable pub tips_loop : Dag → ℕ → ℕ → ℕ → List Tx → ℕ → List Tx × ℕ
unfolding referenced add_tip
tips_loop d max_tips zero i tips total = (tips, total)
tips_loop d max_tips (suc rounds) i tips total =
    let here = referenced d i in
    tips_loop d max_tips rounds (suc i)
      (if here then tips else add_tip max_tips tips (get_or d.slots i cleared))
      (if here then total else total + 1)

-- `meshpay_dag_get_tips`: the tips and `*total_tips`.
unfoldable pub get_tips : Dag → ℕ → List Tx × ℕ
unfolding tips_loop
get_tips d max_tips = tips_loop d max_tips d.count 0 [] 0
