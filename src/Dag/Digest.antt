-- ===== src/Dag/Digest.antt =====
-- components/dag/dag.c: `meshpay_dag_digest`, the hash of the sorted identifiers of the window.
use meshpay_v.Base.{
  Bool, true, false, List, [], ◌∷◌, ◌++◌, Bytes, Result, err, invalid_size, ltb, ◌==◌,
  if◌then◌else◌,
}
use meshpay_v.Tx.{Tx}
use meshpay_v.Crypto
use meshpay_v.Crypto.{Provider}
use meshpay_v.Dag.{Dag, capacity, window}

-- `memcmp(a, b, n) <= 0`
unfoldable pub mem_le : Bytes → Bytes → Bool
mem_le [] bs = true
mem_le (a ∷ as') [] = false
mem_le (a ∷ as') (b ∷ bs) = if a == b then mem_le as' bs else ltb a b

-- `qsort` by `mp_dag_cmp_id`. What it does with equal identifiers cannot be told from the digest.
unfoldable pub insert_id : Tx → List Tx → List Tx
insert_id t [] = t ∷ []
insert_id t (u ∷ rest) = if mem_le t.id u.id then t ∷ u ∷ rest else u ∷ insert_id t rest

unfoldable pub sort_ids : List Tx → List Tx
unfolding insert_id
sort_ids [] = []
sort_ids (t ∷ rest) = insert_id t (sort_ids rest)

-- The scratch buffer: the identifiers one after the other.
unfoldable pub concat_ids : List Tx → Bytes
concat_ids [] = []
concat_ids (t ∷ rest) = t.id ++ concat_ids rest

-- `meshpay_dag_digest`
unfoldable pub digest : Provider → Dag → Result Bytes
unfolding sort_ids concat_ids
digest p d =
    if ltb (capacity d) d.count
    then err invalid_size
    else Crypto.sha256 p (concat_ids (sort_ids (window d)))
