-- ===== src/Dag/Invariant.antt =====
-- The invariant of the window (components/dag/dag.c), and what merge and purge do to the window.
use meshpay_v.Base.{
  ℕ, suc, ◌+◌, ◌-◌, ◌≤◌, ◌<◌, ◌≡◌, refl, sym, ap, ap₂, ◌∙◌, ◌≢◌, ◌⊎◌, inl, inr, Bool, true, false,
  List, [], ◌∷◌, ◌++◌, arith, ltb, ◌==◌, length, set, take, drop, replicate, keep, All, AllPairs,
  All-snoc, All-keep, AllPairs-snoc, AllPairs-keep, length-set, length-take, set-append_end,
  drop-append_self, length-replicate, take-set_end, replicate-append, add_one,
}
use meshpay_v.Tx.{Tx, cleared}
use meshpay_v.Dag.{
  Dag, capacity, window, MergeResult, merged, init, shape_valid, validate_merge, merge_tx, compact,
  purge_foreign,
}
use meshpay_v.Dag.Merge.{Apart, validate_merge_iff}
use meshpay_v.Dag.Compact.{IsFiltered, compact-IsFiltered, window-IsFiltered, capacity-IsFiltered}

pub record IsValid (d : Dag) : Type 0 where
  pub bounded : d.count ≤ capacity d
  -- the slots behind the window are zero
  pub spare : d.slots ≡ window d ++ replicate (capacity d - d.count) cleared
  pub shaped : All (λ t. shape_valid t ≡ true) (window d)
  pub apart : AllPairs Apart (window d)

-- What a merge that succeeds leaves: the transaction at the end of the window, all else as it was.
pub merge_tx-merged :
    (d : Dag) (t : Tx)
    → (validate_merge d t).0 ≡ merged
    → merge_tx d t ≡ (record d { slots = set d.slots d.count t; count = d.count + 1 }, merged)
unfolding merge_tx
merge_tx-merged d t e = rw (e, merge_tx)

MergeResult-cases : (r : MergeResult) → (r ≡ merged) ⊎ (r ≢ merged)
MergeResult-cases merged = inl refl
MergeResult-cases _ = inr (λ e. cc)

merge_tx-refused :
    (d : Dag) (t : Tx)
    → (validate_merge d t).0 ≢ merged
    → merge_tx d t ≡ (d, (validate_merge d t).0)
unfolding merge_tx
merge_tx-refused d t ne = ground arith

length-window : (d : Dag) → IsValid d → length (window d) ≡ d.count
length-window d v = omega (arith, length-take d.count d.slots)

window-merged :
    (d : Dag) (t : Tx)
    → d.count < capacity d
    → take (d.count + 1) (set d.slots d.count t) ≡ window d ++ t ∷ []
window-merged d t r = rw add_one (take-set_end d.slots d.count t r)

-- A merge appends the transaction to the window or changes nothing, as `meshpay_dag_validate_merge`
-- decides, and returns that decision.
pub merge_tx-window :
    (d : Dag) (t : Tx)
    → let (d', r) = merge_tx d t in
      (r ≡ (validate_merge d t).0)
      × ((r ≡ merged) × (window d' ≡ window d ++ t ∷ []) × (d'.checkpoint ≡ d.checkpoint)
          ⊎ (r ≢ merged) × (d' ≡ d))
merge_tx-window d t = elim (MergeResult-cases (validate_merge d t).0) [
  | inl e ↦
      rw (merge_tx-merged d t e)
        (sym e, inl (refl, window-merged d t ((validate_merge_iff d t).0 e).room, refl))
  | inr ne ↦ rw (merge_tx-refused d t ne) (refl, inr (ne, refl))
]

set-after :
    (xs w rest : List Tx) (n : ℕ) (t : Tx)
    → length w ≡ n
    → xs ≡ w ++ cleared ∷ rest
    → set xs n t ≡ (w ++ t ∷ []) ++ rest
set-after xs w rest n t h e = rw (e, ← h) (set-append_end w rest cleared t)

drop-spare : (xs w rest : List Tx) (n : ℕ) → length w ≡ n → xs ≡ w ++ rest → drop n xs ≡ rest
drop-spare xs w rest n h e = rw (e, ← h) (drop-append_self w rest)

spare-merged :
    (d : Dag) (t : Tx)
    → IsValid d
    → d.count < capacity d
    → set d.slots d.count t ≡ (window d ++ t ∷ []) ++ replicate (capacity d - (d.count + 1)) cleared
spare-merged d t v r =
    let e : capacity d - d.count ≡ suc (capacity d - (d.count + 1)) = omega arith in
    set-after d.slots (window d) _ d.count t (length-window d v) (v.spare ∙ rw e)

-- A merge keeps the invariant.
pub merge_tx-IsValid : (d : Dag) (t : Tx) → IsValid d → IsValid (merge_tx d t).0
merge_tx-IsValid d t v = elim (MergeResult-cases (validate_merge d t).0) [
  | inr ne ↦ rw (merge_tx-refused d t ne) v
  | inl e ↦
      let a = (validate_merge_iff d t).0 e in
      let w = window-merged d t a.room in
      rw (merge_tx-merged d t e) (record {
        bounded = omega (arith, length-set d.slots d.count t, a.room);
        spare = rw (w, length-set d.slots d.count t) (spare-merged d t v a.room);
        shaped = rw w (All-snoc _ (window d) t v.shaped a.shaped);
        apart = rw w (AllPairs-snoc Apart (window d) t v.apart a.apart);
      })
]

-- A filtering compaction keeps the invariant.
pub IsFiltered-IsValid :
    {stays : Tx → Bool} {d d' : Dag} {purged : ℕ}
    → IsFiltered stays d d' purged
    → IsValid d
    → IsValid d'
IsFiltered-IsValid {stays} {d} {d'} {purged} f v =
    let w = window-IsFiltered f in
    let c = capacity-IsFiltered v.bounded f in
    record {
      bounded = omega (arith, f.total, v.bounded);
      spare =
          f.slots
          ∙ ap₂ ◌++◌ (sym w) (
              ap (◌++◌ (replicate purged cleared))
                (drop-spare d.slots (window d) _ d.count (length-window d v) v.spare)
              ∙ replicate-append purged (capacity d - d.count) cleared
              ∙ ap (λ (n : ℕ). replicate n cleared) {x = purged + (capacity d - d.count)}
                  {y = capacity d' - d'.count} (omega (arith, f.total, v.bounded, c)));
      shaped = rw w (All-keep _ stays (window d) v.shaped);
      apart = rw w (AllPairs-keep Apart stays (window d) v.apart);
    }

-- The empty window meets it.
pub init-IsValid : (size max : ℕ) → IsValid (init size max)
unfolding init
init-IsValid size max = record {
  bounded = omega arith;
  spare =
      ap (λ (n : ℕ). replicate n cleared) {x = size} {y = length (replicate size cleared) - 0}
        (omega (arith, length-replicate size cleared));
  shaped = tt;
  apart = tt;
}

-- `meshpay_dag_purge_foreign` keeps the transactions of the given currency, in their order, zeroes
-- the slots that it frees, keeps the invariant, and returns the number of those that went.
pub purge_foreign_lem :
    (d : Dag) (currency : ℕ)
    → IsValid d
    → let (d', purged) = purge_foreign d currency in
      (window d' ≡ keep (λ t. t.currency_id == currency) (window d))
      × (d'.count + purged ≡ d.count)
      × (d'.checkpoint ≡ d.checkpoint)
      × IsValid d'
unfolding purge_foreign compact
purge_foreign_lem d currency v =
    let f = compact-IsFiltered (λ t. t.currency_id == currency) d v.bounded in
    let fits : ltb (capacity d) d.count ≡ false = ground arith in
    rw fits (window-IsFiltered f, f.total, refl, IsFiltered-IsValid f v)
