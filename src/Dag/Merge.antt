-- ===== src/Dag/Merge.antt =====
-- What `tx_shape_valid` and `meshpay_dag_validate_merge` (components/dag/dag.c) accept, and the
-- reason of each refusal.
use meshpay_v.Base.{
  All-In, ℕ, ◌≤◌, ◌<◌, ◌≡◌, refl, ◌≢◌, ◌↔◌, ◌⊎◌, inl, inr, true, false, List, Option, none, some,
  arith, leb, Bool-cases, Option-cases, take, any, find_first, find_first-none, find_first_test,
  bytes_zero, constant_equal, constant_equal_iff, All, All-and, All-imp, In, find_first-In,
  any_none, any-false,
}
use meshpay_v.Tx.{Tx, transfer, mint, claim, max_parents}
use meshpay_v.Dag.{
  Dag, capacity, window, MergeResult, merged, duplicate, conflict, full, invalid, shape_valid, find,
  conflicts, check_known, check_conflict, validate_merge,
}

-- The forms that a transaction may have.
pub record IsShaped (t : Tx) : Type 0 where
  pub kind : (t.kind ≡ transfer) ⊎ (t.kind ≡ mint) ⊎ (t.kind ≡ claim)
  pub id : bytes_zero t.id ≡ false
  pub from : bytes_zero t.from ≡ false
  pub to : bytes_zero t.to ≡ false
  pub signature : bytes_zero t.signature ≡ false
  pub amount : 0 < t.amount
  pub parents : t.parent_count ≤ max_parents
  pub transfer_fee : t.kind ≡ transfer → t.fee < t.amount
  pub no_fee : t.kind ≢ transfer → t.fee ≡ 0
  pub claim_self : t.kind ≡ claim → (t.from ≡ t.to) × (t.seq ≡ 0)

pub shape_valid-IsShaped : (t : Tx) → shape_valid t ≡ true → IsShaped t
unfolding shape_valid
shape_valid-IsShaped t h = ground (arith, constant_equal_iff t.from t.to)

IsShaped-shape_valid : (t : Tx) → IsShaped t → shape_valid t ≡ true
unfolding shape_valid
IsShaped-shape_valid t s = ground (arith, constant_equal_iff t.from t.to)

-- The shape test accepts exactly these forms.
shape_valid_iff : (t : Tx) → (shape_valid t ≡ true) ↔ IsShaped t
shape_valid_iff t = (shape_valid-IsShaped t, IsShaped-shape_valid t)

-- The two share the place `(from, seq)` of one currency.
abbrev pub SamePlace : Tx → Tx → Type 0
SamePlace y t = (y.seq ≡ t.seq) × (y.currency_id ≡ t.currency_id) × (y.from ≡ t.from)

-- Neither a copy of one another nor a double spend.
abbrev pub Apart : Tx → Tx → Type 0
Apart y t = (y.id ≢ t.id) × ¬ SamePlace y t

pub record IsAcceptable (d : Dag) (t : Tx) : Type 0 where
  pub shaped : shape_valid t ≡ true
  pub room : d.count < capacity d
  pub parents : All (λ p. bytes_zero p ≡ false) (take t.parent_count t.parents)
  pub apart : All (λ y. Apart y t) (window d)

-- Each answer of `meshpay_dag_validate_merge` with its reason, and what `existing` then names.
pub data Verdict (d : Dag) (t : Tx) : MergeResult → Option Tx → Type 0 where
  bad_shape : shape_valid t ≡ false → Verdict d t invalid none
  no_room : shape_valid t ≡ true → capacity d ≤ d.count → Verdict d t full none
  known : (y : Tx) → In y (window d) → y.id ≡ t.id → Verdict d t duplicate (some y)
  zero_parent :
      All (λ y. y.id ≢ t.id) (window d)
      → any bytes_zero (take t.parent_count t.parents) ≡ true
      → Verdict d t invalid none
  clash :
      (y : Tx)
      → In y (window d)
      → SamePlace y t
      → All (λ z. z.id ≢ t.id) (window d)
      → Verdict d t conflict (some y)
  fresh : IsAcceptable d t → Verdict d t merged none

find_first-constant_equal :
    (id : List ℕ) (xs : List Tx)
    → find_first (λ t. constant_equal t.id id) xs ≡ none
    → All (λ y. y.id ≢ id) xs
find_first-constant_equal id xs e =
    All-imp _ _ (λ y miss same. cc ((constant_equal_iff y.id id).1 same)) xs
      (any_none _ xs (find_first-none _ xs e))

-- A transaction whose identifier is not zero is unknown only if no entry carries it.
find-none :
    (d : Dag) (id : List ℕ)
    → bytes_zero id ≡ false
    → find d id ≡ none
    → All (λ y. y.id ≢ id) (window d)
unfolding find
find-none d id nz e = find_first-constant_equal id (window d) (rw nz at e)

find-some : (d : Dag) (id : List ℕ) (y : Tx) → find d id ≡ some y → In y (window d) × (y.id ≡ id)
unfolding find
find-some d id y e = elim (Bool-cases (bytes_zero id)) [
  | inl z ↦ absurd (cc (rw z at e))
  | inr nz ↦
      let hit : find_first (λ t. constant_equal t.id id) (window d) ≡ some y = rw nz at e in
      let p = λ (t : Tx). constant_equal t.id id in
      (
        find_first-In p (window d) y hit,
        (constant_equal_iff y.id id).0 (find_first_test p (window d) y hit),
      )
]

conflicts-SamePlace : (t y : Tx) → conflicts t y ≡ true → SamePlace y t
unfolding conflicts
conflicts-SamePlace t y h = ground (arith, constant_equal_iff y.from t.from)

conflicts-false : (t y : Tx) → conflicts t y ≡ false → y.id ≢ t.id → Apart y t
unfolding conflicts
conflicts-false t y h ne =
    (ne, λ p. ground (arith, constant_equal_iff y.from t.from, constant_equal_iff y.id t.id))

check_conflict-Verdict :
    (d : Dag) (t : Tx)
    → shape_valid t ≡ true
    → d.count < capacity d
    → any bytes_zero (take t.parent_count t.parents) ≡ false
    → All (λ y. y.id ≢ t.id) (window d)
    → Verdict d t (check_conflict d t).0 (check_conflict d t).1
unfolding check_conflict
check_conflict-Verdict d t s r p u = elim (Option-cases (find_first (conflicts t) (window d))) [
  | inl e ↦
      rw (e, check_conflict)
        (fresh (record {
          shaped = s;
          room = r;
          parents = any_none bytes_zero _ p;
          apart =
              All-and _ _ _ (conflicts-false t) (window d)
                (any_none (conflicts t) (window d) (find_first-none (conflicts t) (window d) e)) u;
        }))
  | inr (y, e) ↦
      rw (e, check_conflict)
        (clash y (find_first-In (conflicts t) (window d) y e)
          (conflicts-SamePlace t y (find_first_test (conflicts t) (window d) y e)) u)
]

check_known-Verdict :
    (d : Dag) (t : Tx)
    → shape_valid t ≡ true
    → d.count < capacity d
    → Verdict d t (check_known d t).0 (check_known d t).1
unfolding check_known
check_known-Verdict d t s r = elim (Option-cases (find d t.id)) [
  | inl e ↦
      let u = find-none d t.id (shape_valid-IsShaped t s).id e in
      elim (Bool-cases (any bytes_zero (take t.parent_count t.parents))) [
        | inl z ↦ rw (e, check_known, z) (zero_parent u z)
        | inr nz ↦ rw (e, check_known, nz) (check_conflict-Verdict d t s r nz u)
      ]
  | inr (y, e) ↦ let (i, same) = find-some d t.id y e in rw (e, check_known) (known y i same)
]

-- `meshpay_dag_validate_merge` gives each answer for the reason of `Verdict`.
pub validate_merge-Verdict :
    (d : Dag) (t : Tx) → Verdict d t (validate_merge d t).0 (validate_merge d t).1
unfolding validate_merge
validate_merge-Verdict d t = elim (Bool-cases (shape_valid t)) [
  | inr bad ↦ rw bad (bad_shape bad)
  | inl s ↦ elim (Bool-cases (leb (capacity d) d.count)) [
    | inl f ↦ rw (s, f) (no_room s (ground arith))
    | inr nf ↦ rw (s, nf) (check_known-Verdict d t s (ground arith))
  ]
]

Verdict-merged :
    {d : Dag} {t : Tx} {r : MergeResult} {o : Option Tx}
    → Verdict d t r o
    → r ≡ merged
    → IsAcceptable d t
Verdict-merged (bad_shape _) e = cc
Verdict-merged (no_room _ _) e = cc
Verdict-merged (known _ _ _) e = cc
Verdict-merged (zero_parent _ _) e = cc
Verdict-merged (clash _ _ _ _) e = cc
Verdict-merged (fresh a) e = a

Verdict-acceptable :
    {d : Dag} {t : Tx} {r : MergeResult} {o : Option Tx}
    → IsAcceptable d t
    → Verdict d t r o
    → r ≡ merged
Verdict-acceptable a (bad_shape s) = let h = a.shaped in cc
Verdict-acceptable a (no_room _ f) = let h = a.room in absurd (omega arith)
Verdict-acceptable {d} {t} a (known y i e) =
    absurd ((All-In (λ z. Apart z t) (window d) y a.apart i).0 e)
Verdict-acceptable {d} {t} a (zero_parent u z) =
    let h = any-false bytes_zero (take t.parent_count t.parents) a.parents in cc
Verdict-acceptable {d} {t} a (clash y i p u) =
    absurd ((All-In (λ z. Apart z t) (window d) y a.apart i).1 p)
Verdict-acceptable a (fresh _) = refl

-- `meshpay_dag_validate_merge` accepts exactly the acceptable transactions.
pub validate_merge_iff : (d : Dag) (t : Tx) → ((validate_merge d t).0 ≡ merged) ↔ IsAcceptable d t
validate_merge_iff d t = (
  Verdict-merged (validate_merge-Verdict d t),
  λ a. Verdict-acceptable a (validate_merge-Verdict d t),
)
