-- ===== src/Dag/Newest.antt =====
-- What `meshpay_dag_get_tips` (components/dag/dag.c) keeps of the tips: the newest.
use meshpay_v.Base.{
  ℕ, zero, suc, ◌≤◌, ◌<◌, ◌≡◌, refl, ap, inl, inr, false, Bool-cases, List, [], ◌∷◌, arith, leb,
  if◌then◌else◌, AllPairs, length, get_or, take, any, All,
}
use meshpay_v.Tx.{Tx, cleared}
use meshpay_v.Dag.{Dag}
use meshpay_v.Dag.Tips.{referenced, insert_tip}

-- The transactions that no other one of the window names as a parent, in the window's order.
abbrev pub unreferenced : Dag → ℕ → ℕ → List Tx
unreferenced d zero i = []
unreferenced d (suc rounds) i =
    let rest = unreferenced d rounds (suc i) in
    if referenced d i then rest else get_or d.slots i cleared ∷ rest

-- Insertion by age: the newest first, a later entry behind the earlier ones of its time.
abbrev pub place : Tx → List Tx → List Tx
place t [] = t ∷ []
place t (x ∷ xs) = if leb t.timestamp_ms x.timestamp_ms then x ∷ place t xs else t ∷ x ∷ xs

abbrev pub place_all : List Tx → List Tx → List Tx
place_all sorted [] = sorted
place_all sorted (t ∷ rest) = place_all (place t sorted) rest

abbrev pub newest_first : List Tx → List Tx
newest_first xs = place_all [] xs

-- No entry is newer than one before it.
abbrev pub IsNewestFirst : List Tx → Type 0
IsNewestFirst xs = AllPairs (λ x y. y.timestamp_ms ≤ x.timestamp_ms) xs

All-place :
    (n : ℕ) (t : Tx) (xs : List Tx)
    → t.timestamp_ms ≤ n
    → All (λ y. y.timestamp_ms ≤ n) xs
    → All (λ y. y.timestamp_ms ≤ n) (place t xs)
All-place n t [] h a = (h, tt)
All-place n t (x ∷ xs) h (b, a) = elim (Bool-cases (leb t.timestamp_ms x.timestamp_ms)) [
  | inl le ↦ rw le (b, All-place n t xs h a)
  | inr gt ↦ rw gt (h, (b, a))
]

All-le :
    (m n : ℕ) (xs : List Tx)
    → m ≤ n
    → All (λ y. y.timestamp_ms ≤ m) xs
    → All (λ y. y.timestamp_ms ≤ n) xs
All-le m n [] h a = tt
All-le m n (x ∷ xs) h (b, a) = (omega arith, All-le m n xs h a)

pub place-IsNewestFirst : (t : Tx) (xs : List Tx) → IsNewestFirst xs → IsNewestFirst (place t xs)
place-IsNewestFirst t [] s = (tt, tt)
place-IsNewestFirst t (x ∷ xs) (a, s) = elim (Bool-cases (leb t.timestamp_ms x.timestamp_ms)) [
  | inl le ↦ rw le (All-place x.timestamp_ms t xs (ground arith) a, place-IsNewestFirst t xs s)
  | inr gt ↦
      rw gt ((ground arith, All-le x.timestamp_ms t.timestamp_ms xs (ground arith) a), (a, s))
]

none_newer :
    (t : Tx) (n : ℕ) (xs : List Tx)
    → n < t.timestamp_ms
    → All (λ y. y.timestamp_ms ≤ n) xs
    → any (λ y. leb t.timestamp_ms y.timestamp_ms) xs ≡ false
none_newer t n [] h a = refl
none_newer t n (x ∷ xs) h (b, a) = ground (arith, none_newer t n xs h a)

-- In a list in order the scan from the end stops where the one from the front does.
pub insert_tip-eq-place : (t : Tx) (xs : List Tx) → IsNewestFirst xs → insert_tip t xs ≡ place t xs
unfolding insert_tip
insert_tip-eq-place t [] s = refl
insert_tip-eq-place t (x ∷ xs) (a, s) = elim (Bool-cases (leb t.timestamp_ms x.timestamp_ms)) [
  | inl le ↦ rw le (ap (◌∷◌ x) (insert_tip-eq-place t xs s))
  | inr gt ↦ rw (gt, none_newer t x.timestamp_ms xs (ground arith) a) refl
]

-- A candidate newer than the last kept entry pushes it out.
pub take-place_newer :
    (t : Tx) (k : ℕ) (xs : List Tx)
    → k < length xs
    → (get_or xs k cleared).timestamp_ms < t.timestamp_ms
    → take (suc k) (place t xs) ≡ place t (take k xs)
take-place_newer t k [] l h = absurd (omega arith)
take-place_newer t zero (x ∷ xs) l h = elim (Bool-cases (leb t.timestamp_ms x.timestamp_ms)) [
  | inl le ↦ absurd (ground arith)
  | inr gt ↦ rw gt refl
]
take-place_newer t (suc k) (x ∷ xs) l h = elim (Bool-cases (leb t.timestamp_ms x.timestamp_ms)) [
  | inl le ↦ rw le (ap (◌∷◌ x) (take-place_newer t k xs (omega arith) h))
  | inr gt ↦ rw gt refl
]

All-get_or :
    (n k : ℕ) (xs : List Tx)
    → k < length xs
    → All (λ y. y.timestamp_ms ≤ n) xs
    → (get_or xs k cleared).timestamp_ms ≤ n
All-get_or n k [] l a = absurd (omega arith)
All-get_or n zero (x ∷ xs) l (b, a) = b
All-get_or n (suc k) (x ∷ xs) l (b, a) = All-get_or n k xs (omega arith) a

-- One that is no newer is left out.
pub take-place_older :
    (t : Tx) (k : ℕ) (xs : List Tx)
    → IsNewestFirst xs
    → k < length xs
    → t.timestamp_ms ≤ (get_or xs k cleared).timestamp_ms
    → take (suc k) (place t xs) ≡ take (suc k) xs
take-place_older t k [] s l h = absurd (omega arith)
take-place_older t zero (x ∷ xs) s l h = elim (Bool-cases (leb t.timestamp_ms x.timestamp_ms)) [
  | inl le ↦ rw le refl
  | inr gt ↦ absurd (ground arith)
]
take-place_older t (suc k) (x ∷ xs) (a, s) l h =
    elim (Bool-cases (leb t.timestamp_ms x.timestamp_ms)) [
      | inl le ↦ rw le (ap (◌∷◌ x) (take-place_older t k xs s (omega arith) h))
      | inr gt ↦ absurd (ground (arith, All-get_or x.timestamp_ms k xs (omega arith) a))
    ]
