-- ===== src/Dag/Selection.antt =====
-- `meshpay_dag_get_tips` (components/dag/dag.c) against the sort of all tips by age.
use meshpay_v.Base.{
  ℕ, zero, suc, ◌+◌, ◌-◌, ◌==◌, ◌≤◌, ◌≡◌, refl, sym, ap, ◌∙◌, inl, inr, false, All, Bool-cases,
  List, [], ◌∷◌, arith, ltb, length, get_or, take, length-take,
}
use meshpay_v.Tx.{Tx, cleared}
use meshpay_v.Dag.{Dag}
use meshpay_v.Dag.Tips.{referenced, add_tip, tips_loop, get_tips}
use meshpay_v.Dag.Newest.{
  unreferenced, place, place_all, newest_first, IsNewestFirst, place-IsNewestFirst,
  insert_tip-eq-place, take-place_newer, take-place_older,
}

take_long : (n : ℕ) (xs : List Tx) → length xs ≤ n → take n xs ≡ xs
take_long zero [] h = refl
take_long zero (x ∷ xs) h = absurd (omega arith)
take_long (suc n) [] h = refl
take_long (suc n) (x ∷ xs) h = ap (◌∷◌ x) (take_long n xs (omega arith))

get_or-take : (k : ℕ) (xs : List Tx) → get_or (take (suc k) xs) k cleared ≡ get_or xs k cleared
get_or-take k [] = refl
get_or-take zero (x ∷ xs) = refl
get_or-take (suc k) (x ∷ xs) = get_or-take k xs

take-take : (k : ℕ) (xs : List Tx) → take k (take (suc k) xs) ≡ take k xs
take-take zero xs = refl
take-take (suc k) [] = refl
take-take (suc k) (x ∷ xs) = ap (◌∷◌ x) (take-take k xs)

All-take :
    (n m : ℕ) (xs : List Tx)
    → All (λ y. y.timestamp_ms ≤ m) xs
    → All (λ y. y.timestamp_ms ≤ m) (take n xs)
All-take zero m xs a = tt
All-take (suc n) m [] a = tt
All-take (suc n) m (x ∷ xs) (b, a) = (b, All-take n m xs a)

take-IsNewestFirst : (n : ℕ) (xs : List Tx) → IsNewestFirst xs → IsNewestFirst (take n xs)
take-IsNewestFirst zero xs s = tt
take-IsNewestFirst (suc n) [] s = tt
take-IsNewestFirst (suc n) (x ∷ xs) (a, s) =
    (All-take n x.timestamp_ms xs a, take-IsNewestFirst n xs s)

length-place : (t : Tx) (xs : List Tx) → length (place t xs) ≡ suc (length xs)
length-place t [] = refl
length-place t (x ∷ xs) = ground (arith, length-place t xs)

-- The bounded array keeps the front of the sorted list.
add_tip-take :
    (m : ℕ) (t : Tx) (xs : List Tx)
    → IsNewestFirst xs
    → add_tip m (take m xs) t ≡ take m (place t xs)
unfolding add_tip
add_tip-take zero t xs s = refl
add_tip-take (suc k) t xs s =
    let some_wanted : (suc k == 0) ≡ false = ground arith in
    let last : suc k - 1 ≡ k = omega arith in
    elim (Bool-cases (ltb (length xs) (suc k))) [
      | inl room ↦
          rw
            (
              some_wanted,
              take_long (suc k) xs (ground arith),
              room,
              take_long (suc k) (place t xs) (ground (arith, length-place t xs)),
            )
            (insert_tip-eq-place t xs s)
      | inr full ↦
          let fits : ltb (length (take (suc k) xs)) (suc k) ≡ false =
            ground (arith, length-take (suc k) xs) in
          elim (Bool-cases (ltb (get_or xs k cleared).timestamp_ms t.timestamp_ms)) [
            | inl newer ↦
                rw (some_wanted, fits, last, get_or-take k xs, newer, take-take k xs)
                  (insert_tip-eq-place t (take k xs) (take-IsNewestFirst k xs s)
                    ∙ sym (take-place_newer t k xs (ground arith) (ground arith)))
            | inr older ↦
                rw (some_wanted, fits, last, get_or-take k xs, older)
                  (sym (take-place_older t k xs s (ground arith) (ground arith)))
          ]
    ]

tips_loop-place_all :
    (d : Dag) (m rounds i : ℕ) (xs : List Tx) (total : ℕ)
    → IsNewestFirst xs
    → tips_loop d m rounds i (take m xs) total
      ≡ (take m (place_all xs (unreferenced d rounds i)), total + length (unreferenced d rounds i))
unfolding tips_loop
tips_loop-place_all d m zero i xs total s = ap (λ n. (take m xs, n)) (omega arith)
tips_loop-place_all d m (suc rounds) i xs total s = elim (Bool-cases (referenced d i)) [
  | inl named ↦ rw named (tips_loop-place_all d m rounds (suc i) xs total s)
  | inr tip ↦
      let t = get_or d.slots i cleared in
      let rest = unreferenced d rounds (suc i) in
      rw (tip, add_tip-take m t xs s)
        (tips_loop-place_all d m rounds (suc i) (place t xs) (total + 1)
            (place-IsNewestFirst t xs s)
          ∙ ap (λ n. (take m (place_all (place t xs) rest), n)) (omega arith))
]

place_all-IsNewestFirst :
    (sorted xs : List Tx) → IsNewestFirst sorted → IsNewestFirst (place_all sorted xs)
place_all-IsNewestFirst sorted [] s = s
place_all-IsNewestFirst sorted (t ∷ rest) s =
    place_all-IsNewestFirst (place t sorted) rest (place-IsNewestFirst t sorted s)

-- meshpay_dag_get_tips counts the transactions of the window that no other one of it names as a
-- parent, and returns the first max_tips of them in the order of age, the newest first.
pub get_tips-newest_first :
    (d : Dag) (max_tips : ℕ)
    → (get_tips d max_tips ≡ (
      take max_tips (newest_first (unreferenced d d.count 0)),
      length (unreferenced d d.count 0),
    ))
      × IsNewestFirst (newest_first (unreferenced d d.count 0))
unfolding get_tips
get_tips-newest_first d m = (
  ap (λ ts. tips_loop d m d.count 0 ts 0) (sym (take_long m [] (omega arith)))
      ∙ tips_loop-place_all d m d.count 0 [] 0 tt
      ∙ ap (λ n. (take m (newest_first (unreferenced d d.count 0)), n)) (omega arith),
  place_all-IsNewestFirst [] (unreferenced d d.count 0) tt,
)
