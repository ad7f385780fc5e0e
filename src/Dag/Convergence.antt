-- ===== src/Dag/Convergence.antt =====
-- The order of a window's transactions, for `meshpay_dag_digest` (components/dag/dag.c).
use mathlib.Core.Logic.{∥∥₁_elim}
use mathlib.Core.List.{Perm, Permᴰ}
use native.Mathlib.Nat.{ℕ_set}
use mathlib.Core.List.{is_set}
use meshpay_v.Base.{
  ◌≤◌, ◌≡◌, refl, sym, ap, ap₂, ◌∙◌, inl, inr, true, false, List, [], ◌∷◌, ◌++◌, Bytes, arith,
  if◌then◌else◌, Bool-cases,
}
use meshpay_v.Tx.{Tx}
use meshpay_v.Crypto.{Provider}
use meshpay_v.Dag.{Dag, capacity, window}
use meshpay_v.Dag.Digest.{mem_le, insert_id, sort_ids, concat_ids, digest}

mem_le-total : (a b : Bytes) → mem_le a b ≡ false → mem_le b a ≡ true
unfolding mem_le
mem_le-total [] bs h = cc
mem_le-total (a ∷ as') [] h = refl
mem_le-total (a ∷ as') (b ∷ bs) h = ground (arith, mem_le-total as' bs)

mem_le_antisym : (a b : Bytes) → mem_le a b ≡ true → mem_le b a ≡ true → a ≡ b
unfolding mem_le
mem_le_antisym [] [] h k = refl
mem_le_antisym [] (b ∷ bs) h k = cc
mem_le_antisym (a ∷ as') [] h k = cc
mem_le_antisym (a ∷ as') (b ∷ bs) h k = ground (arith, mem_le_antisym as' bs)

mem_le_trans : (a b c : Bytes) → mem_le a b ≡ true → mem_le b c ≡ true → mem_le a c ≡ true
unfolding mem_le
mem_le_trans [] b c h k = refl
mem_le_trans (a ∷ as') [] c h k = cc
mem_le_trans (a ∷ as') (b ∷ bs) [] h k = cc
mem_le_trans (a ∷ as') (b ∷ bs) (c ∷ cs) h k = ground (arith, mem_le_trans as' bs cs)

-- The same sort on the identifiers alone.
abbrev ids : List Tx → List Bytes
ids [] = []
ids (t ∷ xs) = t.id ∷ ids xs

abbrev insert : Bytes → List Bytes → List Bytes
insert a [] = a ∷ []
insert a (b ∷ xs) = if mem_le a b then a ∷ b ∷ xs else b ∷ insert a xs

abbrev sort : List Bytes → List Bytes
sort [] = []
sort (a ∷ xs) = insert a (sort xs)

abbrev concat : List Bytes → Bytes
concat [] = []
concat (a ∷ xs) = a ++ concat xs

ids-insert_id : (t : Tx) (xs : List Tx) → ids (insert_id t xs) ≡ insert t.id (ids xs)
unfolding insert_id
ids-insert_id t [] = refl
ids-insert_id t (u ∷ xs) = elim (Bool-cases (mem_le t.id u.id)) [
  | inl le ↦ rw le refl
  | inr gt ↦ rw gt (ap (◌∷◌ u.id) (ids-insert_id t xs))
]

ids-sort_ids : (xs : List Tx) → ids (sort_ids xs) ≡ sort (ids xs)
unfolding sort_ids
ids-sort_ids [] = refl
ids-sort_ids (t ∷ xs) = ids-insert_id t (sort_ids xs) ∙ ap (insert t.id) (ids-sort_ids xs)

concat_ids-concat : (xs : List Tx) → concat_ids xs ≡ concat (ids xs)
unfolding concat_ids
concat_ids-concat [] = refl
concat_ids-concat (t ∷ xs) = ap (◌++◌ t.id) (concat_ids-concat xs)

-- Two identifiers before a third that stands behind both.
insert_front :
    (a b : Bytes) (xs : List Bytes)
    → (if mem_le a b then a ∷ b ∷ xs else b ∷ a ∷ xs)
      ≡ (if mem_le b a then b ∷ a ∷ xs else a ∷ b ∷ xs)
insert_front a b xs = elim (Bool-cases (mem_le a b)) [
  | inr gt ↦ rw (gt, mem_le-total a b gt) refl
  | inl le ↦ elim (Bool-cases (mem_le b a)) [
    | inr lt ↦ rw (le, lt) refl
    | inl ge ↦ rw (le, ge) (let e = mem_le_antisym a b le ge in rw e refl)
  ]
]

-- Behind a third that the other is not.
no_between : (a b x : Bytes) → mem_le a x ≡ false → mem_le b x ≡ true → mem_le a b ≡ false
no_between a b x h k = elim (Bool-cases (mem_le a b)) [
  | inr gt ↦ gt
  | inl le ↦ let t = mem_le_trans a b x le k in cc
]

insert_comm : (a b : Bytes) (xs : List Bytes) → insert a (insert b xs) ≡ insert b (insert a xs)
insert_comm a b [] = insert_front a b []
insert_comm a b (x ∷ xs) = elim (Bool-cases (mem_le a x)) [
  | inl p ↦ elim (Bool-cases (mem_le b x)) [
    | inl q ↦ rw (p, q, insert, p) (insert_front a b (x ∷ xs))
    | inr q ↦ let g = no_between b a x q p in rw (p, q, g, insert, p) refl
  ]
  | inr p ↦ elim (Bool-cases (mem_le b x)) [
    | inl q ↦ let g = no_between a b x p q in rw (p, q, g, insert, p) refl
    | inr q ↦ rw (p, q, insert, p) (ap (◌∷◌ x) (insert_comm a b xs))
  ]
]

sort-Permᴰ : {xs ys : List Tx} → Permᴰ xs ys → sort (ids xs) ≡ sort (ids ys)
sort-Permᴰ Permᴰ.nil = refl
sort-Permᴰ (Permᴰ.cons e h) = ap₂ insert (ap (λ (t : Tx). t.id) e) (sort-Permᴰ h)
sort-Permᴰ (Permᴰ.swap {a} {b} {a'} {b'} {l} e e') =
    ap₂ (λ (x y : Bytes). insert x (insert y (sort (ids l)))) (ap (λ (t : Tx). t.id) e)
      (ap (λ (t : Tx). t.id) e')
    ∙ insert_comm b'.id a'.id (sort (ids l))
sort-Permᴰ (Permᴰ.trans h k) = sort-Permᴰ h ∙ sort-Permᴰ k

concat-Permᴰ : {xs ys : List Tx} → Permᴰ xs ys → concat_ids (sort_ids xs) ≡ concat_ids (sort_ids ys)
concat-Permᴰ {xs} {ys} h =
    concat_ids-concat (sort_ids xs)
    ∙ ap concat (ids-sort_ids xs ∙ sort-Permᴰ h ∙ sym (ids-sort_ids ys))
    ∙ sym (concat_ids-concat (sort_ids ys))

concat-perm : {xs ys : List Tx} → Perm xs ys → concat_ids (sort_ids xs) ≡ concat_ids (sort_ids ys)
concat-perm {xs} {ys} h =
    ∥∥₁_elim h (is_set ℕ_set (concat_ids (sort_ids xs)) (concat_ids (sort_ids ys))) concat-Permᴰ

-- Two replicas whose windows hold the same transactions in any order, each within its capacity,
-- have the same digest.
pub digest-perm :
    (p : Provider) (d e : Dag)
    → d.count ≤ capacity d
    → e.count ≤ capacity e
    → Perm (window e) (window d)
    → digest p e ≡ digest p d
unfolding digest
digest-perm p d e hd he h = ground (arith, concat-perm h)
