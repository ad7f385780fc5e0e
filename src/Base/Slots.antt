-- ===== src/Base/Slots.antt =====
-- The search that two tables share: the slot of an entry, or else the first free one.
use Prim.Native.Nat.{ℕ, zero, suc, ◌+◌, ◌<◌}
use mathlib.Core.Path.{◌≡◌, refl}
use mathlib.Core.Logic.{◌⊎◌, inl, inr}
use mathlib.Core.Bool.{Bool, true, false, ◌&&◌}
use mathlib.Core.List.{List, [], ◌∷◌}
use mathlib.Core.Option.{none, some}
use native.Mathlib.Omega.{arith}
use meshpay_v.Base.Tests.{if◌then◌else◌, ◌==◌, Bool-cases}
use meshpay_v.Base.Lists.{length, get_or, set, find_first}

module _ {ℓ} {A : Type ℓ} where
  -- `for (i = 0; i < size; ++i)`: `slot = i` and `break` at the entry that is meant; `slot = i` at the
  -- first free one while `slot == size`.
  unfoldable pub slot_for : (A → Bool) → (A → Bool) → ℕ → List A → ℕ → ℕ → ℕ
  slot_for meant free size [] i slot = slot
  slot_for meant free size (x ∷ xs) i slot =
      let rest = slot_for meant free size xs (suc i) (if free x && slot == size then i else slot) in
      if meant x then i else rest

  -- The slot that was free before, or a place with an entry that is meant or free.
  pub slot_for-Cases :
      (meant free : A → Bool) (size : ℕ) (xs : List A) (i slot : ℕ) (d : A)
      → (slot_for meant free size xs i slot ≡ slot)
        ⊎ ((j : ℕ) × (slot_for meant free size xs i slot ≡ i + j)
            × (j < length xs)
            × ((meant (get_or xs j d) ≡ true) ⊎ (free (get_or xs j d) ≡ true)))
  unfolding slot_for
  slot_for-Cases meant free size [] i slot d = inl refl
  slot_for-Cases meant free size (x ∷ xs) i slot d = elim (Bool-cases (meant x)) [
    | inl hit ↦ rw hit (inr (0, omega arith, omega arith, inl hit))
    | inr miss ↦ rw miss (elim (Bool-cases (free x && slot == size)) [
      | inl vacant ↦ rw vacant (elim (slot_for-Cases meant free size xs (suc i) i d) [
        | inl e ↦ inr (0, omega (arith, e), omega arith, inr (ground (arith, vacant)))
        | inr (j, e, l, h) ↦ inr (suc j, omega (arith, e), omega (arith, l), h)
      ])
      | inr taken ↦ rw taken (elim (slot_for-Cases meant free size xs (suc i) slot d) [
        | inl e ↦ inl e
        | inr (j, e, l, h) ↦ inr (suc j, omega (arith, e), omega (arith, l), h)
      ])
    ])
  ]

  -- If an entry is meant, the slot is the place of the first one.
  pub slot_for-find_first :
      (meant free : A → Bool) (size : ℕ) (xs : List A) (i slot : ℕ) (e v d : A)
      → find_first meant xs ≡ some e
      → meant v ≡ true
      → (j : ℕ) × (slot_for meant free size xs i slot ≡ i + j)
        × (j < length xs)
        × (meant (get_or xs j d) ≡ true)
        × (find_first meant (set xs j v) ≡ some v)
  unfolding slot_for
  slot_for-find_first meant free size [] i slot e v d h w = cc
  slot_for-find_first meant free size (x ∷ xs) i slot e v d h w = elim (Bool-cases (meant x)) [
    | inl hit ↦ rw hit (0, omega arith, omega arith, hit, rw w refl)
    | inr miss ↦
        let g = rw miss at h in
        let (j, s, l, m, f) =
          slot_for-find_first meant free size xs (suc i)
            (if free x && slot == size then i else slot) e v d g w in
        rw miss (suc j, omega (arith, s), omega (arith, l), m, rw miss f)
  ]

  -- A write that the test does not see.
  pub find_first-set :
      (q : A → Bool) (xs : List A) (j : ℕ) (v d : A)
      → q (get_or xs j d) ≡ false
      → q v ≡ false
      → find_first q (set xs j v) ≡ find_first q xs
  find_first-set q [] j v d h w = refl
  find_first-set q (x ∷ xs) zero v d h w = rw (h, w) refl
  find_first-set q (x ∷ xs) (suc j) v d h w = ground (arith, find_first-set q xs j v d h w)

  pub find_first-test : (q : A → Bool) (xs : List A) (x : A) → find_first q xs ≡ some x → q x ≡ true
  find_first-test q [] x h = cc
  find_first-test q (y ∷ xs) x h = elim (Bool-cases (q y)) [
    | inl hit ↦ let g = rw hit at h in let e : y ≡ x = cc in rw (← e) hit
    | inr miss ↦ find_first-test q xs x (rw miss at h)
  ]

  -- A write of the only entry that the test sees.
  pub find_first-set_new :
      (q : A → Bool) (xs : List A) (j : ℕ) (v : A)
      → find_first q xs ≡ none
      → j < length xs
      → q v ≡ true
      → find_first q (set xs j v) ≡ some v
  find_first-set_new q [] j v h l w = absurd (omega arith)
  find_first-set_new q (x ∷ xs) zero v h l w = rw w refl
  find_first-set_new q (x ∷ xs) (suc j) v h l w = elim (Bool-cases (q x)) [
    | inl hit ↦ let g = rw hit at h in cc
    | inr miss ↦ rw miss (find_first-set_new q xs j v (rw miss at h) (omega arith) w)
  ]
