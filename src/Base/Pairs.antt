-- ===== src/Base/Pairs.antt =====
-- What holds of every entry of an array, and of every two, under appending and filtering.
use mathlib.Core.Path.{◌≡◌, refl, sym, subst}
use mathlib.Core.Logic.{◌⊎◌, inl, inr}
use mathlib.Core.Option.{some}
use meshpay_v.Base.Tests.{Bool-cases}
use mathlib.Core.Bool.{Bool, true, false}
use mathlib.Core.List.{List, [], ◌∷◌, ◌++◌}
use native.Mathlib.Omega.{arith}
use meshpay_v.Base.Lists.{All, keep, any, find_first}

module _ {ℓ κ} {A : Type ℓ} where
  -- Every entry is so related to every later one.
  abbrev pub AllPairs : (A → A → Type κ) → List A → Type κ
  AllPairs R [] = Unit {κ}
  AllPairs R (x ∷ xs) = All (R x) xs × AllPairs R xs

module _ {A : Type 0} where
  -- The entry stands in the array.
  abbrev pub In : A → List A → Type 0
  In x [] = ⊥
  In x (y ∷ ys) = (x ≡ y) ⊎ In x ys

module _ {A : Type 0} where
  pub find_first-In : (p : A → Bool) (xs : List A) (x : A) → find_first p xs ≡ some x → In x xs
  find_first-In p [] y h = cc
  find_first-In p (x ∷ xs) y h = elim (Bool-cases (p x)) [
    | inl hit ↦ inl (ground arith)
    | inr miss ↦ inr (find_first-In p xs y (ground arith))
  ]

  pub All-In : (P : A → Type 0) (xs : List A) (x : A) → All P xs → In x xs → P x
  All-In P [] x h i = absurd i
  All-In P (y ∷ ys) x h (inl e) = subst P (sym e) h.0
  All-In P (y ∷ ys) x h (inr i) = All-In P ys x h.1 i

  pub All-of_In : (P : A → Type 0) (xs : List A) → ((x : A) → In x xs → P x) → All P xs
  All-of_In P [] f = tt
  All-of_In P (x ∷ xs) f = (f x (inl refl), All-of_In P xs (λ y i. f y (inr i)))

  pub All-and :
      (P Q R : A → Type 0)
      → ((x : A) → P x → Q x → R x)
      → (xs : List A) → All P xs
      → All Q xs
      → All R xs
  All-and P Q R f [] h k = tt
  All-and P Q R f (x ∷ xs) h k = (f x h.0 k.0, All-and P Q R f xs h.1 k.1)

  pub All-snoc : (P : A → Type 0) (xs : List A) (x : A) → All P xs → P x → All P (xs ++ x ∷ [])
  All-snoc P [] x h p = (p, tt)
  All-snoc P (y ∷ ys) x h p = (h.0, All-snoc P ys x h.1 p)

  pub All-keep : (P : A → Type 0) (p : A → Bool) (xs : List A) → All P xs → All P (keep p xs)
  All-keep P p [] h = tt
  All-keep P p (x ∷ xs) h = let rest = All-keep P p xs h.1 in ground arith

  pub All-keep_test : (p : A → Bool) (xs : List A) → All (λ x. p x ≡ true) (keep p xs)
  All-keep_test p [] = tt
  All-keep_test p (x ∷ xs) = let rest = All-keep_test p xs in ground arith

  pub All-imp : (P Q : A → Type 0) → ((x : A) → P x → Q x) → (xs : List A) → All P xs → All Q xs
  All-imp P Q f [] h = tt
  All-imp P Q f (x ∷ xs) h = (f x h.0, All-imp P Q f xs h.1)

  pub AllPairs-snoc :
      (R : A → A → Type 0) (xs : List A) (x : A)
      → AllPairs R xs
      → All (λ y. R y x) xs
      → AllPairs R (xs ++ x ∷ [])
  AllPairs-snoc R [] x h new = (tt, tt)
  AllPairs-snoc R (y ∷ ys) x h new = (All-snoc (R y) ys x h.0 new.0, AllPairs-snoc R ys x h.1 new.1)

  pub AllPairs-keep :
      (R : A → A → Type 0) (p : A → Bool) (xs : List A) → AllPairs R xs → AllPairs R (keep p xs)
  AllPairs-keep R p [] h = tt
  AllPairs-keep R p (x ∷ xs) h =
      let rest = AllPairs-keep R p xs h.1 in let here = All-keep (R x) p xs h.0 in ground arith

  -- A test that no entry passes.
  pub any_none : (p : A → Bool) (xs : List A) → any p xs ≡ false → All (λ x. p x ≡ false) xs
  any_none p [] h = tt
  any_none p (x ∷ xs) h = (ground arith, any_none p xs (ground arith))

  pub any-false : (p : A → Bool) (xs : List A) → All (λ x. p x ≡ false) xs → any p xs ≡ false
  any-false p [] h = refl
  any-false p (x ∷ xs) (e, h) = ground (arith, any-false p xs h)

  pub keep_none : (p : A → Bool) (xs : List A) → All (λ x. p x ≡ false) xs → keep p xs ≡ []
  keep_none p [] h = refl
  keep_none p (x ∷ xs) (e, h) = ground (arith, keep_none p xs h)
