-- ===== src/Currency/Directory.antt =====
-- The directory of members as a list, for `meshpay_currency_member_count` and
-- `meshpay_currency_member_at` (components/currency/currency.c).
use meshpay_v.Base.{
  ℕ, zero, suc, ◌+◌, ◌<◌, ◌≡◌, refl, sym, ap, ◌∙◌, inl, inr, true, false, not, ◌&&◌, List, [], ◌∷◌,
  ◌++◌, Option, none, some, Bytes, ok, err, invalid_arg, arith, ltb, ◌==◌, if◌then◌else◌,
  Bool-cases, length, get_or, keep, bytes_zero,
}
use meshpay_v.Tx.{Tx}
use meshpay_v.Checkpoint.{Account, table}
use meshpay_v.Dag.{Dag, window}
use meshpay_v.Currency.{Config, authorities, is_mint_authority, claim_valid, has_checkpoint}
use meshpay_v.Currency.Members.{
  Walk, visit, walk_directory, walk_claims, walk_authorities, member_walk, member_count, member_at,
  has_claim, size_max,
}

abbrev pub map : {A : Type 0} → (A → Bytes) → List A → List Bytes
map f [] = []
map f (x ∷ xs) = f x ∷ map f xs

-- The accounts with a key in the checkpoint, no authority among them.
abbrev pub refounded_members : Config → Dag → List Bytes
refounded_members c d =
    map (λ a. a.account)
      (keep (λ a. not (bytes_zero a.member_public) && not (is_mint_authority c a.account))
        (if has_checkpoint c d then table d.checkpoint else []))

abbrev pub claimants : Config → Dag → List Bytes
claimants c d = map (λ t. t.from) (keep (claim_valid c) (window d))

-- All members: those of the checkpoint, those who claim in the window, and the authorities that do
-- not.
abbrev pub members : Config → Dag → List Bytes
members c d =
    refounded_members c d ++ (claimants c d ++ keep (λ a. not (has_claim c d a)) (authorities c))

abbrev walk : ℕ → List Bytes → Walk → Walk
walk wanted [] w = w
walk wanted (x ∷ xs) w = walk wanted xs (visit wanted x w)

walk-append :
    (wanted : ℕ) (xs ys : List Bytes) (w : Walk)
    → walk wanted (xs ++ ys) w ≡ walk wanted ys (walk wanted xs w)
walk-append wanted [] ys w = refl
walk-append wanted (x ∷ xs) ys w = walk-append wanted xs ys (visit wanted x w)

walk_directory-eq-walk :
    (c : Config) (wanted : ℕ) (xs : List Account) (w : Walk)
    → walk_directory c wanted xs w
      ≡ walk wanted
          (map
            (λ a. a.account)
            (keep
              (λ a. not (bytes_zero a.member_public) && not (is_mint_authority c a.account))
              xs))
          w
unfolding walk_directory
walk_directory-eq-walk c wanted [] w = refl
walk_directory-eq-walk c wanted (a ∷ xs) w =
    elim (Bool-cases (not (bytes_zero a.member_public) && not (is_mint_authority c a.account))) [
      | inl here ↦ rw here (walk_directory-eq-walk c wanted xs (visit wanted a.account w))
      | inr gone ↦ rw gone (walk_directory-eq-walk c wanted xs w)
    ]

walk_claims-eq-walk :
    (c : Config) (wanted : ℕ) (xs : List Tx) (w : Walk)
    → walk_claims c wanted xs w ≡ walk wanted (map (λ t. t.from) (keep (claim_valid c) xs)) w
unfolding walk_claims
walk_claims-eq-walk c wanted [] w = refl
walk_claims-eq-walk c wanted (t ∷ xs) w = elim (Bool-cases (claim_valid c t)) [
  | inl here ↦ rw here (walk_claims-eq-walk c wanted xs (visit wanted t.from w))
  | inr gone ↦ rw gone (walk_claims-eq-walk c wanted xs w)
]

walk_authorities-eq-walk :
    (c : Config) (d : Dag) (wanted : ℕ) (xs : List Bytes) (w : Walk)
    → walk_authorities c d wanted xs w ≡ walk wanted (keep (λ a. not (has_claim c d a)) xs) w
unfolding walk_authorities
walk_authorities-eq-walk c d wanted [] w = refl
walk_authorities-eq-walk c d wanted (a ∷ xs) w = elim (Bool-cases (has_claim c d a)) [
  | inl gone ↦ rw gone (walk_authorities-eq-walk c d wanted xs w)
  | inr here ↦ rw here (walk_authorities-eq-walk c d wanted xs (visit wanted a w))
]

member_walk-eq-walk :
    (c : Config) (d : Dag) (wanted : ℕ)
    → member_walk c d wanted ≡ walk wanted (members c d) (0, none)
unfolding member_walk
member_walk-eq-walk c d wanted =
    let dir = if has_checkpoint c d then table d.checkpoint else [] in
    walk_authorities-eq-walk c d wanted (authorities c) _
    ∙ ap (walk wanted (keep (λ a. not (has_claim c d a)) (authorities c))) (
        walk_claims-eq-walk c wanted (window d) _
        ∙ ap (walk wanted (claimants c d)) (walk_directory-eq-walk c wanted dir (0, none)))
    ∙ sym (
        walk-append wanted (refounded_members c d) _ (0, none)
        ∙ walk-append wanted (claimants c d) _ _)

walk_count :
    (wanted : ℕ) (xs : List Bytes) (n : ℕ) (out : Option Bytes)
    → (walk wanted xs (n, out)).0 ≡ n + length xs
walk_count wanted [] n out = omega arith
walk_count wanted (x ∷ xs) n out =
    omega (arith, walk_count wanted xs (n + 1) (if n == wanted then some x else out))

walk_passed :
    (wanted : ℕ) (xs : List Bytes) (n : ℕ) (out : Option Bytes)
    → wanted < n
    → (walk wanted xs (n, out)).1 ≡ out
walk_passed wanted [] n out h = refl
walk_passed wanted (x ∷ xs) n out h =
    let miss : (n == wanted) ≡ false = ground arith in
    rw (miss, walk) (walk_passed wanted xs (n + 1) out (omega arith))

walk_pick :
    (k : ℕ) (xs : List Bytes) (n : ℕ) (out : Option Bytes)
    → k < length xs
    → (walk (n + k) xs (n, out)).1 ≡ some (get_or xs k [])
walk_pick k [] n out h = absurd (omega arith)
walk_pick zero (x ∷ xs) n out h =
    let hit : (n == n + 0) ≡ true = ground arith in
    rw (hit, walk) (walk_passed (n + 0) xs (n + 1) (some x) (omega arith))
walk_pick (suc k) (x ∷ xs) n out h =
    let miss : (n == n + suc k) ≡ false = ground arith in
    rw (miss, walk)
      (ap (λ (j : ℕ). (walk j xs (n + 1, out)).1) {x = n + suc k} {y = n + 1 + k} (omega arith)
        ∙ walk_pick k xs (n + 1) out (omega arith))

-- `meshpay_currency_member_count` counts the members, and `meshpay_currency_member_at` gives the
-- member of each index below the count and refuses every other index.
pub member_at-members :
    (c : Config) (d : Dag) (index : ℕ)
    → (member_count c d ≡ length (members c d))
      × (member_at c d index ≡ (
          if ltb index (member_count c d)
          then ok (some (get_or (members c d) index []))
          else err invalid_arg))
unfolding member_count member_at
member_at-members c d index = (
  total size_max,
  elim (Bool-cases (ltb index (length (members c d)))) [
    | inr out ↦ rw (total size_max, total index, out) refl
    | inl here ↦
        let at' = walk_pick index (members c d) 0 none (ground arith) in
        rw (total size_max, total index, here)
          (ap ok
            (ap (λ (w : Walk). w.1) (member_walk-eq-walk c d index) ∙ zero_left (members c d) at'))
  ],
)
  where
    total : (wanted : ℕ) → (member_walk c d wanted).0 ≡ length (members c d)
    total wanted =
        ap (λ (w : Walk). w.0) (member_walk-eq-walk c d wanted)
        ∙ walk_count wanted (members c d) 0 none
        ∙ omega arith

    zero_left :
        (xs : List Bytes) {o : Option Bytes}
        → (walk (0 + index) xs (0, none)).1 ≡ o
        → (walk index xs (0, none)).1 ≡ o
    zero_left xs {o} h =
        ap (λ (k : ℕ). (walk k xs (0, none)).1) {x = index} {y = 0 + index} (omega arith) ∙ h
