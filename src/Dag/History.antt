-- ===== src/Dag/History.antt =====
-- Checkpoint adoption, and sequences of the operations that update a window
-- (components/dag/dag.c).
use meshpay_v.Base.{
  ℕ, ◌+◌, ◌≤◌, ◌<◌, ◌≡◌, refl, sym, ◌∙◌, ◌≢◌, ◌⊎◌, inl, inr, Bool, true, false, not, ◌&&◌, List, [],
  ◌∷◌, Bytes, esp_ok, arith, leb, ◌==◌, Bool-cases, length, keep, All, AllPairs, All-keep_test,
  All-imp, All-and, keep_none, constant_equal, constant_equal_iff,
}
use meshpay_v.Tx.{Tx, claim}
use meshpay_v.Checkpoint.{Checkpoint}
use meshpay_v.Dag.{
  Dag, window, init, shape_valid, merge_tx, compact, purge_foreign, below_floor, adopt_checkpoint,
}
use meshpay_v.Dag.Merge.{Apart, IsShaped, shape_valid-IsShaped}
use meshpay_v.Dag.Compact.{compact-IsFiltered, window-IsFiltered}
use meshpay_v.Dag.Invariant.{
  IsValid, IsFiltered-IsValid, merge_tx-IsValid, merge_tx-window, purge_foreign_lem, init-IsValid,
}

-- What an adoption that succeeds leaves.
pub record IsAdopted (d : Dag) (cp : Checkpoint) (d' : Dag) (purged : ℕ) : Type 0 where
  pub checkpoint : d'.checkpoint ≡ cp
  pub remains : window d' ≡ keep (λ t. not (below_floor cp t)) (window d)
  pub above : All (λ t. below_floor cp t ≡ false) (window d')
  pub total : d'.count + purged ≡ d.count
  pub valid : IsValid d'

not-true : (b : Bool) → not b ≡ true → b ≡ false
not-true b h = ground arith

IsAdopted-compact :
    (d : Dag) (cp : Checkpoint)
    → IsValid d
    → let (d', purged) = compact (λ t. not (below_floor cp t)) (record d { checkpoint = cp }) in
      IsAdopted d cp d' purged
unfolding compact
IsAdopted-compact d cp v =
    let stays = λ (t : Tx). not (below_floor cp t) in
    let f = compact-IsFiltered stays (record d { checkpoint = cp }) v.bounded in
    let w = window-IsFiltered f in
    let kept = v' in
    record {
      checkpoint = refl;
      remains = w;
      above = rw w (
          All-imp _ _ (λ t h. not-true (below_floor cp t) h) (keep stays (window d))
            (All-keep_test stays (window d)));
      total = f.total;
      valid = IsFiltered-IsValid f v';
    }
  where
    v' : IsValid (record d { checkpoint = cp })
    v' = record { bounded = v.bounded; spare = v.spare; shaped = v.shaped; apart = v.apart }

-- A checkpoint is adopted exactly if its generation is later than the one held: then the window
-- keeps what stands above the floors, and no more. Otherwise nothing changes.
pub adopt_checkpoint_lem :
    (d : Dag) (cp : Checkpoint)
    → IsValid d
    → let (d', e, purged) = adopt_checkpoint d cp in
      (d.checkpoint.generation < cp.generation) × (e ≡ esp_ok) × IsAdopted d cp d' purged
      ⊎ (cp.generation ≤ d.checkpoint.generation) × (e ≢ esp_ok) × (d' ≡ d) × (purged ≡ 0)
unfolding adopt_checkpoint
adopt_checkpoint_lem d cp v = elim (Bool-cases (cp.generation == 0)) [
  | inl z ↦ rw z (inr (ground arith, (λ e. cc), refl, refl))
  | inr nz ↦ elim (Bool-cases (leb cp.generation d.checkpoint.generation)) [
    | inl old ↦ rw (nz, old) (inr (ground arith, (λ e. cc), refl, refl))
    | inr new ↦ rw (nz, new) (inl (ground arith, refl, IsAdopted-compact d cp v))
  ]
]

-- One call of the component.
pub data Step : Dag → Dag → Type 0 where
  merge : (d : Dag) (t : Tx) → Step d (merge_tx d t).0
  purge : (d : Dag) (currency : ℕ) → Step d (purge_foreign d currency).0
  adopt : (d : Dag) (cp : Checkpoint) → Step d (adopt_checkpoint d cp).0

pub data Reach (s : Dag) : Dag → Type 0 where
  here : Reach s s
  next : {t u : Dag} → Reach s t → Step t u → Reach s u

adopt_checkpoint-IsValid :
    (d : Dag) (cp : Checkpoint) → IsValid d → IsValid (adopt_checkpoint d cp).0
adopt_checkpoint-IsValid d cp v = elim (adopt_checkpoint_lem d cp v) [
  | inl (_, _, a) ↦ a.valid
  | inr (_, _, same, _) ↦ rw same v
]

Step-IsValid : {d d' : Dag} → Step d d' → IsValid d → IsValid d'
Step-IsValid (merge d t) v = merge_tx-IsValid d t v
Step-IsValid (purge d currency) v = (purge_foreign_lem d currency v).3
Step-IsValid (adopt d cp) v = adopt_checkpoint-IsValid d cp v

-- From a valid window, every sequence of merges, purges and adoptions leads to a valid window.
pub Reach-IsValid : {s d : Dag} → Reach s d → IsValid s → IsValid d
Reach-IsValid here v = v
Reach-IsValid (next r st) v = Step-IsValid st (Reach-IsValid r v)

-- One operation does not lower the generation.
Step-generation :
    {d d' : Dag} → Step d d' → IsValid d → d.checkpoint.generation ≤ d'.checkpoint.generation
Step-generation (merge d t) v = elim (merge_tx-window d t).1 [
  | inl (_, _, same) ↦ rw same (omega arith)
  | inr (_, same) ↦ rw same (omega arith)
]
Step-generation (purge d currency) v = rw (purge_foreign_lem d currency v).2 (omega arith)
Step-generation (adopt d cp) v = elim (adopt_checkpoint_lem d cp v) [
  | inl (later, _, a) ↦ rw a.checkpoint (omega arith)
  | inr (_, _, same, _) ↦ rw same (omega arith)
]

-- No sequence of merges, purges and adoptions from a valid window lowers the generation of its
-- checkpoint.
Reach-generation :
    {s d : Dag} → Reach s d → IsValid s → s.checkpoint.generation ≤ d.checkpoint.generation
Reach-generation here v = omega arith
Reach-generation (next r st) v =
    omega (arith, Reach-generation r v, Step-generation st (Reach-IsValid r v))

-- The test for a claim of the given member in the given currency.
abbrev pub is_claim_of : ℕ → Bytes → Tx → Bool
is_claim_of currency member t =
    t.kind == claim && t.currency_id == currency && constant_equal t.from member

is_claim_of-true :
    (currency : ℕ) (member : Bytes) (t : Tx)
    → is_claim_of currency member t ≡ true
    → (t.kind ≡ claim) × (t.currency_id ≡ currency) × (t.from ≡ member)
is_claim_of-true currency member t h = ground (arith, constant_equal_iff t.from member)

claim_alone :
    (currency : ℕ) (member : Bytes) (t u : Tx)
    → IsShaped t
    → IsShaped u
    → is_claim_of currency member t ≡ true
    → Apart t u
    → is_claim_of currency member u ≡ false
claim_alone currency member t u st su h apart = elim (Bool-cases (is_claim_of currency member u)) [
  | inr miss ↦ miss
  | inl hit ↦
      let (kt, ct, ft) = is_claim_of-true currency member t h in
      let (ku, cu, fu) = is_claim_of-true currency member u hit in
      absurd (apart.1 ((st.claim_self kt).1 ∙ sym (su.claim_self ku).1, ct ∙ sym cu, ft ∙ sym fu))
]

claims_le_one :
    (currency : ℕ) (member : Bytes) (xs : List Tx)
    → All (λ t. shape_valid t ≡ true) xs
    → AllPairs Apart xs
    → length (keep (is_claim_of currency member) xs) ≤ 1
claims_le_one currency member [] s a = omega arith
claims_le_one currency member (t ∷ xs) s a = elim (Bool-cases (is_claim_of currency member t)) [
  | inl hit ↦
      let alone =
        All-and _ _ _
          (λ u su apart.
            claim_alone currency member t u (shape_valid-IsShaped t s.0) (shape_valid-IsShaped u su)
              hit apart)
          xs s.1 a.0 in
      rw (hit, keep_none (is_claim_of currency member) xs alone) (omega arith)
  | inr miss ↦ rw miss (claims_le_one currency member xs s.1 a.1)
]

-- After any history from the empty window, a member has at most one claim in each currency.
pub claims_once :
    (size max : ℕ) (d : Dag) (currency : ℕ) (member : Bytes)
    → Reach (init size max) d
    → length (keep (is_claim_of currency member) (window d)) ≤ 1
claims_once size max d currency member r =
    let v = Reach-IsValid r (init-IsValid size max) in
    claims_le_one currency member (window d) v.shaped v.apart
