-- ===== src/Currency/Rebuild.antt =====
-- The two loops of `meshpay_currency_build_checkpoint` (components/currency/currency.c).
use meshpay_v.Base.{
  ℕ, ◌≡◌, ◌≢◌, sym, ap, subst, ◌∙◌, ◌⊎◌, inl, inr, true, not, ◌||◌, [], none, some, Bytes, Result,
  ok, err, ◌>>=◌, OnOk, OnOk-bind, OnOk-imp, OnOk-ok, arith, ◌==◌, if◌then◌else◌, Bool-cases,
  Option-cases, get_or, All, All-imp, mem_equal, mem_equal_iff, find_first_test, find_first-any,
}
use meshpay_v.Crypto.{Provider}
use meshpay_v.Checkpoint.{Checkpoint, Account, find_account, table}
use meshpay_v.Dag.{Dag, window}
use meshpay_v.Dag.Digest.{digest}
use meshpay_v.Currency.{Config, has_checkpoint}
use meshpay_v.Currency.Ledger.{get_balance}
use meshpay_v.Currency.Refound.{
  intern, intern_table, intern_window, inherited_floor, refound_account, refound_accounts,
  build_checkpoint, header,
}
use meshpay_v.Currency.Interned.{
  holds, Grows, Grows-trans, HoldsSides, intern-Grows, intern_table-Grows, intern_window-Grows,
}
use meshpay_v.Currency.Regenesis.{
  IsCovered, raise_floor-IsCovered, refound-none, refound-some, some-inj, IsRefounded, IsGathered,
  not_held, stranger_balance,
}

gather-IsGathered :
    (c : Config) (d : Dag) (created_at : ℕ) (hash : Bytes) (max : ℕ)
    → OnOk (IsGathered c d) (
        intern_table
          (if has_checkpoint c d then table d.checkpoint else [])
          (header c d created_at hash max)
        >>= intern (get_or c.mint_authorities 0 [])
        >>= intern_window c (window d))
gather-IsGathered c d created_at hash max =
    let start = header c d created_at hash max in
    let old = if has_checkpoint c d then table d.checkpoint else [] in
    OnOk-bind
      (λ cp.
        Grows start cp
        × All (λ a. holds cp a.account ≡ true) old
        × (holds cp (get_or c.mint_authorities 0 []) ≡ true))
      _ _ (intern_window c (window d))
      (OnOk-bind _ _ (intern_table old start) (intern (get_or c.mint_authorities 0 []))
        (intern_table-Grows old start (omega arith))
        (λ mid (g, olds).
          OnOk-imp _ _ (intern (get_or c.mint_authorities 0 []) mid)
            (λ end (g', here).
              (Grows-trans g g', All-imp _ _ (λ a h. g'.keeps a.account h) old olds, here))
            (intern-Grows (get_or c.mint_authorities 0 []) mid g.bounded)))
      (λ mid (g, olds, here).
        OnOk-imp _ _ (intern_window c (window d) mid)
          (λ end (g', sides). record {
            generation = g'.generation ∙ g.generation;
            currency = g'.currency ∙ g.currency;
            inherited = λ on.
                All-imp _ _ (λ a h. g'.keeps a.account h) (table d.checkpoint) (rw on at olds);
            authority = g'.keeps (get_or c.mint_authorities 0 []) here;
            sides = sides;
          })
          (intern_window-Grows c (window d) mid g.bounded))

-- The checkpoint after the second loop.
abbrev refounded : Config → Dag → Checkpoint → Checkpoint
refounded c d cp = record cp { accounts = refound_accounts c d cp.account_count cp.accounts }

lookup :
    (c : Config) (d : Dag) (cp : Checkpoint) (x : Bytes)
    → (find_account cp x ≡ none) × (find_account (refounded c d cp) x ≡ none)
      ⊎ (a : Account) × (a.account ≡ x)
        × (holds cp x ≡ true)
        × (find_account (refounded c d cp) x ≡ some (refound_account c d a))
unfolding find_account
lookup c d cp x = elim (Option-cases (find_account cp x)) [
  | inl missing ↦ inl (missing, refound-none c d x cp.account_count cp.accounts missing)
  | inr (a, found) ↦
      let p = λ (a : Account). mem_equal a.account x in
      inr (
        a,
        (mem_equal_iff a.account x).0 (find_first_test p (table cp) a found),
        find_first-any p (table cp) a found,
        refound-some c d x cp.account_count cp.accounts a found,
      )
]

held-refounded :
    (c : Config) (d : Dag) (cp : Checkpoint) (x : Bytes)
    → holds cp x ≡ true
    → find_account (refounded c d cp) x ≢ none
held-refounded c d cp x h missing = elim (lookup c d cp x) [
  | inl (gone, _) ↦ let k = not_held cp x gone in cc
  | inr (a, _, _, found) ↦ cc
]

refounded-IsRefounded :
    (c : Config) (d : Dag) (cp : Checkpoint)
    → IsGathered c d cp
    → IsRefounded c d (refounded c d cp)
unfolding refound_account
refounded-IsRefounded c d cp g = record {
  generation = g.generation;
  currency = g.currency;
  complete = λ x missing. elim (lookup c d cp x) [
    | inl (gone, _) ↦ stranger_balance c d cp x g (not_held cp x gone)
    | inr (a, _, _, found) ↦ cc
  ];
  balances = λ x b there. elim (lookup c d cp x) [
    | inl (_, gone) ↦ cc
    | inr (a, same, _, found) ↦
        let e = some-inj (sym there ∙ found) in rw e (ap (get_balance c d) same)
  ];
  floors = λ x b there. elim (lookup c d cp x) [
    | inl (_, gone) ↦ cc
    | inr (a, same, _, found) ↦
        let e = some-inj (sym there ∙ found) in
        rw e (
          subst (λ y. All (IsCovered c y (refound_account c d a).seq_floor) (window d)) same
            (raise_floor-IsCovered c a.account (inherited_floor d a.account) (window d)))
  ];
  senders =
      All-imp (HoldsSides c cp) _ (λ t sides own. held-refounded c d cp t.from (sides own).0)
        (window d) g.sides;
  recipients =
      All-imp (HoldsSides c cp) _ (λ t sides own. held-refounded c d cp t.to (sides own).1)
        (window d) g.sides;
}

build_checkpoint-OnOk :
    (p : Provider) (c : Config) (d : Dag) (created_at max : ℕ)
    → OnOk (IsRefounded c d) (build_checkpoint p c d created_at max)
unfolding build_checkpoint
build_checkpoint-OnOk p c d created_at max =
    elim (Bool-cases (not c.has_descriptor || c.mint_authority_count == 0)) [
      | inl bad ↦ rw bad tt
      | inr good ↦ rw good (
          OnOk-bind (λ _. Unit {0}) _ (digest p d) _ (OnOk-any (digest p d))
            (λ hash _.
              OnOk-bind (IsGathered c d) _ _ _ (gather-IsGathered c d created_at hash max)
                (λ cp g. refounded-IsRefounded c d cp g)))
    ]
  where
    OnOk-any : {A : Type 0} (r : Result A) → OnOk (λ _. Unit {0}) r
    OnOk-any (ok a) = tt
    OnOk-any (err e) = tt

-- What `meshpay_currency_build_checkpoint` returns is the checkpoint of the window.
pub build_checkpoint-IsRefounded :
    (p : Provider) (c : Config) (d : Dag) (created_at max : ℕ) (cp : Checkpoint)
    → build_checkpoint p c d created_at max ≡ ok cp
    → IsRefounded c d cp
build_checkpoint-IsRefounded p c d created_at max cp h =
    OnOk-ok (IsRefounded c d) _ cp (build_checkpoint-OnOk p c d created_at max) h

-- It is made under a descriptor only.
pub build_checkpoint-anchored :
    (p : Provider) (c : Config) (d : Dag) (created_at max : ℕ) (cp : Checkpoint)
    → build_checkpoint p c d created_at max ≡ ok cp
    → c.has_descriptor ≡ true
unfolding build_checkpoint
build_checkpoint-anchored p c d created_at max cp h = elim (Bool-cases c.has_descriptor) [
  | inl anchored ↦ anchored
  | inr none' ↦ absurd (cc (rw none' at h))
]
