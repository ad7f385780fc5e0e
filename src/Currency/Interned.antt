-- ===== src/Currency/Interned.antt =====
-- The accounts that `checkpoint_intern_account` and the loops of
-- `meshpay_currency_build_checkpoint` (components/currency/currency.c) put into the table.
use meshpay_v.Base.{
  ◌+◌, ◌≤◌, ◌<◌, ◌≡◌, refl, ◌∙◌, inl, inr, Bool, true, not, ◌||◌, List, [], ◌∷◌, Bytes, ok, ◌>>=◌,
  OnOk, OnOk-bind, OnOk-imp, arith, leb, ◌==◌, if◌then◌else◌, Bool-cases, length, get_or, set, any,
  any-append, length-set, take-set_end, add_one, All, mem_equal, mem_equal_iff,
}
use meshpay_v.Tx.{Tx}
use meshpay_v.Checkpoint.{Checkpoint, Account, table, zero_account}
use meshpay_v.Currency.{Config}
use meshpay_v.Currency.Refound.{intern, intern_table, intern_window}

-- The account has an entry.
abbrev pub holds : Checkpoint → Bytes → Bool
holds cp account = any (λ a. mem_equal a.account account) (table cp)

-- What interning leaves as it was.
pub record Grows (cp cp' : Checkpoint) : Type 0 where
  pub generation : cp'.generation ≡ cp.generation
  pub currency : cp'.currency_id ≡ cp.currency_id
  pub bounded : cp'.account_count ≤ length cp'.accounts
  pub keeps : (x : Bytes) → holds cp x ≡ true → holds cp' x ≡ true

pub Grows-self : (cp : Checkpoint) → cp.account_count ≤ length cp.accounts → Grows cp cp
Grows-self cp h = record { generation = refl; currency = refl; bounded = h; keeps = λ x k. k }

pub Grows-trans : {a b c : Checkpoint} → Grows a b → Grows b c → Grows a c
Grows-trans g h = record {
  generation = h.generation ∙ g.generation;
  currency = h.currency ∙ g.currency;
  bounded = h.bounded;
  keeps = λ x k. h.keeps x (g.keeps x k);
}

-- The table after an entry for an account is put behind it.
extended : Checkpoint → Bytes → Checkpoint
extended cp account = record cp {
  accounts =
      set cp.accounts cp.account_count
        (record (get_or cp.accounts cp.account_count zero_account) { account = account });
  account_count = cp.account_count + 1;
}

holds-extended :
    (cp : Checkpoint) (account x : Bytes)
    → cp.account_count < length cp.accounts
    → holds (extended cp account) x ≡ (holds cp x || mem_equal account x)
unfolding extended
holds-extended cp account x r =
    rw (add_one, take-set_end cp.accounts cp.account_count _ r)
      (any-append (λ a. mem_equal a.account x) (table cp) _ ∙ ground arith)

extended-Grows :
    (cp : Checkpoint) (account : Bytes)
    → cp.account_count < length cp.accounts
    → Grows cp (extended cp account)
unfolding extended
extended-Grows cp account r = record {
  generation = refl;
  currency = refl;
  bounded = omega (
    arith,
    length-set cp.accounts cp.account_count
        (record (get_or cp.accounts cp.account_count zero_account) { account = account }),
  );
  keeps = λ x k. ground (arith, holds-extended cp account x r);
}

pub intern-Grows :
    (account : Bytes) (cp : Checkpoint)
    → cp.account_count ≤ length cp.accounts
    → OnOk (λ cp'. Grows cp cp' × (holds cp' account ≡ true)) (intern account cp)
unfolding intern extended
intern-Grows account cp b = elim (Bool-cases (holds cp account)) [
  | inl here ↦ rw here (Grows-self cp b, here)
  | inr new ↦ elim (Bool-cases (leb (length cp.accounts) cp.account_count)) [
    | inl full ↦ rw (new, full) tt
    | inr room ↦
        let r : cp.account_count < length cp.accounts = ground arith in
        rw (new, room)
          (
            extended-Grows cp account r,
            ground (arith, holds-extended cp account account r, mem_equal_iff account account),
          )
  ]
]

pub intern_table-Grows :
    (xs : List Account) (cp : Checkpoint)
    → cp.account_count ≤ length cp.accounts
    → OnOk (λ cp'. Grows cp cp' × All (λ a. holds cp' a.account ≡ true) xs) (intern_table xs cp)
unfolding intern_table
intern_table-Grows [] cp b = (Grows-self cp b, tt)
intern_table-Grows (a ∷ xs) cp b =
    OnOk-bind _ _ (intern a.account cp) (intern_table xs) (intern-Grows a.account cp b)
      (λ mid (g, here).
        OnOk-imp _ _ (intern_table xs mid)
          (λ end (g', rest). (Grows-trans g g', (g'.keeps a.account here, rest)))
          (intern_table-Grows xs mid g.bounded))

-- Both sides of a transaction of the currency have an entry.
abbrev pub HoldsSides : Config → Checkpoint → Tx → Type 0
HoldsSides c cp t =
    t.currency_id ≡ c.currency_id → (holds cp t.from ≡ true) × (holds cp t.to ≡ true)

HoldsSides-Grows :
    (c : Config) (cp cp' : Checkpoint) (t : Tx)
    → Grows cp cp'
    → HoldsSides c cp t
    → HoldsSides c cp' t
HoldsSides-Grows c cp cp' t g h own = let (f, s) = h own in (g.keeps t.from f, g.keeps t.to s)

intern_sides-Grows :
    (c : Config) (t : Tx) (cp : Checkpoint)
    → cp.account_count ≤ length cp.accounts
    → OnOk
        (λ cp'. Grows cp cp' × HoldsSides c cp' t)
        (if not (t.currency_id == c.currency_id) then ok cp else intern t.from cp >>= intern t.to)
intern_sides-Grows c t cp b = elim (Bool-cases (t.currency_id == c.currency_id)) [
  | inr foreign ↦ rw foreign (Grows-self cp b, λ own. absurd (ground arith))
  | inl own ↦ rw own (
      OnOk-bind _ _ (intern t.from cp) (intern t.to) (intern-Grows t.from cp b) (λ mid (g, here).
        OnOk-imp _ _ (intern t.to mid)
          (λ end (g', there). (Grows-trans g g', λ _. (g'.keeps t.from here, there)))
          (intern-Grows t.to mid g.bounded)))
]

pub intern_window-Grows :
    (c : Config) (xs : List Tx) (cp : Checkpoint)
    → cp.account_count ≤ length cp.accounts
    → OnOk (λ cp'. Grows cp cp' × All (HoldsSides c cp') xs) (intern_window c xs cp)
unfolding intern_window
intern_window-Grows c [] cp b = (Grows-self cp b, tt)
intern_window-Grows c (t ∷ xs) cp b =
    OnOk-bind _ _ _ (intern_window c xs) (intern_sides-Grows c t cp b) (λ mid (g, here).
      OnOk-imp _ _ (intern_window c xs mid)
        (λ end (g', rest). (Grows-trans g g', (HoldsSides-Grows c mid end t g' here, rest)))
        (intern_window-Grows c xs mid g.bounded))
