-- ===== src/Currency/Gate.antt =====
-- What `meshpay_currency_ingest_check` (components/currency/currency.c) admits to a window.
use meshpay_v.Base.{
  ◌++◌, ◌≡◌, refl, sym, ap, subst, ◌∙◌, ◌⊎◌, inl, inr, Bool, true, false, ◌||◌, some, Bytes, Err,
  esp_ok, Result, ok, err, fits, arith, ◌==◌, Bool-cases, Option-cases, drop, take, bytes_zero,
  constant_equal, constant_equal_iff, mem_equal_iff,
}
use meshpay_v.Tx.{Tx, transfer, mint, claim}
use meshpay_v.Tx.Codec.{validate_common, compute_id}
use meshpay_v.Tx.Codec
use meshpay_v.Tx.Errors.{compute_id-Fails, Fails-err}
use meshpay_v.Crypto
use meshpay_v.Crypto.{Provider}
use meshpay_v.Identity
use meshpay_v.Identity.{Identity, key_size, load_public, update_hash}
use meshpay_v.Destination.{Destination, create_wallet}
use meshpay_v.Dag.{Dag, below_floor}
use meshpay_v.Currency.{Config, accepted, is_mint_authority}
use meshpay_v.Currency.Members.{member_key}
use meshpay_v.Currency.Rules.{
  check_signature, key_binds_account, ingest_claim, ingest_transfer, ingest_check,
}

-- The transaction is well formed, its id is the digest of its canonical encoding, and the signature
-- of the id verifies under the second half of the key.
pub record IsSigned (p : Provider) (key : Bytes) (t : Tx) : Type 0 where
  pub form : validate_common t true ≡ esp_ok
  pub id : compute_id p t ≡ ok t.id
  pub signature : p.ed25519_check t.signature (drop key_size key) t.id ≡ true

-- The wallet destination of the key is the account.
pub record Binds (p : Provider) (key account : Bytes) : Type 0 where
  pub identity : Identity
  pub wallet : Destination
  pub loaded : load_public p key ≡ ok identity
  pub created : create_wallet p identity ≡ ok wallet
  pub bound : wallet.hash ≡ account

-- Who has signed a transaction, by its type.
pub data IsAuthentic (p : Provider) (c : Config) (d : Dag) (t : Tx) : Type 0 where
  by_founder :
      t.kind ≡ mint
      → is_mint_authority c t.from ≡ true
      → IsSigned p c.founder_public t
      → IsAuthentic p c d t
  by_member :
      t.kind ≡ claim
      → (t.from ≡ t.to) × (t.seq ≡ 0) × (t.amount ≡ c.initial_credit)
      → Binds p t.member_public t.from
      → IsSigned p t.member_public t
      → IsAuthentic p c d t
  by_sender :
      t.kind ≡ transfer
      → t.fee ≡ c.transfer_fee
      → (key : Bytes) → member_key c d t.from ≡ ok key
      → IsSigned p key t
      → IsAuthentic p c d t

Result-cases {ℓ} : {A : Type ℓ} (r : Result A) → ((a : A) × (r ≡ ok a)) ⊎ ((e : Err) × (r ≡ err e))
Result-cases (ok a) = inl (a, refl)
Result-cases (err e) = inr (e, refl)

pub fits_ok : (e : Err) → fits e ≡ true → e ≡ esp_ok
fits_ok esp_ok h = refl
fits_ok _ h = absurd (cc)

load_public-key :
    (p : Provider) (key : Bytes) (who : Identity)
    → load_public p key ≡ ok who
    → (who.has_public ≡ true) × (who.ed25519_public ≡ drop key_size key)
unfolding load_public update_hash
load_public-key p key who h =
    elim (Bool-cases (bytes_zero (take key_size key) || bytes_zero (drop key_size key))) [
      | inl z ↦ absurd (cc (rw z at h))
      | inr nz ↦ elim (Result-cases (Crypto.sha256 p (take key_size key ++ drop key_size key))) [
        | inr (e, bad) ↦ absurd (cc (rw (nz, bad) at h))
        | inl (full, good) ↦
            let same = rw (nz, good) at h in (ap has (sym (ok-inj same)), ap ed (sym (ok-inj same)))
      ]
    ]
  where
    has : Identity → Bool
    has i = i.has_public

    ed : Identity → Bytes
    ed i = i.ed25519_public

    ok-inj : {a b : Identity} → ok a ≡ ok b → a ≡ b
    ok-inj e = cc

verify-IsSigned :
    (p : Provider) (key : Bytes) (t : Tx) (who : Identity)
    → load_public p key ≡ ok who
    → Codec.verify p t who ≡ esp_ok
    → IsSigned p key t
unfolding Codec.verify Identity.verify Crypto.verify
verify-IsSigned p key t who loaded h = elim (Bool-cases (fits (validate_common t true))) [
  | inr bad ↦ let e = rw bad at h in absurd (cc)
  | inl good ↦ elim (Result-cases (compute_id p t)) [
    | inr (e, failed) ↦ absurd (
        Fails-err (compute_id p t) e (compute_id-Fails p t) failed
          (rw (good, failed, Codec.verify) at h))
    | inl (id, done) ↦
        let (public, half) = load_public-key p key who loaded in
        let rest = rw (good, done) at h in
        record {
          form = fits_ok (validate_common t true) good;
          id = done ∙ ap ok ((constant_equal_iff id t.id).0 (ground arith));
          signature = subst (λ k. p.ed25519_check t.signature k t.id ≡ true) half (ground arith);
        }
  ]
]

check_signature-IsSigned :
    (p : Provider) (key : Bytes) (t : Tx) → check_signature p key t ≡ accepted → IsSigned p key t
unfolding check_signature
check_signature-IsSigned p key t h = elim (Result-cases (load_public p key)) [
  | inr (e, failed) ↦ absurd (cc (rw (failed, check_signature) at h))
  | inl (who, loaded) ↦
      let verified : fits (Codec.verify p t who) ≡ true =
        let k = rw (loaded, check_signature) at h in ground arith in
      verify-IsSigned p key t who loaded (fits_ok _ verified)
]

key_binds_account-Binds :
    (p : Provider) (key account : Bytes) (who : Identity)
    → key_binds_account p key account ≡ some who
    → Binds p key account × (load_public p key ≡ ok who)
unfolding key_binds_account
key_binds_account-Binds p key account who h = elim (Result-cases (load_public p key)) [
  | inr (e, failed) ↦ absurd (cc (rw (failed, key_binds_account) at h))
  | inl (i, loaded) ↦ elim (Result-cases (create_wallet p i)) [
    | inr (e, failed) ↦ absurd (cc (rw (loaded, failed, key_binds_account) at h))
    | inl (w, created) ↦
        let k = rw (loaded, created, key_binds_account) at h in
        let same : i ≡ who = ground arith in
        (
          record {
            identity = i;
            wallet = w;
            loaded = loaded;
            created = created;
            bound = (mem_equal_iff w.hash account).0 (ground arith);
          },
          loaded ∙ ap ok same,
        )
  ]
]

ingest_claim-IsAuthentic :
    (p : Provider) (c : Config) (d : Dag) (t : Tx)
    → t.kind ≡ claim
    → ingest_claim p c t ≡ accepted
    → IsAuthentic p c d t
unfolding ingest_claim
ingest_claim-IsAuthentic p c d t k h =
    let self : constant_equal t.from t.to ≡ true = ground arith in
    let first : t.seq ≡ 0 = ground arith in
    let exact : t.amount ≡ c.initial_credit = ground arith in
    elim (Option-cases (key_binds_account p t.member_public t.from)) [
      | inl none' ↦ let h' = rw (none', ingest_claim) at h in ground arith
      | inr (who, there) ↦
          let (bound, loaded) = key_binds_account-Binds p t.member_public t.from who there in
          let verified : fits (Codec.verify p t who) ≡ true =
            let h' = rw (there, ingest_claim) at h in ground arith in
          by_member k ((constant_equal_iff t.from t.to).0 self, first, exact) bound
            (verify-IsSigned p t.member_public t who loaded (fits_ok _ verified))
    ]

ingest_transfer-IsAuthentic :
    (p : Provider) (c : Config) (d : Dag) (t : Tx)
    → t.kind ≡ transfer
    → ingest_transfer p c d t ≡ accepted
    → IsAuthentic p c d t
unfolding ingest_transfer
ingest_transfer-IsAuthentic p c d t k h =
    let fee : t.fee ≡ c.transfer_fee = ground arith in
    elim (Result-cases (member_key c d t.from)) [
      | inr (e, failed) ↦ let h' = rw (failed, ingest_transfer) at h in absurd (ground arith)
      | inl (key, found) ↦ by_sender k fee key found (
          check_signature-IsSigned p key t
            (let h' = rw (found, ingest_transfer) at h in ground arith))
    ]

-- A transaction that `meshpay_currency_ingest_check` accepts is of the currency, the currency has a
-- descriptor, the transaction is above the floors of the checkpoint, and it is authentic: a mint of
-- an authority with the founder's signature, a claim by the holder of the key of its account, or a
-- transfer with the signature of the sender's registered key.
pub ingest_check-IsAuthentic :
    (p : Provider) (c : Config) (d : Dag) (t : Tx)
    → ingest_check p c d t ≡ accepted
    → (t.currency_id ≡ c.currency_id)
      × (c.has_descriptor ≡ true)
      × (below_floor d.checkpoint t ≡ false)
      × IsAuthentic p c d t
unfolding ingest_check
ingest_check-IsAuthentic p c d t h =
    let own : t.currency_id ≡ c.currency_id = ground arith in
    let anchored : c.has_descriptor ≡ true = ground arith in
    let above : below_floor d.checkpoint t ≡ false = ground arith in
    (
      own,
      anchored,
      above,
      elim (Bool-cases (t.kind == mint)) [
        | inl m ↦
            by_founder (ground arith) (ground arith)
              (check_signature-IsSigned p c.founder_public t (ground arith))
        | inr nm ↦ elim (Bool-cases (t.kind == claim)) [
          | inl k ↦ ingest_claim-IsAuthentic p c d t (ground arith) (ground arith)
          | inr nk ↦ ingest_transfer-IsAuthentic p c d t (ground arith) (ground arith)
        ]
      ],
    )
