-- ===== src/Payment/Sent.antt =====
-- What the making of a payment leaves (components/payment_engine/payment_engine.c).
use meshpay_v.Base.{
  ℕ, ◌+◌, ◌-◌, ◌≤◌, ◌<◌, ◌≡◌, refl, sym, ap, subst, inl, inr, true, false, List, ◌∷◌, Bytes, Err,
  esp_ok, invalid_arg, invalid_state, invalid_size, Result, ok, err, Result-cases, check, OnOk,
  OnOk-bind_eq, OnOk-ok, fits, arith, ltb, ◌==◌, Bool-cases, length,
}
use meshpay_v.Tx.{Tx, transfer}
use meshpay_v.Tx.Codec.{
  validate_common, encode, create_transfer, finish, sign, compute_id, cbor_max_size,
}
use meshpay_v.Crypto.{Provider}
use meshpay_v.Identity
use meshpay_v.Identity.{Identity}
use meshpay_v.Packet.{Packet, max_data}
use meshpay_v.PacketCrypto.{encrypt_single}
use meshpay_v.Dag.{Dag, merge_tx}
use meshpay_v.Dag.Invariant.{merge_tx-window}
use meshpay_v.Currency.{CurrencyResult, accepted}
use meshpay_v.Currency.Ledger.{u32_max}
use meshpay_v.Currency.Rules.{validate_tx}
use meshpay_v.Currency.Gate.{fits_ok}
use meshpay_v.Wallet.{Wallet, allocate_seq}
use meshpay_v.Payment.{Engine, Feedback, msg_tx, packet_base, expire_pending, rejected}
use meshpay_v.Payment.Send.{
  rollback_allocated_seq, refused, select_parents, is_accepted, is_entered, check_built,
  build_payment, persisted, commit_built, commit, create_payment, seal, create_encrypted_payment,
}

-- The engine after its next number is allocated.
abbrev pub numbered : Engine → Engine
numbered e = record e { wallet = record e.wallet { next_seq = e.wallet.next_seq + 1 } }

-- The transaction that the engine signs for a payment.
pub record IsDraft (e : Engine) (account : Bytes) (sum now : ℕ) (t : Tx) : Type 0 where
  pub kind : t.kind ≡ transfer
  pub from : t.from ≡ e.wallet.owner
  pub to : t.to ≡ account
  pub amount : t.amount ≡ sum
  pub seq : t.seq ≡ e.wallet.next_seq
  pub fee : t.fee ≡ e.currency.transfer_fee
  pub currency_id : t.currency_id ≡ e.currency.currency_id
  pub timestamp_ms : t.timestamp_ms ≡ now

-- The transaction is the other with an id and a signature.
abbrev IsSignedFrom : Tx → Tx → Type 0
IsSignedFrom t u =
    (id : Bytes) × (signature : Bytes) × (u ≡ record t { id = id; signature = signature })

sign-IsSignedFrom :
    (p : Provider) (t : Tx) (signer : Identity) → OnOk (IsSignedFrom t) (sign p t signer)
unfolding sign
sign-IsSignedFrom p t signer = elim (Result-cases (compute_id p t)) [
  | inr (c, bad) ↦ rw bad tt
  | inl (id, good) ↦ elim (Result-cases (Identity.sign p signer id)) [
    | inr (c, bad) ↦ rw (good, bad) tt
    | inl (signature, done) ↦ rw (good, done) (id, signature, refl)
  ]
]

finish-IsSignedFrom :
    (p : Provider) (t : Tx) (signer : Identity) → OnOk (IsSignedFrom t) (finish p t signer)
unfolding finish
finish-IsSignedFrom p t signer =
    OnOk-bind_eq (IsSignedFrom t) (check (validate_common t false)) _
      (λ _ _. sign-IsSignedFrom p t signer)

create_transfer-IsDraft :
    (p : Provider) (e : Engine) (account : Bytes) (sum now : ℕ) (parents : List Bytes) (count : ℕ)
    (t : Tx)
    → create_transfer p e.identity e.wallet.owner account sum e.wallet.next_seq
        e.currency.transfer_fee e.currency.currency_id parents count now
      ≡ ok t
    → IsDraft e account sum now t
unfolding create_transfer
create_transfer-IsDraft p e account sum now parents count t h =
    let (id, signature, same) = OnOk-ok _ _ t (finish-IsSignedFrom p _ e.identity) h in
    rw same (record {
      kind = refl;
      from = refl;
      to = refl;
      amount = refl;
      seq = refl;
      fee = refl;
      currency_id = refl;
      timestamp_ms = refl;
    })

rollback-numbered :
    (w : Wallet)
    → w.next_seq < u32_max
    → rollback_allocated_seq (record w { next_seq = w.next_seq + 1 }) w.next_seq ≡ w
rollback-numbered w h = ground arith

-- What is promised of the transaction that is sent.
pub record IsPayment (p : Provider) (e : Engine) (account : Bytes) (sum now : ℕ) (t : Tx)
    (wire : Bytes) : Type 0 where
  pub room : e.wallet.next_seq < u32_max
  pub draft : IsDraft e account sum now t
  pub valid : validate_tx p e.currency e.dag t ≡ accepted
  pub encoding : encode t cbor_max_size ≡ ok wire
  pub size : length wire + 1 ≤ max_data

-- What `build_payment` leaves: all but the feedback as it was, or the next number taken by a payment.
data Built (p : Provider) (e : Engine) (account : Bytes) (sum now : ℕ)
    : Engine → Result (Tx × Packet) → Type 0 where
  kept : (f : Feedback) (c : Err) → Built p e account sum now (record e { feedback = f }) (err c)
  built :
      (t : Tx) (wire : Bytes)
      → IsPayment p e account sum now t wire
      → Built p e account sum now
          (numbered e)
          (ok (t, record (packet_base account) { payload = msg_tx ∷ wire }))

pub is_accepted-true : (r : CurrencyResult) → is_accepted r ≡ true → r ≡ accepted
is_accepted-true accepted h = refl
is_accepted-true _ h = absurd (cc)

-- A refusal gives the number back.
refused-numbered :
    (e : Engine) (seq : ℕ)
    → e.wallet.next_seq < u32_max
    → seq ≡ e.wallet.next_seq
    → refused (numbered e) seq ≡ record e { feedback = rejected }
refused-numbered e seq h same = rw (same, rollback-numbered e.wallet h) refl

check_built-Built :
    (p : Provider) (e : Engine) (account : Bytes) (sum now : ℕ) (t : Tx)
    → e.wallet.next_seq < u32_max
    → IsDraft e account sum now t
    → let (e', r) = check_built p (numbered e) account sum t in Built p e account sum now e' r
unfolding check_built
check_built-Built p e account sum now t h d =
    let back = refused-numbered e t.seq h d.seq in
    elim (Bool-cases (is_accepted (validate_tx p e.currency e.dag t))) [
      | inr invalid ↦ rw (invalid, back) (kept rejected invalid_state)
      | inl valid ↦ elim (Bool-cases (ltb (u32_max - e.currency.transfer_fee) sum)) [
        | inl over ↦ rw (valid, over, back) (kept rejected invalid_size)
        | inr under ↦ elim (Result-cases (encode t cbor_max_size)) [
          | inr (c, bad) ↦
              rw (valid, under, bad, d.seq, rollback-numbered e.wallet h) (kept e.feedback c)
          | inl (wire, good) ↦ elim (Bool-cases (ltb max_data (length wire + 1))) [
            | inl long ↦ rw (valid, under, good, long, back) (kept rejected invalid_size)
            | inr short ↦
                rw (valid, under, good, short)
                  (built t wire (record {
                    room = h;
                    draft = d;
                    valid = is_accepted-true _ valid;
                    encoding = good;
                    size = ground arith;
                  }))
          ]
        ]
      ]
    ]

allocate_seq-last :
    (w : Wallet) → (w.next_seq == u32_max) ≡ true → allocate_seq w ≡ (w, err invalid_arg)
unfolding allocate_seq
allocate_seq-last w h = rw h refl

allocate_seq-more :
    (w : Wallet)
    → (w.next_seq == u32_max) ≡ false
    → allocate_seq w ≡ (record w { next_seq = w.next_seq + 1 }, ok w.next_seq)
unfolding allocate_seq
allocate_seq-more w h = rw h refl

build_payment-Built :
    (p : Provider) (e : Engine) (account : Bytes) (sum now : ℕ)
    → e.wallet.next_seq ≤ u32_max
    → let (e', r) = build_payment p e account sum now in Built p e account sum now e' r
unfolding build_payment
build_payment-Built p e account sum now h = elim (Bool-cases (e.wallet.next_seq == u32_max)) [
  | inl last ↦
      rw (allocate_seq-last e.wallet last, build_payment, allocate_seq-last e.wallet last)
        (kept e.feedback invalid_arg)
  | inr more ↦
      let room : e.wallet.next_seq < u32_max = ground arith in
      let allocated = allocate_seq-more e.wallet more in
      let (parents, count) = select_parents e.dag in
      elim (Result-cases (
        create_transfer p e.identity e.wallet.owner account sum e.wallet.next_seq
          e.currency.transfer_fee e.currency.currency_id parents count now)) [
            | inr (c, bad) ↦
                rw
                  (
                    allocated,
                    build_payment,
                    allocated,
                    bad,
                    allocated,
                    rollback-numbered e.wallet room,
                  )
                  (kept e.feedback c)
            | inl (t, good) ↦
                rw (allocated, build_payment, allocated, good)
                  (subst
                    (λ (w : Wallet).
                      let (e', r) = check_built p (record e { wallet = w }) account sum t in
                      Built p e account sum now e' r)
                    (sym (ap (λ (x : Wallet × Result ℕ). x.0) allocated))
                    (check_built-Built p e account sum now t room
                      (create_transfer-IsDraft p e account sum now parents count t good)))
          ]
]

-- What the making of a payment leaves, by its answer. The predicate says how the packet carries the
-- transaction.
pub data Sent (Carries : Packet → Bytes → Type 0) (p : Provider) (e : Engine) (account : Bytes)
    (sum now : ℕ) : Engine → Result Packet → Type 0 where
  -- nothing but the feedback has changed
  kept :
      (f : Feedback) (c : Err)
      → Sent Carries p e account sum now (record e { feedback = f }) (err c)
  -- a transaction that the window refuses uses its number up
  spent :
      (t : Tx) (wire : Bytes)
      → IsPayment p e account sum now t wire
      → persisted (numbered e) ≡ esp_ok
      → is_entered (merge_tx e.dag t).1 ≡ false
      → Sent Carries p e account sum now
          (record (numbered e) { feedback = rejected })
          (err invalid_state)
  -- the payment is in the window, and its receipt is awaited
  paid :
      (t : Tx) (wire : Bytes) (k : Packet)
      → IsPayment p e account sum now t wire
      → persisted (numbered e) ≡ esp_ok
      → is_entered (merge_tx e.dag t).1 ≡ true
      → k.destination_hash ≡ account
      → Carries k wire
      → Sent Carries p e account sum now
          (record (numbered e) {
            dag = (merge_tx e.dag t).0;
            pending_tx = t;
            has_pending = true;
            pending_started_ms = now;
            feedback = Feedback.sent;
          })
          (ok k)

-- A merge that enters nothing changes nothing.
pub unentered : (d : Dag) (t : Tx) → is_entered (merge_tx d t).1 ≡ false → (merge_tx d t).0 ≡ d
unentered d t h = elim ((merge_tx-window d t).1) [
  | inl (entered, _, _) ↦ absurd (cc (rw entered at h))
  | inr (_, same) ↦ same
]

commit-Sent :
    (Carries : Packet → Bytes → Type 0) (p : Provider) (e : Engine) (account : Bytes) (sum now : ℕ)
    (t : Tx) (wire : Bytes) (k : Packet)
    → IsPayment p e account sum now t wire
    → k.destination_hash ≡ account
    → Carries k wire
    → let (e', r) = commit (numbered e) t k now in Sent Carries p e account sum now e' r
unfolding commit_built
commit-Sent Carries p e account sum now t wire k d to c =
    elim (Bool-cases (fits (persisted (numbered e)))) [
      | inr failed ↦
          rw (failed, failed, refused-numbered e t.seq d.room d.draft.seq)
            (kept rejected (persisted (numbered e)))
      | inl done ↦
          let saved = fits_ok _ done in
          elim (Bool-cases (is_entered (merge_tx e.dag t).1)) [
            | inr out ↦ rw (done, out, unentered e.dag t out) (spent t wire d saved out)
            | inl entered ↦ rw (done, entered) (paid t wire k d saved entered to c)
          ]
    ]

abbrev pub Clear : Packet → Bytes → Type 0
Clear k wire = k.payload ≡ msg_tx ∷ wire

abbrev pub Sealed : Provider → Identity → Result Bytes → Result Bytes → Packet → Bytes → Type 0
Sealed p recipient draw iv_draw k wire =
    encrypt_single p recipient (msg_tx ∷ wire) max_data draw iv_draw ≡ ok k.payload

commit-Clear-Sent :
    {p : Provider} {e e' : Engine} {account : Bytes} {sum now : ℕ} {r : Result (Tx × Packet)}
    → Built p e account sum now e' r
    → let out : Engine × Result Packet = elim r [
      | err c ↦ (e', err c)
      | ok (t, k) ↦ commit e' t k now
    ] in
      Sent Clear p e account sum now out.0 out.1
commit-Clear-Sent (kept f c) = kept f c
commit-Clear-Sent {p} {e} {e'} {account} {sum} {now} (built t wire d) =
    commit-Sent Clear p e account sum now t wire _ d refl refl

seal-Sent :
    {p : Provider} {e e' : Engine} {account : Bytes} {sum now : ℕ} {r : Result (Tx × Packet)}
    (recipient : Identity) (draw iv_draw : Result Bytes)
    → Built p e account sum now e' r
    → let out : Engine × Result Packet = elim r [
      | err c ↦ (e', err c)
      | ok (t, k) ↦ seal p e' recipient t k now draw iv_draw
    ] in
      Sent (Sealed p recipient draw iv_draw) p e account sum now out.0 out.1
unfolding seal
seal-Sent recipient draw iv_draw (kept f c) = kept f c
seal-Sent {p} {e} {e'} {account} {sum} {now} recipient draw iv_draw (built t wire d) =
    elim (Result-cases (encrypt_single p recipient (msg_tx ∷ wire) max_data draw iv_draw)) [
      | inr (c, bad) ↦ rw (bad, seal, refused-numbered e t.seq d.room d.draft.seq) (kept rejected c)
      | inl (token, good) ↦ rw (good, seal) (commit-Sent _ p e account sum now t wire _ d refl good)
    ]

pub expire_pending-wallet : (e : Engine) (now : ℕ) → (expire_pending e now).0.wallet ≡ e.wallet
unfolding expire_pending
expire_pending-wallet e now = ground arith

-- If the next number fits `uint32_t`, `meshpay_payment_engine_create_payment`, after it has forgotten
-- a receipt that is overdue, fails and changes nothing but the feedback; or it fails because the
-- window refuses the transaction, and only the number is used up; or, the wallet being saved with its
-- next number, a transfer with the number, from the account of the engine and for the amount and
-- recipient asked for, which `meshpay_currency_validate_tx` accepts, is merged into the window and
-- awaits its receipt, and the packet for the recipient carries its encoding in the clear.
pub create_payment-Sent :
    (p : Provider) (e : Engine) (account : Bytes) (sum now : ℕ)
    → e.wallet.next_seq ≤ u32_max
    → let (e', r) = create_payment p e account sum now in
      Sent Clear p (expire_pending e now).0 account sum now e' r
unfolding create_payment
create_payment-Sent p e account sum now h = commit-Clear-Sent (
    build_payment-Built p (expire_pending e now).0 account sum now
      (rw (expire_pending-wallet e now) h))

pub create_encrypted_payment-Sent :
    (p : Provider) (e : Engine) (account : Bytes) (recipient : Identity) (sum now : ℕ)
    (draw iv_draw : Result Bytes)
    → e.wallet.next_seq ≤ u32_max
    → let (e', r) = create_encrypted_payment p e account recipient sum now draw iv_draw in
      Sent (Sealed p recipient draw iv_draw) p (expire_pending e now).0 account sum now e' r
unfolding create_encrypted_payment
create_encrypted_payment-Sent p e account recipient sum now draw iv_draw h =
    seal-Sent recipient draw iv_draw (
      build_payment-Built p (expire_pending e now).0 account sum now
        (rw (expire_pending-wallet e now) h))
