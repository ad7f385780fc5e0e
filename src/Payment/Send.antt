-- ===== src/Payment/Send.antt =====
-- components/payment_engine/payment_engine.c: the making of a payment.
use meshpay_v.Base.{
  ℕ, ◌+◌, ◌-◌, ◌%◌, Bool, true, false, not, ◌&&◌, List, [], ◌∷◌, none, some, Bytes, Err, esp_ok,
  invalid_state, invalid_size, Result, ok, err, fits, ltb, ◌==◌, if◌then◌else◌, length,
}
use meshpay_v.Tx.{Tx, max_parents}
use meshpay_v.Tx.Codec.{encode, create_transfer, cbor_max_size}
use meshpay_v.Crypto.{Provider}
use meshpay_v.Identity.{Identity}
use meshpay_v.Packet.{Packet, max_data}
use meshpay_v.PacketCrypto.{encrypt_single}
use meshpay_v.Dag.{Dag, MergeResult, merged, duplicate, merge_tx}
use meshpay_v.Dag.Tips.{get_tips}
use meshpay_v.Currency.{CurrencyResult, accepted}
use meshpay_v.Currency.Ledger.{u32_max}
use meshpay_v.Currency.Rules.{validate_tx}
use meshpay_v.Wallet.{Wallet, allocate_seq}
use meshpay_v.Payment.{Engine, msg_tx, packet_base, expire_pending, sent, rejected}

-- `rollback_allocated_seq`
abbrev pub rollback_allocated_seq : Wallet → ℕ → Wallet
rollback_allocated_seq w seq =
    if ltb seq u32_max && w.next_seq == seq + 1 then record w { next_seq = seq } else w

-- What a refusal leaves: the number back, and the feedback.
abbrev pub refused : Engine → ℕ → Engine
refused e seq = record e { wallet = rollback_allocated_seq e.wallet seq; feedback = rejected }

abbrev pub ids : List Tx → List Bytes
ids [] = []
ids (t ∷ ts) = t.id ∷ ids ts

-- `select_parents`, the parents and their number
unfoldable pub select_parents : Dag → List Bytes × ℕ
select_parents d = let tips = (get_tips d max_parents).0 in (ids tips, length tips % 256)

-- `result == MESHPAY_CURRENCY_OK`
abbrev pub is_accepted : CurrencyResult → Bool
is_accepted accepted = true
is_accepted _ = false

-- `merge == MESHPAY_DAG_MERGE_OK || merge == MESHPAY_DAG_MERGE_DUPLICATE`
abbrev pub is_entered : MergeResult → Bool
is_entered merged = true
is_entered duplicate = true
is_entered _ = false

module _ (p : Provider) where
  -- The checks of `build_payment` on the signed transaction, and its packet.
  unfoldable pub check_built : Engine → Bytes → ℕ → Tx → Engine × Result (Tx × Packet)
  check_built e to amount t =
      if not (is_accepted (validate_tx p e.currency e.dag t))
      then (refused e t.seq, err invalid_state)
      else if ltb (u32_max - e.currency.transfer_fee) amount
      then (refused e t.seq, err invalid_size)
      else elim (encode t cbor_max_size) [
        | err c ↦ (record e { wallet = rollback_allocated_seq e.wallet t.seq }, err c)
        | ok encoded ↦
            if ltb max_data (length encoded + 1)
            then (refused e t.seq, err invalid_size)
            else (e, ok (t, record (packet_base to) { payload = msg_tx ∷ encoded }))
      ]

  -- `build_payment`
  unfoldable pub build_payment : Engine → Bytes → ℕ → ℕ → Engine × Result (Tx × Packet)
  unfolding select_parents check_built
  build_payment e to amount now =
      let (wallet, allocated) = allocate_seq e.wallet in
      let numbered : Engine = record e { wallet = wallet } in
      let (parents, count) = select_parents e.dag in
      elim allocated [
        | err c ↦ (numbered, err c)
        | ok seq ↦
            elim (create_transfer p e.identity wallet.owner to amount seq e.currency.transfer_fee
              e.currency.currency_id parents count now) [
                | err c ↦ (record numbered { wallet = rollback_allocated_seq wallet seq }, err c)
                | ok t ↦ check_built numbered to amount t
              ]
      ]

-- The hook, if there is one.
abbrev pub persisted : Engine → Err
persisted e = elim e.persist [ none ↦ esp_ok | some hook ↦ hook e.wallet ]

-- `commit_built`
unfoldable pub commit_built : Engine → Tx → ℕ → Engine × Err
commit_built e t now =
    let (dag, merge) = merge_tx e.dag t in
    if not (fits (persisted e))
    then (refused e t.seq, persisted e)
    else if not (is_entered merge)
    then (record e { dag = dag; feedback = rejected }, invalid_state)
    else (
      record e {
        dag = dag;
        pending_tx = t;
        has_pending = true;
        pending_started_ms = now;
        feedback = sent;
      },
      esp_ok,
    )

-- The commit of a payment with its packet.
abbrev pub commit : Engine → Tx → Packet → ℕ → Engine × Result Packet
commit e t k now =
    let (e', status) = commit_built e t now in (e', if fits status then ok k else err status)

module _ (p : Provider) where
  -- `meshpay_payment_engine_create_payment`
  unfoldable pub create_payment : Engine → Bytes → ℕ → ℕ → Engine × Result Packet
  unfolding build_payment commit_built
  create_payment e to amount now =
      let (e', built) = build_payment p (expire_pending e now).0 to amount now in
      elim built [ err c ↦ (e', err c) | ok (t, k) ↦ commit e' t k now ]

  -- The encryption of a payment that was built, with the random draws of the ephemeral key and of the
  -- initial vector, and its commit.
  unfoldable pub seal :
      Engine → Identity → Tx → Packet → ℕ → Result Bytes → Result Bytes → Engine × Result Packet
  unfolding commit_built
  seal e recipient t k now draw iv_draw =
      elim (encrypt_single p recipient k.payload max_data draw iv_draw) [
        | err c ↦ (refused e t.seq, err c)
        | ok token ↦ commit e t (record k { payload = token }) now
      ]

  -- `meshpay_payment_engine_create_encrypted_payment`
  unfoldable pub create_encrypted_payment :
      Engine → Bytes → Identity → ℕ → ℕ → Result Bytes → Result Bytes → Engine × Result Packet
  unfolding build_payment seal
  create_encrypted_payment e to recipient amount now draw iv_draw =
      let (e', built) = build_payment p (expire_pending e now).0 to amount now in
      elim built [ err c ↦ (e', err c) | ok (t, k) ↦ seal e' recipient t k now draw iv_draw ]
