-- ===== src/Payment/Receive.antt =====
-- components/payment_engine/payment_engine.c: the reception of a payment. The directory of announces,
-- which it reads, is an argument.
use meshpay_v.Base.{
  Bool, true, not, ◌||◌, List, Option, none, some, Bytes, Err, esp_ok, invalid_arg, invalid_state,
  not_found, Result, ok, err, fits, ltb, ◌==◌, if◌then◌else◌, length, get_or, drop, mem_equal,
}
use meshpay_v.Tx.{Tx}
use meshpay_v.Tx.Codec.{verify}
use meshpay_v.Tx.Decode.{decode}
use meshpay_v.Crypto.{Provider}
use meshpay_v.Identity.{load_public}
use meshpay_v.Packet.{Packet, max_data}
use meshpay_v.PacketCrypto.{decrypt_single}
use meshpay_v.Announce.Directory.{Known, recall_info}
use meshpay_v.Dag.{merge_tx}
use meshpay_v.Currency.{CurrencyResult, accepted}
use meshpay_v.Currency.Rules.{validate_tx, ingest_check}
use meshpay_v.Payment.{
  Engine, msg_tx, msg_ack, msg_reject, payment_status_packet, received, rejected,
}
use meshpay_v.Payment.Send.{is_accepted, is_entered}

-- The engine, what is returned, and the answer if one is written.
abbrev pub Answer : Type 0
Answer = Engine × Err × Option Packet

abbrev pub reject : Engine → Engine
reject e = record e { feedback = rejected }

-- The answer to a transaction that is refused: none if it is not for us.
abbrev pub refuse : Engine → Bool → Tx → Answer
refuse e for_us t = (
  reject e,
  invalid_state,
  if for_us then some (payment_status_packet t.from msg_reject t.id) else none,
)

-- What is left of a transaction that is for us and valid: entering it.
unfoldable pub enter_payment : Engine → Tx → Answer
enter_payment e t =
    let (dag, merge) = merge_tx e.dag t in
    if not (is_entered merge)
    then (
      record e { dag = dag; feedback = rejected },
      invalid_state,
      some (payment_status_packet t.from msg_reject t.id),
    )
    else (
      record e { dag = dag; last_received_tx = t; has_last_received = true; feedback = received },
      esp_ok,
      some (payment_status_packet t.from msg_ack t.id),
    )

module _ (p : Provider) where
  -- `verify_sender_if_known`
  unfoldable pub verify_sender_if_known : List Known → Tx → Err
  verify_sender_if_known known t = elim (recall_info known t.from) [
    | err c ↦ esp_ok
    | ok peer ↦ elim (load_public p peer.public_key) [ err c ↦ c | ok sender ↦ verify p t sender ]
  ]

  -- The gate before the validation, and what it leaves in `last_currency_result`.
  unfoldable pub gate : Engine → List Known → Tx → Bool × CurrencyResult
  unfolding verify_sender_if_known
  gate e known t =
      let result = ingest_check p e.currency e.dag t in
      if e.currency.has_descriptor
      then (is_accepted result, result)
      else (fits (verify_sender_if_known known t), accepted)

  -- What follows the decoding.
  unfoldable pub judge : Engine → List Known → Tx → Answer
  unfolding gate enter_payment
  judge e known t =
      let for_us = mem_equal t.to e.wallet.owner in
      let (passes, result) = gate e known t in
      let valid = validate_tx p e.currency e.dag t in
      if not passes
      then refuse (record e { last_currency_result = result }) for_us t
      else if not for_us || not (is_accepted valid)
      then refuse (record e { last_currency_result = valid }) for_us t
      else enter_payment (record e { last_currency_result = valid }) t

  -- The message of the packet: as it is, or decrypted if it does not begin as a transaction.
  unfoldable pub open_payload : Engine → Packet → Result Bytes
  open_payload e k =
      if not (get_or k.payload 0 0 == msg_tx)
      then decrypt_single p e.identity k.payload max_data
      else ok k.payload

  -- `meshpay_payment_engine_receive_payment`
  unfoldable pub receive_payment : List Known → Engine → Packet → Answer
  unfolding judge open_payload
  receive_payment known e k =
      let started : Engine = record e { last_currency_result = accepted } in
      if ltb (length k.payload) 2
      then (e, invalid_arg, none)
      else if not (mem_equal k.destination_hash e.wallet.owner)
      then (reject started, not_found, none)
      else elim (open_payload e k) [
        | err c ↦ (reject started, c, none)
        | ok payload ↦
            if ltb (length payload) 2 || not (get_or payload 0 0 == msg_tx)
            then (reject started, invalid_arg, none)
            else elim (decode (drop 1 payload)) [
              | err c ↦ (started, c, none)
              | ok t ↦ judge started known t
            ]
      ]
