-- ===== src/Payment/Received.antt =====
-- What the reception of a payment leaves (components/payment_engine/payment_engine.c).
use meshpay_v.Base.{
  ◌≡◌, inl, inr, true, false, not, ◌||◌, List, Option, none, some, Bytes, Err, esp_ok, invalid_arg,
  invalid_state, not_found, ok, Result-cases, arith, ltb, ◌==◌, if◌then◌else◌, Bool-cases, length,
  get_or, drop, mem_equal, mem_equal_iff,
}
use meshpay_v.Tx.{Tx}
use meshpay_v.Tx.Decode.{decode}
use meshpay_v.Crypto.{Provider}
use meshpay_v.Packet.{Packet}
use meshpay_v.Announce.Directory.{Known}
use meshpay_v.Dag.{merge_tx}
use meshpay_v.Currency.{CurrencyResult, accepted}
use meshpay_v.Currency.Rules.{validate_tx, ingest_check}
use meshpay_v.Currency.Gate.{fits_ok}
use meshpay_v.Payment.{
  Engine, Feedback, msg_tx, msg_ack, msg_reject, payment_status_packet, rejected,
}
use meshpay_v.Payment.Send.{is_accepted, is_entered}
use meshpay_v.Payment.Receive.{
  enter_payment, verify_sender_if_known, gate, judge, open_payload, receive_payment,
}
use meshpay_v.Payment.Sent.{unentered, is_accepted-true}

-- The gate that a transaction has passed: under a descriptor the gate of the currency, otherwise the
-- signature of a sender that has announced itself.
pub data IsTrusted (p : Provider) (e : Engine) (known : List Known) (t : Tx) : Type 0 where
  by_gate :
      e.currency.has_descriptor ≡ true
      → ingest_check p e.currency e.dag t ≡ accepted
      → IsTrusted p e known t
  by_announce :
      e.currency.has_descriptor ≡ false
      → verify_sender_if_known p known t ≡ esp_ok
      → IsTrusted p e known t

gate-IsTrusted :
    (p : Provider) (e : Engine) (known : List Known) (t : Tx)
    → (gate p e known t).0 ≡ true
    → IsTrusted p e known t
unfolding gate
gate-IsTrusted p e known t h = elim (Bool-cases e.currency.has_descriptor) [
  | inl described ↦
      by_gate described (is_accepted-true (ingest_check p e.currency e.dag t) (ground arith))
  | inr bare ↦ by_announce bare (fits_ok (verify_sender_if_known p known t) (ground arith))
]

-- The packet carries this transaction, in the clear or sealed for the engine.
pub record Brings (p : Provider) (e : Engine) (k : Packet) (t : Tx) : Type 0 where
  pub payload : Bytes
  pub opened : open_payload p e k ≡ ok payload
  pub tagged : get_or payload 0 0 ≡ msg_tx
  pub decoded : decode (drop 1 payload) ≡ ok t

-- The answer to a refusal: none, or a rejection to the sender of a transaction that is for us.
pub data IsRefusal (p : Provider) (e : Engine) (k : Packet) : Option Packet → Type 0 where
  silent : IsRefusal p e k none
  answered :
      (t : Tx)
      → Brings p e k t
      → t.to ≡ e.wallet.owner
      → IsRefusal p e k (some (payment_status_packet t.from msg_reject t.id))

-- What the reception leaves, by what it returns and answers.
pub data Received (p : Provider) (known : List Known) (e : Engine) (k : Packet)
    : Engine → Err → Option Packet → Type 0 where
  refused :
      (result : CurrencyResult) (f : Feedback) (c : Err) (answer : Option Packet)
      → IsRefusal p e k answer
      → Received p known e k (record e { last_currency_result = result; feedback = f }) c answer
  entered :
      (t : Tx)
      → k.destination_hash ≡ e.wallet.owner
      → Brings p e k t
      → t.to ≡ e.wallet.owner
      → IsTrusted p e known t
      → validate_tx p e.currency e.dag t ≡ accepted
      → is_entered (merge_tx e.dag t).1 ≡ true
      → Received p known e k
          (record e {
            dag = (merge_tx e.dag t).0;
            last_received_tx = t;
            has_last_received = true;
            feedback = Feedback.received;
            last_currency_result = accepted;
          })
          esp_ok
          (some (payment_status_packet t.from msg_ack t.id))

refusal :
    (p : Provider) (e : Engine) (k : Packet) (t : Tx)
    → Brings p e k t
    → IsRefusal p e k (
        if mem_equal t.to e.wallet.owner
        then some (payment_status_packet t.from msg_reject t.id)
        else none)
refusal p e k t b = elim (Bool-cases (mem_equal t.to e.wallet.owner)) [
  | inl ours ↦ rw ours (answered t b ((mem_equal_iff t.to e.wallet.owner).0 ours))
  | inr other ↦ rw other silent
]

judge-Received :
    (p : Provider) (known : List Known) (e : Engine) (k : Packet) (t : Tx)
    → k.destination_hash ≡ e.wallet.owner
    → Brings p e k t
    → let (e', c, answer) = judge p (record e { last_currency_result = accepted }) known t in
      Received p known e k e' c answer
unfolding judge enter_payment gate
judge-Received p known e k t to b =
    let valid = validate_tx p e.currency e.dag t in
    elim (Bool-cases (gate p e known t).0) [
      | inr barred ↦ rw barred (refused _ rejected invalid_state _ (refusal p e k t b))
      | inl passes ↦
          elim (Bool-cases (not (mem_equal t.to e.wallet.owner) || not (is_accepted valid))) [
            | inl bad ↦
                rw (passes, bad) (refused valid rejected invalid_state _ (refusal p e k t b))
            | inr good ↦
                let ours : t.to ≡ e.wallet.owner =
                  (mem_equal_iff t.to e.wallet.owner).0 (ground arith) in
                let fine : valid ≡ accepted = is_accepted-true valid (ground arith) in
                elim (Bool-cases (is_entered (merge_tx e.dag t).1)) [
                  | inr out ↦
                      rw (passes, good, out, unentered e.dag t out)
                        (refused valid rejected invalid_state _ (answered t b ours))
                  | inl enters ↦
                      rw (passes, good, enters, fine)
                        (entered t to b ours (gate-IsTrusted p e known t passes) fine enters)
                ]
          ]
    ]

-- `meshpay_payment_engine_receive_payment` changes nothing but the feedback and the last answer of the
-- currency, and answers nothing or, to the sender of a transaction for this account, a rejection; or
-- the packet is for this account and brings, in the clear or sealed, a transaction to it that passes
-- the gate (of the currency under a descriptor, and otherwise the signature of a sender that has
-- announced itself) and `meshpay_currency_validate_tx`, which is merged into the window, recorded as
-- received, and confirmed to its sender with its id.
pub receive_payment-Received :
    (p : Provider) (known : List Known) (e : Engine) (k : Packet)
    → let (e', c, answer) = receive_payment p known e k in Received p known e k e' c answer
unfolding receive_payment
receive_payment-Received p known e k = elim (Bool-cases (ltb (length k.payload) 2)) [
  | inl short ↦ rw short (refused e.last_currency_result e.feedback invalid_arg none silent)
  | inr long ↦ elim (Bool-cases (mem_equal k.destination_hash e.wallet.owner)) [
    | inr other ↦ rw (long, other) (refused accepted rejected not_found none silent)
    | inl ours ↦
        let to = (mem_equal_iff k.destination_hash e.wallet.owner).0 ours in
        elim (Result-cases (open_payload p e k)) [
          | inr (c, shut) ↦ rw (long, ours, shut) (refused accepted rejected c none silent)
          | inl (payload, opened) ↦
              elim (Bool-cases (ltb (length payload) 2 || not (get_or payload 0 0 == msg_tx))) [
                | inl bad ↦
                    rw (long, ours, opened, bad) (refused accepted rejected invalid_arg none silent)
                | inr good ↦ elim (Result-cases (decode (drop 1 payload))) [
                  | inr (c, bad) ↦
                      rw (long, ours, opened, good, bad) (refused accepted e.feedback c none silent)
                  | inl (t, decoded) ↦
                      rw (long, ours, opened, good, decoded)
                        (judge-Received p known e k t to (record {
                          payload = payload;
                          opened = opened;
                          tagged = ground arith;
                          decoded = decoded;
                        }))
                ]
              ]
        ]
  ]
]
