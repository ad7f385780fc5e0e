-- ===== src/Payment.antt =====
-- components/payment_engine/payment_engine.c: payments that are entered in the window when they are
-- sent. The wallet, the window, the currency and the identity, which the engine points to, are its
-- fields here.
pub mod Send
pub mod Receive
pub mod Sent
pub mod Received
pub mod History
pub mod Exchange
pub mod Misread
mod Tests
use meshpay_v.Base.{
  ℕ, ◌+◌, ◌-◌, Bool, true, false, not, ◌&&◌, ◌||◌, List, [], ◌∷◌, Option, none, some, Bytes, Err,
  esp_ok, invalid_arg, invalid_state, not_found, leb, ltb, ◌==◌, if◌then◌else◌, length, get_or,
  drop, mem_equal,
}
use meshpay_v.Tx.{Tx}
use meshpay_v.Tx
use meshpay_v.Identity.{Identity}
use meshpay_v.Packet.{Packet, broadcast}
use meshpay_v.Packet
use meshpay_v.Dag.{Dag}
use meshpay_v.Currency.{Config, CurrencyResult, accepted}
use meshpay_v.Wallet.{Wallet}

abbrev pub msg_tx : ℕ
msg_tx = 1

abbrev pub msg_ack : ℕ
msg_ack = 2

abbrev pub msg_reject : ℕ
msg_reject = 3

abbrev pub receipt_timeout_ms : ℕ
receipt_timeout_ms = 30000

-- `meshpay_payment_feedback_t`
pub data Feedback : Type 0 where
  idle locked sent received acked rejected : Feedback

-- `meshpay_payment_engine_t`. The hook `persist` is called with the wallet that it saves; its context
-- is part of the function.
pub record Engine : Type 0 where
  pub wallet : Wallet
  pub dag : Dag
  pub currency : Config
  pub identity : Identity
  pub pending_tx : Tx
  pub last_received_tx : Tx
  pub has_pending : Bool
  pub has_last_received : Bool
  pub feedback : Feedback
  pub last_currency_result : CurrencyResult
  pub pending_started_ms : ℕ
  pub persist : Option (Wallet → Err)

-- `meshpay_payment_engine_init`
abbrev pub init : Wallet → Dag → Config → Identity → Engine
init wallet dag currency identity = record {
  wallet = wallet;
  dag = dag;
  currency = currency;
  identity = identity;
  pending_tx = Tx.cleared;
  last_received_tx = Tx.cleared;
  has_pending = false;
  has_last_received = false;
  feedback = idle;
  last_currency_result = accepted;
  pending_started_ms = 0;
  persist = none;
}

-- `meshpay_payment_engine_set_persist`
abbrev pub set_persist : Engine → Option (Wallet → Err) → Engine
set_persist e persist = record e { persist = persist }

-- `packet_base`
abbrev pub packet_base : Bytes → Packet
packet_base destination = record Packet.cleared {
  header_type = 0;
  propagation_type = broadcast;
  destination_type = 0;
  packet_type = 0;
  context = 0;
  destination_hash = destination;
}

-- `payment_status_packet`
abbrev pub payment_status_packet : Bytes → ℕ → Bytes → Packet
payment_status_packet destination status tx_id = record (packet_base destination) {
  payload = status ∷ tx_id;
}

-- `clear_pending`
abbrev pub clear_pending : Engine → Engine
clear_pending e = record e { pending_tx = Tx.cleared; has_pending = false; pending_started_ms = 0 }

-- `meshpay_payment_engine_expire_pending`, with the amount if it returns true
unfoldable pub expire_pending : Engine → ℕ → Engine × Option ℕ
expire_pending e now =
    if not e.has_pending
    then (e, none)
    else if leb e.pending_started_ms now && ltb (now - e.pending_started_ms) receipt_timeout_ms
    then (e, none)
    else (clear_pending e, some e.pending_tx.amount)

-- The end of `receive_ack` for the receipt of the pending payment.
abbrev pub settle : Engine → ℕ → Engine
settle e status = record (clear_pending e) {
  feedback = if status == msg_reject then rejected else acked;
}

-- `meshpay_payment_engine_receive_ack`
unfoldable pub receive_ack : Engine → Packet → Engine × Err
receive_ack e k =
    let status = get_or k.payload 0 0 in
    if not e.has_pending
      || not (length k.payload == 1 + Tx.id_size)
      || not (status == msg_ack) && not (status == msg_reject)
    then (e, invalid_arg)
    else if not (mem_equal k.destination_hash e.wallet.owner)
        || not (mem_equal (drop 1 k.payload) e.pending_tx.id)
    then (record e { feedback = rejected }, invalid_state)
    else (settle e status, esp_ok)

-- `meshpay_payment_engine_cancel_pending`
unfoldable pub cancel_pending : Engine → Engine × Err
cancel_pending e =
    if not e.has_pending
    then (e, not_found)
    else (record (clear_pending e) { feedback = rejected }, esp_ok)
