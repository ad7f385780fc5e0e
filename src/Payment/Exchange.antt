-- ===== src/Payment/Exchange.antt =====
-- A payment from one engine to another, and the receipt
-- (components/payment_engine/payment_engine.c).
use meshpay_v.Base.{
  ℕ, ◌+◌, ◌≤◌, ◌≡◌, refl, sym, ap, subst, ◌∙◌, ◌⊎◌, inl, inr, true, false, List, ◌∷◌, Option, some,
  Bytes, Err, esp_ok, Result, ok, OnOk, arith, mem_equal_iff, length, get_or, drop, ◌==◌,
}
use meshpay_v.Tx.{Tx, id_size}
use meshpay_v.Tx.Codec.{encode, cbor_max_size}
use meshpay_v.Tx.Decode.{decode}
use meshpay_v.Tx.RoundTrip.{IsStored}
use meshpay_v.Tx.Faithful.{decode-encode}
use meshpay_v.Crypto.{Provider}
use meshpay_v.Identity.{Identity, key_size, load_private, load_public, get_public_key}
use meshpay_v.Packet.{Packet, max_data}
use meshpay_v.PacketCrypto.RoundTrip.{IsConsistent}
use meshpay_v.PacketCrypto.Keys.{decrypt_single-encrypt_single}
use meshpay_v.Crypto.Symmetric.{block_size}
use meshpay_v.Announce.Directory.{Known}
use meshpay_v.Currency.Ledger.{u32_max}
use meshpay_v.Payment.{
  Engine, msg_tx, msg_ack, msg_reject, payment_status_packet, settle, receive_ack,
}
use meshpay_v.Payment.Send.{create_payment, create_encrypted_payment}
use meshpay_v.Payment.Receive.{open_payload, receive_payment}
use meshpay_v.Payment.Sent.{Sent, Clear, Sealed, create_payment-Sent, create_encrypted_payment-Sent}
use meshpay_v.Payment.Received.{Received, Brings, IsRefusal, receive_payment-Received}

-- The engine waits for the receipt of the payment that this packet carries.
record Awaits (C : Packet → Bytes → Type 0) (e : Engine) (k : Packet) : Type 0 where
  wire : Bytes
  pending : e.has_pending ≡ true
  from : e.pending_tx.from ≡ e.wallet.owner
  encoding : encode e.pending_tx cbor_max_size ≡ ok wire
  size : length wire + 1 ≤ max_data
  carries : C k wire

ok-inj : {k k' : Packet} → ok k ≡ ok k' → k ≡ k'
ok-inj e = cc

Sent-Awaits :
    {C : Packet → Bytes → Type 0} {p : Provider} {e e' : Engine} {account : Bytes} {sum now : ℕ}
    {r : Result Packet} (k : Packet)
    → r ≡ ok k
    → Sent C p e account sum now e' r
    → Awaits C e' k
Sent-Awaits k h (Sent.kept f c) = absurd (cc)
Sent-Awaits k h (Sent.spent t wire d saved out) = absurd (cc)
Sent-Awaits {C} k h (Sent.paid t wire k' d saved enters to c) = record {
  wire = wire;
  pending = refl;
  from = d.draft.from;
  encoding = d.encoding;
  size = d.size;
  carries = subst (λ (x : Packet). C x wire) (ok-inj h) c;
}

-- The packet brings no other transaction than the one that was encoded.
Brings-unique :
    (p : Provider) (e : Engine) (k : Packet) (t u : Tx) (wire : Bytes)
    → open_payload p e k ≡ ok (msg_tx ∷ wire)
    → decode wire ≡ ok t
    → Brings p e k u
    → u ≡ t
Brings-unique p e k t u wire opened decoded b =
    same (sym b.decoded ∙ ap decode (tail (sym b.opened ∙ opened)) ∙ decoded)
  where
    same : {x y : Tx} → ok x ≡ ok y → x ≡ y
    same e = cc

    tail : {x : Bytes} → ok x ≡ ok (msg_tx ∷ wire) → drop 1 x ≡ wire
    tail e = ap (drop 1) (whole e)
      where
        whole : {y z : Bytes} → ok y ≡ ok z → y ≡ z
        whole e = cc

-- How an engine answers the payment.
data Replied (t : Tx) (e e' : Engine) (reply : Packet) : Type 0 where
  confirmed :
      reply ≡ payment_status_packet t.from msg_ack t.id
      → e'.last_received_tx ≡ t
      → e'.has_last_received ≡ true
      → Replied t e e' reply
  declined :
      reply ≡ payment_status_packet t.from msg_reject t.id → e'.dag ≡ e.dag → Replied t e e' reply

some-inj : {k k' : Packet} → some k ≡ some k' → k' ≡ k
some-inj e = cc

Received-Replied :
    {p : Provider} {known : List Known} {e e' : Engine} {k : Packet} {c : Err}
    {answer : Option Packet} (t : Tx) (reply : Packet)
    → ((u : Tx) → Brings p e k u → u ≡ t)
    → answer ≡ some reply
    → Received p known e k e' c answer
    → Replied t e e' reply
Received-Replied t reply only h (Received.refused result f c answer IsRefusal.silent) = absurd (cc)
Received-Replied t reply only h (Received.refused result f c answer (IsRefusal.answered u b ours)) =
    declined (some-inj h ∙ ap (λ (x : Tx). payment_status_packet x.from msg_reject x.id) (only u b))
      refl
Received-Replied t reply only h (Received.entered u to b ours trusted valid enters) =
    confirmed (some-inj h ∙ ap (λ (x : Tx). payment_status_packet x.from msg_ack x.id) (only u b))
      (only u b) refl

receive_ack-settle :
    (e : Engine) (status : ℕ)
    → e.has_pending ≡ true
    → e.pending_tx.from ≡ e.wallet.owner
    → length e.pending_tx.id ≡ id_size
    → (status ≡ msg_ack) ⊎ (status ≡ msg_reject)
    → receive_ack e (payment_status_packet e.pending_tx.from status e.pending_tx.id)
      ≡ (settle e status, esp_ok)
unfolding receive_ack
receive_ack-settle e status pending from size known =
    let same = (mem_equal_iff e.pending_tx.id e.pending_tx.id).1 refl in
    let to = (mem_equal_iff e.pending_tx.from e.wallet.owner).1 from in ground arith

-- The receipt of a payment that the other engine can open.
closes :
    (C : Packet → Bytes → Type 0) (p : Provider) (known : List Known) (a b : Engine)
    (k reply : Packet)
    → ((wire : Bytes)
        → length wire + 1 ≤ max_data
        → C k wire
        → open_payload p b k ≡ ok (msg_tx ∷ wire))
    → Awaits C a k
    → IsStored a.pending_tx
    → (receive_payment p known b k).2 ≡ some reply
    → let b' = (receive_payment p known b k).0 in
      let status = get_or reply.payload 0 0 in
      (receive_ack a reply ≡ (settle a status, esp_ok))
      × ((status ≡ msg_ack) × (b'.last_received_tx ≡ a.pending_tx) × (b'.has_last_received ≡ true)
          ⊎ (status ≡ msg_reject) × (b'.dag ≡ b.dag))
closes C p known a b k reply opens w s h =
    let opened = opens w.wire w.size w.carries in
    let decoded = decode-encode a.pending_tx cbor_max_size w.wire s w.encoding in
    let settles = λ (status : ℕ). receive_ack-settle a status w.pending w.from s.id in
    elim (Received-Replied a.pending_tx reply
      (λ u. Brings-unique p b k a.pending_tx u w.wire opened decoded) h
      (receive_payment-Received p known b k)) [
        | Replied.confirmed same last has ↦
            rw same (settles msg_ack (inl refl), inl (refl, last, has))
        | Replied.declined same dag ↦ rw same (settles msg_reject (inr refl), inr (refl, dag))
      ]

Clear-opens :
    (p : Provider) (b : Engine) (k : Packet) (wire : Bytes)
    → k.payload ≡ msg_tx ∷ wire
    → open_payload p b k ≡ ok (msg_tx ∷ wire)
unfolding open_payload
Clear-opens p b k wire same = rw same refl

-- A payment in the clear, of a transaction with the sizes and widths of its struct, that reaches
-- another engine: whatever that engine answers, the receipt ends
-- the waiting of the payer; a confirmation means that the other engine received exactly the
-- transaction of the payer, and otherwise it is a rejection, and its window is as it was.
pub receive_payment-create_payment :
    (p : Provider) (known : List Known) (a b : Engine) (account : Bytes) (sum now : ℕ)
    (k reply : Packet)
    → a.wallet.next_seq ≤ u32_max
    → (create_payment p a account sum now).1 ≡ ok k
    → IsStored (create_payment p a account sum now).0.pending_tx
    → (receive_payment p known b k).2 ≡ some reply
    → let a' = (create_payment p a account sum now).0 in
      let b' = (receive_payment p known b k).0 in
      let status = get_or reply.payload 0 0 in
      (receive_ack a' reply ≡ (settle a' status, esp_ok))
      × ((status ≡ msg_ack) × (b'.last_received_tx ≡ a'.pending_tx) × (b'.has_last_received ≡ true)
          ⊎ (status ≡ msg_reject) × (b'.dag ≡ b.dag))
receive_payment-create_payment p known a b account sum now k reply bound done s h =
    closes Clear p known _ b k reply (λ wire _ c. Clear-opens p b k wire c)
      (Sent-Awaits k done (create_payment-Sent p a account sum now bound)) s h

Sealed-opens :
    (p : Provider) (b : Engine) (k : Packet) (wire key public : Bytes) (recipient : Identity)
    (draw iv_draw : Result Bytes)
    → IsConsistent p
    → key_size ≤ length key
    → load_private p key ≡ ok b.identity
    → get_public_key b.identity ≡ ok public
    → load_public p public ≡ ok recipient
    → OnOk (λ e. length e ≡ key_size) draw
    → OnOk (λ iv. length iv ≡ block_size) iv_draw
    → (get_or k.payload 0 0 == msg_tx) ≡ false
    → length wire + 1 ≤ max_data
    → Sealed p recipient draw iv_draw k wire
    → open_payload p b k ≡ ok (msg_tx ∷ wire)
unfolding open_payload
Sealed-opens p b k wire key public recipient draw iv_draw c long hh hp hr sized_e sized_iv other
      room sealed =
    let opened =
      decrypt_single-encrypt_single p key public (msg_tx ∷ wire) k.payload b.identity recipient
        max_data max_data draw iv_draw c long hh hp hr sized_e sized_iv (omega arith) sealed in
    rw other opened

-- An encrypted payment that reaches the engine for which it is encrypted, with consistent cryptography
-- and draws of the right sizes, if that engine has loaded its identity from its private key and the
-- payer the public key of that identity, the transaction has the sizes and widths of its struct, and
-- the ciphertext does not begin with the byte of a payment in the clear: whatever that engine answers,
-- the receipt ends the waiting of the payer; a confirmation means that the other engine received
-- exactly the transaction of the payer, and otherwise it is a rejection, and its window is as it was.
pub receive_payment-create_encrypted_payment :
    (p : Provider) (known : List Known) (a b : Engine) (account key public : Bytes)
    (recipient : Identity)
    → (sum now : ℕ) (draw iv_draw : Result Bytes) (k reply : Packet) → a.wallet.next_seq ≤ u32_max
    → IsConsistent p
    → key_size ≤ length key
    → load_private p key ≡ ok b.identity
    → get_public_key b.identity ≡ ok public
    → load_public p public ≡ ok recipient
    → OnOk (λ e. length e ≡ key_size) draw
    → OnOk (λ iv. length iv ≡ block_size) iv_draw
    → (create_encrypted_payment p a account recipient sum now draw iv_draw).1 ≡ ok k
    → IsStored (create_encrypted_payment p a account recipient sum now draw iv_draw).0.pending_tx
    → (get_or k.payload 0 0 == msg_tx) ≡ false
    → (receive_payment p known b k).2 ≡ some reply
    → let a' = (create_encrypted_payment p a account recipient sum now draw iv_draw).0 in
      let b' = (receive_payment p known b k).0 in
      let status = get_or reply.payload 0 0 in
      (receive_ack a' reply ≡ (settle a' status, esp_ok))
      × ((status ≡ msg_ack) × (b'.last_received_tx ≡ a'.pending_tx) × (b'.has_last_received ≡ true)
          ⊎ (status ≡ msg_reject) × (b'.dag ≡ b.dag))
receive_payment-create_encrypted_payment p known a b account key public recipient sum now draw
      iv_draw k reply bound c long hh hp hr sized_e sized_iv done s other h =
    closes (Sealed p recipient draw iv_draw) p known _ b k reply
      (λ wire room sealed.
        Sealed-opens p b k wire key public recipient draw iv_draw c long hh hp hr sized_e sized_iv
          other room sealed)
      (Sent-Awaits k done
        (create_encrypted_payment-Sent p a account recipient sum now draw iv_draw bound))
      s h
