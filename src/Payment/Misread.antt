-- ===== src/Payment/Misread.antt =====
-- A token that begins with the byte of a payment in the clear
-- (components/payment_engine/payment_engine.c).
use meshpay_v.Base.{
  ℕ, ◌≤◌, ◌≡◌, refl, sym, ap, subst, ◌∙◌, true, List, Option, none, Bytes, Err, Result, ok, err,
  arith, get_or, drop,
}
use meshpay_v.Tx.{Tx}
use meshpay_v.Tx.Decode.{decode}
use meshpay_v.Crypto.{Provider}
use meshpay_v.Identity.{Identity}
use meshpay_v.Packet.{Packet}
use meshpay_v.Announce.Directory.{Known}
use meshpay_v.Dag.{Dag, merge_tx}
use meshpay_v.Currency.Ledger.{u32_max}
use meshpay_v.Payment.{Engine, msg_tx, expire_pending}
use meshpay_v.Payment.Send.{is_entered, create_encrypted_payment}
use meshpay_v.Payment.Receive.{open_payload, receive_payment}
use meshpay_v.Payment.Sent.{Sent, create_encrypted_payment-Sent}
use meshpay_v.Payment.Received.{Received, Brings, IsRefusal, receive_payment-Received}

-- The pending transaction is in the window.
abbrev IsCommitted : Engine → Engine → Type 0
IsCommitted e e' =
    (is_entered (merge_tx e.dag e'.pending_tx).1 ≡ true)
    × (e'.dag ≡ (merge_tx e.dag e'.pending_tx).0)

Sent-IsCommitted :
    {C : Packet → Bytes → Type 0} {p : Provider} {e e' : Engine} {account : Bytes} {sum now : ℕ}
    {r : Result Packet} (k : Packet)
    → r ≡ ok k
    → Sent C p e account sum now e' r
    → IsCommitted e e'
Sent-IsCommitted k h (Sent.kept f c) = absurd (cc)
Sent-IsCommitted k h (Sent.spent t wire d saved out) = absurd (cc)
Sent-IsCommitted k h (Sent.paid t wire k' d saved enters to c) = (enters, refl)

expire_pending-dag : (e : Engine) (now : ℕ) → (expire_pending e now).0.dag ≡ e.dag
unfolding expire_pending
expire_pending-dag e now = ground arith

nothing_brought :
    (p : Provider) (e : Engine) (k : Packet) (t : Tx) (c : Err)
    → get_or k.payload 0 0 ≡ msg_tx
    → decode (drop 1 k.payload) ≡ err c
    → ¬ Brings p e k t
unfolding open_payload
nothing_brought p e k t c tag bad b =
    let open_k : open_payload p e k ≡ ok k.payload = rw tag refl in
    apart
      (sym b.decoded ∙ ap (λ (x : Bytes). decode (drop 1 x)) (same (sym b.opened ∙ open_k)) ∙ bad)
  where
    same : {x y : Bytes} → ok x ≡ ok y → x ≡ y
    same e = cc

    apart : {x : Tx} → ¬ (ok x ≡ err c)
    apart e = cc

Received-nothing :
    {p : Provider} {known : List Known} {e e' : Engine} {k : Packet} {c : Err}
    {answer : Option Packet}
    → ((t : Tx) → ¬ Brings p e k t)
    → Received p known e k e' c answer
    → (answer ≡ none) × (e'.dag ≡ e.dag)
Received-nothing nothing (Received.refused result f c answer IsRefusal.silent) = (refl, refl)
Received-nothing nothing (Received.refused result f c answer (IsRefusal.answered t b ours)) =
    absurd (nothing t b)
Received-nothing nothing (Received.entered t to b ours trusted valid enters) = absurd (nothing t b)

-- If the token of an encrypted payment begins with the byte of a payment in the clear, and what
-- follows is no transaction, then the payment is in the payer's window, and no other engine, whatever
-- its keys, answers it or enters anything in its window.
pub receive_payment-misread :
    (p : Provider) (known : List Known) (a b : Engine) (account : Bytes) (recipient : Identity)
    → (sum now : ℕ) (draw iv_draw : Result Bytes) (k : Packet) (c : Err)
    → a.wallet.next_seq ≤ u32_max
    → (create_encrypted_payment p a account recipient sum now draw iv_draw).1 ≡ ok k
    → get_or k.payload 0 0 ≡ msg_tx
    → decode (drop 1 k.payload) ≡ err c
    → let a' = (create_encrypted_payment p a account recipient sum now draw iv_draw).0 in
      let (b', _, answer) = receive_payment p known b k in
      (is_entered (merge_tx a.dag a'.pending_tx).1 ≡ true)
      × (a'.dag ≡ (merge_tx a.dag a'.pending_tx).0)
      × (answer ≡ none)
      × (b'.dag ≡ b.dag)
receive_payment-misread p known a b account recipient sum now draw iv_draw k c bound done tag bad =
    let (enters, dag) =
      subst
        (λ (d : Dag).
          IsCommitted (record a { dag = d })
            (create_encrypted_payment p a account recipient sum now draw iv_draw).0)
        (expire_pending-dag a now)
        (Sent-IsCommitted k done
          (create_encrypted_payment-Sent p a account recipient sum now draw iv_draw bound)) in
    let (silent, kept) =
      Received-nothing (λ t. nothing_brought p b k t c tag bad)
        (receive_payment-Received p known b k) in
    (enters, dag, silent, kept)
