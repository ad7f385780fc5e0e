-- ===== src/Payment/History.antt =====
-- Sequences of the operations of components/payment_engine/payment_engine.c, and the sequence
-- numbers of the payments in them.
use meshpay_v.Base.{ℕ, ◌+◌, ◌≤◌, ◌<◌, ◌≡◌, refl, subst, List, Option, Bytes, Err, Result, ok, arith}
use meshpay_v.Crypto.{Provider}
use meshpay_v.Identity.{Identity}
use meshpay_v.Packet.{Packet}
use meshpay_v.Announce.Directory.{Known}
use meshpay_v.Dag.{Dag}
use meshpay_v.Currency.{Config}
use meshpay_v.Currency.Ledger.{u32_max}
use meshpay_v.Wallet.{Wallet}
use meshpay_v.Payment.{Engine, expire_pending, receive_ack, cancel_pending}
use meshpay_v.Payment.Send.{create_payment, create_encrypted_payment}
use meshpay_v.Payment.Receive.{receive_payment}
use meshpay_v.Payment.Sent.{
  Sent, create_payment-Sent, create_encrypted_payment-Sent, expire_pending-wallet,
}
use meshpay_v.Payment.Received.{Received, receive_payment-Received}

-- One call of the component, or what the rest of the node does meanwhile to the window, the currency
-- and the wallet, whose next number it does not take back.
pub data Step (p : Provider) : Engine → Engine → Type 0 where
  pays :
      (e : Engine) (account : Bytes) (sum now : ℕ) → Step p e (create_payment p e account sum now).0
  seals :
      (e : Engine) (account : Bytes) (recipient : Identity) (sum now : ℕ)
      (draw iv_draw : Result Bytes)
      → Step p e (create_encrypted_payment p e account recipient sum now draw iv_draw).0
  receives :
      (e : Engine) (known : List Known) (k : Packet) → Step p e (receive_payment p known e k).0
  acks : (e : Engine) (k : Packet) → Step p e (receive_ack e k).0
  expires : (e : Engine) (now : ℕ) → Step p e (expire_pending e now).0
  cancels : (e : Engine) → Step p e (cancel_pending e).0
  elsewhere :
      (e : Engine) (w : Wallet) (d : Dag) (c : Config)
      → e.wallet.next_seq ≤ w.next_seq
      → w.next_seq ≤ u32_max
      → Step p e (record e { wallet = w; dag = d; currency = c })

pub data Reach (p : Provider) (s : Engine) : Engine → Type 0 where
  here : Reach p s s
  next : {t u : Engine} → Reach p s t → Step p t u → Reach p s u

-- The next number of the second engine is not below that of the first, and fits.
record IsLater (e e' : Engine) : Type 0 where
  later : e.wallet.next_seq ≤ e'.wallet.next_seq
  bound : e'.wallet.next_seq ≤ u32_max

Sent-IsLater :
    {C : Packet → Bytes → Type 0} {p : Provider} {e e' : Engine} {account : Bytes} {sum now : ℕ}
    {r : Result Packet}
    → e.wallet.next_seq ≤ u32_max
    → Sent C p e account sum now e' r
    → IsLater e e'
Sent-IsLater h (Sent.kept f c) = record { later = omega arith; bound = h }
Sent-IsLater h (Sent.spent t wire d saved out) =
    let room = d.room in record { later = omega arith; bound = omega arith }
Sent-IsLater h (Sent.paid t wire k d saved enters to c) =
    let room = d.room in record { later = omega arith; bound = omega arith }

Received-wallet :
    {p : Provider} {known : List Known} {e e' : Engine} {k : Packet} {c : Err}
    {answer : Option Packet}
    → Received p known e k e' c answer
    → e'.wallet ≡ e.wallet
Received-wallet (Received.refused result f c answer a) = refl
Received-wallet (Received.entered t to b ours trusted valid enters) = refl

receive_ack-wallet : (e : Engine) (k : Packet) → (receive_ack e k).0.wallet ≡ e.wallet
unfolding receive_ack
receive_ack-wallet e k = ground arith

cancel_pending-wallet : (e : Engine) → (cancel_pending e).0.wallet ≡ e.wallet
unfolding cancel_pending
cancel_pending-wallet e = ground arith

after_expiry : (e e' : Engine) (now : ℕ) → IsLater (expire_pending e now).0 e' → IsLater e e'
after_expiry e e' now l = record {
  later =
      subst (λ (w : Wallet). w.next_seq ≤ e'.wallet.next_seq) (expire_pending-wallet e now) l.later;
  bound = l.bound;
}

same_wallet : (e e' : Engine) → e.wallet.next_seq ≤ u32_max → e'.wallet ≡ e.wallet → IsLater e e'
same_wallet e e' h same = record { later = rw same (omega arith); bound = rw same h }

expired_fits :
    (e : Engine) (now : ℕ)
    → e.wallet.next_seq ≤ u32_max
    → (expire_pending e now).0.wallet.next_seq ≤ u32_max
expired_fits e now h = rw (expire_pending-wallet e now) h

Step-IsLater :
    {p : Provider} {e e' : Engine} → e.wallet.next_seq ≤ u32_max → Step p e e' → IsLater e e'
Step-IsLater {p} h (pays e account sum now) =
    after_expiry e _ now
      (Sent-IsLater (expired_fits e now h) (create_payment-Sent p e account sum now h))
Step-IsLater {p} h (seals e account recipient sum now draw iv_draw) = after_expiry e _ now (
    Sent-IsLater (expired_fits e now h)
      (create_encrypted_payment-Sent p e account recipient sum now draw iv_draw h))
Step-IsLater {p} h (receives e known k) =
    same_wallet e _ h (Received-wallet (receive_payment-Received p known e k))
Step-IsLater h (acks e k) = same_wallet e _ h (receive_ack-wallet e k)
Step-IsLater h (expires e now) = same_wallet e _ h (expire_pending-wallet e now)
Step-IsLater h (cancels e) = same_wallet e _ h (cancel_pending-wallet e)
Step-IsLater h (elsewhere e w d c later bound) = record { later = later; bound = bound }

Reach-IsLater :
    {p : Provider} {e e' : Engine} → e.wallet.next_seq ≤ u32_max → Reach p e e' → IsLater e e'
Reach-IsLater h here = record { later = omega arith; bound = h }
Reach-IsLater h (next r st) =
    let before = Reach-IsLater h r in
    let after = Step-IsLater before.bound st in
    record { later = omega (arith, before.later, after.later); bound = after.bound }

-- A payment that is made: the call returns a packet.
pub data Pays (p : Provider) : Engine → Engine → Type 0 where
  in_clear :
      (e : Engine) (account : Bytes) (sum now : ℕ) (k : Packet)
      → (create_payment p e account sum now).1 ≡ ok k
      → Pays p e (create_payment p e account sum now).0
  sealed :
      (e : Engine) (account : Bytes) (recipient : Identity) (sum now : ℕ)
      (draw iv_draw : Result Bytes) (k : Packet)
      → (create_encrypted_payment p e account recipient sum now draw iv_draw).1 ≡ ok k
      → Pays p e (create_encrypted_payment p e account recipient sum now draw iv_draw).0

-- What the payment takes of the sequence numbers.
abbrev Numbered : Engine → Engine → Type 0
Numbered e e' =
    (e'.pending_tx.seq ≡ e.wallet.next_seq)
    × (e'.wallet.next_seq ≡ e.wallet.next_seq + 1)
    × (e.wallet.next_seq < u32_max)

Sent-Numbered :
    {C : Packet → Bytes → Type 0} {p : Provider} {e e' : Engine} {account : Bytes} {sum now : ℕ}
    {r : Result Packet} (k : Packet)
    → r ≡ ok k
    → Sent C p e account sum now e' r
    → Numbered e e'
Sent-Numbered k h (Sent.kept f c) = absurd (cc)
Sent-Numbered k h (Sent.spent t wire d saved out) = absurd (cc)
Sent-Numbered k h (Sent.paid t wire k' d saved enters to c) = (d.draft.seq, refl, d.room)

Pays-Numbered :
    {p : Provider} {e e' : Engine} → e.wallet.next_seq ≤ u32_max → Pays p e e' → Numbered e e'
Pays-Numbered {p} h (in_clear e account sum now k done) =
    subst
      (λ (w : Wallet). Numbered (record e { wallet = w }) (create_payment p e account sum now).0)
      (expire_pending-wallet e now)
      (Sent-Numbered k done (create_payment-Sent p e account sum now h))
Pays-Numbered {p} h (sealed e account recipient sum now draw iv_draw k done) =
    subst
      (λ (w : Wallet).
        Numbered (record e { wallet = w })
          (create_encrypted_payment p e account recipient sum now draw iv_draw).0)
      (expire_pending-wallet e now)
      (Sent-Numbered k done
        (create_encrypted_payment-Sent p e account recipient sum now draw iv_draw h))

-- Of two payments that an engine makes, encrypted or not, the later has the greater sequence number,
-- whatever it makes, receives, expires or cancels between, and whatever happens to the window, the
-- currency and the wallet, as long as the wallet does not take its next number back.
pub pending_tx-increasing :
    (p : Provider) (e e' v v' : Engine)
    → e.wallet.next_seq ≤ u32_max
    → Pays p e e'
    → Reach p e' v
    → Pays p v v'
    → e'.pending_tx.seq < v'.pending_tx.seq
pending_tx-increasing p e e' v v' h first r second =
    let (seq, more, room) = Pays-Numbered h first in
    let between = Reach-IsLater (omega arith) r in
    let (seq', _, _) = Pays-Numbered between.bound second in omega (arith, between.later)
