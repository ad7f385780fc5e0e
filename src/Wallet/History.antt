-- ===== src/Wallet/History.antt =====
-- Sequences of the operations of a wallet (components/wallet/wallet.c).
use meshpay_v.Base.{
  ℕ, ◌+◌, ◌≤◌, ◌<◌, ◌≡◌, refl, sym, ap, ◌⊎◌, inl, inr, true, false, not, ◌&&◌, ◌||◌, Bytes, zeros,
  Err, ok, OnOk-ok, arith, ◌==◌, Bool-cases, bytes_zero, constant_equal,
}
use meshpay_v.Tx.{id_size}
use meshpay_v.Crypto.{Provider}
use meshpay_v.Dag.{Dag}
use meshpay_v.Currency.{Config}
use meshpay_v.Currency.Ledger.{u32_max}
use meshpay_v.Wallet.{
  Wallet, drop_lock, with_pin, init, allocate_seq, lock, unlock, is_locked, get_available_balance,
  hash_pin, set_pin, load_pin_hash, verify_pin,
}
use meshpay_v.Wallet.Pin.{IsCounted, Result-split, Attempt, verify_pin-Attempt, Attempt-IsCounted}

-- The invariant: the counter of failures, no amount held without a lock, and a sequence number that
-- fits `uint32_t`.
pub record IsSound (w : Wallet) : Type 0 where
  pub counted : IsCounted w
  pub free : w.lock_active ≡ false → (w.locked_amount ≡ 0) × (w.lock_tx_id ≡ zeros id_size)
  pub held : w.lock_active ≡ true → (0 < w.locked_amount) × (bytes_zero w.lock_tx_id ≡ false)
  pub seq : w.next_seq ≤ u32_max

-- One call of the component.
pub data Step (p : Provider) : Wallet → Wallet → Type 0 where
  allocate : (w : Wallet) → Step p w (allocate_seq w).0
  locks : (w : Wallet) (tx_id : Bytes) (amount now : ℕ) → Step p w (lock w tx_id amount now).0
  unlocks : (w : Wallet) (tx_id : Bytes) → Step p w (unlock w tx_id).0
  balances :
      (w : Wallet) (c : Config) (d : Dag) (now : ℕ) → Step p w (get_available_balance w c d now).0
  sets : (w : Wallet) (pin : Bytes) → Step p w (set_pin p w pin).0
  loads : (w : Wallet) (hash : Bytes) → Step p w (load_pin_hash w hash).0
  verifies : (w : Wallet) (pin : Bytes) → Step p w (verify_pin p w pin).0

pub data Reach (p : Provider) (s : Wallet) : Wallet → Type 0 where
  here : Reach p s s
  next : {t u : Wallet} → Reach p s t → Step p t u → Reach p s u

Attempt-next_seq :
    {p : Provider} {w w' : Wallet} {pin : Bytes} {e : Err}
    → Attempt p w pin w' e
    → w.next_seq ≤ w'.next_seq
Attempt-next_seq (Attempt.refused _) = omega arith
Attempt-next_seq (Attempt.unhashed _ _ _) = omega arith
Attempt-next_seq (Attempt.right _ _) = omega arith
Attempt-next_seq (Attempt.wrong _ _ _ _) = omega arith

-- No step takes the sequence number back.
Step-next_seq : {p : Provider} {w w' : Wallet} → Step p w w' → w.next_seq ≤ w'.next_seq
unfolding allocate_seq lock unlock get_available_balance set_pin load_pin_hash
Step-next_seq (allocate w) = ground arith
Step-next_seq (locks w tx_id amount now) = ground arith
Step-next_seq (unlocks w tx_id) = ground arith
Step-next_seq (balances w c d now) = ground arith
Step-next_seq {p} (sets w pin) = elim (Result-split (hash_pin p pin)) [
  | inl (h, done) ↦ rw (done, set_pin) (omega arith)
  | inr (e, failed) ↦ rw (failed, set_pin) (omega arith)
]
Step-next_seq (loads w hash) = ground arith
Step-next_seq {p} (verifies w pin) = Attempt-next_seq (verify_pin-Attempt p w pin)

Reach-next_seq : {p : Provider} {s w : Wallet} → Reach p s w → s.next_seq ≤ w.next_seq
Reach-next_seq here = omega arith
Reach-next_seq (next r st) = omega (arith, Reach-next_seq r, Step-next_seq st)

Attempt-IsSound :
    {p : Provider} {w w' : Wallet} {pin : Bytes} {e : Err}
    → Attempt p w pin w' e
    → IsSound w
    → IsSound w'
Attempt-IsSound (Attempt.refused _) s = s
Attempt-IsSound (Attempt.unhashed _ _ _) s = s
Attempt-IsSound {p} {w} (Attempt.right u h) s = record {
  counted = Attempt-IsCounted {p = p} {w = w} (Attempt.right u h) s.counted;
  free = s.free;
  held = s.held;
  seq = s.seq;
}
Attempt-IsSound {p} {w} (Attempt.wrong d u h ne) s = record {
  counted = Attempt-IsCounted {p = p} {w = w} (Attempt.wrong d u h ne) s.counted;
  free = s.free;
  held = s.held;
  seq = s.seq;
}

unlock-cases :
    (w : Wallet) (tx_id : Bytes) → ((unlock w tx_id).0 ≡ w) ⊎ ((unlock w tx_id).0 ≡ drop_lock w)
unfolding unlock
unlock-cases w tx_id = elim (Bool-cases w.lock_active) [
  | inr free ↦ inl (ground arith)
  | inl held ↦ elim (Bool-cases (constant_equal w.lock_tx_id tx_id)) [
    | inl same ↦ inr (ground arith)
    | inr other ↦ inl (ground arith)
  ]
]

dropped-IsSound : (w : Wallet) → IsSound w → IsSound (drop_lock w)
dropped-IsSound w s = record {
  counted = record { failures = s.counted.failures; locked = s.counted.locked };
  free = λ _. (refl, refl);
  held = λ e. absurd (cc);
  seq = s.seq;
}

fresh_pin-IsSound : (w : Wallet) (hash : Bytes) → IsSound w → IsSound (with_pin w hash)
fresh_pin-IsSound w hash s = record {
  counted = record { failures = omega arith; locked = refl };
  free = s.free;
  held = s.held;
  seq = s.seq;
}

Step-IsSound : {p : Provider} {w w' : Wallet} → Step p w w' → IsSound w → IsSound w'
unfolding allocate_seq lock get_available_balance set_pin load_pin_hash
Step-IsSound (allocate w) s = elim (Bool-cases (w.next_seq == u32_max)) [
  | inl last ↦ rw last s
  | inr more ↦
      let bound = s.seq in
      rw more (record {
        counted = record { failures = s.counted.failures; locked = s.counted.locked };
        free = s.free;
        held = s.held;
        seq = ground arith;
      })
]
Step-IsSound (locks w tx_id amount now) s = elim (Bool-cases (amount == 0 || bytes_zero tx_id)) [
  | inl bad ↦ rw bad s
  | inr good ↦ elim (Bool-cases (is_locked w now)) [
    | inl busy ↦ rw (good, busy) s
    | inr idle ↦
        rw (good, idle)
          (record {
            counted = record { failures = s.counted.failures; locked = s.counted.locked };
            free = λ e. absurd (cc);
            held = λ _. (ground arith, ground arith);
            seq = s.seq;
          })
  ]
]
Step-IsSound (unlocks w tx_id) s = elim (unlock-cases w tx_id) [
  | inl same ↦ rw same s
  | inr gone ↦ rw gone (dropped-IsSound w s)
]
Step-IsSound (balances w c d now) s = elim (Bool-cases (w.lock_active && not (is_locked w now))) [
  | inl over ↦ rw over (dropped-IsSound w s)
  | inr kept ↦ rw kept s
]
Step-IsSound {p} (sets w pin) s = elim (Result-split (hash_pin p pin)) [
  | inl (h, done) ↦ rw (done, set_pin) (fresh_pin-IsSound w h s)
  | inr (e, failed) ↦ rw (failed, set_pin) s
]
Step-IsSound (loads w hash) s = elim (Bool-cases (bytes_zero hash)) [
  | inl bad ↦ rw bad s
  | inr good ↦ rw good (fresh_pin-IsSound w hash s)
]
Step-IsSound {p} (verifies w pin) s = Attempt-IsSound (verify_pin-Attempt p w pin) s

init-IsSound :
    (owner : Bytes) (seq : ℕ) (w : Wallet) → seq ≤ u32_max → init owner seq ≡ ok w → IsSound w
unfolding init
init-IsSound owner seq w bound h = elim (Bool-cases (bytes_zero owner)) [
  | inl bad ↦ absurd (cc (rw bad at h))
  | inr good ↦
      OnOk-ok IsSound (init owner seq) w
        (rw (good, init)
          (record {
            counted = record { failures = omega arith; locked = refl };
            free = λ _. (refl, refl);
            held = λ e. absurd (cc);
            seq = bound;
          }))
        h
]

-- A wallet that `meshpay_wallet_init` made is sound after every sequence of operations: at most three
-- failures are counted and three lock the PIN, an amount is held exactly while a lock with an id is
-- set, and the next sequence number fits `uint32_t`.
pub Reach-IsSound :
    (p : Provider) (owner : Bytes) (seq : ℕ) (s w : Wallet)
    → seq ≤ u32_max
    → init owner seq ≡ ok s
    → Reach p s w
    → IsSound w
Reach-IsSound p owner seq s w bound h here = init-IsSound owner seq s bound h
Reach-IsSound p owner seq s w bound h (next {t} r st) =
    Step-IsSound st (Reach-IsSound p owner seq s t bound h r)

allocated :
    (w : Wallet) (seq : ℕ)
    → (allocate_seq w).1 ≡ ok seq
    → (seq ≡ w.next_seq) × ((allocate_seq w).0.next_seq ≡ seq + 1)
unfolding allocate_seq
allocated w seq h = elim (Bool-cases (w.next_seq == u32_max)) [
  | inl last ↦ absurd (cc (rw last at h))
  | inr more ↦
      let same : seq ≡ w.next_seq = number (rw more at h) in
      rw more (same, ap (λ (k : ℕ). k + 1) (sym same))
]
  where
    number : {a b : ℕ} → ok a ≡ ok b → b ≡ a
    number e = cc

-- Two sequence numbers that one wallet allocates in a history are different, the later the greater,
-- whatever is called between.
allocate_seq-increasing :
    (p : Provider) (w v : Wallet) (first second : ℕ)
    → (allocate_seq w).1 ≡ ok first
    → Reach p (allocate_seq w).0 v
    → (allocate_seq v).1 ≡ ok second
    → first < second
allocate_seq-increasing p w v first second h r k =
    omega (arith, allocated w first h, Reach-next_seq r, allocated v second k)
