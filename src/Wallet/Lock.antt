-- ===== src/Wallet/Lock.antt =====
-- The lock of a pending payment (components/wallet/wallet.c).
use meshpay_v.Base.{
  ℕ, ◌+◌, ◌-◌, ◌<◌, ◌≡◌, ◌≢◌, refl, ◌⊎◌, inl, inr, true, false, ◌||◌, Bytes, esp_ok, not_found,
  arith, ltb, ◌==◌, if◌then◌else◌, Bool-cases, bytes_zero, constant_equal, constant_equal_iff,
}
use meshpay_v.Dag.{Dag}
use meshpay_v.Currency.{Config}
use meshpay_v.Currency.Ledger.{get_balance}
use meshpay_v.Wallet.{
  Wallet, is_locked, lock, unlock, drop_lock, get_available_balance, lock_timeout_ms,
}

abbrev pub with_lock : Wallet → Bytes → ℕ → ℕ → Wallet
with_lock w tx_id amount now = record w {
  lock_active = true;
  lock_tx_id = tx_id;
  locked_amount = amount;
  lock_started_ms = now;
}

running :
    (w : Wallet) (tx_id : Bytes) (amount now later : ℕ)
    → is_locked (with_lock w tx_id amount now) later ≡ ltb later (now + lock_timeout_ms)
unfolding is_locked
running w tx_id amount now later = ground arith

is_locked-drop_lock : (w : Wallet) (now : ℕ) → is_locked (drop_lock w) now ≡ false
unfolding is_locked
is_locked-drop_lock w now = refl

is_locked_free : (w : Wallet) (now : ℕ) → w.lock_active ≡ false → is_locked w now ≡ false
unfolding is_locked
is_locked_free w now h = rw h refl

-- `meshpay_wallet_lock` succeeds exactly for a positive amount and an id that is not zero while no
-- lock runs, and then the lock runs until 30 seconds have passed; otherwise it changes nothing.
lock-is_locked :
    (w : Wallet) (tx_id : Bytes) (amount now later : ℕ)
    → let (w', e) = lock w tx_id amount now in
      (e ≡ esp_ok)
        × (0 < amount)
        × (bytes_zero tx_id ≡ false)
        × (is_locked w now ≡ false)
        × (w'.locked_amount ≡ amount)
        × (is_locked w' later ≡ ltb later (now + lock_timeout_ms))
      ⊎ (e ≢ esp_ok)
        × (w' ≡ w)
        × ((amount ≡ 0) ⊎ (bytes_zero tx_id ≡ true) ⊎ (is_locked w now ≡ true))
unfolding lock
lock-is_locked w tx_id amount now later = elim (Bool-cases (amount == 0 || bytes_zero tx_id)) [
  | inl bad ↦ rw bad (inr ((λ e. cc), refl, ground arith))
  | inr good ↦ elim (Bool-cases (is_locked w now)) [
    | inl busy ↦ rw (good, busy) (inr ((λ e. cc), refl, inr (inr refl)))
    | inr free ↦
        rw (good, free)
          (inl (refl, ground arith, ground arith, refl, refl, running w tx_id amount now later))
  ]
]

-- `meshpay_wallet_unlock` ends the lock of the transaction that holds it, after which no lock runs
-- at any time, and changes nothing for any other id or without a lock.
unlock-is_locked :
    (w : Wallet) (tx_id : Bytes) (later : ℕ)
    → let (w', e) = unlock w tx_id in
      (e ≡ esp_ok)
        × (w.lock_active ≡ true)
        × (w.lock_tx_id ≡ tx_id)
        × (is_locked w' later ≡ false)
        × (w'.locked_amount ≡ 0)
      ⊎ (e ≡ not_found) × (w' ≡ w) × ((w.lock_active ≡ false) ⊎ (w.lock_tx_id ≢ tx_id))
unfolding unlock is_locked
unlock-is_locked w tx_id later = elim (Bool-cases w.lock_active) [
  | inr free ↦ rw free (inr (refl, refl, inl refl))
  | inl held ↦ elim (Bool-cases (constant_equal w.lock_tx_id tx_id)) [
    | inl same ↦
        rw (held, same)
          (inl (refl, refl, (constant_equal_iff w.lock_tx_id tx_id).0 same, refl, refl))
    | inr other ↦
        rw (held, other)
          (inr (refl, refl, inr (λ e. cc ((constant_equal_iff w.lock_tx_id tx_id).1 e))))
  ]
]

-- The available balance is the balance less what a lock that still runs holds back; the call keeps
-- such a lock and drops one whose time has passed.
get_available_balance-is_locked :
    (w : Wallet) (c : Config) (d : Dag) (now : ℕ)
    → let (w', available) = get_available_balance w c d now in
      (available ≡ get_balance c d w.owner - (if is_locked w now then w.locked_amount else 0))
      × (w'.lock_active ≡ is_locked w now)
      × (is_locked w' now ≡ is_locked w now)
unfolding get_available_balance
get_available_balance-is_locked w c d now = elim (Bool-cases w.lock_active) [
  | inr free ↦ let idle = is_locked_free w now free in ground (arith)
  | inl held ↦ elim (Bool-cases (is_locked w now)) [
    | inl runs ↦ ground arith
    | inr over ↦ ground (arith, is_locked-drop_lock w now)
  ]
]
