-- ===== src/Wallet.antt =====
-- components/wallet/wallet.c: sequence numbers, the lock of a pending payment, and the PIN. A
-- function that updates `*wallet` returns the new wallet beside its result; `verify_pin` and
-- `set_pin` do not represent their zeroed buffers.
pub mod Lock
pub mod Pin
pub mod History
mod Tests
use meshpay_v.Base.{
  ℕ, ◌+◌, ◌-◌, ◌%◌, ◌^◌, Bool, true, false, not, ◌&&◌, ◌||◌, List, [], ◌∷◌, ◌++◌, Option, none,
  some, Bytes, zeros, Err, esp_ok, invalid_arg, invalid_state, invalid_response, not_found, Result,
  ok, err, ltb, leb, ◌==◌, if◌then◌else◌, length, bytes_zero, constant_equal,
}
use meshpay_v.Tx.{id_size, hash_size}
use meshpay_v.Crypto
use meshpay_v.Crypto.{Provider}
use meshpay_v.Dag.{Dag}
use meshpay_v.Currency.{Config}
use meshpay_v.Currency.Ledger.{u32_max, get_balance}

abbrev pub lock_timeout_ms : ℕ
lock_timeout_ms = 30000

abbrev pub max_pin_failures : ℕ
max_pin_failures = 3

-- `meshpay_wallet_t`
pub record Wallet : Type 0 where
  pub owner : Bytes
  pub next_seq : ℕ
  pub lock_active : Bool
  pub lock_tx_id : Bytes
  pub locked_amount : ℕ
  pub lock_started_ms : ℕ
  pub has_pin : Bool
  pub pin_hash : Bytes
  pub pin_failures : ℕ
  pub pin_locked : Bool

-- `"MeshPayV2:PIN"`
abbrev pub pin_prefix : Bytes
pin_prefix = 77 ∷ 101 ∷ 115 ∷ 104 ∷ 80 ∷ 97 ∷ 121 ∷ 86 ∷ 50 ∷ 58 ∷ 80 ∷ 73 ∷ 78 ∷ []

-- `hash_pin`
unfoldable pub hash_pin : Provider → Bytes → Result Bytes
hash_pin p pin =
    if ltb (length pin) 4 || ltb 16 (length pin)
    then err invalid_arg
    else Crypto.sha256 p (pin_prefix ++ pin)

-- `meshpay_wallet_init`
unfoldable pub init : Bytes → ℕ → Result Wallet
init owner next_seq =
    if bytes_zero owner
    then err invalid_arg
    else ok (record {
      owner = owner;
      next_seq = next_seq;
      lock_active = false;
      lock_tx_id = zeros id_size;
      locked_amount = 0;
      lock_started_ms = 0;
      has_pin = false;
      pin_hash = zeros 32;
      pin_failures = 0;
      pin_locked = false;
    })

-- `meshpay_wallet_allocate_seq`
unfoldable pub allocate_seq : Wallet → Wallet × Result ℕ
allocate_seq w =
    if w.next_seq == u32_max
    then (w, err invalid_arg)
    else (record w { next_seq = w.next_seq + 1 }, ok w.next_seq)

-- `meshpay_wallet_lock_active`
unfoldable pub is_locked : Wallet → ℕ → Bool
is_locked w now =
    if not w.lock_active
    then false
    else if ltb now w.lock_started_ms
    then true
    else ltb (now - w.lock_started_ms) lock_timeout_ms

-- `meshpay_wallet_lock`
unfoldable pub lock : Wallet → Bytes → ℕ → ℕ → Wallet × Err
lock w tx_id amount now =
    if amount == 0 || bytes_zero tx_id
    then (w, invalid_arg)
    else if is_locked w now
    then (w, invalid_state)
    else (
      record w {
        lock_active = true;
        lock_tx_id = tx_id;
        locked_amount = amount;
        lock_started_ms = now;
      },
      esp_ok,
    )

-- The four assignments that drop a lock.
abbrev pub drop_lock : Wallet → Wallet
drop_lock w = record w {
  lock_active = false;
  locked_amount = 0;
  lock_tx_id = zeros id_size;
  lock_started_ms = 0;
}

-- `meshpay_wallet_unlock`
unfoldable pub unlock : Wallet → Bytes → Wallet × Err
unlock w tx_id =
    if not w.lock_active
    then (w, not_found)
    else if not (constant_equal w.lock_tx_id tx_id)
    then (w, not_found)
    else (drop_lock w, esp_ok)

-- `meshpay_wallet_get_available_balance`
unfoldable pub get_available_balance : Wallet → Config → Dag → ℕ → Wallet × ℕ
get_available_balance w c d now =
    let balance = get_balance c d w.owner in
    let w' = if w.lock_active && not (is_locked w now) then drop_lock w else w in
    (
      w',
      if w'.lock_active
          then if ltb w'.locked_amount balance then balance - w'.locked_amount else 0
          else balance,
    )

-- What a new PIN resets.
abbrev pub with_pin : Wallet → Bytes → Wallet
with_pin w hash = record w { has_pin = true; pin_hash = hash; pin_failures = 0; pin_locked = false }

-- `meshpay_wallet_set_pin`
unfoldable pub set_pin : Provider → Wallet → Bytes → Wallet × Err
set_pin p w pin = elim (hash_pin p pin) [ err e ↦ (w, e) | ok hash ↦ (with_pin w hash, esp_ok) ]

-- `meshpay_wallet_load_pin_hash`
unfoldable pub load_pin_hash : Wallet → Bytes → Wallet × Err
load_pin_hash w hash = if bytes_zero hash then (w, invalid_arg) else (with_pin w hash, esp_ok)

-- The end of `verify_pin` after a PIN that does not match; `pin_failures` is a `uint8_t`.
abbrev pub count_failure : Wallet → Wallet
count_failure w =
    let failures = (w.pin_failures + 1) % 256 in
    record w {
      pin_failures = failures;
      pin_locked = if leb max_pin_failures failures then true else w.pin_locked;
    }

-- `meshpay_wallet_verify_pin`
unfoldable pub verify_pin : Provider → Wallet → Bytes → Wallet × Err
verify_pin p w pin =
    if not w.has_pin
    then (w, invalid_state)
    else if w.pin_locked
    then (w, invalid_state)
    else elim (hash_pin p pin) [
      | err e ↦ (w, e)
      | ok candidate ↦
          if constant_equal candidate w.pin_hash
          then (record w { pin_failures = 0 }, esp_ok)
          else (count_failure w, invalid_response)
    ]
