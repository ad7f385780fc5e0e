-- ===== src/Wallet/Tests.antt =====
-- Runs of components/wallet/wallet.c, and the theorems at these inputs.
use meshpay_v.Base.{
  ◌+◌, ◌≡◌, ◌≢◌, ◌≤◌, refl, sym, subst, replicate, [], ◌∷◌, Bytes, true, false, zeros, bytes_zero,
  constant_equal, arith, ok, esp_ok, invalid_response, invalid_state, All,
}
use meshpay_v.Crypto.{sha256}
use meshpay_v.Wallet.{
  Wallet, init, allocate_seq, is_locked, lock, verify_pin, hash_pin, max_pin_failures,
}
use meshpay_v.Wallet.Pin.{IsCounted, answers, mismatches, verify_pin-lockout}
use meshpay_v.Wallet.History.{Reach, Step, IsSound, Reach-IsSound}
use meshpay_v.Samples.{alice, trusting}

abbrev fresh_wallet : Wallet
fresh_wallet = record {
  owner = alice;
  next_seq = 5;
  lock_active = false;
  lock_tx_id = zeros 32;
  locked_amount = 0;
  lock_started_ms = 0;
  has_pin = false;
  pin_hash = zeros 32;
  pin_failures = 0;
  pin_locked = false;
}

-- The PIN of this wallet has another digest than the constant one of `trusting`.
abbrev pin_wallet : Wallet
pin_wallet = record fresh_wallet { has_pin = true; pin_hash = replicate 32 9 }

abbrev tx_id : Bytes
tx_id = replicate 32 2

abbrev guess : Bytes
guess = 49 ∷ 50 ∷ 51 ∷ 52 ∷ []

init_runs : init alice 5 ≡ ok fresh_wallet
unfolding init bytes_zero zeros
init_runs = refl

-- Three wrong PINs, and a fourth that is not compared.
lockout_runs :
    answers trusting pin_wallet (guess ∷ guess ∷ guess ∷ guess ∷ [])
    ≡ invalid_response ∷ invalid_response ∷ invalid_response ∷ invalid_state ∷ []
unfolding verify_pin hash_pin sha256 constant_equal
lockout_runs = refl

lock_runs :
    ((lock fresh_wallet tx_id 30 1000).1 ≡ esp_ok)
    × (is_locked (lock fresh_wallet tx_id 30 1000).0 30999 ≡ true)
    × (is_locked (lock fresh_wallet tx_id 30 1000).0 31000 ≡ false)
    × ((lock (lock fresh_wallet tx_id 30 1000).0 tx_id 40 2000).1 ≡ invalid_state)
unfolding lock is_locked bytes_zero
lock_runs = (refl, refl, refl, refl)

pin_wallet-IsCounted : IsCounted pin_wallet
pin_wallet-IsCounted = record { failures = omega arith; locked = refl }

wrong_answers :
    All (λ e. e ≢ esp_ok) (answers trusting pin_wallet (guess ∷ guess ∷ guess ∷ guess ∷ []))
wrong_answers =
    subst (All (λ e. e ≢ esp_ok)) (sym lockout_runs)
      ((λ e. cc), ((λ e. cc), ((λ e. cc), ((λ e. cc), tt))))

verify_pin-lockout_example :
    mismatches (answers trusting pin_wallet (guess ∷ guess ∷ guess ∷ guess ∷ [])) + 0
    ≤ max_pin_failures
verify_pin-lockout_example =
    verify_pin-lockout trusting pin_wallet (guess ∷ guess ∷ guess ∷ guess ∷ []) pin_wallet-IsCounted
      wrong_answers

Reach-IsSound_example : IsSound (lock (allocate_seq fresh_wallet).0 tx_id 30 1000).0
Reach-IsSound_example = Reach-IsSound trusting alice 5 fresh_wallet _ (omega arith) init_runs (
    Reach.next (Reach.next Reach.here (Step.allocate fresh_wallet))
      (Step.locks (allocate_seq fresh_wallet).0 tx_id 30 1000))

allocates : (w : Wallet) → w.next_seq ≡ 5 → (allocate_seq w).1 ≡ ok 5
unfolding allocate_seq
allocates w h = ground arith

allocates_next : (allocate_seq (allocate_seq fresh_wallet).0).1 ≡ ok 6
unfolding allocate_seq
allocates_next = refl
