-- ===== src/Wallet/Pin.antt =====
-- The lockout of the PIN (components/wallet/wallet.c).
use meshpay_v.Base.{
  ℕ, ◌+◌, ◌≤◌, ◌≡◌, ◌≢◌, refl, sym, ap, subst, ◌⊎◌, inl, inr, Bool, true, false, List, [], ◌∷◌,
  ◌++◌, Bytes, Err, esp_ok, invalid_state, invalid_response, Result, ok, err, arith, leb,
  if◌then◌else◌, Bool-cases, constant_equal, constant_equal_iff, ◌∙◌, ◌||◌, ltb, length, All,
  Option-cases,
}
use meshpay_v.Crypto.{Provider, sha256}
use meshpay_v.Wallet.{Wallet, hash_pin, pin_prefix, verify_pin, count_failure, max_pin_failures}

-- The wallet is locked exactly after three failures.
pub record IsCounted (w : Wallet) : Type 0 where
  pub failures : w.pin_failures ≤ max_pin_failures
  pub locked : w.pin_locked ≡ leb max_pin_failures w.pin_failures

pub Result-split : {A : Type 0} (r : Result A) → ((a : A) × (r ≡ ok a)) ⊎ ((e : Err) × (r ≡ err e))
Result-split (ok a) = inl (a, refl)
Result-split (err e) = inr (e, refl)

-- What one attempt does.
pub data Attempt (p : Provider) (w : Wallet) (pin : Bytes) : Wallet → Err → Type 0 where
  refused : (w.has_pin ≡ false) ⊎ (w.pin_locked ≡ true) → Attempt p w pin w invalid_state
  unhashed : (e : Err) → w.pin_locked ≡ false → hash_pin p pin ≡ err e → Attempt p w pin w e
  right :
      w.pin_locked ≡ false
      → hash_pin p pin ≡ ok w.pin_hash
      → Attempt p w pin (record w { pin_failures = 0 }) esp_ok
  wrong :
      (h : Bytes)
      → w.pin_locked ≡ false
      → hash_pin p pin ≡ ok h
      → h ≢ w.pin_hash
      → Attempt p w pin (count_failure w) invalid_response

right_run :
    (p : Provider) (w : Wallet) (pin h : Bytes)
    → w.has_pin ≡ true
    → w.pin_locked ≡ false
    → hash_pin p pin ≡ ok h
    → constant_equal h w.pin_hash ≡ true
    → verify_pin p w pin ≡ (record w { pin_failures = 0 }, esp_ok)
unfolding verify_pin
right_run p w pin h set' open' hashed same = ground arith

wrong_run :
    (p : Provider) (w : Wallet) (pin h : Bytes)
    → w.has_pin ≡ true
    → w.pin_locked ≡ false
    → hash_pin p pin ≡ ok h
    → constant_equal h w.pin_hash ≡ false
    → verify_pin p w pin ≡ (count_failure w, invalid_response)
unfolding verify_pin
wrong_run p w pin h set' open' hashed other = ground arith

pub verify_pin-Attempt :
    (p : Provider) (w : Wallet) (pin : Bytes)
    → Attempt p w pin (verify_pin p w pin).0 (verify_pin p w pin).1
unfolding verify_pin
verify_pin-Attempt p w pin = elim (Bool-cases w.has_pin) [
  | inr unset ↦ simp unset (refused (inl unset))
  | inl set' ↦ elim (Bool-cases w.pin_locked) [
    | inl locked ↦ simp (set', locked) (refused (inr locked))
    | inr open' ↦ elim (Result-split (hash_pin p pin)) [
      | inr (e, failed) ↦ simp (set', open', failed) (unhashed e open' failed)
      | inl (h, hashed) ↦ elim (Bool-cases (constant_equal h w.pin_hash)) [
        | inl same ↦
            subst (λ r. Attempt p w pin r.0 r.1) (sym (right_run p w pin h set' open' hashed same))
              (right open' (hashed ∙ ap ok ((constant_equal_iff h w.pin_hash).0 same)))
        | inr other ↦
            subst (λ r. Attempt p w pin r.0 r.1) (sym (wrong_run p w pin h set' open' hashed other))
              (wrong h open' hashed (λ e. cc ((constant_equal_iff h w.pin_hash).1 e)))
      ]
    ]
  ]
]

pub Attempt-IsCounted :
    {p : Provider} {w w' : Wallet} {pin : Bytes} {e : Err}
    → Attempt p w pin w' e
    → IsCounted w
    → IsCounted w'
Attempt-IsCounted (refused _) c = c
Attempt-IsCounted (unhashed _ _ _) c = c
Attempt-IsCounted (right u _) c =
    let l = c.locked in
    let f = c.failures in record { failures = omega arith; locked = ground arith }
Attempt-IsCounted (wrong _ u _ _) c =
    let l = c.locked in
    let f = c.failures in record { failures = ground arith; locked = ground arith }

-- A sequence of attempts, and the answers to them.
abbrev pub attempts : Provider → Wallet → List Bytes → Wallet
attempts p w [] = w
attempts p w (pin ∷ pins) = attempts p (verify_pin p w pin).0 pins

abbrev pub answers : Provider → Wallet → List Bytes → List Err
answers p w [] = []
answers p w (pin ∷ pins) = (verify_pin p w pin).1 ∷ answers p (verify_pin p w pin).0 pins

abbrev pub is_mismatch : Err → Bool
is_mismatch invalid_response = true
is_mismatch _ = false

-- The attempts that compared a PIN and found it wrong.
abbrev pub mismatches : List Err → ℕ
mismatches [] = 0
mismatches (e ∷ es) = (if is_mismatch e then 1 else 0) + mismatches es

abbrev error_of : Result Bytes → Err
error_of (ok b) = esp_ok
error_of (err e) = e

hash_pin_mismatch :
    (p : Provider) (pin : Bytes) (e : Err) → hash_pin p pin ≡ err e → is_mismatch e ≡ false
unfolding hash_pin sha256
hash_pin_mismatch p pin e h = elim (Bool-cases (ltb (length pin) 4 || ltb 16 (length pin))) [
  | inl bad ↦ let k = rw bad at h in sym (ap (λ r. is_mismatch (error_of r)) k)
  | inr good ↦ elim (Option-cases (p.mbedtls_sha256 (pin_prefix ++ pin))) [
    | inl failed ↦
        let k = rw (good, failed, sha256) at h in sym (ap (λ r. is_mismatch (error_of r)) k)
    | inr (d, done) ↦ absurd (cc (rw (good, done, sha256) at h))
  ]
]

mismatch_step :
    {p : Provider} {w w' : Wallet} {pin : Bytes} {e : Err}
    → Attempt p w pin w' e
    → IsCounted w
    → e ≢ esp_ok
    → (if is_mismatch e then 1 else 0) + w.pin_failures ≡ w'.pin_failures
mismatch_step (refused _) c ne = omega arith
mismatch_step {p} {w} {pin = pin} (unhashed e _ h) c ne =
    let m = hash_pin_mismatch p pin e h in rw m (omega arith)
mismatch_step (right _ _) c ne = absurd (ne refl)
mismatch_step (wrong _ _ _ _) c ne = omega arith

-- Between two successes at most three PINs are found wrong, less the failures already counted,
-- however many are tried.
pub verify_pin-lockout :
    (p : Provider) (w : Wallet) (pins : List Bytes)
    → IsCounted w
    → All (λ e. e ≢ esp_ok) (answers p w pins)
    → mismatches (answers p w pins) + w.pin_failures ≤ max_pin_failures
verify_pin-lockout p w [] c h = let f = c.failures in omega arith
verify_pin-lockout p w (pin ∷ pins) c (ne, h) =
    let a = verify_pin-Attempt p w pin in
    omega (
      arith,
      verify_pin-lockout p (verify_pin p w pin).0 pins (Attempt-IsCounted a c) h,
      mismatch_step a c ne,
    )
