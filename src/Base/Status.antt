-- ===== src/Base/Status.antt =====
-- Error codes and fallible calls.
use mathlib.Core.Bool.{Bool, true, false}
use meshpay_v.Base.Tests.{if◌then◌else◌}
use mathlib.Core.Logic.{◌⊎◌, inl, inr}
use mathlib.Core.Path.{◌≡◌, refl, subst}

-- `esp_err_t`, by the codes that the modelled components return, and fallible results.
pub data Err : Type 0 where
  esp_ok : Err
  invalid_arg invalid_state invalid_size invalid_response invalid_crc invalid_version : Err
  no_mem not_found not_supported timeout : Err
  -- any other code, of a callback or of the cryptographic library, passed on as it is
  esp_other : Err

-- A call that fills an output argument only when it returns `ESP_OK`.
pub data Result {ℓ} (A : Type ℓ) : Type ℓ where
  ok : A → Result A
  err : Err → Result A

-- `ESP_RETURN_ON_ERROR`
infixl 5 ◌>>=◌
abbrev pub ◌>>=◌ {ℓ κ} : {A : Type ℓ} {B : Type κ} → Result A → (A → Result B) → Result B
ok a >>= f = f a
err e >>= f = err e

-- `err == ESP_OK`
abbrev pub fits : Err → Bool
fits esp_ok = true
fits _ = false

-- The check of a call that has no output, under `ESP_RETURN_ON_ERROR`.
abbrev pub check : Err → Result (Unit {0})
check esp_ok = ok tt
check e = err e

-- What a call that succeeds promises of its output.
abbrev pub OnOk {ℓ κ} : {A : Type ℓ} → (A → Type κ) → Result A → Type κ
OnOk P (ok a) = P a
OnOk P (err e) = Unit

pub OnOk-bind {ℓ κ} :
    {A B : Type ℓ} (P : A → Type κ) (Q : B → Type κ) (r : Result A) (f : A → Result B)
    → OnOk P r
    → ((a : A) → P a → OnOk Q (f a))
    → OnOk Q (r >>= f)
OnOk-bind P Q (ok a) f h k = k a h
OnOk-bind P Q (err e) f h k = tt

-- The same, with the equation of the first call for what it promises.
pub OnOk-bind_eq {ℓ κ} :
    {A B : Type ℓ} (Q : B → Type κ) (r : Result A) (f : A → Result B)
    → ((a : A) → r ≡ ok a → OnOk Q (f a))
    → OnOk Q (r >>= f)
OnOk-bind_eq Q (ok a) f k = k a refl
OnOk-bind_eq Q (err e) f k = tt

pub OnOk-ok {ℓ κ} : {A : Type ℓ} (P : A → Type κ) (r : Result A) (a : A) → OnOk P r → r ≡ ok a → P a
OnOk-ok P r a h e = subst (OnOk P) e h

pub OnOk-imp {ℓ κ} :
    {A : Type ℓ} (P Q : A → Type κ) (r : Result A) → ((a : A) → P a → Q a) → OnOk P r → OnOk Q r
OnOk-imp P Q (ok a) f h = f a h
OnOk-imp P Q (err e) f h = tt

pub Result-cases {ℓ} :
    {A : Type ℓ} (r : Result A) → ((a : A) × (r ≡ ok a)) ⊎ ((e : Err) × (r ≡ err e))
Result-cases (ok a) = inl (a, refl)
Result-cases (err e) = inr (e, refl)

-- A guard.
pub OnOk-if {ℓ κ} :
    {A : Type ℓ} (P : A → Type κ) (b : Bool) (e : Err) (r : Result A)
    → (b ≡ false → OnOk P r)
    → OnOk P (if b then err e else r)
OnOk-if P true e r h = tt
OnOk-if P false e r h = h refl

pub check-OnOk : (e : Err) → OnOk (λ _. e ≡ esp_ok) (check e)
check-OnOk esp_ok = refl
check-OnOk _ = tt
