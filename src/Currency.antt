-- ===== src/Currency.antt =====
-- components/currency/currency.c: the rules of a currency and its mint authorities.
pub mod Ledger
pub mod Net
pub mod Supply
pub mod Order
pub mod Solvency
pub mod Members
pub mod Rules
pub mod Refound
pub mod Interned
pub mod Regenesis
pub mod Rebuild
pub mod Adoption
pub mod Gate
pub mod Directory
pub mod Decay
pub mod Tests
mod GateTests
use meshpay_v.Base.{
  ℕ, zero, suc, ◌+◌, ◌*◌, ◌/◌, ◌-◌, Bool, true, false, not, ◌&&◌, ◌||◌, List, Bytes, zeros, Err,
  esp_ok, invalid_arg, no_mem, leb, ◌==◌, if◌then◌else◌, set, take, replicate, any, bytes_zero,
  constant_equal,
}
use meshpay_v.Tx.{Tx, claim, hash_size, public_size}
use meshpay_v.Dag.{Dag}

abbrev pub max_mint_authorities : ℕ
max_mint_authorities = 4

abbrev pub bps_scale : ℕ
bps_scale = 10000

-- `meshpay_currency_result_t`
pub data CurrencyResult : Type 0 where
  accepted : CurrencyResult
  malformed wrong_id not_authority supply_exceeded bad_fee insufficient : CurrencyResult
  bad_signature bad_amount unknown_member replay : CurrencyResult

-- `meshpay_currency_config_t`
pub record Config : Type 0 where
  pub currency_id : ℕ
  pub max_supply : ℕ
  pub transfer_fee : ℕ
  pub initial_credit : ℕ
  pub mint_authorities : List Bytes
  pub mint_authority_count : ℕ
  pub demurrage_enabled : Bool
  pub demurrage_bps : ℕ
  pub founder_public : Bytes
  pub has_descriptor : Bool

-- `meshpay_currency_config_init`
unfoldable pub config_init : ℕ → Config
config_init currency = record {
  currency_id = currency;
  max_supply = 0;
  transfer_fee = 0;
  initial_credit = 0;
  mint_authorities = replicate max_mint_authorities (zeros hash_size);
  mint_authority_count = 0;
  demurrage_enabled = false;
  demurrage_bps = 0;
  founder_public = zeros public_size;
  has_descriptor = false;
}

-- The entries `mint_authorities[i]` with `i < mint_authority_count`.
abbrev pub authorities : Config → List Bytes
authorities c = take c.mint_authority_count c.mint_authorities

-- `meshpay_currency_is_mint_authority`
unfoldable pub is_mint_authority : Config → Bytes → Bool
is_mint_authority c authority =
    if bytes_zero authority then false else any (λ a. constant_equal a authority) (authorities c)

-- `meshpay_currency_add_mint_authority`
unfoldable pub add_mint_authority : Config → Bytes → Config × Err
add_mint_authority c authority =
    if bytes_zero authority
    then (c, invalid_arg)
    else if is_mint_authority c authority
    then (c, esp_ok)
    else if leb max_mint_authorities c.mint_authority_count
    then (c, no_mem)
    else (
      record c {
        mint_authorities = set c.mint_authorities c.mint_authority_count authority;
        mint_authority_count = c.mint_authority_count + 1;
      },
      esp_ok,
    )

-- `currency_claim_valid`
unfoldable pub claim_valid : Config → Tx → Bool
claim_valid c t =
    t.kind == claim
    && t.currency_id == c.currency_id
    && constant_equal t.from t.to
    && t.amount == c.initial_credit

-- Whether the adopted checkpoint is one of this currency.
abbrev pub has_checkpoint : Config → Dag → Bool
has_checkpoint c d = not (d.checkpoint.generation == 0) && d.checkpoint.currency_id == c.currency_id

-- `current = current * factor / SCALE`, for the ticks left while `current > 0`
unfoldable pub decay : ℕ → ℕ → ℕ → ℕ
decay zero factor current = current
decay (suc ticks) factor current =
    let rest = decay ticks factor (current * factor / bps_scale) in
    if current == 0 then current else rest

-- `meshpay_currency_apply_demurrage`
unfoldable pub apply_demurrage : Config → ℕ → ℕ → ℕ
unfolding decay
apply_demurrage c balance ticks =
    if not c.demurrage_enabled || c.demurrage_bps == 0 || ticks == 0 || balance == 0
    then balance
    else if leb bps_scale c.demurrage_bps
    then 0
    else decay ticks (bps_scale - c.demurrage_bps) balance
