-- ===== src/Checkpoint.antt =====
-- components/checkpoint: the signed re-genesis, its account table and the lookup in it.
pub mod Codec
pub mod Decode
pub mod Written
pub mod Faithful
pub mod RoundTrip
pub mod Signed
mod Tests
use meshpay_v.Base.{ℕ, List, Option, Bytes, zeros, replicate, take, mem_equal, find_first}
use meshpay_v.Tx.{hash_size, public_size, signature_size}

abbrev pub digest_size : ℕ
digest_size = 8

-- `meshpay_checkpoint_account_t`
pub record Account : Type 0 where
  pub account : Bytes
  pub balance : ℕ
  pub seq_floor : ℕ
  pub member_public : Bytes

-- `meshpay_checkpoint_t`. The length of `accounts` is MESHPAY_CHECKPOINT_MAX_ACCOUNTS.
pub record Checkpoint : Type 0 where
  pub currency_id : ℕ
  pub generation : ℕ
  pub created_at_ms : ℕ
  pub horizon_digest : Bytes
  pub account_count : ℕ
  pub accounts : List Account
  pub founder_signature : Bytes

abbrev pub zero_account : Account
zero_account = record {
  account = zeros hash_size;
  balance = 0;
  seq_floor = 0;
  member_public = zeros public_size;
}

-- `meshpay_checkpoint_init`, on a table of `max` accounts.
abbrev pub empty : ℕ → Checkpoint
empty max = record {
  currency_id = 0;
  generation = 0;
  created_at_ms = 0;
  horizon_digest = zeros digest_size;
  account_count = 0;
  accounts = replicate max zero_account;
  founder_signature = zeros signature_size;
}

-- The entries `accounts[i]` with `i < account_count && i < MAX_ACCOUNTS`.
abbrev pub table : Checkpoint → List Account
table cp = take cp.account_count cp.accounts

-- `meshpay_checkpoint_find_account`
unfoldable pub find_account : Checkpoint → Bytes → Option Account
find_account cp account = find_first (λ a. mem_equal a.account account) (table cp)
