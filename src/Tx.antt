-- ===== src/Tx.antt =====
-- components/meshpay_tx/include/meshpay/meshpay_tx.h: the transaction, shared by all components.
pub mod Cbor
pub mod Codec
pub mod Decode
pub mod Errors
pub mod Encoded
pub mod Read
pub mod Fields
pub mod RoundTrip
pub mod Faithful
mod Tests
use meshpay_v.Base.{ℕ, List, Bytes, zeros, replicate}

-- `sizeof(id)`, of a SHA-256 digest; `sizeof(from)`, of a destination hash; and of the keys.
abbrev pub id_size : ℕ
id_size = 32

abbrev pub hash_size : ℕ
hash_size = 16

abbrev pub signature_size : ℕ
signature_size = 64

abbrev pub public_size : ℕ
public_size = 64

abbrev pub max_parents : ℕ
max_parents = 2

-- `meshpay_tx_type_t`. The field is any number: a cleared transaction has type 0.
abbrev pub transfer : ℕ
transfer = 1

abbrev pub mint : ℕ
mint = 2

abbrev pub claim : ℕ
claim = 3

pub record Tx : Type 0 where
  pub id : Bytes
  pub kind : ℕ
  pub from : Bytes
  pub to : Bytes
  pub amount : ℕ
  pub seq : ℕ
  pub fee : ℕ
  pub currency_id : ℕ
  pub timestamp_ms : ℕ
  pub parents : List Bytes
  pub parent_count : ℕ
  pub member_public : Bytes
  pub signature : Bytes

-- `meshpay_tx_clear`
abbrev pub cleared : Tx
cleared = record {
  id = zeros id_size;
  kind = 0;
  from = zeros hash_size;
  to = zeros hash_size;
  amount = 0;
  seq = 0;
  fee = 0;
  currency_id = 0;
  timestamp_ms = 0;
  parents = replicate max_parents (zeros id_size);
  parent_count = 0;
  member_public = zeros public_size;
  signature = zeros signature_size;
}
