-- ===== src/Identity.antt =====
-- components/rns_identity/rns_identity.c: key pairs with their hash. A call that fills an identity
-- returns it; on an error the code clears it, and the caller has none.
pub mod Loaded
use meshpay_v.Base.{
  ℕ, Bool, true, false, not, ◌||◌, ◌++◌, Bytes, zeros, Err, invalid_arg, invalid_state, Result, ok,
  err, ◌>>=◌, if◌then◌else◌, take, drop, bytes_zero,
}
use meshpay_v.Tx.{hash_size}
use meshpay_v.Crypto
use meshpay_v.Crypto.{Provider}

-- `RNS_CRYPTO_X25519_KEY_SIZE`, and the sizes of an Ed25519 seed and public key.
abbrev pub key_size : ℕ
key_size = 32

-- `rns_identity_t`
pub record Identity : Type 0 where
  pub has_private : Bool
  pub has_public : Bool
  pub x25519_private : Bytes
  pub x25519_public : Bytes
  pub ed25519_seed : Bytes
  pub ed25519_private : Bytes
  pub ed25519_public : Bytes
  pub hash : Bytes

-- `rns_identity_clear`
abbrev pub empty : Identity
empty = record {
  has_private = false;
  has_public = false;
  x25519_private = zeros key_size;
  x25519_public = zeros key_size;
  ed25519_seed = zeros key_size;
  ed25519_private = zeros 64;
  ed25519_public = zeros key_size;
  hash = zeros hash_size;
}

module _ (p : Provider) where
  -- `identity_update_hash`
  unfoldable pub update_hash : Identity → Result Identity
  update_hash i = do
    full ← Crypto.sha256 p (i.x25519_public ++ i.ed25519_public)
    ok (record i { hash = take hash_size full })

  -- `rns_identity_load_public`
  unfoldable pub load_public : Bytes → Result Identity
  unfolding update_hash
  load_public key =
      if bytes_zero (take key_size key) || bytes_zero (drop key_size key)
      then err invalid_arg
      else update_hash (record empty {
        x25519_public = take key_size key;
        ed25519_public = drop key_size key;
        has_public = true;
      })

  -- `rns_identity_load_private`
  unfoldable pub load_private : Bytes → Result Identity
  unfolding update_hash
  load_private key =
      if bytes_zero (take key_size key) || bytes_zero (drop key_size key)
      then err invalid_arg
      else do
        public ← Crypto.public_key p (take key_size key)
        let pair = p.ed25519_key_pair (drop key_size key)
        update_hash (record empty {
          has_private = true;
          has_public = true;
          x25519_private = take key_size key;
          x25519_public = public;
          ed25519_seed = drop key_size key;
          ed25519_private = pair.0;
          ed25519_public = pair.1;
        })

  -- `rns_identity_generate`, on what `rns_crypto_random` answers for the private key
  unfoldable pub generate : Result Bytes → Result Identity
  unfolding load_private
  generate random = do key ← random; load_private key

  -- `rns_identity_shared_secret`, with the first 32 bytes of the peer's public key
  unfoldable pub shared_secret : Identity → Bytes → Result Bytes
  shared_secret i peer =
      if not i.has_private
      then err invalid_state
      else Crypto.shared_secret p i.x25519_private (take key_size peer)

  -- `rns_identity_verify`
  unfoldable pub verify : Identity → Bytes → Bytes → Err
  verify i message signature =
      if not i.has_public then invalid_state else Crypto.verify p i.ed25519_public message signature

  -- `rns_identity_sign`
  unfoldable pub sign : Identity → Bytes → Result Bytes
  sign i message =
      if not i.has_private then err invalid_state else ok (Crypto.sign p i.ed25519_private message)

-- `rns_identity_get_private_key`
unfoldable pub get_private_key : Identity → Result Bytes
get_private_key i =
    if not i.has_private then err invalid_state else ok (i.x25519_private ++ i.ed25519_seed)

-- `rns_identity_get_public_key`
unfoldable pub get_public_key : Identity → Result Bytes
get_public_key i =
    if not i.has_public then err invalid_state else ok (i.x25519_public ++ i.ed25519_public)

-- `rns_identity_get_hash`
unfoldable pub get_hash : Identity → Result Bytes
get_hash i = if not i.has_public then err invalid_state else ok i.hash
