-- ===== src/Crypto.antt =====
-- components/rns_crypto/rns_crypto.c: the digests, signatures and key agreement that the components
-- call, over what the code takes from Mbed TLS and Monocypher.
pub mod Symmetric
pub mod Derivation
use meshpay_v.Base.{
  ℕ, Bool, ◌||◌, ◌>>=◌, Option, none, some, Bytes, Err, esp_ok, invalid_arg, invalid_state,
  esp_other, Result, ok, err, if◌then◌else◌, bytes_zero,
}

-- The third-party functions. `mbedtls_sha256` may fail; `crypto_ed25519_check` takes the signature,
-- the public key and the message and accepts or not.
pub record Provider : Type 0 where
  pub mbedtls_sha256 : Bytes → Option Bytes
  pub ed25519_check : Bytes → Bytes → Bytes → Bool
  pub ed25519_sign : Bytes → Bytes → Bytes
  -- the private and the public key of a seed
  pub ed25519_key_pair : Bytes → Bytes × Bytes
  pub x25519_public : Bytes → Bytes
  -- a private key and a peer's public key to the shared secret
  pub x25519 : Bytes → Bytes → Bytes
  -- `mbedtls_md_hmac` of a key and a message; the calls that feed a message piece by piece give the
  -- same for the pieces joined
  pub hmac_sha256 : Bytes → Bytes → Option Bytes
  -- `mbedtls_aes_setkey_*` and `mbedtls_aes_crypt_cbc`, of the key, the initial vector and the input
  pub aes_encrypt : Bytes → Bytes → Bytes → Option Bytes
  pub aes_decrypt : Bytes → Bytes → Bytes → Option Bytes
  -- the password, the salt, the iterations and the length
  pub pbkdf2_hmac : Bytes → Bytes → ℕ → ℕ → Option Bytes

module _ (p : Provider) where
  -- `rns_crypto_sha256`
  unfoldable pub sha256 : Bytes → Result Bytes
  sha256 message = elim (p.mbedtls_sha256 message) [ none ↦ err esp_other | some h ↦ ok h ]

  -- `rns_crypto_ed25519_verify`
  unfoldable pub verify : Bytes → Bytes → Bytes → Err
  verify public message signature =
      if p.ed25519_check signature public message then esp_ok else invalid_state

  -- `rns_crypto_ed25519_sign`
  unfoldable pub sign : Bytes → Bytes → Bytes
  sign private message = p.ed25519_sign private message

  -- `rns_crypto_x25519_public_key`
  unfoldable pub public_key : Bytes → Result Bytes
  public_key private = if bytes_zero private then err invalid_arg else ok (p.x25519_public private)

  -- `rns_crypto_x25519_shared_secret`
  unfoldable pub shared_secret : Bytes → Bytes → Result Bytes
  shared_secret private peer =
      if bytes_zero private || bytes_zero peer
      then err invalid_arg
      else if bytes_zero (p.x25519 private peer)
      then err invalid_state
      else ok (p.x25519 private peer)

  -- `rns_crypto_ed25519_keypair_from_seed`, the private and the public key
  unfoldable pub keypair_from_seed : Bytes → Bytes × Bytes
  keypair_from_seed seed = p.ed25519_key_pair seed

  -- `rns_crypto_ed25519_generate_keypair`, on what `rns_crypto_random` answers for the seed
  unfoldable pub generate_keypair : Result Bytes → Result (Bytes × Bytes)
  unfolding keypair_from_seed
  generate_keypair random = do seed ← random; ok (keypair_from_seed seed)
