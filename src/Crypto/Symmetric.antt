-- ===== src/Crypto/Symmetric.antt =====
-- components/rns_crypto/rns_crypto.c: HMAC, key derivation and AES.
use meshpay_v.Base.{
  ℕ, zero, suc, ◌+◌, ◌-◌, ◌*◌, ◌%◌, true, false, not, ◌||◌, [], ◌∷◌, ◌++◌, Option, none, some,
  Bytes, zeros, esp_other, invalid_arg, invalid_size, Result, ok, err, ◌>>=◌, ltb, ◌==◌,
  if◌then◌else◌, length, take,
}
use meshpay_v.Crypto.{Provider}

-- `RNS_CRYPTO_SHA256_SIZE`, also the size of an HMAC
abbrev pub digest_size : ℕ
digest_size = 32

-- `RNS_CRYPTO_AES256_KEY_SIZE`
abbrev pub aes_key_size : ℕ
aes_key_size = 32

-- `RNS_CRYPTO_AES_BLOCK_SIZE`
abbrev pub block_size : ℕ
block_size = 16

-- `rc == 0 ? ESP_OK : ESP_FAIL`
abbrev pub or_fail : Option Bytes → Result Bytes
or_fail none = err esp_other
or_fail (some out) = ok out

module _ (p : Provider) where
  -- `rns_crypto_hmac_sha256`
  unfoldable pub hmac_sha256 : Bytes → Bytes → Result Bytes
  hmac_sha256 key message = or_fail (p.hmac_sha256 key message)

  -- `while (written < out_len)`: `block` is the last block, empty before the first, and `counter` a
  -- `uint8_t`. The fuel is the number of rounds.
  unfoldable pub expand : ℕ → Bytes → Bytes → ℕ → Bytes → ℕ → Bytes → Result Bytes
  expand zero prk context out_len block counter out = ok out
  expand (suc fuel) prk context out_len block counter out = elim (ltb (length out) out_len) [
    | true ↦ do
      next ← hmac_sha256 prk (block ++ (context ++ counter ∷ []))
      expand fuel prk context out_len next ((counter + 1) % 256)
          (out ++ take (out_len - length out) next)
    | false ↦ ok out
  ]

  -- `rns_crypto_hkdf_sha256`
  unfoldable pub hkdf_sha256 : Bytes → Bytes → Bytes → ℕ → Result Bytes
  unfolding expand
  hkdf_sha256 ikm salt context out_len =
      if out_len == 0 || length ikm == 0
      then err invalid_arg
      else if ltb (255 * digest_size) out_len
      then err invalid_size
      else do
        prk ← hmac_sha256 (if length salt == 0 then zeros digest_size else salt) ikm
        expand out_len prk context out_len [] 1 []

  -- `rns_crypto_pbkdf2_sha256`
  unfoldable pub pbkdf2_sha256 : Bytes → Bytes → ℕ → ℕ → Result Bytes
  pbkdf2_sha256 password salt iterations out_len =
      if out_len == 0 || iterations == 0
      then err invalid_arg
      else or_fail (p.pbkdf2_hmac password salt iterations out_len)

  -- `rns_crypto_aes256_cbc_encrypt`, through `aes256_cbc_crypt`
  unfoldable pub aes_encrypt : Bytes → Bytes → Bytes → Result Bytes
  aes_encrypt key iv plain =
      if not (length plain % block_size == 0)
      then err invalid_size
      else or_fail (p.aes_encrypt key iv plain)

  -- `rns_crypto_aes256_cbc_decrypt`, through `aes256_cbc_crypt`
  unfoldable pub aes_decrypt : Bytes → Bytes → Bytes → Result Bytes
  aes_decrypt key iv cipher =
      if not (length cipher % block_size == 0)
      then err invalid_size
      else or_fail (p.aes_decrypt key iv cipher)
