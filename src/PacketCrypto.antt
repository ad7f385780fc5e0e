-- ===== src/PacketCrypto.antt =====
-- components/rns_packet_crypto/rns_packet_crypto.c: the token that carries a message for one
-- identity. A random draw is what `rns_crypto_random` answers.
pub mod RoundTrip
pub mod Keys
pub mod Tests
use meshpay_v.Base.{
  ℕ, ◌+◌, ◌-◌, ◌%◌, not, ◌||◌, [], ◌++◌, Bytes, Bool, false, invalid_arg, invalid_state,
  invalid_size, Result, ok, err, ◌>>=◌, ltb, ◌==◌, if◌then◌else◌, length, take, drop, get_or,
  replicate, any, constant_equal,
}
use meshpay_v.Crypto
use meshpay_v.Crypto.{Provider}
use meshpay_v.Crypto.Symmetric.{
  block_size, aes_key_size, hkdf_sha256, hmac_sha256, aes_encrypt, aes_decrypt,
}
use meshpay_v.Identity.{Identity, key_size, get_public_key, get_hash}
use meshpay_v.Packet.{max_data}

abbrev pub derived_key_size : ℕ
derived_key_size = 64

abbrev pub hmac_size : ℕ
hmac_size = 32

abbrev pub max_plaintext : ℕ
max_plaintext = 383

abbrev pub max_ciphertext : ℕ
max_ciphertext = 384

-- The ephemeral key, the initial vector and the HMAC.
abbrev pub overhead : ℕ
overhead = 80

-- `pkcs7_padded_len`
abbrev pub padded_len : ℕ → ℕ
padded_len n = n + (block_size - n % block_size)

-- `pkcs7_pad`; `pad_value` is a `uint8_t`
unfoldable pub pad : Bytes → Bytes
pad plaintext =
    let value = (padded_len (length plaintext) - length plaintext) % 256 in
    plaintext ++ replicate value value

-- `pkcs7_unpadded_len`
unfoldable pub unpadded_len : Bytes → Result ℕ
unpadded_len padded =
    let len = length padded in
    let value = get_or padded (len - 1) 0 in
    if len == 0 || not (len % block_size == 0)
    then err invalid_arg
    else if value == 0 || ltb block_size value || ltb len value
    then err invalid_state
    else if any (λ b. not (b == value)) (drop (len - value) padded)
    then err invalid_state
    else ok (len - value)

module _ (p : Provider) where
  -- `derive_token_key`
  unfoldable pub derive_token_key : Bytes → Bytes → Bytes → Result Bytes
  derive_token_key private peer salt = do
    shared ← Crypto.shared_secret p private peer
    hkdf_sha256 p shared salt [] derived_key_size

  -- `token_hmac`
  unfoldable pub token_hmac : Bytes → Bytes → Result Bytes
  token_hmac derived signed = hmac_sha256 p (take aes_key_size derived) signed

  -- `rns_packet_crypto_encrypt_single`, into a buffer of `token_len` bytes, with the two draws of
  -- the ephemeral key and of the initial vector.
  unfoldable pub encrypt_single : Identity → Bytes → ℕ → Result Bytes → Result Bytes → Result Bytes
  unfolding pad derive_token_key token_hmac
  encrypt_single recipient plaintext token_len ephemeral_draw iv_draw =
      let needed = key_size + block_size + padded_len (length plaintext) + hmac_size in
      if not recipient.has_public || ltb max_plaintext (length plaintext)
      then err invalid_size
      else if ltb max_data needed || ltb token_len needed
      then err invalid_size
      else do
        ephemeral ← ephemeral_draw
        ephemeral_public ← Crypto.public_key p ephemeral
        public ← get_public_key recipient
        hash ← get_hash recipient
        derived ← derive_token_key ephemeral (take key_size public) hash
        iv ← iv_draw
        cipher ← aes_encrypt p (drop aes_key_size derived) iv (pad plaintext)
        mac ← token_hmac derived (iv ++ cipher)
        ok (ephemeral_public ++ (iv ++ (cipher ++ mac)))

  -- The second half of `rns_packet_crypto_decrypt_single`: the parts of the token are checked and
  -- opened, into a buffer of `plaintext_len` bytes.
  unfoldable pub open_token : Identity → Bytes → Bytes → Bytes → Bytes → ℕ → Result Bytes
  unfolding derive_token_key token_hmac unpadded_len
  open_token recipient ephemeral_public iv cipher received_mac plaintext_len = do
    hash ← get_hash recipient
    derived ← derive_token_key recipient.x25519_private ephemeral_public hash
    expected ← token_hmac derived (iv ++ cipher)
    if not (constant_equal received_mac expected) then err invalid_state else do
      padded ← aes_decrypt p (drop aes_key_size derived) iv cipher
      len ← unpadded_len padded
      if ltb max_plaintext len || ltb plaintext_len len
          then err invalid_size
          else ok (take len padded)

  -- `rns_packet_crypto_decrypt_single`
  unfoldable pub decrypt_single : Identity → Bytes → ℕ → Result Bytes
  unfolding open_token
  decrypt_single recipient token plaintext_len =
      let cipher_len = length token - key_size - block_size - hmac_size in
      let behind_key = drop key_size token in
      let behind_iv = drop block_size behind_key in
      if not recipient.has_private
        || ltb (length token) (overhead + block_size)
        || ltb (overhead + max_ciphertext) (length token)
      then err invalid_size
      else if cipher_len == 0 || ltb max_ciphertext cipher_len || not (cipher_len % block_size == 0)
      then err invalid_size
      else open_token recipient (take key_size token) (take block_size behind_key)
          (take cipher_len behind_iv) (drop cipher_len behind_iv) plaintext_len
