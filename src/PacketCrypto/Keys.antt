-- ===== src/PacketCrypto/Keys.antt =====
-- A token for the public key of an identity opens under its private key: the loading of the keys
-- (components/rns_identity/rns_identity.c) with the tokens of
-- components/rns_packet_crypto/rns_packet_crypto.c.
use meshpay_v.Base.{
  ℕ, ◌≤◌, ◌≡◌, ap, ◌∙◌, Bytes, Result, ok, OnOk, OnOk-ok, arith, length, length-take,
}
use meshpay_v.Crypto.{Provider}
use meshpay_v.Crypto.Symmetric.{block_size}
use meshpay_v.Identity.{Identity, key_size, load_public, load_private, get_public_key}
use meshpay_v.Identity.Loaded.{
  IsLoaded, IsPublic, load_private-IsLoaded, load_public-IsPublic, same_keys-hash,
  get_public_key_parts,
}
use meshpay_v.PacketCrypto.{encrypt_single, decrypt_single}
use meshpay_v.PacketCrypto.RoundTrip.{IsConsistent, IsHalf, encrypt_single-Opens}

module _ (p : Provider) where
  loaded-IsHalf :
      (key public : Bytes) (holder recipient : Identity)
      → IsConsistent p
      → key_size ≤ length key
      → load_private p key ≡ ok holder
      → get_public_key holder ≡ ok public
      → load_public p public ≡ ok recipient
      → IsHalf p holder recipient
  loaded-IsHalf key public holder recipient k long hh hp hr =
      let a =
        OnOk-ok (IsLoaded p key) (load_private p key) holder (load_private-IsLoaded p key) hh in
      let b =
        OnOk-ok (IsPublic p public) (load_public p public) recipient (load_public-IsPublic p public)
          hr in
      let s : length holder.x25519_private ≡ key_size =
        ap length a.from_key ∙ omega (arith, length-take key_size key) in
      let sized : length holder.x25519_public ≡ key_size =
        ap length a.public ∙ k.key_length holder.x25519_private s in
      let (x, e) = get_public_key_parts p holder public sized hp in
      let same_x = b.x_key ∙ x in
      record {
        private = a.private;
        known = a.known;
        nonzero = a.nonzero;
        same_key = same_x ∙ a.public;
        same_hash = same_keys-hash p holder recipient a.hashed b.hashed same_x (b.ed_key ∙ e);
        sized = ap length same_x ∙ sized;
      }

  -- With consistent cryptography and draws of the right sizes: if an identity is loaded from its
  -- private key, and its public key at the sender, then the token that
  -- rns_packet_crypto_encrypt_single makes of a message for the public key is opened to this message
  -- by rns_packet_crypto_decrypt_single under the private key, in a buffer that the message fits.
  pub decrypt_single-encrypt_single :
      (key public m token : Bytes) (holder recipient : Identity) (token_len out_len : ℕ)
      → (draw iv_draw : Result Bytes) → IsConsistent p
      → key_size ≤ length key
      → load_private p key ≡ ok holder
      → get_public_key holder ≡ ok public
      → load_public p public ≡ ok recipient
      → OnOk (λ e. length e ≡ key_size) draw
      → OnOk (λ iv. length iv ≡ block_size) iv_draw
      → length m ≤ out_len
      → encrypt_single p recipient m token_len draw iv_draw ≡ ok token
      → decrypt_single p holder token out_len ≡ ok m
  decrypt_single-encrypt_single key public m token holder recipient token_len out_len draw iv_draw k
        long hh hp hr sized_e sized_iv room h =
      OnOk-ok (λ token. decrypt_single p holder token out_len ≡ ok m)
        (encrypt_single p recipient m token_len draw iv_draw) token
        (encrypt_single-Opens p k holder recipient m token_len out_len draw iv_draw
          (loaded-IsHalf key public holder recipient k long hh hp hr) sized_e sized_iv room)
        h
