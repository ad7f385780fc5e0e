-- ===== src/PacketCrypto/Tests.antt =====
-- Runs of components/rns_packet_crypto/rns_packet_crypto.c and of the key derivation in
-- components/rns_crypto/rns_crypto.c, and the theorems at these inputs.
use meshpay_v.Base.{
  ◌≡◌, refl, [], ◌∷◌, ◌++◌, Bytes, replicate, length, ok, err, invalid_state, arith, bytes_zero,
}
use meshpay_v.Crypto
use meshpay_v.Crypto.Symmetric.{hkdf_sha256, hmac_sha256, expand, aes_encrypt}
use meshpay_v.Crypto.Derivation.{HasHmac, hkdf_sha256-total}
use meshpay_v.Identity.{load_private, load_public, get_public_key, update_hash, get_hash}
use meshpay_v.PacketCrypto.{
  pad, unpadded_len, encrypt_single, decrypt_single, derive_token_key, token_hmac,
}
use meshpay_v.PacketCrypto.RoundTrip.{IsConsistent}
use meshpay_v.PacketCrypto.Keys.{decrypt_single-encrypt_single}
use meshpay_v.Samples.{holder_key, holder, holder_public, recipient, trusting}

abbrev message : Bytes
message = 1 ∷ 2 ∷ 3 ∷ []

-- The ephemeral key, the initial vector, the padded message and the HMAC.
abbrev token : Bytes
token = replicate 32 5 ++ (replicate 16 6 ++ ((1 ∷ 2 ∷ 3 ∷ replicate 13 13) ++ replicate 32 8))

padding_runs :
    (pad message ≡ 1 ∷ 2 ∷ 3 ∷ replicate 13 13)
    × (pad (replicate 16 9) ≡ replicate 16 9 ++ replicate 16 16)
    × (unpadded_len (replicate 15 9 ++ 17 ∷ []) ≡ err invalid_state)
    × (unpadded_len (replicate 14 9 ++ 1 ∷ 2 ∷ []) ≡ err invalid_state)
unfolding pad unpadded_len
padding_runs = (refl, refl, refl, refl)

pub loads :
    (load_private trusting holder_key ≡ ok holder)
    × (get_public_key holder ≡ ok holder_public)
    × (load_public trusting holder_public ≡ ok recipient)
unfolding load_private load_public get_public_key update_hash Crypto.public_key Crypto.sha256
    bytes_zero
loads = (refl, refl, refl)

seals :
    encrypt_single trusting recipient message 464 (ok (replicate 32 5)) (ok (replicate 16 6))
    ≡ ok token
unfolding encrypt_single derive_token_key token_hmac pad get_public_key get_hash Crypto.public_key
    Crypto.shared_secret hkdf_sha256 hmac_sha256 expand aes_encrypt bytes_zero
seals = refl

pub trusting-IsConsistent : IsConsistent trusting
trusting-IsConsistent = record {
  agree = λ a b. refl;
  key_length = λ a h. h;
  key_nonzero = λ a h. h;
  mac_length = λ k m mac h. let e : mac ≡ replicate 32 8 = cc in rw e refl;
  inverse = λ k iv m c h. let e : c ≡ m = cc in rw e (refl, refl);
}

decrypt_single-encrypt_single_example : decrypt_single trusting holder token 464 ≡ ok message
decrypt_single-encrypt_single_example =
    decrypt_single-encrypt_single trusting holder_key holder_public message token holder recipient
      464 464 (ok (replicate 32 5)) (ok (replicate 16 6)) trusting-IsConsistent (omega arith)
      loads.0 loads.1 loads.2 refl refl (omega arith) seals

trusting-HasHmac : HasHmac trusting
trusting-HasHmac k m = (replicate 32 8, refl, refl)

hkdf_sha256-total_example :
    (out : Bytes) × (hkdf_sha256 trusting message [] [] 40 ≡ ok out) × (length out ≡ 40)
hkdf_sha256-total_example =
    hkdf_sha256-total trusting trusting-HasHmac message [] [] 40 (omega arith) (omega arith)
      (omega arith)
