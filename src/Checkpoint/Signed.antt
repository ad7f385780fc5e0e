-- ===== src/Checkpoint/Signed.antt =====
-- The signature of a checkpoint, and its way from the founder to a node
-- (components/checkpoint/checkpoint.c).
use meshpay_v.Base.{
  ℕ, ◌≤◌, ◌≡◌, refl, ap, ◌∙◌, true, ◌++◌, Bytes, esp_ok, ok, Result-cases, OnOk, OnOk-ok, length,
  drop, Bool-cases, inl, inr,
}
use meshpay_v.Crypto
use meshpay_v.Crypto.{Provider}
use meshpay_v.Identity
use meshpay_v.Identity.{Identity, key_size}
use meshpay_v.Identity.Loaded.{IsLoaded, load_private-IsLoaded}
use meshpay_v.Announce.Accept.{IsSigning, loaded-HasPublicKeys, load_public-half}
use meshpay_v.Checkpoint.{Checkpoint}
use meshpay_v.Checkpoint.Codec.{
  validate_body, encode_body_fields, encode_internal, encode, compute_hash, sign, verify,
}
use meshpay_v.Checkpoint.Decode.{decode}
use meshpay_v.Checkpoint.Faithful.{IsStored}
use meshpay_v.Checkpoint.RoundTrip.{decode-encode_bounded}

-- The checkpoint is the other under a signature of its hash.
record IsSignedFrom (p : Provider) (founder : Identity) (cp signed : Checkpoint) : Type 0 where
  hash : Bytes
  hashed : compute_hash p cp ≡ ok hash
  same : signed ≡ record cp { founder_signature = p.ed25519_sign founder.ed25519_private hash }

sign-IsSignedFrom :
    (p : Provider) (cp : Checkpoint) (founder : Identity)
    → OnOk (IsSignedFrom p founder cp) (sign p cp founder)
unfolding sign Identity.sign Crypto.sign
sign-IsSignedFrom p cp founder = elim (Bool-cases founder.has_private) [
  | inr public ↦ rw public tt
  | inl private ↦ elim (Result-cases (compute_hash p cp)) [
    | inr (e, failed) ↦ rw (private, failed) tt
    | inl (hash, hashed) ↦
        rw (private, hashed) (record { hash = hash; hashed = hashed; same = refl })
  ]
]

-- The signature is not part of what is hashed.
compute_hash-signature :
    (p : Provider) (cp : Checkpoint) (signature : Bytes)
    → compute_hash p (record cp { founder_signature = signature }) ≡ compute_hash p cp
unfolding compute_hash encode_internal encode_body_fields validate_body
compute_hash-signature p cp signature = refl

verify-sign :
    (p : Provider) (s : IsSigning p) (key : Bytes) (founder : Identity) (cp signed : Checkpoint)
    → key_size ≤ length key
    → IsLoaded p key founder
    → IsSignedFrom p founder cp signed
    → verify p signed (founder.x25519_public ++ founder.ed25519_public) ≡ esp_ok
unfolding verify Identity.verify Crypto.verify
verify-sign p s key founder cp signed long l h =
    let signature = p.ed25519_sign founder.ed25519_private h.hash in
    let hashed = ap (compute_hash p) h.same ∙ compute_hash-signature p cp signature ∙ h.hashed in
    let written : signed.founder_signature ≡ signature =
      ap (λ (c : Checkpoint). c.founder_signature) h.same in
    let accepts : p.ed25519_check signed.founder_signature founder.ed25519_public h.hash ≡ true =
      rw (written, l.ed_private, l.ed_public) (s.signed (drop key_size key) h.hash) in
    rw
      (
        hashed,
        verify,
        load_public-half p s founder (loaded-HasPublicKeys p s key founder long l) l.hashed,
        accepts,
      )
      refl

-- With sound cryptography, a checkpoint that an identity, loaded from its private key, signs, and that
-- is encoded, is decoded whole by every node with a table of the size, provided that it has the sizes
-- and widths of its struct; it differs from the unsigned one in the signature only, and
-- `meshpay_checkpoint_verify` accepts it under the public key of the identity.
pub verify-decode :
    (p : Provider) (key : Bytes) (founder : Identity) (cp signed : Checkpoint) (max out_size : ℕ)
    (wire : Bytes)
    → IsSigning p
    → key_size ≤ length key
    → Identity.load_private p key ≡ ok founder
    → sign p cp founder ≡ ok signed
    → IsStored max signed
    → encode signed out_size ≡ ok wire
    → (decode max wire ≡ ok signed)
      × (signed ≡ record cp { founder_signature = signed.founder_signature })
      × (verify p signed (founder.x25519_public ++ founder.ed25519_public) ≡ esp_ok)
verify-decode p key founder cp signed max out_size wire s long loads signs stored writes =
    let l =
      OnOk-ok (IsLoaded p key) (Identity.load_private p key) founder (load_private-IsLoaded p key)
        loads in
    let h =
      OnOk-ok (IsSignedFrom p founder cp) (sign p cp founder) signed
        (sign-IsSignedFrom p cp founder) signs in
    let only : signed ≡ record cp { founder_signature = signed.founder_signature } =
      rw h.same refl in
    (
      (decode-encode_bounded signed max out_size wire stored writes).0,
      only,
      verify-sign p s key founder cp signed long l h,
    )
