-- ===== src/Identity/Loaded.antt =====
-- What `rns_identity_load_private` and `rns_identity_load_public`
-- (components/rns_identity/rns_identity.c) leave in an identity.
use meshpay_v.Base.{
  ◌≡◌, refl, true, false, ◌||◌, inl, inr, ◌++◌, Bytes, ok, OnOk, OnOk-bind_eq, Bool-cases, arith,
  length, take, drop, take-append_of, drop-append_of, bytes_zero,
}
use meshpay_v.Tx.{hash_size}
use meshpay_v.Crypto
use meshpay_v.Crypto.{Provider}
use meshpay_v.Identity.{Identity, key_size, update_hash, load_public, load_private, get_public_key}

module _ (p : Provider) where
  -- The hash is that of the public keys.
  abbrev pub IsHashed : Identity → Type 0
  IsHashed i =
      (full : Bytes) × (Crypto.sha256 p (i.x25519_public ++ i.ed25519_public) ≡ ok full)
      × (i.hash ≡ take hash_size full)

  pub record IsLoaded (key : Bytes) (i : Identity) : Type 0 where
    pub private : i.has_private ≡ true
    pub known : i.has_public ≡ true
    pub nonzero : bytes_zero i.x25519_private ≡ false
    pub from_key : i.x25519_private ≡ take key_size key
    pub public : i.x25519_public ≡ p.x25519_public i.x25519_private
    pub ed_private : i.ed25519_private ≡ (p.ed25519_key_pair (drop key_size key)).0
    pub ed_public : i.ed25519_public ≡ (p.ed25519_key_pair (drop key_size key)).1
    pub hashed : IsHashed i

  pub record IsPublic (key : Bytes) (i : Identity) : Type 0 where
    pub x_key : i.x25519_public ≡ take key_size key
    pub ed_key : i.ed25519_public ≡ drop key_size key
    pub hashed : IsHashed i

  pub load_private-IsLoaded : (key : Bytes) → OnOk (IsLoaded key) (load_private p key)
  unfolding load_private update_hash Crypto.public_key
  load_private-IsLoaded key =
      elim (Bool-cases (bytes_zero (take key_size key) || bytes_zero (drop key_size key))) [
        | inl bad ↦ rw bad tt
        | inr good ↦
            let nonzero : bytes_zero (take key_size key) ≡ false = ground (arith, good) in
            rw (good, nonzero)
              (OnOk-bind_eq (IsLoaded key)
                (Crypto.sha256 p (
                  p.x25519_public (take key_size key)
                  ++ (p.ed25519_key_pair (drop key_size key)).1))
                _
                λ full h. record {
                  private = refl;
                  known = refl;
                  nonzero = nonzero;
                  from_key = refl;
                  public = refl;
                  ed_private = refl;
                  ed_public = refl;
                  hashed = (full, h, refl);
                })
      ]

  pub load_public-IsPublic : (key : Bytes) → OnOk (IsPublic key) (load_public p key)
  unfolding load_public update_hash
  load_public-IsPublic key =
      elim (Bool-cases (bytes_zero (take key_size key) || bytes_zero (drop key_size key))) [
        | inl bad ↦ rw bad tt
        | inr good ↦ rw good (
            OnOk-bind_eq (IsPublic key) (Crypto.sha256 p (take key_size key ++ drop key_size key)) _
              λ full h. record { x_key = refl; ed_key = refl; hashed = (full, h, refl) })
      ]

  pub same_keys-hash :
      (i j : Identity)
      → IsHashed i
      → IsHashed j
      → j.x25519_public ≡ i.x25519_public
      → j.ed25519_public ≡ i.ed25519_public
      → j.hash ≡ i.hash
  same_keys-hash i j (f, hf, ei) (g, hg, ej) x e =
      let s : Crypto.sha256 p (i.x25519_public ++ i.ed25519_public) ≡ ok g = rw (← x, ← e) hg in cc

  pub get_public_key_parts :
      (i : Identity) (public : Bytes)
      → length i.x25519_public ≡ key_size
      → get_public_key i ≡ ok public
      → (take key_size public ≡ i.x25519_public) × (drop key_size public ≡ i.ed25519_public)
  unfolding get_public_key
  get_public_key_parts i public sized h =
      let t = take-append_of key_size i.x25519_public i.ed25519_public sized in
      let d = drop-append_of key_size i.x25519_public i.ed25519_public sized in
      (ground (arith, h, t), ground (arith, h, d))
