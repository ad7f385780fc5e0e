-- ===== src/Destination/Created.antt =====
-- What `rns_destination_create_single` (components/rns_destination/rns_destination.c) makes of an
-- identity.
use meshpay_v.Base.{
  ◌≡◌, refl, inl, inr, not, ◌++◌, none, some, List, Bytes, ok, err, esp_other, OnOk, OnOk-bind_eq,
  OnOk-bind, arith, Bool-cases, length, take, length-take,
}
use meshpay_v.Tx.{hash_size}
use meshpay_v.Crypto
use meshpay_v.Crypto.{Provider}
use meshpay_v.Identity.{Identity, get_hash}
use meshpay_v.Destination.{
  Destination, single, name_hash_size, max_full_name, build_full_name, name_hash, fill_common,
  create_single,
}

-- Digests have 32 bytes.
abbrev pub HasDigests : Provider → Type 0
HasDigests p = (m h : Bytes) → p.mbedtls_sha256 m ≡ some h → length h ≡ 32

module _ (p : Provider) where
  -- The hash is that of the name's hash and the identity's.
  pub record IsOf (i : Identity) (d : Destination) : Type 0 where
    pub kind : d.kind ≡ single
    pub named : length d.name_hash ≡ name_hash_size
    pub full : Bytes
    pub digest : Crypto.sha256 p (d.name_hash ++ i.hash) ≡ ok full
    pub hash : d.hash ≡ take hash_size full

module _ (p : Provider) (sized : HasDigests p) where
  sha256-length : (m : Bytes) → OnOk (λ h. length h ≡ 32) (Crypto.sha256 p m)
  unfolding Crypto.sha256
  sha256-length m =
      elim (p.mbedtls_sha256 m)
          as (λ o.
            p.mbedtls_sha256 m ≡ o
            → OnOk (λ h. length h ≡ 32) (elim o [ none ↦ err esp_other | some h ↦ ok h ])) [
              | none ↦ λ e. tt
              | some h ↦ λ e. sized m h e
            ]
        refl

  name_hash-length :
      (app : Bytes) (aspects : List Bytes)
      → OnOk (λ n. length n ≡ name_hash_size) (name_hash p app aspects)
  unfolding name_hash
  name_hash-length app aspects =
      let Q = λ (n : Bytes). length n ≡ name_hash_size in
      OnOk-bind_eq Q (build_full_name app aspects max_full_name) _ λ full_name _.
        OnOk-bind (λ h. length h ≡ 32) Q (Crypto.sha256 p full_name) _ (sha256-length full_name)
          λ h l. omega (arith, length-take name_hash_size h, l)

  fill_common-length :
      (app : Bytes) (aspects : List Bytes)
      → OnOk (λ (c : Bytes × Bytes). length c.1 ≡ name_hash_size) (fill_common p app aspects)
  unfolding fill_common
  fill_common-length app aspects =
      let Q = λ (c : Bytes × Bytes). length c.1 ≡ name_hash_size in
      OnOk-bind_eq Q (build_full_name app aspects max_full_name) _ λ full_name _.
        OnOk-bind (λ n. length n ≡ name_hash_size) Q (name_hash p app aspects) _
          (name_hash-length app aspects) λ n l. l

  pub create_single-IsOf :
      (i : Identity) (app : Bytes) (aspects : List Bytes)
      → OnOk (IsOf p i) (create_single p i app aspects)
  unfolding create_single get_hash
  create_single-IsOf i app aspects =
      OnOk-bind (λ (c : Bytes × Bytes). length c.1 ≡ name_hash_size) (IsOf p i)
        (fill_common p app aspects) _ (fill_common-length app aspects)
        λ c l. elim (Bool-cases (not i.has_public)) [
          | inl hidden ↦ rw hidden tt
          | inr shown ↦ rw shown (
              OnOk-bind_eq (IsOf p i) (Crypto.sha256 p (c.1 ++ i.hash)) _
                λ full h. record { kind = refl; named = l; full = full; digest = h; hash = refl })
        ]
