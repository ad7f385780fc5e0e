-- ===== src/Announce/Accept.antt =====
-- What `rns_announce_encode` writes is accepted by `rns_announce_verify`
-- (components/rns_announce/rns_announce.c).
use meshpay_v.Base.{
  ℕ, ◌+◌, ◌≤◌, ◌≡◌, refl, sym, ap, ◌∙◌, true, false, not, ◌||◌, ◌++◌, some, List, Bytes, ok, OnOk,
  OnOk-bind_eq, OnOk-ok, OnOk-if, arith, ltb, ◌==◌, length, drop, length-append, length-take,
  take-append_of, drop-append_of, bytes_zero, constant_equal_iff,
}
use meshpay_v.Crypto
use meshpay_v.Crypto.{Provider}
use meshpay_v.Identity
use meshpay_v.Identity.{Identity, key_size}
use meshpay_v.Identity.Loaded.{IsHashed, IsLoaded, load_private-IsLoaded}
use meshpay_v.Destination.{Destination, single, name_hash_size, create_single, hash_equal}
use meshpay_v.Destination.Created.{IsOf, create_single-IsOf}
use meshpay_v.Packet.{Packet, max_data}
use meshpay_v.Announce.{
  announce, random_hash_size, public_key_size, signature_size, base_size, max_app_data, signed_size,
  Announce, build_signed_data, decode, compute_destination_hash, encode, check_signature, verify,
}

-- What Mbed TLS and Monocypher document: the sizes of digests, keys and signatures, public keys that
-- are not zero, and the acceptance of what was signed under the key pair of a seed.
pub record IsSigning (p : Provider) : Type 0 where
  pub digest_length : (m h : Bytes) → p.mbedtls_sha256 m ≡ some h → length h ≡ 32
  pub x_length : (a : Bytes) → length a ≡ key_size → length (p.x25519_public a) ≡ key_size
  pub x_nonzero : (a : Bytes) → bytes_zero a ≡ false → bytes_zero (p.x25519_public a) ≡ false
  pub ed_length : (seed : Bytes) → length (p.ed25519_key_pair seed).1 ≡ key_size
  pub ed_nonzero : (seed : Bytes) → bytes_zero (p.ed25519_key_pair seed).1 ≡ false
  pub signature_length : (key m : Bytes) → length (p.ed25519_sign key m) ≡ signature_size
  pub signed :
      (seed m : Bytes)
      → p.ed25519_check (p.ed25519_sign (p.ed25519_key_pair seed).0 m) (p.ed25519_key_pair seed).1 m
        ≡ true

-- A packet that carries these bytes as an announce of the destination.
pub record Carries (k : Packet) (destination wire : Bytes) : Type 0 where
  pub kind : k.packet_type ≡ announce
  pub to : k.destination_type ≡ single
  pub plain : k.context_flag ≡ false
  pub of_destination : k.destination_hash ≡ destination
  pub payload : k.payload ≡ wire

-- The layout is read back.
decode_wire :
    (k : Packet) (destination public name random signature app : Bytes)
    → Carries k destination (public ++ (name ++ (random ++ (signature ++ app))))
    → length public ≡ public_key_size
    → length name ≡ name_hash_size
    → length random ≡ random_hash_size
    → length signature ≡ signature_size
    → length app ≤ max_app_data
    → decode k
      ≡ ok (record {
        destination_hash = destination;
        public_key = public;
        name_hash = name;
        random_hash = random;
        signature = signature;
        app_data = app;
      })
unfolding decode
decode_wire k destination public name random signature app c lp ln lr ls la =
    let wire = public ++ (name ++ (random ++ (signature ++ app))) in
    let len : length wire ≡ base_size + length app = omega (
      arith,
      length-append public (name ++ (random ++ (signature ++ app))),
      length-append name (random ++ (signature ++ app)),
      length-append random (signature ++ app),
      length-append signature app,
    ) in
    let kind : (not (k.packet_type == announce) || not (k.destination_type == single)) ≡ false =
      ground (arith, c.kind, c.to) in
    let fits : (ltb (base_size + length app) base_size || ltb max_data (base_size + length app))
        ≡ false =
      ground arith in
    let small : ltb max_app_data (length app) ≡ false = ground arith in
    rw
      (
        kind,
        c.plain,
        c.payload,
        len,
        fits,
        take-append_of public_key_size public (name ++ (random ++ (signature ++ app))) lp,
        drop-append_of public_key_size public (name ++ (random ++ (signature ++ app))) lp,
        take-append_of name_hash_size name (random ++ (signature ++ app)) ln,
        drop-append_of name_hash_size name (random ++ (signature ++ app)) ln,
        take-append_of random_hash_size random (signature ++ app) lr,
        drop-append_of random_hash_size random (signature ++ app) lr,
        take-append_of signature_size signature app ls,
        drop-append_of signature_size signature app ls,
        small,
        c.of_destination,
      )
      refl

-- What a receiver loads from the public key of an identity.
abbrev pub public_half : Identity → Identity
public_half i = record Identity.empty {
  has_public = true;
  x25519_public = i.x25519_public;
  ed25519_public = i.ed25519_public;
  hash = i.hash;
}

module _ (p : Provider) (s : IsSigning p) where
  pub record HasPublicKeys (i : Identity) : Type 0 where
    pub x_sized : length i.x25519_public ≡ key_size
    pub x_nonzero : bytes_zero i.x25519_public ≡ false
    pub ed_sized : length i.ed25519_public ≡ key_size
    pub ed_nonzero : bytes_zero i.ed25519_public ≡ false

  pub loaded-HasPublicKeys :
      (key : Bytes) (i : Identity) → key_size ≤ length key → IsLoaded p key i → HasPublicKeys i
  loaded-HasPublicKeys key i long a =
      let private : length i.x25519_private ≡ key_size =
        ap length a.from_key ∙ omega (arith, length-take key_size key) in
      record {
        x_sized = ap length a.public ∙ s.x_length i.x25519_private private;
        x_nonzero = rw a.public (s.x_nonzero i.x25519_private a.nonzero);
        ed_sized = ap length a.ed_public ∙ s.ed_length (drop key_size key);
        ed_nonzero = rw a.ed_public (s.ed_nonzero (drop key_size key));
      }

  pub load_public-half :
      (i : Identity)
      → HasPublicKeys i
      → IsHashed p i
      → Identity.load_public p (i.x25519_public ++ i.ed25519_public) ≡ ok (public_half i)
  unfolding Identity.load_public Identity.update_hash
  load_public-half i h (full, digest, is) =
      rw
        (
          take-append_of key_size i.x25519_public i.ed25519_public h.x_sized,
          drop-append_of key_size i.x25519_public i.ed25519_public h.x_sized,
          h.x_nonzero,
          h.ed_nonzero,
          digest,
          is,
        )
        refl

  compute_destination_hash-IsOf :
      (i : Identity) (d : Destination)
      → HasPublicKeys i
      → IsHashed p i
      → IsOf p i d
      → compute_destination_hash p d.name_hash (i.x25519_public ++ i.ed25519_public) ≡ ok d.hash
  unfolding compute_destination_hash Identity.get_hash
  compute_destination_hash-IsOf i d h hashed of =
      rw (load_public-half i h hashed, of.digest, of.hash) refl

  check_signature-sign :
      (key : Bytes) (i : Identity) (a : Announce) (signed : Bytes)
      → HasPublicKeys i
      → IsLoaded p key i
      → a.public_key ≡ i.x25519_public ++ i.ed25519_public
      → build_signed_data a.destination_hash a.public_key a.name_hash a.random_hash a.app_data
          signed_size
        ≡ ok signed
      → a.signature ≡ p.ed25519_sign i.ed25519_private signed
      → check_signature p a ≡ ok tt
  unfolding check_signature Identity.verify Crypto.verify
  check_signature-sign key i a signed h l public made sig =
      let accepts : p.ed25519_check a.signature i.ed25519_public signed ≡ true =
        rw (sig, l.ed_private, l.ed_public) (s.signed (drop key_size key) signed) in
      rw (made, public, load_public-half i h l.hashed, accepts) refl

  -- What the announce of an identity says.
  abbrev announced : Identity → Destination → Bytes → Bytes → Bytes → Announce
  announced i d random app signed = record {
    destination_hash = d.hash;
    public_key = i.x25519_public ++ i.ed25519_public;
    name_hash = d.name_hash;
    random_hash = random;
    signature = p.ed25519_sign i.ed25519_private signed;
    app_data = app;
  }

  verify-announced :
      (key random app signed : Bytes) (i : Identity) (d : Destination) (k : Packet)
      → HasPublicKeys i
      → IsLoaded p key i
      → IsOf p i d
      → length random ≡ random_hash_size
      → bytes_zero random ≡ false
      → length app ≤ max_app_data
      → build_signed_data d.hash
          (i.x25519_public ++ i.ed25519_public)
          d.name_hash
          random
          app
          signed_size
        ≡ ok signed
      → Carries k d.hash (
          (i.x25519_public ++ i.ed25519_public)
          ++ (d.name_hash ++ (random ++ (p.ed25519_sign i.ed25519_private signed ++ app))))
      → verify p k ≡ ok (announced i d random app signed)
  unfolding verify hash_equal
  verify-announced key random app signed i d k h l of lr nonzero la made c =
      let a = announced i d random app signed in
      let lp : length (i.x25519_public ++ i.ed25519_public) ≡ public_key_size =
        omega (arith, length-append i.x25519_public i.ed25519_public, h.x_sized, h.ed_sized) in
      let decoded =
        decode_wire k d.hash (i.x25519_public ++ i.ed25519_public) d.name_hash random a.signature
          app c lp of.named lr (s.signature_length i.ed25519_private signed) la in
      let same = (constant_equal_iff d.hash d.hash).1 refl in
      let checked = check_signature-sign key i a signed h l refl made refl in
      rw
        (
          decoded,
          nonzero,
          compute_destination_hash-IsOf i d h l.hashed of,
          c.of_destination,
          same,
          checked,
        )
        refl

  abbrev Accepted : Identity → Destination → Bytes → Packet → Type 0
  Accepted i d app k =
      (a : Announce) × (verify p k ≡ ok a)
      × (a.destination_hash ≡ d.hash)
      × (a.public_key ≡ i.x25519_public ++ i.ed25519_public)
      × (a.app_data ≡ app)

  encode-Accepted :
      (key random app : Bytes) (i : Identity) (d : Destination) (k : Packet) (out_len : ℕ)
      → HasPublicKeys i
      → IsLoaded p key i
      → IsOf p i d
      → length random ≡ random_hash_size
      → OnOk (λ wire. Carries k d.hash wire → Accepted i d app k) (encode p d i random app out_len)
  unfolding encode Identity.get_public_key Identity.sign Crypto.sign
  encode-Accepted key random app i d k out_len h l of lr =
      let Q = λ (wire : Bytes). Carries k d.hash wire → Accepted i d app k in
      let public = i.x25519_public ++ i.ed25519_public in
      OnOk-if Q (bytes_zero random) _ _ λ nonzero.
        OnOk-if Q (not (d.kind == single) || not i.has_private || ltb max_app_data (length app)) _ _
          λ short.
            OnOk-if Q
              (ltb out_len (base_size + length app) || ltb max_data (base_size + length app)) _ _
              λ fits.
                rw (l.known, l.private)
                  (OnOk-bind_eq Q
                    (build_signed_data d.hash public d.name_hash random app signed_size) _
                    λ signed made c. (
                      announced i d random app signed,
                      verify-announced key random app signed i d k h l of lr nonzero
                          (ground (arith, short)) made c,
                      refl,
                      refl,
                      refl,
                    ))

  -- With sound cryptography: if an identity is loaded from its private key, and
  -- rns_announce_encode writes an announce of its destination, then every packet that carries these
  -- bytes as an announce of this destination passes rns_announce_verify, which returns the
  -- destination, the public key of the identity and the application data.
  pub verify-encode :
      (key random app wire name : Bytes) (aspects : List Bytes) (i : Identity) (d : Destination)
      → (k : Packet) (out_len : ℕ) → key_size ≤ length key
      → Identity.load_private p key ≡ ok i
      → create_single p i name aspects ≡ ok d
      → length random ≡ random_hash_size
      → encode p d i random app out_len ≡ ok wire
      → Carries k d.hash wire
      → (a : Announce) × (verify p k ≡ ok a)
        × (a.destination_hash ≡ d.hash)
        × (Identity.get_public_key i ≡ ok a.public_key)
        × (a.app_data ≡ app)
  unfolding Identity.get_public_key
  verify-encode key random app wire name aspects i d k out_len long hi hd lr he c =
      let l =
        OnOk-ok (IsLoaded p key) (Identity.load_private p key) i (load_private-IsLoaded p key) hi in
      let of =
        OnOk-ok (IsOf p i) (create_single p i name aspects) d
          (create_single-IsOf p s.digest_length i name aspects) hd in
      let (a, accepted, at, public, data') =
        OnOk-ok (λ wire. Carries k d.hash wire → Accepted i d app k)
          (encode p d i random app out_len) wire
          (encode-Accepted key random app i d k out_len (loaded-HasPublicKeys key i long l) l of lr)
          he c in
      let key_is : Identity.get_public_key i ≡ ok (i.x25519_public ++ i.ed25519_public) =
        rw l.known refl in
      (a, accepted, at, key_is ∙ ap ok (sym public), data')
