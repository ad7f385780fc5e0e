-- ===== src/Link/Handshake.antt =====
-- Two ends of a link after the handshake (components/rns_link_request/rns_link_request.c).
use meshpay_v.Base.{
  ℕ, ◌/◌, ◌%◌, ◌≤◌, ◌<◌, ◌≡◌, refl, ap, inl, inr, Bool, true, not, ◌&&◌, ◌||◌, [], ◌∷◌, ◌++◌, Bytes,
  Result, ok, err, OnOk, OnOk-bind_eq, OnOk-ok, OnOk-imp, OnOk-if, arith, ltb, ◌==◌, Bool-cases,
  length, take, for_all_below, for_all_below_lem, bit_and, bit_or,
}
use meshpay_v.Crypto
use meshpay_v.Crypto.{Provider}
use meshpay_v.Identity
use meshpay_v.Identity.{Identity, key_size, get_public_key}
use meshpay_v.Identity.Loaded.{IsLoaded, load_private-IsLoaded}
use meshpay_v.Destination.{Destination, single}
use meshpay_v.Packet
use meshpay_v.Packet.{Packet}
use meshpay_v.Link.{
  Link, active, mode_aes256_cbc, mtu_mask, signalling_bytes, mtu_from_signalling,
  mode_from_signalling, is_request, request_packet, signed_data, proof_packet, request_link_id,
  request_create, request_accept,
}

-- The signalling bytes of a size say this size and the mode.
abbrev pub IsSignal : ℕ → Bytes → Type 0
IsSignal mtu s =
    (length s ≡ 3)
    × (mtu_from_signalling s ≡ mtu)
    × (mode_from_signalling s ≡ mode_aes256_cbc)
    × (0 < mtu)
    × (mtu ≤ Packet.mtu)

abbrev signals : ℕ → Bytes
signals mtu =
    let value : ℕ = bit_or mtu 0x200000 in
    value / 65536 % 256 ∷ value / 256 % 256 ∷ value % 256 ∷ []

abbrev is_signal : ℕ → Bool
is_signal mtu =
    (bit_and mtu 0x1fffff == mtu)
    && (mtu_from_signalling (signals mtu) == mtu)
    && (mode_from_signalling (signals mtu) == mode_aes256_cbc)

run : for_all_below 501 is_signal ≡ true
run = refl

signalling_bytes-IsSignal : (mtu : ℕ) → OnOk (IsSignal mtu) (signalling_bytes mtu mode_aes256_cbc)
unfolding signalling_bytes
signalling_bytes-IsSignal mtu =
    OnOk-if (IsSignal mtu)
      (mtu == 0
        || ltb Packet.mtu mtu
        || not (mode_aes256_cbc == mode_aes256_cbc)
        || ltb mtu_mask mtu)
      _ _
      (λ good.
        let small : mtu < 501 = ground arith in
        let all = for_all_below_lem 501 is_signal mtu run small in
        let low : bit_and mtu 0x1fffff ≡ mtu = ground arith in
        rw low (refl, ground arith, ground arith, ground arith, ground arith))

public_keys :
    (i : Identity) (public : Bytes)
    → get_public_key i ≡ ok public
    → public ≡ i.x25519_public ++ i.ed25519_public
unfolding get_public_key
public_keys i public h = elim (Bool-cases i.has_public) [
  | inl shown ↦ cc (rw shown at h)
  | inr hidden ↦ absurd (cc (rw hidden at h))
]

module _ (p : Provider) where
  -- What the initiator holds and sends.
  pub record Requested (l : Link) (k : Packet) : Type 0 where
    pub key : Bytes
    pub long : key_size ≤ length key
    pub loaded : IsLoaded p key l.local_identity
    pub id : request_link_id p k ≡ ok l.link_id
    pub sent :
        (s : Bytes) × (k.payload
          ≡ (l.local_identity.x25519_public ++ l.local_identity.ed25519_public) ++ s)

  -- The draw of a private key has at least the size of half a key.
  abbrev pub IsDraw : Result Bytes → Type 0
  IsDraw = OnOk (λ (key : Bytes). key_size ≤ length key)

  generate-IsLoaded :
      (random : Result Bytes)
      → IsDraw random
      → OnOk
          (λ (i : Identity). (key : Bytes) × (key_size ≤ length key) × IsLoaded p key i)
          (Identity.generate p random)
  unfolding Identity.generate
  generate-IsLoaded (err e) h = tt
  generate-IsLoaded (ok key) h =
      OnOk-imp _ _ (Identity.load_private p key) (λ i l. (key, h, l)) (load_private-IsLoaded p key)

  pub request_create-Requested :
      (d : Destination) (mtu : ℕ) (random : Result Bytes)
      → IsDraw random
      → OnOk (λ (x : Link × Packet). Requested x.0 x.1) (request_create p d mtu random)
  unfolding request_create
  request_create-Requested d mtu random drawn =
      let Q = λ (x : Link × Packet). Requested x.0 x.1 in
      OnOk-if Q (not (d.kind == single)) _ _ λ kind.
        OnOk-bind_eq Q (Identity.generate p random) _ λ local made.
          let (key, long, l) =
            OnOk-ok _ (Identity.generate p random) local (generate-IsLoaded random drawn) made in
          OnOk-bind_eq Q (get_public_key local) _ λ public shown.
            OnOk-bind_eq Q (signalling_bytes mtu mode_aes256_cbc) _ λ s signals.
              let k = request_packet d.hash public s in
              OnOk-bind_eq Q (request_link_id p k) _ λ id named. record {
                key = key;
                long = long;
                loaded = l;
                id = named;
                sent = (s, ap (λ (keys : Bytes). keys ++ s) (public_keys local public shown));
              }

  -- What the owner of the destination holds and sends.
  pub record Accepted (owner : Identity) (k : Packet) (mtu : ℕ) (l : Link) (answer : Packet)
      : Type 0 where
    pub key : Bytes
    pub long : key_size ≤ length key
    pub loaded : IsLoaded p key l.local_identity
    pub id : request_link_id p k ≡ ok l.link_id
    pub agreed : Identity.shared_secret p l.local_identity (take 64 k.payload) ≡ ok l.shared_key
    pub up : l.status ≡ active
    pub signal : Bytes
    pub sized : IsSignal mtu signal
    pub sent :
        answer
        ≡ proof_packet l.link_id
            (p.ed25519_sign owner.ed25519_private (
              signed_data l.link_id
                (take key_size (l.local_identity.x25519_public ++ l.local_identity.ed25519_public))
                (owner.x25519_public ++ owner.ed25519_public)
                signal))
            (take key_size (l.local_identity.x25519_public ++ l.local_identity.ed25519_public))
            signal

  signature_of :
      (owner : Identity) (m signature : Bytes)
      → Identity.sign p owner m ≡ ok signature
      → signature ≡ p.ed25519_sign owner.ed25519_private m
  unfolding Identity.sign Crypto.sign
  signature_of owner m signature h = elim (Bool-cases owner.has_private) [
    | inl private ↦ cc (rw private at h)
    | inr public ↦ absurd (cc (rw public at h))
  ]

  pub request_accept-Accepted :
      (owner : Identity) (k : Packet) (mtu : ℕ) (random : Result Bytes)
      → IsDraw random
      → OnOk
          (λ (x : Link × Packet). Accepted owner k mtu x.0 x.1)
          (request_accept p owner k mtu random)
  unfolding request_accept
  request_accept-Accepted owner k mtu random drawn =
      let Q = λ (x : Link × Packet). Accepted owner k mtu x.0 x.1 in
      OnOk-if Q (not owner.has_private || not (is_request k)) _ _ λ good.
        OnOk-bind_eq Q (Identity.generate p random) _ λ local made.
          let (key, long, l) =
            OnOk-ok _ (Identity.generate p random) local (generate-IsLoaded random drawn) made in
          OnOk-bind_eq Q (request_link_id p k) _ λ id named.
            OnOk-bind_eq Q (Identity.shared_secret p local (take 64 k.payload)) _ λ secret agreed.
              OnOk-bind_eq Q (get_public_key owner) _ λ owner_public owned.
                OnOk-bind_eq Q (get_public_key local) _ λ public shown.
                  OnOk-bind_eq Q (signalling_bytes mtu mode_aes256_cbc) _ λ s signals.
                    let data' = signed_data id (take key_size public) owner_public s in
                    OnOk-bind_eq Q (Identity.sign p owner data') _ λ signature signs.
                      let a = public_keys owner owner_public owned in
                      let b = public_keys local public shown in
                      record {
                        key = key;
                        long = long;
                        loaded = l;
                        id = named;
                        agreed = agreed;
                        up = refl;
                        signal = s;
                        sized =
                            OnOk-ok (IsSignal mtu) (signalling_bytes mtu mode_aes256_cbc) s
                              (signalling_bytes-IsSignal mtu) signals;
                        sent = rw (signature_of owner data' signature signs, a, b) refl;
                      }
