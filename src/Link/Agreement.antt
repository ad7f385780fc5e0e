-- ===== src/Link/Agreement.antt =====
-- The two ends of a link hold one key (components/rns_link_request/rns_link_request.c).
use meshpay_v.Base.{
  ℕ, ◌≤◌, ◌≡◌, refl, sym, ap, ◌∙◌, inl, inr, true, false, not, ◌||◌, ◌++◌, append_assoc, Bytes,
  zeros, esp_ok, Result, ok, OnOk-ok, arith, ltb, ◌==◌, Bool-cases, length, take, drop,
  length-append, take-append_of, drop-append_of, bytes_zero, constant_equal_iff,
}
use meshpay_v.Tx.{signature_size}
use meshpay_v.Crypto
use meshpay_v.Crypto.{Provider}
use meshpay_v.Identity
use meshpay_v.Identity.{Identity, key_size, get_public_key}
use meshpay_v.Identity.Loaded.{IsLoaded, load_private-IsLoaded}
use meshpay_v.Destination.{Destination, hash_equal}
use meshpay_v.Packet
use meshpay_v.Packet.{Packet}
use meshpay_v.PacketCrypto.RoundTrip.{IsConsistent}
use meshpay_v.Announce.Accept.{
  IsSigning, public_half, HasPublicKeys, loaded-HasPublicKeys, load_public-half,
}
use meshpay_v.Link.{
  Link, active, proof_min, proof_max, mode_aes256_cbc, signed_data, proof_packet, is_proof_for,
  proof_signalling, activate, request_create, request_accept, check_proof, validate_proof,
}
use meshpay_v.Link.Handshake.{
  IsSignal, IsDraw, Requested, Accepted, request_create-Requested, request_accept-Accepted,
}

secrets_agree :
    (p : Provider) (c : IsConsistent p) (a b : Identity) (key_a key_b secret : Bytes)
    → IsLoaded p key_a a
    → IsLoaded p key_b b
    → bytes_zero b.x25519_public ≡ false
    → Crypto.shared_secret p b.x25519_private a.x25519_public ≡ ok secret
    → Crypto.shared_secret p a.x25519_private b.x25519_public ≡ ok secret
unfolding Crypto.shared_secret
secrets_agree p c a b key_a key_b secret la lb shown h =
    let one : p.x25519 a.x25519_private b.x25519_public
        ≡ p.x25519 b.x25519_private a.x25519_public =
      rw (la.public, lb.public) (c.agree a.x25519_private b.x25519_private) in
    let own = la.nonzero in
    elim (Bool-cases (bytes_zero b.x25519_private || bytes_zero a.x25519_public)) [
      | inl bad ↦ absurd (cc (rw bad at h))
      | inr good ↦ elim (Bool-cases (bytes_zero (p.x25519 b.x25519_private a.x25519_public))) [
        | inl nothing ↦ absurd (cc (rw (good, nothing) at h))
        | inr something ↦ rw (own, shown, one, something) (rw (good, something) at h)
      ]
    ]

activate-IsSignal :
    (l : Link) (x_public s : Bytes) (mtu : ℕ)
    → IsSignal mtu s
    → activate l x_public s ≡ (
      record l {
        peer_x25519_public = x_public;
        status = active;
        link_mtu = mtu;
        mode = mode_aes256_cbc;
      },
      esp_ok,
    )
unfolding activate
activate-IsSignal l x_public s mtu (_, size, mode, pos, small) =
    let good : (mtu == 0 || ltb Packet.mtu mtu || not (mode_aes256_cbc == mode_aes256_cbc))
        ≡ false =
      ground arith in
    rw (size, mode, good) refl

module _ (p : Provider) (c : IsConsistent p) (s : IsSigning p) where
  -- The initiator computes the secret of the other end.
  initiator_secret :
      (a b : Link) (k : Packet) (signal : Bytes) (key_a key_b : Bytes)
      → IsLoaded p key_a a.local_identity
      → IsLoaded p key_b b.local_identity
      → HasPublicKeys p s a.local_identity
      → HasPublicKeys p s b.local_identity
      → k.payload ≡ (a.local_identity.x25519_public ++ a.local_identity.ed25519_public) ++ signal
      → Identity.shared_secret p b.local_identity (take 64 k.payload) ≡ ok b.shared_key
      → Identity.shared_secret p a.local_identity (b.local_identity.x25519_public ++ zeros 32)
        ≡ ok b.shared_key
  unfolding Identity.shared_secret
  initiator_secret a b k signal key_a key_b la lb ha hb sent agreed =
      let x = a.local_identity.x25519_public in
      let e = a.local_identity.ed25519_public in
      let y = b.local_identity.x25519_public in
      let both : length (x ++ e) ≡ 64 = omega (arith, length-append x e, ha.x_sized, ha.ed_sized) in
      let keys : take 64 k.payload ≡ x ++ e =
        ap (take 64) sent ∙ take-append_of 64 (x ++ e) signal both in
      let mine : take key_size (take 64 k.payload) ≡ x =
        ap (take key_size) keys ∙ take-append_of key_size x e ha.x_sized in
      let given : Crypto.shared_secret p b.local_identity.x25519_private x ≡ ok b.shared_key =
        ap (Crypto.shared_secret p b.local_identity.x25519_private) (sym mine)
        ∙ (rw lb.private at agreed) in
      rw (la.private, take-append_of key_size y (zeros 32) hb.x_sized)
        (secrets_agree p c a.local_identity b.local_identity key_a key_b b.shared_key la lb
          hb.x_nonzero given)

  accepts_own :
      (owner : Identity) (key m : Bytes)
      → IsLoaded p key owner
      → p.ed25519_check (p.ed25519_sign owner.ed25519_private m) owner.ed25519_public m ≡ true
  accepts_own owner key m lo = rw (lo.ed_private, lo.ed_public) (s.signed (drop key_size key) m)

  -- The proof is accepted under the public key of the owner.
  check_proof-sign :
      (owner : Identity) (a b : Link) (key signal : Bytes) (mtu : ℕ)
      → IsLoaded p key owner
      → IsSignal mtu signal
      → Identity.shared_secret p a.local_identity (b.local_identity.x25519_public ++ zeros 32)
        ≡ ok b.shared_key
      → check_proof p
          (public_half owner)
          (p.ed25519_sign owner.ed25519_private (
            signed_data a.link_id b.local_identity.x25519_public
              (owner.x25519_public ++ owner.ed25519_public)
              signal))
          b.local_identity.x25519_public
          a
          signal
        ≡ (
          record a {
            shared_key = b.shared_key;
            peer_x25519_public = b.local_identity.x25519_public;
            status = active;
            link_mtu = mtu;
            mode = mode_aes256_cbc;
          },
          esp_ok,
        )
  unfolding check_proof Identity.verify Crypto.verify get_public_key
  check_proof-sign owner a b key signal mtu lo sized secret =
      let m =
        signed_data a.link_id b.local_identity.x25519_public
          (owner.x25519_public ++ owner.ed25519_public) signal in
      let accepts : p.ed25519_check (p.ed25519_sign owner.ed25519_private m) owner.ed25519_public m
          ≡ true =
        accepts_own owner key m lo in
      rw (accepts, secret)
        (activate-IsSignal (record a { shared_key = b.shared_key }) b.local_identity.x25519_public
          signal mtu sized)

  -- The packet of the proof passes the guards, and its parts are read back.
  validate_proof-proof_packet :
      (owner : Identity) (l : Link) (signature x_public signal : Bytes) (mtu : ℕ)
      → l.local_identity.has_private ≡ true
      → length signature ≡ signature_size
      → length x_public ≡ key_size
      → IsSignal mtu signal
      → validate_proof p (public_half owner) (proof_packet l.link_id signature x_public signal) l
        ≡ check_proof p (public_half owner) signature x_public l signal
  unfolding validate_proof proof_signalling hash_equal
  validate_proof-proof_packet owner l signature x_public signal mtu private ls lx sized =
      let whole = signature ++ (x_public ++ signal) in
      let len : length whole ≡ proof_max = omega (
        arith,
        length-append signature (x_public ++ signal),
        length-append x_public signal,
        sized.0,
      ) in
      let to = (constant_equal_iff l.link_id l.link_id).1 refl in
      let guarded : is_proof_for l (proof_packet l.link_id signature x_public signal) ≡ true =
        ground (arith, len, to) in
      let admitted : (not l.local_identity.has_private
            || not (is_proof_for l (proof_packet l.link_id signature x_public signal)))
          ≡ false =
        ground (arith, guarded, private) in
      let head : length (signature ++ x_public) ≡ proof_min =
        omega (arith, length-append signature x_public) in
      let rest : drop proof_min whole ≡ signal =
        ap (drop proof_min) (sym (append_assoc signature x_public signal))
        ∙ drop-append_of proof_min (signature ++ x_public) signal head in
      rw
        (
          admitted,
          len,
          rest,
          take-append_of signature_size signature (x_public ++ signal) ls,
          drop-append_of signature_size signature (x_public ++ signal) ls,
          take-append_of key_size x_public signal lx,
        )
        refl

  agreement :
      (owner : Identity) (key : Bytes) (a b : Link) (k answer : Packet) (mtu : ℕ)
      → IsLoaded p key owner
      → Requested p a k
      → Accepted p owner k mtu b answer
      → (validate_proof p (public_half owner) answer a ≡ (
        record a {
          shared_key = b.shared_key;
          peer_x25519_public = b.local_identity.x25519_public;
          status = active;
          link_mtu = mtu;
          mode = mode_aes256_cbc;
        },
        esp_ok,
      ))
        × (a.link_id ≡ b.link_id)
  agreement owner key a b k answer mtu lo r t =
      let ha = loaded-HasPublicKeys p s r.key a.local_identity r.long r.loaded in
      let hb = loaded-HasPublicKeys p s t.key b.local_identity t.long t.loaded in
      let same : a.link_id ≡ b.link_id = ok-inj (sym r.id ∙ t.id) in
      let y = b.local_identity.x25519_public in
      let shown : take key_size (y ++ b.local_identity.ed25519_public) ≡ y =
        take-append_of key_size y b.local_identity.ed25519_public hb.x_sized in
      let m =
        λ (id : Bytes). signed_data id y (owner.x25519_public ++ owner.ed25519_public) t.signal in
      let form =
        λ (id : Bytes). proof_packet id (p.ed25519_sign owner.ed25519_private (m id)) y t.signal in
      let sent : answer ≡ form a.link_id = t.sent ∙ rw shown refl ∙ ap form (sym same) in
      let secret =
        initiator_secret a b k r.sent.0 r.key t.key r.loaded t.loaded ha hb r.sent.1 t.agreed in
      (
        ap (λ (x : Packet). validate_proof p (public_half owner) x a) sent
            ∙ validate_proof-proof_packet owner a
                (p.ed25519_sign owner.ed25519_private (m a.link_id)) y t.signal mtu r.loaded.private
                (s.signature_length owner.ed25519_private (m a.link_id)) hb.x_sized t.sized
            ∙ check_proof-sign owner a b key t.signal mtu lo t.sized secret,
        same,
      )
    where
      ok-inj : {x y : Bytes} → ok x ≡ ok y → x ≡ y
      ok-inj e = cc

-- With sound cryptography and draws of the right size: if an end requests a link to a destination, the
-- owner of the destination, whose identity is loaded from its private key, accepts the request, and the
-- first end validates the proof under the public key of the owner, then this succeeds, both ends are
-- active, and they hold the same link id, the same shared key and the size that the owner asked for.
pub validate_proof-request_accept :
    (p : Provider) (key : Bytes) (owner destination : Identity) (d : Destination) (mtu asked : ℕ)
    → (draw owner_draw : Result Bytes) (a b : Link) (request answer : Packet) → IsConsistent p
    → IsSigning p
    → key_size ≤ length key
    → IsDraw p draw
    → IsDraw p owner_draw
    → Identity.load_private p key ≡ ok owner
    → Identity.load_public p (owner.x25519_public ++ owner.ed25519_public) ≡ ok destination
    → request_create p d mtu draw ≡ ok (a, request)
    → request_accept p owner request asked owner_draw ≡ ok (b, answer)
    → let (a', e) = validate_proof p destination answer a in
      (e ≡ esp_ok)
      × (a'.status ≡ active)
      × (b.status ≡ active)
      × (a'.link_id ≡ b.link_id)
      × (a'.shared_key ≡ b.shared_key)
      × (a'.link_mtu ≡ asked)
validate_proof-request_accept p key owner destination d mtu asked draw owner_draw a b request answer
      c s long drawn owner_drawn loads publishes requests accepts =
    let lo =
      OnOk-ok (IsLoaded p key) (Identity.load_private p key) owner (load_private-IsLoaded p key)
        loads in
    let half = load_public-half p s owner (loaded-HasPublicKeys p s key owner long lo) lo.hashed in
    let same : destination ≡ public_half owner = ok-inj (sym publishes ∙ half) in
    let r : Requested p a request =
      OnOk-ok (λ (x : Link × Packet). Requested p x.0 x.1) (request_create p d mtu draw)
        (a, request) (request_create-Requested p d mtu draw drawn) requests in
    let t : Accepted p owner request asked b answer =
      OnOk-ok (λ (x : Link × Packet). Accepted p owner request asked x.0 x.1)
        (request_accept p owner request asked owner_draw) (b, answer)
        (request_accept-Accepted p owner request asked owner_draw owner_drawn) accepts in
    let (done, id) = agreement p c s owner key a b request answer asked lo r t in
    rw (same, done) (refl, refl, t.up, id, refl, refl)
  where
    ok-inj : {x y : Identity} → ok x ≡ ok y → x ≡ y
    ok-inj e = cc
