-- ===== src/Link.antt =====
-- components/rns_link_request/rns_link_request.c: the handshake of a link. What `rns_crypto_random`
-- answers for the keys of a link is an argument.
pub mod Handshake
pub mod Agreement
pub mod Tests
use meshpay_v.Base.{
  ℕ, ◌+◌, ◌*◌, ◌/◌, ◌%◌, Bool, true, false, not, ◌&&◌, ◌||◌, List, [], ◌∷◌, ◌++◌, Bytes, zeros, Err,
  esp_ok, invalid_arg, Result, ok, err, ◌>>=◌, check, fits, ltb, ◌==◌, if◌then◌else◌, length, take,
  drop, get_or, bit_and, bit_or,
}
use meshpay_v.Tx.{hash_size, signature_size}
use meshpay_v.Crypto.{Provider}
use meshpay_v.Identity
use meshpay_v.Identity.{Identity, key_size, get_public_key}
use meshpay_v.Destination.{Destination, single, link as link_destination, hash_equal}
use meshpay_v.Packet
use meshpay_v.Packet.{Packet, truncated_hash}

abbrev pub link_request : ℕ
link_request = 2

abbrev pub proof : ℕ
proof = 3

abbrev pub lrproof_context : ℕ
lrproof_context = 0xff

abbrev pub link_public_size : ℕ
link_public_size = 64

abbrev pub signal_size : ℕ
signal_size = 3

abbrev pub request_max : ℕ
request_max = link_public_size + signal_size

abbrev pub proof_min : ℕ
proof_min = signature_size + key_size

abbrev pub proof_max : ℕ
proof_max = proof_min + signal_size

abbrev pub mtu_mask : ℕ
mtu_mask = 0x1fffff

abbrev pub mode_aes256_cbc : ℕ
mode_aes256_cbc = 1

-- `rns_link_status_t`
pub data LinkStatus : Type 0 where
  pending handshake active closed : LinkStatus

-- `rns_link_t`
pub record Link : Type 0 where
  pub initiator : Bool
  pub status : LinkStatus
  pub local_identity : Identity
  pub peer_x25519_public : Bytes
  pub link_id : Bytes
  pub shared_key : Bytes
  pub link_mtu : ℕ
  pub mode : ℕ

-- `rns_link_signalling_bytes`
unfoldable pub signalling_bytes : ℕ → ℕ → Result Bytes
signalling_bytes mtu mode =
    if mtu == 0 || ltb Packet.mtu mtu || not (mode == mode_aes256_cbc) || ltb mtu_mask mtu
    then err invalid_arg
    else let value : ℕ = bit_or (bit_and mtu mtu_mask) (bit_and (mode * 32) 0xe0 * 65536) in
      ok (value / 65536 % 256 ∷ value / 256 % 256 ∷ value % 256 ∷ [])

-- `mtu_from_signalling`
abbrev pub mtu_from_signalling : Bytes → ℕ
mtu_from_signalling s =
    bit_and (bit_or (bit_or (get_or s 0 0 * 65536) (get_or s 1 0 * 256)) (get_or s 2 0)) mtu_mask

-- `mode_from_signalling`
abbrev pub mode_from_signalling : Bytes → ℕ
mode_from_signalling s = bit_and (get_or s 0 0) 0xe0 / 32

-- The tests of a link request.
abbrev pub is_request : Packet → Bool
is_request k =
    k.packet_type == link_request
    && k.destination_type == single
    && not (ltb (length k.payload) link_public_size)
    && not (ltb request_max (length k.payload))

-- The packet of a request, from the keys of the link.
abbrev pub request_packet : Bytes → Bytes → Bytes → Packet
request_packet destination public signalling = record Packet.cleared {
  destination_type = single;
  packet_type = link_request;
  destination_hash = destination;
  payload = public ++ signalling;
}

-- What the owner of the destination signs.
abbrev pub signed_data : Bytes → Bytes → Bytes → Bytes → Bytes
signed_data link_id x_public owner_public signalling =
    link_id ++ (x_public ++ (drop key_size owner_public ++ signalling))

abbrev pub proof_packet : Bytes → Bytes → Bytes → Bytes → Packet
proof_packet link_id signature x_public signalling = record Packet.cleared {
  destination_type = link_destination;
  packet_type = proof;
  context = lrproof_context;
  destination_hash = link_id;
  payload = signature ++ (x_public ++ signalling);
}

-- The guards of `rns_link_request_validate_proof` on the packet.
abbrev pub is_proof_for : Link → Packet → Bool
is_proof_for l k =
    k.packet_type == proof
    && k.destination_type == link_destination
    && k.context == lrproof_context
    && not (ltb (length k.payload) proof_min)
    && not (ltb proof_max (length k.payload))
    && hash_equal k.destination_hash l.link_id

-- The signalling bytes of a proof, or the default ones.
unfoldable pub proof_signalling : Bytes → Result Bytes
unfolding signalling_bytes
proof_signalling payload =
    if length payload == proof_max
    then ok (drop proof_min payload)
    else signalling_bytes Packet.mtu mode_aes256_cbc

-- The end of `rns_link_request_validate_proof`, with the shared key set.
unfoldable pub activate : Link → Bytes → Bytes → Link × Err
activate l x_public signalling =
    let mtu = mtu_from_signalling signalling in
    let mode = mode_from_signalling signalling in
    if mtu == 0 || ltb Packet.mtu mtu || not (mode == mode_aes256_cbc) then (l, invalid_arg) else (
      record l { peer_x25519_public = x_public; status = active; link_mtu = mtu; mode = mode },
      esp_ok,
    )

module _ (p : Provider) where
  -- `rns_link_request_link_id`
  unfoldable pub request_link_id : Packet → Result Bytes
  request_link_id k =
      if not (is_request k)
      then err invalid_arg
      else truncated_hash p (record k { payload = take link_public_size k.payload })

  -- `rns_link_request_create`
  unfoldable pub request_create : Destination → ℕ → Result Bytes → Result (Link × Packet)
  unfolding request_link_id signalling_bytes
  request_create destination mtu random =
      if not (destination.kind == single) then err invalid_arg else do
        local ← Identity.generate p random
        public ← get_public_key local
        signalling ← signalling_bytes mtu mode_aes256_cbc
        let k = request_packet destination.hash public signalling
        link_id ← request_link_id k
        ok (
          record {
            initiator = true;
            status = pending;
            local_identity = local;
            peer_x25519_public = zeros 32;
            link_id = link_id;
            shared_key = zeros 32;
            link_mtu = mtu;
            mode = mode_aes256_cbc;
          },
          k,
        )

  -- `rns_link_request_accept`
  unfoldable pub request_accept : Identity → Packet → ℕ → Result Bytes → Result (Link × Packet)
  unfolding request_link_id signalling_bytes
  request_accept owner k mtu random =
      if not owner.has_private || not (is_request k) then err invalid_arg else do
        local ← Identity.generate p random
        link_id ← request_link_id k
        shared ← Identity.shared_secret p local (take link_public_size k.payload)
        owner_public ← get_public_key owner
        link_public ← get_public_key local
        signalling ← signalling_bytes mtu mode_aes256_cbc
        let x_public = take key_size link_public
        signature ← Identity.sign p owner (signed_data link_id x_public owner_public signalling)
        ok (
          record {
            initiator = false;
            status = active;
            local_identity = local;
            peer_x25519_public = take key_size k.payload;
            link_id = link_id;
            shared_key = shared;
            link_mtu = mtu;
            mode = mode_aes256_cbc;
          },
          proof_packet link_id signature x_public signalling,
        )

  -- The part of `rns_link_request_validate_proof` that follows the choice of the signalling bytes.
  unfoldable pub check_proof : Identity → Bytes → Bytes → Link → Bytes → Link × Err
  unfolding activate
  check_proof destination signature x_public l signalling = elim (get_public_key destination) [
    | err e ↦ (l, e)
    | ok public ↦
        let checked =
          Identity.verify p destination (signed_data l.link_id x_public public signalling)
            signature in
        if not (fits checked)
        then (l, checked)
        else elim (Identity.shared_secret p l.local_identity (x_public ++ zeros 32)) [
          | err e ↦ (l, e)
          | ok key ↦ activate (record l { shared_key = key }) x_public signalling
        ]
  ]

  -- `rns_link_request_validate_proof`
  unfoldable pub validate_proof : Identity → Packet → Link → Link × Err
  unfolding proof_signalling check_proof
  validate_proof destination k l =
      let behind = drop signature_size k.payload in
      if not destination.has_public || not l.local_identity.has_private || not (is_proof_for l k)
      then (l, invalid_arg)
      else elim (proof_signalling k.payload) [
        | err e ↦ (l, e)
        | ok signalling ↦
            check_proof destination (take signature_size k.payload) (take key_size behind) l
              signalling
      ]
