-- ===== src/Link/Tests.antt =====
-- Runs of components/rns_link_request/rns_link_request.c, and the theorem at these inputs.
use meshpay_v.Base.{
  ◌≡◌, refl, [], ◌∷◌, replicate, zeros, true, false, ok, err, esp_ok, invalid_arg, arith,
  bytes_zero,
}
use meshpay_v.Crypto
use meshpay_v.Crypto.{sha256}
use meshpay_v.Identity
use meshpay_v.Identity.{load_private, load_public, get_public_key, update_hash}
use meshpay_v.Destination.{Destination, single}
use meshpay_v.Packet.{
  Packet, enum_values_valid, pack, packet_hash, truncated_hash, hashable, header_byte,
}
use meshpay_v.PacketCrypto.Tests.{loads, trusting-IsConsistent}
use meshpay_v.Announce.Tests.{trusting-IsSigning}
use meshpay_v.Link.{
  Link, active, pending, signalling_bytes, request_packet, proof_packet, request_link_id,
  request_create, request_accept, validate_proof,
}
use meshpay_v.Link.Agreement.{validate_proof-request_accept}
use meshpay_v.Samples.{holder, holder_key, holder_public, recipient, trusting}

-- Two bytes of size below the mode.
signalling_runs :
    (signalling_bytes 500 1 ≡ ok (0x20 ∷ 1 ∷ 0xf4 ∷ []))
    × (signalling_bytes 501 1 ≡ err invalid_arg)
    × (signalling_bytes 500 2 ≡ err invalid_arg)
unfolding signalling_bytes
signalling_runs = (refl, refl, refl)

abbrev holder_destination : Destination
holder_destination = record {
  kind = single;
  name_hash = replicate 10 4;
  hash = replicate 16 4;
  full_name = [];
}

-- Both draw the key of `holder` under this library.
abbrev first_end : Link
first_end = record {
  initiator = true;
  status = pending;
  local_identity = holder;
  peer_x25519_public = zeros 32;
  link_id = replicate 16 4;
  shared_key = zeros 32;
  link_mtu = 500;
  mode = 1;
}

abbrev pub second_end : Link
second_end = record {
  initiator = false;
  status = active;
  local_identity = holder;
  peer_x25519_public = replicate 32 2;
  link_id = replicate 16 4;
  shared_key = replicate 32 3;
  link_mtu = 400;
  mode = 1;
}

abbrev request : Packet
request = request_packet (replicate 16 4) holder_public (0x20 ∷ 1 ∷ 0xf4 ∷ [])

abbrev answer : Packet
answer = proof_packet (replicate 16 4) (replicate 64 5) (replicate 32 2) (0x20 ∷ 1 ∷ 0x90 ∷ [])

handshake_runs :
    (request_create trusting holder_destination 500 (ok holder_key) ≡ ok (first_end, request))
    × (request_accept trusting holder request 400 (ok holder_key) ≡ ok (second_end, answer))
unfolding request_create request_accept request_link_id signalling_bytes truncated_hash packet_hash
    pack hashable header_byte sha256 Identity.generate Identity.shared_secret Identity.sign
    Crypto.sign Crypto.shared_secret load_private get_public_key update_hash Crypto.public_key
    bytes_zero zeros enum_values_valid
handshake_runs = (refl, refl)

validate_proof-request_accept_example :
    let (a, e) = validate_proof trusting recipient answer first_end in
    (e ≡ esp_ok)
    × (a.status ≡ active)
    × (active ≡ active)
    × (a.link_id ≡ replicate 16 4)
    × (a.shared_key ≡ replicate 32 3)
    × (a.link_mtu ≡ 400)
validate_proof-request_accept_example =
    validate_proof-request_accept trusting holder_key holder recipient holder_destination 500 400
      (ok holder_key) (ok holder_key) first_end second_end request answer trusting-IsConsistent
      trusting-IsSigning (omega arith) (omega arith) (omega arith) loads.0 loads.2 handshake_runs.0
      handshake_runs.1
