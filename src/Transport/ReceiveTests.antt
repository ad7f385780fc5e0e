-- ===== src/Transport/ReceiveTests.antt =====
-- Runs of `rns_transport_core_receive` (components/rns_transport_core/rns_transport_core.c), and the
-- theorems at these inputs.
use meshpay_v.Base.{
  ◌≡◌, ◌⊎◌, refl, false, [], ◌∷◌, ◌++◌, Bytes, arith, replicate, some, esp_ok, ok, bytes_zero,
  constant_equal, slot_for, invalid_state,
}
use meshpay_v.Crypto
use meshpay_v.Identity.{load_public, update_hash, get_hash, verify}
use meshpay_v.Destination.{hash_equal}
use meshpay_v.Packet.{
  Packet, cleared, pack, packet_hash, hashable, header_byte, enum_values_valid, increment_hops,
}
use meshpay_v.Announce
use meshpay_v.Announce.{announce, Announce, decode, build_signed_data, compute_destination_hash}
use meshpay_v.Announce.Verify.{IsAuthentic}
use meshpay_v.Announce.Directory.{find_known, remember, verify_and_remember}
use meshpay_v.Announce.Directory
use meshpay_v.Transport
use meshpay_v.Transport.{
  duplicate_seen, duplicate_remember, is_local_destination, add_local_destination, set_callbacks,
}
use meshpay_v.Transport.Seen.{IsCache}
use meshpay_v.Transport.Receive.{
  Node, receive, update_path_from_announce, enter_path, deliver, forward, find_path, path_of,
  local_rx, forward_tx, duplicate_drop, local_delivered, forwarded, dropped, accepted,
}
use meshpay_v.Transport.Again.{receive_all, receive_again}
use meshpay_v.Transport.Route.{receive-find_path}
use meshpay_v.Samples.{trusting, prefixing, announce_packet}

-- A node that forwards, with one local destination.
abbrev start : Node
start = record {
  core =
      (add_local_destination
        (set_callbacks Transport.init
          (record { local_rx = some (λ k. esp_ok); forward_tx = some (λ k. esp_ok) }))
        (replicate 16 9)).0;
  known = Directory.empty;
}

abbrev hello : Packet
hello = record cleared { destination_hash = replicate 16 1; payload = 5 ∷ [] }

abbrev to_us : Packet
to_us = record cleared { destination_hash = replicate 16 9; payload = 6 ∷ [] }

receptions :
    ((receive prefixing start hello).1 ≡ record {
      status = esp_ok;
      result = forwarded;
      calls = forward_tx (record hello { hops = 1 }) ∷ [];
    })
    × ((receive prefixing start to_us).1
        ≡ record { status = esp_ok; result = local_delivered; calls = local_rx to_us ∷ [] })
    × ((receive prefixing start (record hello { hops = 255 })).1
        ≡ record { status = invalid_state; result = dropped; calls = [] })
    × ((receive prefixing start (record hello { propagation_type = 1 })).1
        ≡ record { status = esp_ok; result = accepted; calls = [] })
unfolding receive update_path_from_announce enter_path deliver forward duplicate_seen
    duplicate_remember is_local_destination add_local_destination increment_hops packet_hash pack
    hashable header_byte enum_values_valid Crypto.sha256 bytes_zero hash_equal constant_equal
    slot_for
receptions = (refl, refl, refl, refl)

-- The hash of `hello` and of its copy.
hello_hash :
    (packet_hash prefixing hello ≡ ok (0 ∷ replicate 16 1 ++ 0 ∷ 5 ∷ replicate 13 0))
    × (packet_hash prefixing (record hello { hops = 1 })
        ≡ ok (0 ∷ replicate 16 1 ++ 0 ∷ 5 ∷ replicate 13 0))
unfolding packet_hash pack hashable header_byte enum_values_valid Crypto.sha256
hello_hash = (refl, refl)

start-new : (hash : Bytes) → duplicate_seen start.core hash ≡ false
unfolding duplicate_seen add_local_destination is_local_destination bytes_zero hash_equal
    constant_equal
start-new hash = refl

start-IsCache : IsCache start.core
unfolding add_local_destination is_local_destination bytes_zero hash_equal constant_equal
start-IsCache = record {
  sized = refl;
  next = omega arith;
  filled = omega arith;
  bounded = omega arith;
  whole = λ h. refl;
}

receive_again_example :
    receive prefixing
      (receive_all prefixing (receive prefixing start hello).0 (to_us ∷ []))
      (record hello { hops = 1 })
    ≡ (
      receive_all prefixing (receive prefixing start hello).0 (to_us ∷ []),
      record { status = esp_ok; result = duplicate_drop; calls = [] },
    )
receive_again_example =
    receive_again prefixing start hello (record hello { hops = 1 })
      (0 ∷ replicate 16 1 ++ 0 ∷ 5 ∷ replicate 13 0) (to_us ∷ []) start-IsCache hello_hash.0
      hello_hash.1 (start-new (0 ∷ replicate 16 1 ++ 0 ∷ 5 ∷ replicate 13 0)) (omega arith)

announce_hash : packet_hash trusting announce_packet ≡ ok (replicate 32 4)
unfolding packet_hash pack hashable header_byte enum_values_valid Crypto.sha256
announce_hash = refl

-- The path that the announce leaves.
routes :
    find_path (receive trusting start announce_packet).0.core (replicate 16 4)
    ≡ some (path_of announce_packet (replicate 32 4))
unfolding find_path receive update_path_from_announce enter_path deliver forward duplicate_seen
    duplicate_remember is_local_destination add_local_destination increment_hops packet_hash pack
    hashable header_byte enum_values_valid Crypto.sha256 bytes_zero hash_equal constant_equal
    slot_for find_known verify_and_remember remember Announce.verify Announce.check_signature decode
    compute_destination_hash build_signed_data load_public update_hash get_hash verify Crypto.verify
routes = refl

receive-find_path_example :
    ((d : Bytes)
      → find_path (receive trusting start announce_packet).0.core d ≡ find_path start.core d)
    ⊎ ((announce_packet.packet_type ≡ announce)
        × ((a : Announce) × IsAuthentic trusting announce_packet a)
        × (find_path
              (receive trusting start announce_packet).0.core
              announce_packet.destination_hash
            ≡ some (path_of announce_packet (replicate 32 4)))
        × ((d : Bytes)
            → hash_equal announce_packet.destination_hash d ≡ false
            → find_path (receive trusting start announce_packet).0.core d ≡ find_path start.core d))
receive-find_path_example =
    receive-find_path trusting start announce_packet (replicate 32 4) announce_hash
      (start-new (replicate 32 4))
