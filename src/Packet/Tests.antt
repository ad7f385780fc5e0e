-- ===== src/Packet/Tests.antt =====
-- Runs of components/rns_packet/rns_packet.c, and the theorems at these inputs.
use meshpay_v.Base.{
  length, ◌≡◌, refl, [], ◌∷◌, ◌++◌, Bytes, true, replicate, zeros, ok, err, invalid_size,
  not_supported,
}
use meshpay_v.Packet.{
  Packet, pack, unpack, header_byte, enum_values_valid, packet_hash, broadcast, transport,
  address_size, type_2,
}
use meshpay_v.Packet.Wire.{received, unpack-pack}
use meshpay_v.Packet.Hash.{packet_hash-forwarded}
use meshpay_v.Samples.{trusting}

abbrev hello : Packet
hello = record {
  header_type = 0;
  context_flag = true;
  propagation_type = broadcast;
  destination_type = 2;
  packet_type = 1;
  hops = 3;
  destination_hash = replicate 16 0xd0;
  transport_id = zeros 16;
  context = 9;
  payload = 1 ∷ 2 ∷ 3 ∷ [];
}

-- The same, by way of a transport node.
abbrev relayed : Packet
relayed = record hello {
  header_type = type_2;
  propagation_type = transport;
  hops = 4;
  transport_id = replicate 16 0x77;
}

abbrev hello_wire : Bytes
hello_wire = 0x29 ∷ 3 ∷ replicate 16 0xd0 ++ 9 ∷ 1 ∷ 2 ∷ 3 ∷ []

abbrev relayed_wire : Bytes
relayed_wire = 0x79 ∷ 4 ∷ replicate 16 0x77 ++ (replicate 16 0xd0 ++ 9 ∷ 1 ∷ 2 ∷ 3 ∷ [])

pack-hello : pack hello 500 ≡ ok hello_wire
unfolding pack enum_values_valid header_byte
pack-hello = refl

pack-relayed : pack relayed 500 ≡ ok relayed_wire
unfolding pack enum_values_valid header_byte
pack-relayed = refl

-- A short wire, and one with the interface access code flag.
unpack_runs :
    (unpack (replicate 18 0) ≡ err invalid_size)
    × (unpack (0x80 ∷ replicate 18 0) ≡ err not_supported)
unfolding unpack
unpack_runs = (refl, refl)

unpack-pack_example : unpack relayed_wire ≡ ok (received relayed)
unpack-pack_example = unpack-pack relayed 500 relayed_wire refl refl pack-relayed

no_transport_id : length (zeros 16) ≡ address_size
unfolding zeros
no_transport_id = refl

packet_hash-forwarded_example : packet_hash trusting hello ≡ packet_hash trusting relayed
packet_hash-forwarded_example =
    packet_hash-forwarded trusting hello relayed hello_wire relayed_wire no_transport_id refl
      pack-hello pack-relayed refl refl refl refl refl
