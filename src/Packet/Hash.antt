-- ===== src/Packet/Hash.antt =====
-- The hash of a packet (components/rns_packet/rns_packet.c), by which a node knows it again.
use meshpay_v.Base.{
  suc, ◌+◌, ◌≡◌, refl, sym, ap, ◌∙◌, inl, inr, false, ◌∷◌, ◌++◌, Bytes, ok, arith, ltb, ◌==◌,
  Bool-cases, length, length-append, drop-append_of, bit_and,
}
use meshpay_v.Crypto
use meshpay_v.Crypto.{Provider}
use meshpay_v.Packet.{
  Packet, pack, hashable, packet_hash, header_byte, mtu, address_size, header_size, type_2,
}
use meshpay_v.Packet.Header.{header_byte-IsReadBack}
use meshpay_v.Packet.Wire.{IsPacked, pack-IsPacked}

-- What is hashed: the types of the destination and of the packet, and all behind the addresses of
-- the transport.
abbrev pub digest_input : Packet → Bytes
digest_input k =
    bit_and (header_byte 0 false 0 k.destination_type k.packet_type) 0x0f
    ∷ (k.destination_hash ++ k.context ∷ k.payload)

hashable-digest_input :
    (k : Packet) (wire : Bytes)
    → length k.transport_id ≡ address_size
    → IsPacked k wire
    → hashable k wire ≡ ok (digest_input k)
unfolding hashable
hashable-digest_input k wire t p =
    let r =
      header_byte-IsReadBack k.header_type k.context_flag k.propagation_type k.destination_type
        k.packet_type p.header p.propagation p.destination p.kind in
    let rest = k.destination_hash ++ k.context ∷ k.payload in
    elim (Bool-cases (k.header_type == type_2)) [
      | inr one ↦
          let w = rw one at p.wire_is in
          let fits : ltb (suc (suc (length rest))) (header_size + 0) ≡ false = ground arith in
          rw (w, one, fits) (ap (λ b. ok (b ∷ rest)) r.masked)
      | inl two ↦
          let w = rw two at p.wire_is in
          let longer = length-append k.transport_id rest in
          let fits : ltb (suc (suc (length (k.transport_id ++ rest)))) (header_size + address_size)
              ≡ false =
            ground arith in
          rw (w, two, fits, drop-append_of address_size k.transport_id rest t)
            (ap (λ b. ok (b ∷ rest)) r.masked)
    ]

pub packet_hash-digest_input :
    (p : Provider) (k : Packet) (wire : Bytes)
    → length k.transport_id ≡ address_size
    → pack k mtu ≡ ok wire
    → packet_hash p k ≡ Crypto.sha256 p (digest_input k)
unfolding packet_hash
packet_hash-digest_input p k wire t h =
    rw (h, packet_hash) (rw (hashable-digest_input k wire t (pack-IsPacked k mtu wire h)) refl)

-- Two packets with the same destination, types, context and data have one hash, whatever their hops,
-- propagation, context flag, header type and transport id: a forwarded packet is known again.
pub packet_hash-forwarded :
    (p : Provider) (k j : Packet) (wire wire' : Bytes)
    → length k.transport_id ≡ address_size
    → length j.transport_id ≡ address_size
    → pack k mtu ≡ ok wire
    → pack j mtu ≡ ok wire'
    → k.destination_type ≡ j.destination_type
    → k.packet_type ≡ j.packet_type
    → k.destination_hash ≡ j.destination_hash
    → k.context ≡ j.context
    → k.payload ≡ j.payload
    → packet_hash p k ≡ packet_hash p j
packet_hash-forwarded p k j wire wire' t t' h h' a b c d e =
    packet_hash-digest_input p k wire t h
    ∙ ap (Crypto.sha256 p) (cc)
    ∙ sym (packet_hash-digest_input p j wire' t' h')
