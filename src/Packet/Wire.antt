-- ===== src/Packet/Wire.antt =====
-- Packing and unpacking (components/rns_packet/rns_packet.c).
use meshpay_v.Base.{
  ℕ, suc, ◌+◌, ◌-◌, ◌≤◌, ◌<◌, ◌≡◌, refl, sym, ap, ◌∙◌, inl, inr, Bool, true, false, ◌||◌, [], ◌∷◌,
  ◌++◌, Bytes, zeros, ok, arith, ltb, ◌==◌, if◌then◌else◌, Bool-cases, length, length-append,
  take-append_of, drop-append_of, bit_and,
}
use meshpay_v.Packet.{
  Packet, pack, unpack, unpack_body, read_header, encode_header_byte, enum_values_valid,
  packed_size, max_data, mtu, address_size, cleared, header_size, context_size, type_2,
}
use meshpay_v.Packet.Header.{header_byte-IsReadBack}

-- What a packet that packs is and gives.
pub record IsPacked (k : Packet) (wire : Bytes) : Type 0 where
  pub header : k.header_type < 2
  pub propagation : k.propagation_type < 2
  pub destination : k.destination_type < 4
  pub kind : k.packet_type < 4
  pub data_len : length k.payload ≤ max_data
  pub size : packed_size k ≤ mtu
  pub wire_is :
      wire
      ≡ encode_header_byte k ∷ k.hops ∷ (if k.header_type == type_2 then k.transport_id else [])
        ++ (k.destination_hash ++ k.context ∷ k.payload)

pub pack-IsPacked :
    (k : Packet) (out_len : ℕ) (wire : Bytes) → pack k out_len ≡ ok wire → IsPacked k wire
unfolding pack enum_values_valid
pack-IsPacked k out_len wire h = record {
  header = ground arith;
  propagation = ground arith;
  destination = ground arith;
  kind = ground arith;
  data_len = ground arith;
  size = ground arith;
  wire_is = ground arith;
}

-- The packet with the fields of its header byte only.
read_header-encode_header_byte :
    (k : Packet) (wire : Bytes)
    → IsPacked k wire
    → read_header (encode_header_byte k) k.hops ≡ record cleared {
      header_type = k.header_type;
      context_flag = k.context_flag;
      propagation_type = k.propagation_type;
      destination_type = k.destination_type;
      packet_type = k.packet_type;
      hops = k.hops;
    }
unfolding read_header
read_header-encode_header_byte k wire p =
    let r =
      header_byte-IsReadBack k.header_type k.context_flag k.propagation_type k.destination_type
        k.packet_type p.header p.propagation p.destination p.kind in
    rw (r.header_type, r.context_flag, r.propagation_type, r.destination_type, r.packet_type) refl

-- What remains of a packet on the wire: a transport id only under a header of type 2.
abbrev pub received : Packet → Packet
received k = record k {
  transport_id = if k.header_type == type_2 then k.transport_id else zeros address_size;
}

unpack_body-type_1 :
    (k : Packet) (a : Packet)
    → (a.header_type == type_2) ≡ false
    → length k.destination_hash ≡ address_size
    → length k.payload ≤ max_data
    → unpack_body a (k.destination_hash ++ k.context ∷ k.payload)
      ≡ ok (record a {
        destination_hash = k.destination_hash;
        context = k.context;
        payload = k.payload;
      })
unfolding unpack_body
unpack_body-type_1 k a one d l =
    let tail = k.context ∷ k.payload in
    let long = length-append k.destination_hash tail in
    let fits : ltb (length (k.destination_hash ++ tail)) (context_size + address_size) ≡ false =
      ground arith in
    let small : ltb max_data (length tail - context_size) ≡ false = ground arith in
    rw
      (
        one,
        take-append_of address_size k.destination_hash tail d,
        drop-append_of address_size k.destination_hash tail d,
        fits,
        small,
      )
      refl

unpack_body-type_2 :
    (k : Packet) (a : Packet)
    → (a.header_type == type_2) ≡ true
    → length k.transport_id ≡ address_size
    → length k.destination_hash ≡ address_size
    → length k.payload ≤ max_data
    → unpack_body a (k.transport_id ++ (k.destination_hash ++ k.context ∷ k.payload))
      ≡ ok (record a {
        transport_id = k.transport_id;
        destination_hash = k.destination_hash;
        context = k.context;
        payload = k.payload;
      })
unfolding unpack_body
unpack_body-type_2 k a two t d l =
    let tail = k.context ∷ k.payload in
    let rest = k.destination_hash ++ tail in
    let long = length-append k.destination_hash tail in
    let longer = length-append k.transport_id rest in
    let fits : ltb (length (k.transport_id ++ rest)) (context_size + (address_size + address_size))
        ≡ false =
      ground arith in
    let small : ltb max_data (length tail - context_size) ≡ false = ground arith in
    rw
      (
        two,
        take-append_of address_size k.transport_id rest t,
        drop-append_of address_size k.transport_id rest t,
        take-append_of address_size k.destination_hash tail d,
        drop-append_of address_size k.destination_hash tail d,
        fits,
        small,
      )
      refl

unpack-cons :
    (header hops : ℕ) (body : Bytes)
    → length body + 2 ≤ mtu
    → header_size + address_size + context_size ≤ length body + 2
    → (bit_and header 0x80 == 0) ≡ true
    → unpack (header ∷ hops ∷ body) ≡ unpack_body (read_header header hops) body
unfolding unpack
unpack-cons header hops body long short closed =
    let n : ℕ = suc (suc (length body)) in
    let fits : (ltb mtu n || ltb n (header_size + address_size + context_size)) ≡ false =
      ground arith in
    rw (fits, closed) refl

received-type_1 :
    (k : Packet)
    → (k.header_type == type_2) ≡ false
    → received k ≡ record k { transport_id = zeros address_size }
received-type_1 k one =
    ap (λ (b : Bool). record k { transport_id = if b then k.transport_id else zeros address_size })
      one

received-type_2 : (k : Packet) → (k.header_type == type_2) ≡ true → received k ≡ k
received-type_2 k two =
    ap (λ (b : Bool). record k { transport_id = if b then k.transport_id else zeros address_size })
      two

-- What `rns_packet_pack` writes, `rns_packet_unpack` reads: every field of a packet whose addresses
-- have their size comes back, but for a transport id that the header type does not send.
pub unpack-pack :
    (k : Packet) (out_len : ℕ) (wire : Bytes)
    → length k.destination_hash ≡ address_size
    → length k.transport_id ≡ address_size
    → pack k out_len ≡ ok wire
    → unpack wire ≡ ok (received k)
unpack-pack k out_len wire d t h =
    let p = pack-IsPacked k out_len wire h in
    let r =
      header_byte-IsReadBack k.header_type k.context_flag k.propagation_type k.destination_type
        k.packet_type p.header p.propagation p.destination p.kind in
    let base = read_header-encode_header_byte k wire p in
    let size = p.size in
    let long = length-append k.destination_hash (k.context ∷ k.payload) in
    let longer = length-append k.transport_id (k.destination_hash ++ k.context ∷ k.payload) in
    elim (Bool-cases (k.header_type == type_2)) [
      | inr one ↦
          let w = rw one at p.wire_is in
          rw w (
            unpack-cons (encode_header_byte k) k.hops (k.destination_hash ++ k.context ∷ k.payload)
              (ground arith) (ground arith) r.closed
            ∙ ap (λ a. unpack_body a (k.destination_hash ++ k.context ∷ k.payload)) base
            ∙ unpack_body-type_1 k _ one d p.data_len
            ∙ ap ok (sym (received-type_1 k one)))
      | inl two ↦
          let w = rw two at p.wire_is in
          rw w (
            unpack-cons (encode_header_byte k) k.hops
              (k.transport_id ++ (k.destination_hash ++ k.context ∷ k.payload)) (ground arith)
              (ground arith) r.closed
            ∙ ap
                (λ a.
                  unpack_body a (k.transport_id ++ (k.destination_hash ++ k.context ∷ k.payload)))
                base
            ∙ unpack_body-type_2 k _ two t d p.data_len
            ∙ ap ok (sym (received-type_2 k two)))
    ]
