-- ===== src/Tx/Tests.antt =====
-- Runs of components/meshpay_tx/meshpay_tx.c, and the theorem at these inputs.
use meshpay_v.Base.{
  ◌≡◌, refl, replicate, zeros, [], ◌∷◌, ◌++◌, Bytes, ok, err, invalid_arg, invalid_size, length,
  bytes_zero, mem_equal, arith,
}
use meshpay_v.Tx.{id_size}
use meshpay_v.Tx.Cbor.{
  get, put, put_bytes, put_big_endian, write_type_value, write_bstr, write_array, write_map,
  read_type_value,
}
use meshpay_v.Tx.Codec.{
  validate_claim, validate_common, encode_signable_fields, write_parents, write_member, encode,
}
use meshpay_v.Tx.Decode.{decode}
use meshpay_v.Tx.Fields.{HasParents}
use meshpay_v.Tx.RoundTrip.{IsStored}
use meshpay_v.Tx.Faithful.{decode-encode}
use meshpay_v.Samples.{payment}

abbrev payment_wire : Bytes
payment_wire =
    0xab ∷ 1 ∷ 1 ∷ 2 ∷ 0x50 ∷ replicate 16 0xa1
    ++ (3 ∷ 0x50 ∷ replicate 16 0xb0)
    ++ (4 ∷ 0x18 ∷ 30 ∷ 5 ∷ 1 ∷ 6 ∷ 1 ∷ 7 ∷ 0x80 ∷ 8 ∷ 0x19 ∷ 3 ∷ 0xe8 ∷ 9 ∷ 7 ∷ [])
    ++ (10 ∷ 0x58 ∷ 0x20 ∷ replicate 32 2)
    ++ (11 ∷ 0x58 ∷ 0x40 ∷ replicate 64 5)

encode-payment : encode payment 320 ≡ ok payment_wire
unfolding encode validate_common validate_claim bytes_zero mem_equal zeros encode_signable_fields
    write_parents write_member put put_bytes put_big_endian write_type_value write_bstr write_array
    write_map
encode-payment = refl

-- An empty buffer, and a text string in place of the map.
decode_runs : (decode [] ≡ err invalid_size) × (decode (0x60 ∷ []) ≡ err invalid_arg)
unfolding decode read_type_value get
decode_runs = (refl, refl)

length-zeros : length (zeros 32) ≡ id_size
unfolding zeros
length-zeros = refl

length-zero_key : length (zeros 64) ≡ 64
unfolding zeros
length-zero_key = refl

payment-HasParents : HasParents payment
payment-HasParents = record {
  first = zeros 32;
  second = zeros 32;
  array = refl;
  first_size = length-zeros;
  second_size = length-zeros;
  count = omega arith;
  spare_first = λ _. refl;
  spare_second = λ _. refl;
}

payment-IsStored : IsStored payment
payment-IsStored = record {
  id = refl;
  from = refl;
  to = refl;
  signature = refl;
  member_public = length-zero_key;
  amount = omega arith;
  seq = omega arith;
  fee = omega arith;
  currency_id = omega arith;
  timestamp_ms = omega arith;
  parents = payment-HasParents;
}

decode-encode_example : decode payment_wire ≡ ok payment
decode-encode_example = decode-encode payment 320 payment_wire payment-IsStored encode-payment
