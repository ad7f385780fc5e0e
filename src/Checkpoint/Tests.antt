-- ===== src/Checkpoint/Tests.antt =====
-- Runs of components/checkpoint/checkpoint.c, and the theorems at these inputs.
use meshpay_v.Base.{
  ◌≡◌, ◌≤◌, refl, [], ◌∷◌, ◌++◌, Bytes, replicate, zeros, ok, err, esp_ok, invalid_state,
  invalid_size, invalid_crc, arith, length, bytes_zero, mem_equal,
}
use meshpay_v.Tx.Cbor.{put, put_bytes, put_big_endian, write_type_value}
use meshpay_v.Crypto
use meshpay_v.Crypto.{sha256}
use meshpay_v.Identity
use meshpay_v.Announce.Tests.{trusting-IsSigning}
use meshpay_v.PacketCrypto.Tests.{loads}
use meshpay_v.Checkpoint.{Checkpoint}
use meshpay_v.Checkpoint.Codec.{
  prefix, write_string, check_accounts, validate_body, write_accounts, encode_body_fields,
  encode_internal, encode, compute_hash, sign, verify,
}
use meshpay_v.Checkpoint.Decode.{decode}
use meshpay_v.Checkpoint.Written.{message, IsAccount}
use meshpay_v.Checkpoint.Faithful.{IsStored}
use meshpay_v.Checkpoint.RoundTrip.{decode-encode_bounded}
use meshpay_v.Checkpoint.Signed.{verify-decode}
use meshpay_v.Samples.{
  paid_checkpoint, founder_entry, alice_entry, bob_entry, holder, holder_key, holder_public,
  trusting,
}

abbrev signed : Checkpoint
signed = record paid_checkpoint { founder_signature = replicate 64 5 }

abbrev wire : Bytes
wire = prefix ++ message signed

encode_runs : (encode signed 1000 ≡ ok wire) × (encode paid_checkpoint 1000 ≡ err invalid_state)
unfolding encode encode_internal validate_body check_accounts encode_body_fields write_accounts
    write_string put put_bytes put_big_endian write_type_value bytes_zero mem_equal zeros
encode_runs = (refl, refl)

-- An empty buffer, and another magic number.
decode_runs : (decode 4 [] ≡ err invalid_size) × (decode 4 (0x44 ∷ wire) ≡ err invalid_crc)
unfolding decode zeros
decode_runs = (refl, refl)

sign_runs : sign trusting paid_checkpoint holder ≡ ok signed
unfolding sign compute_hash encode_internal validate_body check_accounts encode_body_fields
    write_accounts write_string put put_bytes put_big_endian write_type_value bytes_zero mem_equal
    zeros sha256 Identity.sign Crypto.sign
sign_runs = refl

length-zeros : length (zeros 64) ≡ 64
unfolding zeros
length-zeros = refl

founder_entry-IsAccount : IsAccount founder_entry
founder_entry-IsAccount = record {
  account = refl;
  balance = omega arith;
  seq_floor = omega arith;
  member_public = length-zeros;
}

alice_entry-IsAccount : IsAccount alice_entry
alice_entry-IsAccount = record {
  account = refl;
  balance = omega arith;
  seq_floor = omega arith;
  member_public = refl;
}

bob_entry-IsAccount : IsAccount bob_entry
bob_entry-IsAccount = record {
  account = refl;
  balance = omega arith;
  seq_floor = omega arith;
  member_public = length-zeros;
}

signed-IsStored : IsStored 4 signed
signed-IsStored = record {
  entries = founder_entry ∷ alice_entry ∷ bob_entry ∷ [];
  spare = 1;
  table = refl;
  count = refl;
  size = refl;
  small = omega arith;
  each = (founder_entry-IsAccount, (alice_entry-IsAccount, (bob_entry-IsAccount, tt)));
  currency_id = omega arith;
  generation = omega arith;
  created_at_ms = omega arith;
  digest = refl;
  signature = refl;
}

decode-encode_bounded_example : (decode 4 wire ≡ ok signed) × (length wire ≤ 500)
decode-encode_bounded_example =
    decode-encode_bounded signed 4 1000 wire signed-IsStored encode_runs.0

verify-decode_example :
    (decode 4 wire ≡ ok signed)
    × (signed ≡ record paid_checkpoint { founder_signature = replicate 64 5 })
    × (verify trusting signed holder_public ≡ esp_ok)
verify-decode_example =
    verify-decode trusting holder_key holder paid_checkpoint signed 4 1000 wire trusting-IsSigning
      (omega arith) loads.0 sign_runs signed-IsStored encode_runs.0
