-- ===== src/Announce/Tests.antt =====
-- Runs of components/rns_announce/rns_announce.c, and the theorems at these inputs.
use meshpay_v.Base.{
  ◌≡◌, refl, [], ◌∷◌, ◌++◌, Bytes, some, replicate, drop, ok, err, invalid_state, arith, bytes_zero,
  constant_equal, slot_for, true,
}
use meshpay_v.Crypto
use meshpay_v.Identity.{
  Identity, empty, load_private, load_public, get_public_key, update_hash, get_hash, sign, verify,
}
use meshpay_v.Destination.{
  Destination, create_single, fill_common, name_hash, build_full_name, append_aspects,
  token_is_valid, hash_equal,
}
use meshpay_v.Packet.{Packet, pack, packet_hash, hashable, header_byte, enum_values_valid}
use meshpay_v.Announce
use meshpay_v.Announce.{Announce, encode, decode, build_signed_data, compute_destination_hash}
use meshpay_v.Announce.Accept.{IsSigning, verify-encode}
use meshpay_v.Announce.Directory.{
  Known, find_known, remember, verify_and_remember, known_count, recall_info,
}
use meshpay_v.Announce.Directory
use meshpay_v.Announce.Trust.{learn, Keeps, known_lem}
use meshpay_v.Samples.{trusting, announce_wire as wire, announce_packet as packet}

abbrev key : Bytes
key = replicate 64 2

abbrev node : Identity
node = record empty {
  has_private = true;
  has_public = true;
  x25519_private = replicate 32 2;
  x25519_public = replicate 32 2;
  ed25519_seed = replicate 32 2;
  ed25519_private = replicate 64 6;
  ed25519_public = replicate 32 6;
  hash = replicate 16 4;
}

abbrev wallet : Destination
wallet = record {
  kind = 0;
  name_hash = replicate 10 4;
  hash = replicate 16 4;
  full_name = b'a' ∷ [];
}

announces :
    (load_private trusting key ≡ ok node)
    × (create_single trusting node (b'a' ∷ []) [] ≡ ok wallet)
    × (encode trusting wallet node (replicate 10 7) (1 ∷ 2 ∷ []) 464 ≡ ok wire)
unfolding load_private update_hash Crypto.public_key Crypto.sha256 Crypto.sign bytes_zero
    create_single fill_common name_hash build_full_name append_aspects token_is_valid get_hash
    encode build_signed_data get_public_key sign
announces = (refl, refl, refl)

pub trusting-IsSigning : IsSigning trusting
unfolding bytes_zero
trusting-IsSigning = record {
  digest_length = λ m h e. let g : h ≡ replicate 32 4 = cc in rw g refl;
  x_length = λ a h. h;
  x_nonzero = λ a h. h;
  ed_length = λ seed. refl;
  ed_nonzero = λ seed. refl;
  signature_length = λ key m. refl;
  signed = λ seed m. refl;
}

verify-encode_example :
    (a : Announce) × (Announce.verify trusting packet ≡ ok a)
    × (a.destination_hash ≡ wallet.hash)
    × (get_public_key node ≡ ok a.public_key)
    × (a.app_data ≡ 1 ∷ 2 ∷ [])
verify-encode_example =
    verify-encode trusting trusting-IsSigning key (replicate 10 7) (1 ∷ 2 ∷ []) wire (b'a' ∷ []) []
      node wallet packet 464 (omega arith) announces.0 announces.1 refl announces.2
      (record { kind = refl; to = refl; plain = refl; of_destination = refl; payload = refl })

abbrev entry : Known
entry = record {
  in_use = true;
  destination_hash = replicate 16 4;
  packet_hash = replicate 32 4;
  public_key = replicate 32 2 ++ replicate 32 6;
  app_data = 1 ∷ 2 ∷ [];
}

-- The second packet has another key for the destination, and is refused.
abbrev usurper : Packet
usurper = record packet { payload = replicate 64 3 ++ drop 64 wire }

learns :
    (find_known (learn trusting Directory.empty (packet ∷ [])) (replicate 16 4) ≡ some entry)
    × (find_known (learn trusting Directory.empty (packet ∷ usurper ∷ [])) (replicate 16 4)
        ≡ some entry)
    × (known_count (learn trusting Directory.empty (packet ∷ usurper ∷ [])) ≡ 1)
    × ((verify_and_remember trusting (learn trusting Directory.empty (packet ∷ [])) usurper).1
        ≡ err invalid_state)
unfolding find_known learn verify_and_remember remember Announce.verify Announce.check_signature
    decode compute_destination_hash build_signed_data load_public update_hash get_hash verify
    Crypto.verify Crypto.sha256 bytes_zero hash_equal constant_equal slot_for packet_hash pack
    hashable header_byte enum_values_valid known_count
learns = (refl, refl, refl, refl)

known_lem_example :
    ((name : Bytes) × (compute_destination_hash trusting name entry.public_key
        ≡ ok (replicate 16 4)))
    × Keeps
        (learn trusting (learn trusting Directory.empty (packet ∷ [])) (usurper ∷ []))
        (replicate 16 4)
        entry
known_lem_example = known_lem trusting (packet ∷ []) (usurper ∷ []) (replicate 16 4) entry learns.0
