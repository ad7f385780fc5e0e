-- ===== src/Announce.antt =====
-- components/rns_announce/rns_announce.c: announces, by which an identity publishes its key and its
-- destination. An array with its length is the list of its first entries.
pub mod Directory
pub mod Verify
pub mod Accept
pub mod Trust
pub mod Tests
use meshpay_v.Base.{
  ℕ, ◌+◌, not, ◌||◌, ◌++◌, Bool, Bytes, Err, invalid_arg, invalid_state, invalid_size,
  not_supported, Result, ok, err, ◌>>=◌, check, ltb, ◌==◌, if◌then◌else◌, length, take, drop,
  bytes_zero,
}
use meshpay_v.Tx.{hash_size}
use meshpay_v.Crypto
use meshpay_v.Crypto.{Provider}
use meshpay_v.Identity
use meshpay_v.Identity.{Identity}
use meshpay_v.Destination.{Destination, single, hash_equal, name_hash_size}
use meshpay_v.Packet.{Packet, max_data}

-- `RNS_PACKET_TYPE_ANNOUNCE`
abbrev pub announce : ℕ
announce = 1

abbrev pub random_hash_size : ℕ
random_hash_size = 10

abbrev pub public_key_size : ℕ
public_key_size = 64

abbrev pub signature_size : ℕ
signature_size = 64

-- `RNS_ANNOUNCE_BASE_SIZE`
abbrev pub base_size : ℕ
base_size = 148

-- `RNS_ANNOUNCE_MAX_APP_DATA_SIZE`
abbrev pub max_app_data : ℕ
max_app_data = 316

-- The size of `signed_data`.
abbrev pub signed_size : ℕ
signed_size = hash_size + public_key_size + name_hash_size + random_hash_size + max_app_data

-- `rns_announce_t`
pub record Announce : Type 0 where
  pub destination_hash : Bytes
  pub public_key : Bytes
  pub name_hash : Bytes
  pub random_hash : Bytes
  pub signature : Bytes
  pub app_data : Bytes

-- `build_signed_data`, into a buffer of `out_len` bytes
unfoldable pub build_signed_data : Bytes → Bytes → Bytes → Bytes → Bytes → ℕ → Result Bytes
build_signed_data destination_hash public_key name_hash random_hash app_data out_len =
    if ltb out_len
      (hash_size + public_key_size + name_hash_size + random_hash_size + length app_data)
    then err invalid_size
    else ok (destination_hash ++ (public_key ++ (name_hash ++ (random_hash ++ app_data))))

-- `rns_announce_decode`
unfoldable pub decode : Packet → Result Announce
decode k =
    let behind_key = drop public_key_size k.payload in
    let behind_name = drop name_hash_size behind_key in
    let behind_random = drop random_hash_size behind_name in
    let behind_signature = drop signature_size behind_random in
    if not (k.packet_type == announce) || not (k.destination_type == single)
    then err invalid_arg
    else if k.context_flag
    then err not_supported
    else if ltb (length k.payload) base_size || ltb max_data (length k.payload)
    then err invalid_size
    else if ltb max_app_data (length behind_signature)
    then err invalid_size
    else ok (record {
      destination_hash = k.destination_hash;
      public_key = take public_key_size k.payload;
      name_hash = take name_hash_size behind_key;
      random_hash = take random_hash_size behind_name;
      signature = take signature_size behind_random;
      app_data = behind_signature;
    })

module _ (p : Provider) where
  -- `compute_destination_hash`
  unfoldable pub compute_destination_hash : Bytes → Bytes → Result Bytes
  compute_destination_hash name_hash public_key = do
    identity ← Identity.load_public p public_key
    hash ← Identity.get_hash identity
    full ← Crypto.sha256 p (name_hash ++ hash)
    ok (take hash_size full)

  -- `rns_announce_encode`, into a buffer of `out_len` bytes
  unfoldable pub encode : Destination → Identity → Bytes → Bytes → ℕ → Result Bytes
  unfolding build_signed_data
  encode destination identity random_hash app_data out_len =
      let needed = base_size + length app_data in
      if bytes_zero random_hash
      then err invalid_arg
      else if not (destination.kind == single)
          || not identity.has_private
          || ltb max_app_data (length app_data)
      then err invalid_size
      else if ltb out_len needed || ltb max_data needed
      then err invalid_size
      else do
        public ← Identity.get_public_key identity
        signed ←
            build_signed_data destination.hash public destination.name_hash random_hash app_data
              signed_size
        signature ← Identity.sign p identity signed
        ok (public ++ (destination.name_hash ++ (random_hash ++ (signature ++ app_data))))

  -- The signature of a decoded announce, under the key that it carries.
  unfoldable pub check_signature : Announce → Result (Unit {0})
  check_signature a = do
    signed ←
        build_signed_data a.destination_hash a.public_key a.name_hash a.random_hash a.app_data
          signed_size
    identity ← Identity.load_public p a.public_key
    check (Identity.verify p identity signed a.signature)

  -- `rns_announce_verify`
  unfoldable pub verify : Packet → Result Announce
  unfolding compute_destination_hash check_signature
  verify k = do
    a ← decode k
    if bytes_zero a.random_hash then err invalid_state else do
      expected ← compute_destination_hash a.name_hash a.public_key
      if not (hash_equal k.destination_hash expected)
          then err invalid_state
          else do tt ← check_signature a; ok a
