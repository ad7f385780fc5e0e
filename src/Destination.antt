-- ===== src/Destination.antt =====
-- components/rns_destination/rns_destination.c: the names and hashes of Reticulum destinations. A
-- C string is the list of its bytes, without the final zero.
pub mod Created
use meshpay_v.Base.{
  ℕ, ◌+◌, ◌-◌, Bool, false, not, ◌||◌, List, [], ◌∷◌, ◌++◌, Bytes, zeros, Result, ok, err,
  invalid_arg, invalid_size, ◌>>=◌, leb, ◌==◌, if◌then◌else◌, length, take, any, constant_equal,
}
use meshpay_v.Tx.{hash_size}
use meshpay_v.Crypto
use meshpay_v.Crypto.{Provider}
use meshpay_v.Identity
use meshpay_v.Identity.{Identity}

abbrev pub name_hash_size : ℕ
name_hash_size = 10

abbrev pub max_full_name : ℕ
max_full_name = 64

-- `rns_destination_type_t`
abbrev pub single : ℕ
single = 0

abbrev pub group : ℕ
group = 1

abbrev pub plain : ℕ
plain = 2

abbrev pub link : ℕ
link = 3

-- `rns_destination_t`
pub record Destination : Type 0 where
  pub kind : ℕ
  pub name_hash : Bytes
  pub hash : Bytes
  pub full_name : Bytes

-- `token_is_valid`
unfoldable pub token_is_valid : Bytes → Bool
token_is_valid [] = false
token_is_valid (c ∷ cs) = not (any (λ b. b == b'.') (c ∷ cs))

-- The loop of `rns_destination_build_full_name`: `snprintf(out + used, out_len - used, ".%s", …)`.
unfoldable pub append_aspects : ℕ → Bytes → List Bytes → Result Bytes
append_aspects out_len used [] = ok used
append_aspects out_len used (aspect ∷ rest) =
    let more = append_aspects out_len (used ++ (b'.' ∷ aspect)) rest in
    if not (token_is_valid aspect)
    then err invalid_arg
    else if leb (out_len - length used) (length aspect + 1)
    then err invalid_size
    else more

-- `rns_destination_build_full_name`
unfoldable pub build_full_name : Bytes → List Bytes → ℕ → Result Bytes
unfolding append_aspects
build_full_name app aspects out_len =
    if out_len == 0 || not (token_is_valid app)
    then err invalid_arg
    else if leb out_len (length app)
    then err invalid_size
    else append_aspects out_len app aspects

-- `rns_destination_hash_equal`
unfoldable pub hash_equal : Bytes → Bytes → Bool
hash_equal a b = constant_equal a b

abbrev pub app_name : Bytes
app_name = b'm' ∷ b'e' ∷ b's' ∷ b'h' ∷ b'p' ∷ b'a' ∷ b'y' ∷ []

abbrev pub wallet_aspect : Bytes
wallet_aspect = b'w' ∷ b'a' ∷ b'l' ∷ b'l' ∷ b'e' ∷ b't' ∷ []

module _ (p : Provider) where
  -- `rns_destination_name_hash`
  unfoldable pub name_hash : Bytes → List Bytes → Result Bytes
  name_hash app aspects = do
    full_name ← build_full_name app aspects max_full_name
    full ← Crypto.sha256 p full_name
    ok (take name_hash_size full)

  -- `destination_fill_common`: the full name and the name hash.
  unfoldable pub fill_common : Bytes → List Bytes → Result (Bytes × Bytes)
  unfolding name_hash
  fill_common app aspects = do
    full_name ← build_full_name app aspects max_full_name
    hash ← name_hash app aspects
    ok (full_name, hash)

  -- `rns_destination_create_single`
  unfoldable pub create_single : Identity → Bytes → List Bytes → Result Destination
  unfolding fill_common
  create_single identity app aspects = do
    (full_name, name) ← fill_common app aspects
    identity_hash ← Identity.get_hash identity
    full ← Crypto.sha256 p (name ++ identity_hash)
    ok (record {
      kind = single;
      name_hash = name;
      hash = take hash_size full;
      full_name = full_name;
    })

  -- `rns_destination_create_plain`
  unfoldable pub create_plain : Bytes → List Bytes → Result Destination
  unfolding fill_common
  create_plain app aspects = do
    (full_name, name) ← fill_common app aspects
    full ← Crypto.sha256 p name
    ok (record {
      kind = plain;
      name_hash = name;
      hash = take hash_size full;
      full_name = full_name;
    })

  -- `rns_destination_create_meshpay_wallet`
  unfoldable pub create_wallet : Identity → Result Destination
  unfolding create_single
  create_wallet identity = create_single identity app_name (wallet_aspect ∷ [])

-- `rns_destination_create_link`
unfoldable pub create_link : Bytes → Destination
create_link hash = record {
  kind = link;
  name_hash = zeros name_hash_size;
  hash = hash;
  full_name = [];
}
