-- ===== src/Checkpoint/Codec.antt =====
-- components/checkpoint/checkpoint.c: the encoding, the hash and the signature of a checkpoint. Its
-- `cw_put` and `cw_head` are those of components/meshpay_tx/meshpay_tx.c, statement for statement.
use meshpay_v.Base.{
  ℕ, ◌+◌, ◌*◌, Bool, true, false, not, ◌||◌, List, [], ◌∷◌, Bytes, Err, esp_ok, invalid_arg,
  invalid_state, invalid_size, no_mem, Result, ok, err, ◌>>=◌, check, ltb, ◌==◌, if◌then◌else◌,
  length, any, bytes_zero, mem_equal,
}
use meshpay_v.Tx.Cbor.{Writer, put_bytes, write_type_value}
use meshpay_v.Crypto
use meshpay_v.Crypto.{Provider}
use meshpay_v.Identity
use meshpay_v.Identity.{Identity}
use meshpay_v.Checkpoint.{Account, Checkpoint, table}

-- The bytes 'C', 'H', 'K', 'P' and the version 1, least significant byte first.
abbrev pub prefix : Bytes
prefix = 0x43 ∷ 0x48 ∷ 0x4b ∷ 0x50 ∷ 1 ∷ 0 ∷ []

abbrev pub prefix_size : ℕ
prefix_size = 6

abbrev pub body_fields : ℕ
body_fields = 5

abbrev pub wire_fields : ℕ
wire_fields = 6

-- MESHPAY_CHECKPOINT_CBOR_MAX, for a table of `max` accounts.
abbrev pub checkpoint_cbor_max : ℕ → ℕ
checkpoint_cbor_max max = 6 + 40 + max * 96 + 70

-- `cw_head`
abbrev pub write_head : ℕ → ℕ → Writer → Result Writer
write_head = write_type_value

-- `cw_bstr`
unfoldable pub write_string : Bytes → Writer → Result Writer
write_string bytes w = write_head 2 (length bytes) w >>= put_bytes bytes

-- The accounts that are not zero and appear once.
unfoldable pub check_accounts : List Account → Err
check_accounts [] = esp_ok
check_accounts (a ∷ rest) =
    if bytes_zero a.account
    then invalid_arg
    else if any (λ b. mem_equal a.account b.account) rest
    then invalid_arg
    else check_accounts rest

-- `validate_body`
unfoldable pub validate_body : Checkpoint → Err
unfolding check_accounts
validate_body cp =
    if cp.currency_id == 0 || cp.generation == 0
    then invalid_arg
    else if ltb (length cp.accounts) cp.account_count
    then invalid_size
    else check_accounts (table cp)

-- One round of the loop over the accounts.
abbrev pub write_account : Account → Writer → Result Writer
write_account a w =
    write_head 4 4 w
    >>= write_string a.account
    >>= write_head 0 a.balance
    >>= write_head 0 a.seq_floor
    >>= write_string a.member_public

unfoldable pub write_accounts : List Account → Writer → Result Writer
write_accounts [] w = ok w
write_accounts (a ∷ rest) w = write_account a w >>= write_accounts rest

-- `encode_body_fields`
unfoldable pub encode_body_fields : Checkpoint → ℕ → Writer → Result Writer
unfolding write_accounts
encode_body_fields cp map_fields w =
    write_head 5 map_fields w
    >>= write_head 0 1
    >>= write_head 0 cp.currency_id
    >>= write_head 0 2
    >>= write_head 0 cp.generation
    >>= write_head 0 3
    >>= write_head 0 cp.created_at_ms
    >>= write_head 0 4
    >>= write_string cp.horizon_digest
    >>= write_head 0 5
    >>= write_head 4 cp.account_count
    >>= write_accounts (table cp)

-- The signature, as the last entry.
abbrev pub write_signature : Checkpoint → Bool → Writer → Result Writer
write_signature cp with_signature w =
    if with_signature then write_head 0 6 w >>= write_string cp.founder_signature else ok w

-- `encode_internal`
unfoldable pub encode_internal : Checkpoint → Bool → ℕ → Result Bytes
unfolding validate_body encode_body_fields
encode_internal cp with_signature out_size = do
  tt ← check (validate_body cp)
  tt ← check (if ltb out_size prefix_size then no_mem else esp_ok)
  w ←
      encode_body_fields cp (if with_signature then wire_fields else body_fields)
        (record { size = out_size; written = prefix })
      >>= write_signature cp with_signature
  ok w.written

-- `meshpay_checkpoint_encode_body`
abbrev pub encode_body : Checkpoint → ℕ → Result Bytes
encode_body cp out_size = encode_internal cp false out_size

-- `meshpay_checkpoint_encode`
unfoldable pub encode : Checkpoint → ℕ → Result Bytes
unfolding encode_internal
encode cp out_size =
    if bytes_zero cp.founder_signature then err invalid_state else encode_internal cp true out_size

module _ (p : Provider) where
  -- `meshpay_checkpoint_compute_hash`
  unfoldable pub compute_hash : Checkpoint → Result Bytes
  unfolding encode_internal
  compute_hash cp = do
    body ← encode_body cp (checkpoint_cbor_max (length cp.accounts))
    Crypto.sha256 p body

  -- `meshpay_checkpoint_sign`
  unfoldable pub sign : Checkpoint → Identity → Result Checkpoint
  unfolding compute_hash
  sign cp founder = if not founder.has_private then err invalid_arg else do
    hash ← compute_hash cp
    signature ← Identity.sign p founder hash
    ok (record cp { founder_signature = signature })

  -- `meshpay_checkpoint_verify`
  unfoldable pub verify : Checkpoint → Bytes → Err
  unfolding compute_hash
  verify cp founder_public = elim (compute_hash cp) [
    | err e ↦ e
    | ok hash ↦ elim (Identity.load_public p founder_public) [
      | err e ↦ e
      | ok founder ↦ Identity.verify p founder hash cp.founder_signature
    ]
  ]
