-- ===== src/Checkpoint/Decode.antt =====
-- components/checkpoint/checkpoint.c: the CBOR reader and the decoding of a checkpoint. A reader is what
-- it has not read.
use meshpay_v.Base.{
  ℕ, zero, suc, ◌/◌, ◌%◌, ◌^◌, not, ◌||◌, List, Bytes, invalid_arg, invalid_size, invalid_crc,
  invalid_version, Result, ok, err, ◌>>=◌, check, ltb, ◌==◌, if◌then◌else◌, length, take, drop, set,
  get_or, bit_and, bytes_zero,
}
use meshpay_v.Tx.{hash_size, public_size, signature_size}
use meshpay_v.Tx.Cbor.{get, follow}
use meshpay_v.Checkpoint.{Account, Checkpoint, empty, digest_size}
use meshpay_v.Checkpoint.Codec.{prefix_size, wire_fields, checkpoint_cbor_max, validate_body}

-- `cr_head`, the major type and the value
unfoldable pub read_head : Bytes → Result (ℕ × ℕ × Bytes)
read_head r = do
  (first, r') ← get r
  let additional = bit_and first 0x1f
  if ltb additional 24
      then ok (first / 32, additional, r')
      else do (value, rest) ← follow additional r'; ok (first / 32, value, rest)

-- `cr_expect_uint`
unfoldable pub expect_uint : Bytes → Result (ℕ × Bytes)
unfolding read_head
expect_uint r = do
  (major, value, rest) ← read_head r
  if major == 0 then ok (value, rest) else err invalid_arg

-- `cr_expect_bstr`
unfoldable pub expect_bstr : ℕ → Bytes → Result (Bytes × Bytes)
unfolding read_head
expect_bstr expected r = do
  (major, len, rest) ← read_head r
  if not (major == 2) || not (len == expected) || ltb (length rest) len
      then err invalid_size
      else ok (take len rest, drop len rest)

-- `cr_expect_uint` with the check that the value fits `uint32_t`
unfoldable pub expect_u32 : Bytes → Result (ℕ × Bytes)
unfolding expect_uint
expect_u32 r = do
  (value, rest) ← expect_uint r
  if ltb 0xffffffff value then err invalid_arg else ok (value, rest)

-- The same where zero is refused too.
unfoldable pub expect_id : Bytes → Result (ℕ × Bytes)
unfolding expect_uint
expect_id r = do
  (value, rest) ← expect_uint r
  if value == 0 || ltb 0xffffffff value then err invalid_arg else ok (value, rest)

-- One round of the loop over the accounts.
unfoldable pub read_account : Bytes → Result (Account × Bytes)
unfolding read_head expect_bstr expect_u32
read_account r = do
  (major, tuple, r1) ← read_head r
  if not (major == 4) || not (tuple == 4) then err invalid_arg else do
    (account, r2) ← expect_bstr hash_size r1
    (balance, r3) ← expect_u32 r2
    (seq_floor, r4) ← expect_u32 r3
    (member_public, r5) ← expect_bstr public_size r4
    ok (
      record {
        account = account;
        balance = balance;
        seq_floor = seq_floor;
        member_public = member_public;
      },
      r5,
    )

-- `for (i = 0; err == ESP_OK && i < n; ++i)`, from `i` on, with what is left to read.
unfoldable pub read_accounts : ℕ → ℕ → List Account → Bytes → Result (List Account × Bytes)
unfolding read_account
read_accounts zero i accounts r = ok (accounts, r)
read_accounts (suc left) i accounts r = do
  (a, rest) ← read_account r
  read_accounts left (suc i) (set accounts i a) rest

-- `case CP_KEY_ACCOUNTS`
unfoldable pub read_table : Checkpoint → Bytes → Result (Checkpoint × Bytes)
unfolding read_head read_accounts
read_table cp r = do
  (major, n, r1) ← read_head r
  if not (major == 4) || ltb (length cp.accounts) n then err invalid_size else do
    (accounts, rest) ← read_accounts n 0 cp.accounts r1
    ok (record cp { account_count = n % 2 ^ 16; accounts = accounts }, rest)

-- The `switch` on the key.
unfoldable pub read_value : ℕ → Checkpoint → Bytes → Result (Checkpoint × Bytes)
unfolding expect_id expect_uint expect_bstr read_table
read_value key cp r =
    if key == 1
    then (do (v, rest) ← expect_id r; ok (record cp { currency_id = v }, rest))
    else if key == 2
    then (do (v, rest) ← expect_id r; ok (record cp { generation = v }, rest))
    else if key == 3
    then (do (v, rest) ← expect_uint r; ok (record cp { created_at_ms = v }, rest))
    else if key == 4
    then (do (bs, rest) ← expect_bstr digest_size r; ok (record cp { horizon_digest = bs }, rest))
    else if key == 5
    then read_table cp r
    else if key == 6
    then (do
      (bs, rest) ← expect_bstr signature_size r
      ok (record cp { founder_signature = bs }, rest))
    else err invalid_arg

-- `for (field = 1; field <= CP_WIRE_FIELDS; ++field)`, with the number of rounds that are left.
unfoldable pub read_values : ℕ → ℕ → Checkpoint → Bytes → Result (Checkpoint × Bytes)
unfolding expect_uint read_value
read_values zero field cp r = ok (cp, r)
read_values (suc left) field cp r = do
  (key, r1) ← expect_uint r
  if not (key == field)
      then err invalid_arg
      else do (cp', rest) ← read_value key cp r1; read_values left (suc field) cp' rest

-- The end of `meshpay_checkpoint_decode`, behind the last entry.
unfoldable pub check_read : Checkpoint → Bytes → Result Checkpoint
unfolding validate_body
check_read cp r = if not (length r == 0) then err invalid_size else do
  tt ← check (validate_body cp)
  if bytes_zero cp.founder_signature then err invalid_arg else ok cp

-- `meshpay_checkpoint_decode`, for a table of `max` accounts
unfoldable pub decode : ℕ → Bytes → Result Checkpoint
unfolding read_head read_values check_read
decode max bytes =
    if ltb (length bytes) prefix_size || ltb (checkpoint_cbor_max max) (length bytes)
    then err invalid_size
    else if not (get_or bytes 0 0 == 0x43)
        || not (get_or bytes 1 0 == 0x48)
        || not (get_or bytes 2 0 == 0x4b)
        || not (get_or bytes 3 0 == 0x50)
    then err invalid_crc
    else if not (get_or bytes 4 0 == 1) || not (get_or bytes 5 0 == 0)
    then err invalid_version
    else do
      (major, count, r) ← read_head (drop prefix_size bytes)
      if not (major == 5) || not (count == wire_fields)
          then err invalid_arg
          else do (cp, rest) ← read_values 6 1 (empty max) r; check_read cp rest
