-- ===== src/Tx/Codec.antt =====
-- components/meshpay_tx/meshpay_tx.c: validation, canonical encoding, signing and verification of
-- a transaction.
use meshpay_v.Base.{
  ℕ, zero, suc, ◌+◌, Bool, true, false, not, ◌&&◌, ◌||◌, List, [], ◌∷◌, Bytes, zeros, Err, esp_ok,
  invalid_arg, invalid_size, invalid_state, Result, ok, err, ◌>>=◌, ltb, leb, ◌==◌, if◌then◌else◌,
  length, take, replicate, bytes_zero, mem_equal, constant_equal, fits, check,
}
use meshpay_v.Tx.{Tx, cleared, transfer, mint, claim, max_parents, id_size}
use meshpay_v.Tx.Cbor.{Writer, write_uint, write_bstr, write_array, write_map}
use meshpay_v.Crypto
use meshpay_v.Crypto.{Provider}
use meshpay_v.Identity
use meshpay_v.Identity.{Identity}

abbrev pub cbor_max_size : ℕ
cbor_max_size = 320

-- `validate_common`, the part on the fields that a claim publishes: `seq` and `member_public`.
unfoldable pub validate_claim : Tx → Err
validate_claim t =
    if t.kind == claim
    then if not (t.fee == 0) || not (mem_equal t.from t.to)
      then invalid_arg
      else if not (t.seq == 0)
      then invalid_arg
      else if bytes_zero t.member_public
      then invalid_arg
      else esp_ok
    else if not (bytes_zero t.member_public)
    then invalid_arg
    else esp_ok

-- `validate_common`
unfoldable pub validate_common : Tx → Bool → Err
unfolding validate_claim
validate_common t require_signature =
    if not (t.kind == transfer) && not (t.kind == mint) && not (t.kind == claim)
    then invalid_arg
    else if bytes_zero t.from || bytes_zero t.to
    then invalid_arg
    else if t.amount == 0 || ltb max_parents t.parent_count
    then invalid_arg
    else if t.kind == transfer && leb t.amount t.fee
    then invalid_arg
    else if t.kind == mint && not (t.fee == 0)
    then invalid_arg
    else if not (fits (validate_claim t))
    then validate_claim t
    else if require_signature && (bytes_zero t.id || bytes_zero t.signature)
    then invalid_arg
    else esp_ok

-- `signable_field_count`
abbrev pub signable_field_count : Tx → ℕ
signable_field_count t = 9 + (if t.kind == claim then 1 else 0)

-- The loop over `tx->parents`.
unfoldable pub write_parents : List Bytes → Writer → Result Writer
write_parents [] w = ok w
write_parents (parent ∷ rest) w = write_bstr parent w >>= write_parents rest

-- The entry that only a claim has.
unfoldable pub write_member : Tx → Writer → Result Writer
write_member t w = if t.kind == claim then write_uint 12 w >>= write_bstr t.member_public else ok w

-- `encode_signable_fields`
unfoldable pub encode_signable_fields : Tx → Writer → Result Writer
unfolding write_parents write_member
encode_signable_fields t w =
    write_uint 1 w
    >>= write_uint t.kind
    >>= write_uint 2
    >>= write_bstr t.from
    >>= write_uint 3
    >>= write_bstr t.to
    >>= write_uint 4
    >>= write_uint t.amount
    >>= write_uint 5
    >>= write_uint t.seq
    >>= write_uint 6
    >>= write_uint t.fee
    >>= write_uint 7
    >>= write_array t.parent_count
    >>= write_parents (take t.parent_count t.parents)
    >>= write_uint 8
    >>= write_uint t.timestamp_ms
    >>= write_uint 9
    >>= write_uint t.currency_id
    >>= write_member t

abbrev pub open_writer : ℕ → Writer
open_writer size = record { size = size; written = [] }

-- `meshpay_tx_encode_signable`, into a buffer of `out_size` bytes.
unfoldable pub encode_signable : Tx → ℕ → Result Bytes
encode_signable t out_size = do
  tt ← check (validate_common t false)
  w ← write_map (signable_field_count t) (open_writer out_size)
  w' ← encode_signable_fields t w
  ok w'.written

-- `meshpay_tx_encode`
unfoldable pub encode : Tx → ℕ → Result Bytes
encode t out_size = do
  tt ← check (validate_common t true)
  w ←
      write_map (signable_field_count t + 2) (open_writer out_size)
      >>= encode_signable_fields t
      >>= write_uint 10
      >>= write_bstr t.id
      >>= write_uint 11
      >>= write_bstr t.signature
  if ltb cbor_max_size (length w.written) then err invalid_size else ok w.written

-- `for (i = 0; i < parent_count && i < MAX_PARENTS; ++i) memcpy(tx->parents[i], parents[i])`, over
-- an array that is zero: the slots, the count and what is left of `parents`.
unfoldable pub copy_parents : ℕ → ℕ → List Bytes → List Bytes
copy_parents zero count parents = []
copy_parents (suc k) (suc n) (parent ∷ rest) = parent ∷ copy_parents k n rest
copy_parents (suc k) _ _ = replicate (suc k) (zeros id_size)

module _ (p : Provider) where
  -- `meshpay_tx_compute_id`
  unfoldable pub compute_id : Tx → Result Bytes
  compute_id t = do signable ← encode_signable t cbor_max_size; Crypto.sha256 p signable

  -- `meshpay_tx_sign`
  unfoldable pub sign : Tx → Identity → Result Tx
  unfolding compute_id
  sign t signer = do
    id ← compute_id t
    signature ← Identity.sign p signer id
    ok (record t { id = id; signature = signature })

  -- `meshpay_tx_verify`
  unfoldable pub verify : Tx → Identity → Err
  unfolding compute_id
  verify t from_identity =
      if not (fits (validate_common t true)) then validate_common t true else elim (compute_id t) [
        | err e ↦ e
        | ok computed ↦
            if not (constant_equal computed t.id)
            then invalid_state
            else Identity.verify p from_identity t.id t.signature
      ]

  -- The end that the three constructors share.
  unfoldable pub finish : Tx → Identity → Result Tx
  unfolding sign
  finish t signer = do tt ← check (validate_common t false); sign t signer

  -- `meshpay_tx_create_transfer`
  unfoldable pub create_transfer :
      Identity → Bytes → Bytes → ℕ → ℕ → ℕ → ℕ → List Bytes → ℕ → ℕ → Result Tx
  unfolding finish copy_parents
  create_transfer signer from to amount seq fee currency parents parent_count timestamp =
      finish
        (record cleared {
          kind = transfer;
          from = from;
          to = to;
          amount = amount;
          seq = seq;
          fee = fee;
          currency_id = currency;
          timestamp_ms = timestamp;
          parent_count = parent_count;
          parents = copy_parents max_parents parent_count parents;
        })
        signer

  -- `meshpay_tx_create_mint`
  unfoldable pub create_mint : Identity → Bytes → Bytes → ℕ → ℕ → ℕ → List Bytes → ℕ → ℕ → Result Tx
  unfolding finish copy_parents
  create_mint signer from to amount seq currency parents parent_count timestamp =
      finish
        (record cleared {
          kind = mint;
          from = from;
          to = to;
          amount = amount;
          seq = seq;
          fee = 0;
          currency_id = currency;
          timestamp_ms = timestamp;
          parent_count = parent_count;
          parents = copy_parents max_parents parent_count parents;
        })
        signer

  -- `meshpay_tx_create_claim`
  unfoldable pub create_claim : Identity → Bytes → ℕ → ℕ → List Bytes → ℕ → ℕ → Result Tx
  unfolding finish copy_parents
  create_claim signer member amount currency parents parent_count timestamp = do
    public ← Identity.get_public_key signer
    finish
        (record cleared {
          kind = claim;
          from = member;
          to = member;
          member_public = public;
          amount = amount;
          seq = 0;
          fee = 0;
          currency_id = currency;
          timestamp_ms = timestamp;
          parent_count = parent_count;
          parents = copy_parents max_parents parent_count parents;
        })
        signer
