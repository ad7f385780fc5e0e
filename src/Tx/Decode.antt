-- ===== src/Tx/Decode.antt =====
-- components/meshpay_tx/meshpay_tx.c: `meshpay_tx_decode`.
use meshpay_v.Base.{
  ℕ, zero, suc, ◌^◌, Bool, true, false, not, ◌&&◌, ◌||◌, List, [], ◌∷◌, Bytes, Result, ok, err,
  invalid_arg, ◌>>=◌, ltb, ◌==◌, if◌then◌else◌, set, bit_and, bit_or, check,
}
use meshpay_v.Tx.{
  Tx, cleared, transfer, mint, claim, max_parents, id_size, hash_size, signature_size, public_size,
}
use meshpay_v.Tx.Cbor.{read_type_value, read_bstr}
use meshpay_v.Tx.Codec.{validate_common}

-- `cbor_read_uint`
abbrev pub read_uint : Bytes → Result (ℕ × Bytes)
read_uint = read_type_value 0

-- A `uint32_t` field.
unfoldable pub read_u32 : Bytes → Result (ℕ × Bytes)
read_u32 r = do
  (value, r') ← read_uint r
  if ltb 0xffffffff value then err invalid_arg else ok (value, r')

-- The loop over `tx->parents`, from slot `i` on.
unfoldable pub read_parents : ℕ → ℕ → List Bytes → Bytes → Result (List Bytes × Bytes)
read_parents zero i parents r = ok (parents, r)
read_parents (suc n) i parents r = do
  (parent, r') ← read_bstr id_size r
  read_parents n (suc i) (set parents i parent) r'

unfoldable pub read_kind : Tx → Bytes → Result (Tx × Bytes)
read_kind t r = do
  (value, r') ← read_uint r
  if not (value == transfer) && not (value == mint) && not (value == claim)
      then err invalid_arg
      else ok (record t { kind = value }, r')

unfoldable pub read_parent_list : Tx → Bytes → Result (Tx × Bytes)
unfolding read_parents
read_parent_list t r = do
  (count, r') ← read_type_value 4 r
  if ltb max_parents count then err invalid_arg else do
    (parents, r'') ← read_parents count 0 t.parents r'
    ok (record t { parent_count = count; parents = parents }, r'')

-- What a read puts into a field.
abbrev store {ℓ} : {A : Type ℓ} → (A → Tx) → Result (A × Bytes) → Result (Tx × Bytes)
store f (ok (v, r)) = ok (f v, r)
store f (err e) = err e

-- The cases of the `switch` on the key.
unfoldable pub read_field : ℕ → Tx → Bytes → Result (Tx × Bytes)
unfolding read_u32 read_kind read_parent_list
read_field key t r =
    if key == 1
    then read_kind t r
    else if key == 2
    then store (λ v. record t { from = v }) (read_bstr hash_size r)
    else if key == 3
    then store (λ v. record t { to = v }) (read_bstr hash_size r)
    else if key == 4
    then store (λ v. record t { amount = v }) (read_u32 r)
    else if key == 5
    then store (λ v. record t { seq = v }) (read_u32 r)
    else if key == 6
    then store (λ v. record t { fee = v }) (read_u32 r)
    else if key == 7
    then read_parent_list t r
    else if key == 8
    then store (λ v. record t { timestamp_ms = v }) (read_uint r)
    else if key == 9
    then store (λ v. record t { currency_id = v }) (read_u32 r)
    else if key == 10
    then store (λ v. record t { id = v }) (read_bstr id_size r)
    else if key == 11
    then store (λ v. record t { signature = v }) (read_bstr signature_size r)
    else if key == 12
    then store (λ v. record t { member_public = v }) (read_bstr public_size r)
    else err invalid_arg

-- The loop over the entries of the map; `present` is the mask of the keys seen.
unfoldable pub read_entries : ℕ → Tx → ℕ → Bytes → Result (Tx × ℕ × Bytes)
unfolding read_field
read_entries zero t present r = ok (t, present, r)
read_entries (suc n) t present r = do
  (key, r') ← read_uint r
  if ltb 31 key
      then err invalid_arg
      else if not (bit_and present (2 ^ key) == 0)
      then err invalid_arg
      else do (t', r'') ← read_field key t r'; read_entries n t' (bit_or present (2 ^ key)) r''

-- The keys 1 to 11.
abbrev pub required : ℕ
required = 0xffe

unfoldable pub is_empty : Bytes → Bool
is_empty [] = true
is_empty (b ∷ bs) = false

-- `meshpay_tx_decode`
unfoldable pub decode : Bytes → Result Tx
unfolding read_entries is_empty
decode data' = do
  (map_len, r) ← read_type_value 5 data'
  if not (map_len == 11) && not (map_len == 12) then err invalid_arg else do
    (t, present, r') ← read_entries map_len cleared 0 r
    if not (bit_and present required == required) || not (is_empty r')
        then err invalid_arg
        else do tt ← check (validate_common t true); ok t
