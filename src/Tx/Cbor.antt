-- ===== src/Tx/Cbor.antt =====
-- The CBOR writer and reader of components/meshpay_tx/meshpay_tx.c.
use meshpay_v.Base.{
  ℕ, zero, suc, ◌-◌, ◌*◌, ◌/◌, ◌%◌, ◌^◌, not, ◌||◌, [], ◌∷◌, ◌++◌, Bytes, Result, ok, err,
  invalid_arg, invalid_size, no_mem, ◌>>=◌, ltb, leb, ◌==◌, if◌then◌else◌, length, take, drop,
  bit_or, bit_and,
}

-- `cbor_writer_t`: the bytes before `pos` and the size of the buffer.
pub record Writer : Type 0 where
  pub size : ℕ
  pub written : Bytes

-- `writer_put`
unfoldable pub put : ℕ → Writer → Result Writer
put byte w =
    if leb w.size (length w.written)
    then err no_mem
    else ok (record w { written = w.written ++ byte ∷ [] })

-- `writer_put_bytes`
unfoldable pub put_bytes : Bytes → Writer → Result Writer
put_bytes bytes w =
    if ltb w.size (length bytes) || ltb (w.size - length bytes) (length w.written)
    then err no_mem
    else ok (record w { written = w.written ++ bytes })

-- `for (shift = 8 * (n - 1); shift >= 0; shift -= 8) put(value >> shift)`
unfoldable pub put_big_endian : ℕ → ℕ → Writer → Result Writer
put_big_endian zero value w = ok w
put_big_endian (suc n) value w = put (value / 2 ^ (8 * n) % 256) w >>= put_big_endian n value

-- `(uint8_t)((major << 5) | low)`
abbrev pub initial : ℕ → ℕ → ℕ
initial major low = bit_or (major * 32) low % 256

-- `cbor_write_type_value`
unfoldable pub write_type_value : ℕ → ℕ → Writer → Result Writer
unfolding put_big_endian
write_type_value major value w =
    if ltb value 24
    then put (initial major value) w
    else if leb value 0xff
    then put (initial major 24) w >>= put_big_endian 1 value
    else if leb value 0xffff
    then put (initial major 25) w >>= put_big_endian 2 value
    else if leb value 0xffffffff
    then put (initial major 26) w >>= put_big_endian 4 value
    else put (initial major 27) w >>= put_big_endian 8 value

-- `cbor_write_uint`
abbrev pub write_uint : ℕ → Writer → Result Writer
write_uint = write_type_value 0

-- `cbor_write_bstr`
unfoldable pub write_bstr : Bytes → Writer → Result Writer
write_bstr bytes w =
    if ltb 0xffffffff (length bytes)
    then err invalid_size
    else write_type_value 2 (length bytes) w >>= put_bytes bytes

-- `cbor_write_array`
unfoldable pub write_array : ℕ → Writer → Result Writer
write_array count w = if ltb 0xffffffff count then err invalid_size else write_type_value 4 count w

-- `cbor_write_map`
unfoldable pub write_map : ℕ → Writer → Result Writer
write_map count w = if ltb 0xffffffff count then err invalid_size else write_type_value 5 count w

-- `reader_get`. A reader is what it has not read: `buf[pos .. len)`.
unfoldable pub get : Bytes → Result (ℕ × Bytes)
get [] = err invalid_size
get (b ∷ rest) = ok (b, rest)

-- `value = (value << 8) | byte`, on `uint64_t`
unfoldable pub get_big_endian : ℕ → ℕ → Bytes → Result (ℕ × Bytes)
get_big_endian zero value r = ok (value, r)
get_big_endian (suc n) value r = do
  (byte, r') ← get r
  get_big_endian n (bit_or (value * 256 % 2 ^ 64) byte) r'

-- The number of bytes that follow the initial byte; none for a reserved code.
abbrev pub follow : ℕ → Bytes → Result (ℕ × Bytes)
follow additional r =
    if additional == 24
    then get_big_endian 1 0 r
    else if additional == 25
    then get_big_endian 2 0 r
    else if additional == 26
    then get_big_endian 4 0 r
    else if additional == 27
    then get_big_endian 8 0 r
    else err invalid_arg

-- `cbor_read_type_value`
unfoldable pub read_type_value : ℕ → Bytes → Result (ℕ × Bytes)
unfolding get_big_endian
read_type_value expected r = do
  (first, r') ← get r
  let additional = bit_and first 0x1f
  if not (first / 32 == expected) || additional == 31
      then err invalid_arg
      else if ltb additional 24
      then ok (additional, r')
      else follow additional r'

-- `cbor_read_bstr`
unfoldable pub read_bstr : ℕ → Bytes → Result (Bytes × Bytes)
read_bstr expected r = do
  (len, r') ← read_type_value 2 r
  if not (len == expected) || ltb (length r') len
      then err invalid_size
      else ok (take len r', drop len r')
