-- ===== src/Tx/Errors.antt =====
-- The error codes of the encoder of components/meshpay_tx/meshpay_tx.c.
use meshpay_v.Base.{
  ℕ, zero, suc, ◌-◌, ◌≡◌, ◌≢◌, inl, inr, false, ◌||◌, List, [], ◌∷◌, Bytes, Err, esp_ok, Result, ok,
  err, ◌>>=◌, check, ltb, leb, ◌==◌, Bool-cases, Option-cases, length, take,
}
use meshpay_v.Tx.{Tx, claim}
use meshpay_v.Tx.Cbor.{
  Writer, put, put_bytes, put_big_endian, write_type_value, write_uint, write_bstr, write_array,
  write_map,
}
use meshpay_v.Tx.Codec.{
  validate_common, write_parents, write_member, encode_signable_fields, encode_signable, compute_id,
  cbor_max_size, signable_field_count, open_writer,
}
use meshpay_v.Crypto
use meshpay_v.Crypto.{Provider}

-- A call that fails does not return `ESP_OK`.
pub data Fails {A : Type 0} : Result A → Type 0 where
  fine : {a : A} → Fails (ok a)
  failed : {e : Err} → e ≢ esp_ok → Fails (err e)

Fails-bind :
    {A B : Type 0} (r : Result A) (f : A → Result B)
    → Fails r
    → ((a : A) → Fails (f a))
    → Fails (r >>= f)
Fails-bind (ok a) f h k = k a
Fails-bind (err e) f (failed ne) k = failed ne

check-Fails : (e : Err) → Fails (check e)
check-Fails esp_ok = fine
check-Fails Err.invalid_arg = failed (λ e. cc)
check-Fails Err.invalid_state = failed (λ e. cc)
check-Fails Err.invalid_size = failed (λ e. cc)
check-Fails Err.invalid_response = failed (λ e. cc)
check-Fails Err.invalid_crc = failed (λ e. cc)
check-Fails Err.invalid_version = failed (λ e. cc)
check-Fails Err.no_mem = failed (λ e. cc)
check-Fails Err.not_found = failed (λ e. cc)
check-Fails Err.not_supported = failed (λ e. cc)
check-Fails Err.timeout = failed (λ e. cc)
check-Fails Err.esp_other = failed (λ e. cc)

put-Fails : (b : ℕ) (w : Writer) → Fails (put b w)
unfolding put
put-Fails b w = elim (Bool-cases (leb w.size (length w.written))) [
  | inl full ↦ rw full (failed (λ e. cc))
  | inr room ↦ rw room fine
]

put_bytes-Fails : (bs : Bytes) (w : Writer) → Fails (put_bytes bs w)
unfolding put_bytes
put_bytes-Fails bs w =
    elim (Bool-cases (ltb w.size (length bs) || ltb (w.size - length bs) (length w.written))) [
      | inl full ↦ rw full (failed (λ e. cc))
      | inr room ↦ rw room fine
    ]

put_big_endian-Fails : (n value : ℕ) (w : Writer) → Fails (put_big_endian n value w)
unfolding put_big_endian
put_big_endian-Fails zero value w = fine
put_big_endian-Fails (suc n) value w =
    Fails-bind _ (put_big_endian n value) (put-Fails _ w) (put_big_endian-Fails n value)

put_head-Fails : (b n value : ℕ) (w : Writer) → Fails (put b w >>= put_big_endian n value)
put_head-Fails b n value w =
    Fails-bind (put b w) (put_big_endian n value) (put-Fails b w) (put_big_endian-Fails n value)

write_type_value-Fails : (major value : ℕ) (w : Writer) → Fails (write_type_value major value w)
unfolding write_type_value
write_type_value-Fails major value w = elim (Bool-cases (ltb value 24)) [
  | inl a ↦ rw a (put-Fails _ w)
  | inr a ↦ elim (Bool-cases (leb value 0xff)) [
    | inl b ↦ rw (a, b) (put_head-Fails _ 1 value w)
    | inr b ↦ elim (Bool-cases (leb value 0xffff)) [
      | inl k ↦ rw (a, b, k) (put_head-Fails _ 2 value w)
      | inr k ↦ elim (Bool-cases (leb value 0xffffffff)) [
        | inl l ↦ rw (a, b, k, l) (put_head-Fails _ 4 value w)
        | inr l ↦ rw (a, b, k, l) (put_head-Fails _ 8 value w)
      ]
    ]
  ]
]

write_bstr-Fails : (bs : Bytes) (w : Writer) → Fails (write_bstr bs w)
unfolding write_bstr
write_bstr-Fails bs w = elim (Bool-cases (ltb 0xffffffff (length bs))) [
  | inl long ↦ rw long (failed (λ e. cc))
  | inr short ↦
      rw short
        (Fails-bind _ (put_bytes bs) (write_type_value-Fails 2 (length bs) w) (put_bytes-Fails bs))
]

write_array-Fails : (n : ℕ) (w : Writer) → Fails (write_array n w)
unfolding write_array
write_array-Fails n w = elim (Bool-cases (ltb 0xffffffff n)) [
  | inl long ↦ rw long (failed (λ e. cc))
  | inr short ↦ rw short (write_type_value-Fails 4 n w)
]

write_map-Fails : (n : ℕ) (w : Writer) → Fails (write_map n w)
unfolding write_map
write_map-Fails n w = elim (Bool-cases (ltb 0xffffffff n)) [
  | inl long ↦ rw long (failed (λ e. cc))
  | inr short ↦ rw short (write_type_value-Fails 5 n w)
]

write_parents-Fails : (ps : List Bytes) (w : Writer) → Fails (write_parents ps w)
unfolding write_parents
write_parents-Fails [] w = fine
write_parents-Fails (q ∷ ps) w =
    Fails-bind (write_bstr q w) (write_parents ps) (write_bstr-Fails q w) (write_parents-Fails ps)

write_uint-Fails : (n : ℕ) (w : Writer) → Fails (write_uint n w)
write_uint-Fails = write_type_value-Fails 0

write_member-Fails : (t : Tx) (w : Writer) → Fails (write_member t w)
unfolding write_member
write_member-Fails t w = elim (Bool-cases (t.kind == claim)) [
  | inl k ↦ rw k (
      Fails-bind (write_uint 12 w) (write_bstr t.member_public) (write_uint-Fails 12 w)
        (write_bstr-Fails t.member_public))
  | inr k ↦ rw k fine
]

infixl 5 ◌>>◌
-- One writer after another.
abbrev ◌>>◌ :
    {A B : Type 0} {r : Result A} {f : A → Result B}
    → Fails r
    → ((a : A) → Fails (f a))
    → Fails (r >>= f)
◌>>◌ {r = r} {f = f} h k = Fails-bind r f h k

encode_signable_fields-Fails : (t : Tx) (w : Writer) → Fails (encode_signable_fields t w)
unfolding encode_signable_fields
encode_signable_fields-Fails t w =
    write_uint-Fails 1 w
    >> write_uint-Fails t.kind
    >> write_uint-Fails 2
    >> write_bstr-Fails t.from
    >> write_uint-Fails 3
    >> write_bstr-Fails t.to
    >> write_uint-Fails 4
    >> write_uint-Fails t.amount
    >> write_uint-Fails 5
    >> write_uint-Fails t.seq
    >> write_uint-Fails 6
    >> write_uint-Fails t.fee
    >> write_uint-Fails 7
    >> write_array-Fails t.parent_count
    >> write_parents-Fails (take t.parent_count t.parents)
    >> write_uint-Fails 8
    >> write_uint-Fails t.timestamp_ms
    >> write_uint-Fails 9
    >> write_uint-Fails t.currency_id
    >> write_member-Fails t

sha256-Fails : (p : Provider) (message : Bytes) → Fails (Crypto.sha256 p message)
unfolding Crypto.sha256
sha256-Fails p message = elim (Option-cases (p.mbedtls_sha256 message)) [
  | inl none' ↦ rw (none', Crypto.sha256) (failed (λ e. cc))
  | inr (h, there) ↦ rw (there, Crypto.sha256) fine
]

pub compute_id-Fails : (p : Provider) (t : Tx) → Fails (compute_id p t)
unfolding compute_id encode_signable Crypto.sha256
compute_id-Fails p t =
    Fails-bind (encode_signable t cbor_max_size) (Crypto.sha256 p)
      (Fails-bind (check (validate_common t false)) _ (check-Fails (validate_common t false)) (λ _.
        Fails-bind _ _ (write_map-Fails (signable_field_count t) (open_writer cbor_max_size))
          (λ w. Fails-bind _ _ (encode_signable_fields-Fails t w) (λ _. fine))))
      (sha256-Fails p)

pub Fails-err : {A : Type 0} (r : Result A) (e : Err) → Fails r → r ≡ err e → e ≢ esp_ok
Fails-err (ok a) e h same = absurd (cc)
Fails-err (err e') e (failed ne) same = λ z. ne (cc)
