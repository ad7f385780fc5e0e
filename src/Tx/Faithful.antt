-- ===== src/Tx/Faithful.antt =====
-- `meshpay_tx_decode` after `meshpay_tx_encode` (components/meshpay_tx/meshpay_tx.c).
use meshpay_v.Base.{
  ℕ, ◌+◌, ◌^◌, ◌<◌, ◌≡◌, refl, sym, ap, ◌∙◌, inl, inr, true, false, not, ◌&&◌, ◌||◌, [], ◌++◌,
  append_assoc, append-nil, Bytes, zeros, esp_ok, invalid_size, ok, err, ◌>>=◌, check, OnOk,
  OnOk-bind, OnOk-ok, check-OnOk, arith, ltb, ◌==◌, if◌then◌else◌, Bool-cases, length, bit_and,
}
use meshpay_v.Tx.{Tx, cleared, claim, public_size}
use meshpay_v.Tx.Cbor.{Writer, write_uint, write_bstr, write_map}
use meshpay_v.Tx.Codec.{
  validate_common, encode, encode_signable_fields, signable_field_count, open_writer, cbor_max_size,
}
use meshpay_v.Tx.Decode.{read_entries, decode, required, is_empty}
use meshpay_v.Tx.Encoded.{
  head, bstr, signable, member_entry, Wrote, Wrote-OnOk, ◌>>◌, write_uint-Wrote, write_bstr-Wrote,
  write_map-Wrote, encode_signable_fields-Wrote,
}
use meshpay_v.Tx.Read.{read_type_value-head}
use meshpay_v.Tx.Fields.{read_entries-head, read_member_public}
use meshpay_v.Tx.RoundTrip.{
  IsStored, nine, body, ending, read_entries-body, read_entries-ending, no_member, known_kind,
}

-- All that the encoder writes.
abbrev message : Tx → Bytes
message t =
    head 5 (signable_field_count t + 2)
    ++ signable t
    ++ head 0 10
    ++ bstr t.id
    ++ head 0 11
    ++ bstr t.signature

encoder-Wrote :
    (t : Tx) (w : Writer)
    → Wrote (message t) w (
        write_map (signable_field_count t + 2) w
        >>= encode_signable_fields t
        >>= write_uint 10
        >>= write_bstr t.id
        >>= write_uint 11
        >>= write_bstr t.signature)
encoder-Wrote t w =
    write_map-Wrote (signable_field_count t + 2) w
    >> encode_signable_fields-Wrote t
    >> write_uint-Wrote 10
    >> write_bstr-Wrote t.id
    >> write_uint-Wrote 11
    >> write_bstr-Wrote t.signature

limit-OnOk :
    (t : Tx) (w : Writer)
    → w.written ≡ message t
    → validate_common t true ≡ esp_ok
    → OnOk
        (λ bs. (bs ≡ message t) × (validate_common t true ≡ esp_ok))
        (if ltb cbor_max_size (length w.written) then err invalid_size else ok w.written)
limit-OnOk t w e v = elim (Bool-cases (ltb cbor_max_size (length w.written))) [
  | inl long ↦ rw long tt
  | inr short ↦ rw short (e, v)
]

encode-message :
    (t : Tx) (n : ℕ)
    → OnOk (λ bs. (bs ≡ message t) × (validate_common t true ≡ esp_ok)) (encode t n)
unfolding encode
encode-message t n =
    OnOk-bind _ _ (check (validate_common t true)) _ (check-OnOk (validate_common t true)) (λ _ v.
      OnOk-bind _ _ _ _ (Wrote-OnOk (encoder-Wrote t (open_writer n))) (λ w e. limit-OnOk t w e v))

-- The entries, the first to last.
message-body :
    (t : Tx)
    → message t ≡ head 5 (signable_field_count t + 2) ++ body t (member_entry t ++ ending t)
message-body t = simp (append_assoc, append-nil) refl

same_tx :
    (t : Tx)
    → t.member_public ≡ zeros public_size
    → record (nine t) { id = t.id; signature = t.signature } ≡ t
same_tx t e = ap (λ (key : Bytes). record t { member_public = key }) (sym e)

-- The loop over the entries of the map, on the encoder's bytes.
read_entries-message :
    (t : Tx)
    → IsStored t
    → validate_common t true ≡ esp_ok
    → (present : ℕ) × (read_entries
          (signable_field_count t + 2)
          cleared
          0
          (body t (member_entry t ++ ending t))
        ≡ ok (t, present, []))
      × (bit_and present required ≡ required)
read_entries-message t s v = elim (Bool-cases (t.kind == claim)) [
  | inl k ↦
      let next : Tx = record (nine t) { member_public = t.member_public } in
      (
        0x1ffe,
        rw k (
            read_entries-body 3 t (head 0 12 ++ bstr t.member_public ++ ending t) s (known_kind t v)
            ∙ ap (read_entries 3 (nine t) 0x3fe)
                (append_assoc (head 0 12) (bstr t.member_public) (ending t))
            ∙ read_entries-head 2 12 0x3fe (nine t) next _ _ (omega arith) refl
                (read_member_public (nine t) t.member_public (ending t) s.member_public)
            ∙ read_entries-ending next t 0x13fe s refl refl),
        refl,
      )
  | inr k ↦
      let none' = no_member t s (ground arith) v in
      (
        0xffe,
        rw k (
            read_entries-body 2 t (ending t) s (known_kind t v)
            ∙ read_entries-ending (nine t) t 0x3fe s refl refl
            ∙ ap (λ (u : Tx). ok (u, 0xffe, [])) (same_tx t none')),
        refl,
      )
]

map_len_known :
    (t : Tx)
    → (signable_field_count t + 2 < 2 ^ 64)
      × ((not (signable_field_count t + 2 == 11) && not (signable_field_count t + 2 == 12)) ≡ false)
map_len_known t = elim (Bool-cases (t.kind == claim)) [
  | inl k ↦ rw k (omega arith, refl)
  | inr k ↦ rw k (omega arith, refl)
]

mask_complete :
    (present : ℕ)
    → bit_and present required ≡ required
    → (not (bit_and present required == required) || not true) ≡ false
mask_complete present all = rw all refl

decode-message : (t : Tx) → IsStored t → validate_common t true ≡ esp_ok → decode (message t) ≡ ok t
unfolding decode is_empty
decode-message t s v =
    let (present, entries, all) = read_entries-message t s v in
    let (small, known) = map_len_known t in
    rw
      (
        message-body t,
        read_type_value-head 5 _ (body t (member_entry t ++ ending t)) (omega arith) small,
        known,
        entries,
        mask_complete present all,
        v,
      )
      refl

-- What `meshpay_tx_encode` writes of a transaction in its struct, `meshpay_tx_decode` reads back whole.
pub decode-encode :
    (t : Tx) (out_size : ℕ) (wire : Bytes)
    → IsStored t
    → encode t out_size ≡ ok wire
    → decode wire ≡ ok t
decode-encode t out_size wire s h =
    let (same, v) = OnOk-ok _ (encode t out_size) wire (encode-message t out_size) h in
    rw same (decode-message t s v)
