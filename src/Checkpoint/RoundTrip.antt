-- ===== src/Checkpoint/RoundTrip.antt =====
-- The size of an encoded checkpoint, and its round trip (components/checkpoint/checkpoint.c).
use meshpay_v.Base.{
  ℕ, ◌+◌, ◌*◌, ◌^◌, ◌≤◌, ◌<◌, ◌≡◌, refl, sym, subst, true, false, ◌||◌, List, [], ◌∷◌, ◌++◌,
  replicate, Bytes, esp_ok, no_mem, ok, check, check-OnOk, OnOk, OnOk-bind, OnOk-bind_eq, OnOk-ok,
  inl, inr, arith, ltb, ◌==◌, if◌then◌else◌, Bool-cases, length, length-append, take-append_self,
  bytes_zero, All,
}
use meshpay_v.Tx.Cbor.{Writer}
use meshpay_v.Tx.Encoded.{head, bstr, Wrote-OnOk}
use meshpay_v.Checkpoint.{Account, Checkpoint, table, zero_account}
use meshpay_v.Checkpoint.Codec.{
  prefix, prefix_size, wire_fields, checkpoint_cbor_max, validate_body, encode_internal, encode,
}
use meshpay_v.Checkpoint.Decode.{check_read, decode}
use meshpay_v.Checkpoint.Written.{
  account_wire, accounts_wire, message, encoder-Wrote, read_head-head, IsAccount,
}
use meshpay_v.Checkpoint.Faithful.{IsStored, body, message-body, read_values-body}

length-head_small : (m v : ℕ) → v < 24 → length (head m v) ≡ 1
length-head_small m v h = let a : ltb v 24 ≡ true = ground arith in rw a refl

length-head_u16 : (m v : ℕ) → v < 2 ^ 16 → length (head m v) ≤ 3
length-head_u16 m v h = ground arith

length-head_u32 : (m v : ℕ) → v < 2 ^ 32 → length (head m v) ≤ 5
length-head_u32 m v h = ground arith

length-head : (m v : ℕ) → length (head m v) ≤ 9
length-head m v = ground arith

length-head_u8 : (m v : ℕ) → v < 2 ^ 8 → length (head m v) ≤ 2
length-head_u8 m v h = ground arith

length-bstr : (bs : Bytes) → length bs < 2 ^ 8 → length (bstr bs) ≤ length bs + 2
length-bstr bs h =
    omega (arith, length-append (head 2 (length bs)) bs, length-head_u8 2 (length bs) h)

length-account_wire : (a : Account) → IsAccount a → length (account_wire a) ≤ 96
length-account_wire a s =
    let e1 = bstr a.account in
    let e2 = head 0 a.balance in
    let e3 = head 0 a.seq_floor in
    let e4 = bstr a.member_public in
    let sized = s.account in
    let keyed = s.member_public in
    omega (
      arith,
      length-append (head 4 4 ++ e1 ++ e2 ++ e3) e4,
      length-append (head 4 4 ++ e1 ++ e2) e3,
      length-append (head 4 4 ++ e1) e2,
      length-append (head 4 4) e1,
      length-head_u32 0 a.balance s.balance,
      length-head_u32 0 a.seq_floor s.seq_floor,
      length-bstr a.account (omega arith),
      length-bstr a.member_public (omega arith),
    )

length-accounts_wire :
    (entries : List Account)
    → All IsAccount entries
    → length (accounts_wire entries) ≤ length entries * 96
length-accounts_wire [] all = omega arith
length-accounts_wire (a ∷ rest) (s, all) = omega (
  arith,
  length-append (account_wire a) (accounts_wire rest),
  length-account_wire a s,
  length-accounts_wire rest all,
)

-- The entries in the order of the map, from the accounts on.
length-tail :
    (cp : Checkpoint) (max : ℕ)
    → IsStored max cp
    → length (
        head 4 cp.account_count
        ++ (accounts_wire (table cp) ++ (head 0 6 ++ (bstr cp.founder_signature ++ []))))
      ≤ max * 96 + 70
length-tail cp max i =
    let n : ℕ = length i.entries in
    let few : cp.account_count < 2 ^ 16 = omega (arith, i.count, i.size, i.small) in
    let taken : table cp ≡ i.entries =
      rw (i.count, i.table) (take-append_self i.entries (replicate i.spare zero_account)) in
    let end = head 0 6 ++ (bstr cp.founder_signature ++ []) in
    let sized = i.signature in
    let fits = i.size in
    rw taken (
      omega (
        arith,
        length-append (head 4 cp.account_count) (accounts_wire i.entries ++ end),
        length-append (accounts_wire i.entries) end,
        length-append (head 0 6) (bstr cp.founder_signature ++ []),
        length-append (bstr cp.founder_signature) [],
        length-head_u16 4 cp.account_count few,
        length-accounts_wire i.entries i.each,
        length-bstr cp.founder_signature (omega arith),
      ))

length-message :
    (cp : Checkpoint) (max : ℕ)
    → IsStored max cp
    → length (prefix ++ message cp) ≤ checkpoint_cbor_max max
length-message cp max i =
    let tail =
      head 4 cp.account_count
      ++ (accounts_wire (table cp) ++ (head 0 6 ++ (bstr cp.founder_signature ++ []))) in
    let e5 = head 0 5 ++ tail in
    let e4 = bstr cp.horizon_digest ++ e5 in
    let e3 = head 0 cp.created_at_ms ++ (head 0 4 ++ e4) in
    let e2 = head 0 cp.generation ++ (head 0 3 ++ e3) in
    let sized = i.digest in
    subst (λ (m : Bytes). length (prefix ++ m) ≤ checkpoint_cbor_max max) (sym (message-body cp))
      (omega (
        arith,
        length-append prefix (head 5 wire_fields ++ body cp),
        length-append (head 5 wire_fields) (body cp),
        length-append (head 0 1) (head 0 cp.currency_id ++ (head 0 2 ++ e2)),
        length-append (head 0 cp.currency_id) (head 0 2 ++ e2),
        length-append (head 0 2) e2,
        length-append (head 0 cp.generation) (head 0 3 ++ e3),
        length-append (head 0 3) e3,
        length-append (head 0 cp.created_at_ms) (head 0 4 ++ e4),
        length-append (head 0 4) e4,
        length-append (bstr cp.horizon_digest) e5,
        length-append (head 0 5) tail,
        length-tail cp max i,
        length-head_u32 0 cp.currency_id i.currency_id,
        length-head_u32 0 cp.generation i.generation,
        length-head 0 cp.created_at_ms,
        length-bstr cp.horizon_digest (omega arith),
      ))

-- What the encoder has checked, and what it writes.
record IsWritten (cp : Checkpoint) (wire : Bytes) : Type 0 where
  bytes : wire ≡ prefix ++ message cp
  valid : validate_body cp ≡ esp_ok
  signed : bytes_zero cp.founder_signature ≡ false

encode-IsWritten : (cp : Checkpoint) (out_size : ℕ) → OnOk (IsWritten cp) (encode cp out_size)
unfolding encode encode_internal
encode-IsWritten cp out_size = elim (Bool-cases (bytes_zero cp.founder_signature)) [
  | inl none_yet ↦ rw none_yet tt
  | inr signed ↦
      let start : Writer = record { size = out_size; written = prefix } in
      rw signed (
        OnOk-bind (λ _. validate_body cp ≡ esp_ok) (IsWritten cp) (check (validate_body cp)) _
          (check-OnOk (validate_body cp))
          (λ _ valid.
            OnOk-bind_eq (IsWritten cp)
              (check (if ltb out_size prefix_size then no_mem else esp_ok)) _
              (λ _ _.
                OnOk-bind (λ w. w.written ≡ prefix ++ message cp) (IsWritten cp) _ _
                  (Wrote-OnOk (encoder-Wrote cp start))
                  (λ w e. record { bytes = e; valid = valid; signed = signed }))))
]

-- A valid body has a currency and a generation.
valid_ids :
    (cp : Checkpoint) → validate_body cp ≡ esp_ok → (0 < cp.currency_id) × (0 < cp.generation)
unfolding validate_body
valid_ids cp h = elim (Bool-cases (cp.currency_id == 0 || cp.generation == 0)) [
  | inl bad ↦ absurd (cc (rw bad at h))
  | inr good ↦ (ground arith, ground arith)
]

decode-message :
    (cp : Checkpoint) (max : ℕ) (wire : Bytes)
    → IsStored max cp
    → IsWritten cp wire
    → decode max wire ≡ ok cp
unfolding decode check_read
decode-message cp max wire i w =
    let (cid, gen) = valid_ids cp w.valid in
    let short = length-message cp max i in
    let fits : (ltb (length (prefix ++ message cp)) prefix_size
          || ltb (checkpoint_cbor_max max) (length (prefix ++ message cp)))
        ≡ false =
      ground (arith, length-append prefix (message cp)) in
    rw (w.bytes, fits)
      (rw
        (
          message-body cp,
          read_head-head 5 wire_fields (body cp) (omega arith) (omega arith),
          read_values-body cp max i cid gen,
          w.valid,
          w.signed,
        )
        refl)

-- What `meshpay_checkpoint_encode` writes of a checkpoint as its struct holds it, with zero in the free
-- slots of a table of fewer than 2 ^ 16 accounts, `meshpay_checkpoint_decode` reads back whole, and it
-- is within MESHPAY_CHECKPOINT_CBOR_MAX.
pub decode-encode_bounded :
    (cp : Checkpoint) (max out_size : ℕ) (wire : Bytes)
    → IsStored max cp
    → encode cp out_size ≡ ok wire
    → (decode max wire ≡ ok cp) × (length wire ≤ checkpoint_cbor_max max)
decode-encode_bounded cp max out_size wire i h =
    let w = OnOk-ok (IsWritten cp) (encode cp out_size) wire (encode-IsWritten cp out_size) h in
    let bound : length wire ≤ checkpoint_cbor_max max = rw w.bytes (length-message cp max i) in
    (decode-message cp max wire i w, bound)
