-- ===== src/Checkpoint/Written.antt =====
-- What the encoder of components/checkpoint/checkpoint.c writes, and what its reader takes from it.
use meshpay_v.Base.{
  ℕ, ◌/◌, ◌^◌, ◌<◌, ◌≡◌, refl, sym, ap, true, false, not, ◌||◌, List, [], ◌∷◌, ◌++◌, append-nil,
  append_assoc, Bytes, ok, ◌>>=◌, inl, inr, arith, ltb, ◌==◌, Bool-cases, length, length-append,
  take-append_self, drop-append_self, bit_and,
}
use meshpay_v.Tx.{hash_size, public_size}
use meshpay_v.Tx.Cbor.{Writer, get, follow, read_type_value}
use meshpay_v.Tx.Encoded.{head, bstr, Wrote, ◌>>◌, write_type_value-Wrote, put_bytes-Wrote}
use meshpay_v.Tx.Read.{read_type_value-head}
use meshpay_v.Checkpoint.{Account, Checkpoint, table}
use meshpay_v.Checkpoint.Codec.{
  write_string, write_account, write_accounts, encode_body_fields, write_signature, wire_fields,
}
use meshpay_v.Checkpoint.Decode.{
  read_head, expect_uint, expect_bstr, expect_u32, expect_id, read_account,
}

abbrev pub account_wire : Account → Bytes
account_wire a =
    head 4 4 ++ bstr a.account ++ head 0 a.balance ++ head 0 a.seq_floor ++ bstr a.member_public

abbrev pub accounts_wire : List Account → Bytes
accounts_wire [] = []
accounts_wire (a ∷ rest) = account_wire a ++ accounts_wire rest

-- The entries of the signed map.
abbrev pub message : Checkpoint → Bytes
message cp =
    head 5 wire_fields
    ++ head 0 1
    ++ head 0 cp.currency_id
    ++ head 0 2
    ++ head 0 cp.generation
    ++ head 0 3
    ++ head 0 cp.created_at_ms
    ++ head 0 4
    ++ bstr cp.horizon_digest
    ++ head 0 5
    ++ head 4 cp.account_count
    ++ accounts_wire (table cp)
    ++ (head 0 6 ++ bstr cp.founder_signature)

write_string-Wrote : (bs : Bytes) (w : Writer) → Wrote (bstr bs) w (write_string bs w)
unfolding write_string
write_string-Wrote bs w = write_type_value-Wrote 2 (length bs) w >> put_bytes-Wrote bs

write_account-Wrote : (a : Account) (w : Writer) → Wrote (account_wire a) w (write_account a w)
write_account-Wrote a w =
    write_type_value-Wrote 4 4 w
    >> write_string-Wrote a.account
    >> write_type_value-Wrote 0 a.balance
    >> write_type_value-Wrote 0 a.seq_floor
    >> write_string-Wrote a.member_public

write_accounts-Wrote :
    (entries : List Account) (w : Writer)
    → Wrote (accounts_wire entries) w (write_accounts entries w)
unfolding write_accounts
write_accounts-Wrote [] w = Wrote.wrote (sym (append-nil w.written))
write_accounts-Wrote (a ∷ rest) w = write_account-Wrote a w >> write_accounts-Wrote rest

write_signature-Wrote :
    (cp : Checkpoint) (w : Writer)
    → Wrote (head 0 6 ++ bstr cp.founder_signature) w (write_signature cp true w)
write_signature-Wrote cp w = write_type_value-Wrote 0 6 w >> write_string-Wrote cp.founder_signature

pub encoder-Wrote :
    (cp : Checkpoint) (w : Writer)
    → Wrote (message cp) w (encode_body_fields cp wire_fields w >>= write_signature cp true)
unfolding encode_body_fields
encoder-Wrote cp w =
    write_type_value-Wrote 5 wire_fields w
    >> write_type_value-Wrote 0 1
    >> write_type_value-Wrote 0 cp.currency_id
    >> write_type_value-Wrote 0 2
    >> write_type_value-Wrote 0 cp.generation
    >> write_type_value-Wrote 0 3
    >> write_type_value-Wrote 0 cp.created_at_ms
    >> write_type_value-Wrote 0 4
    >> write_string-Wrote cp.horizon_digest
    >> write_type_value-Wrote 0 5
    >> write_type_value-Wrote 4 cp.account_count
    >> write_accounts-Wrote (table cp)
    >> write_signature-Wrote cp

-- The reader of any head agrees with the one that expects its type.
read_head-read_type_value :
    (major v : ℕ) (r rest : Bytes)
    → read_type_value major r ≡ ok (v, rest)
    → read_head r ≡ ok (major, v, rest)
unfolding read_head read_type_value get
read_head-read_type_value major v [] rest h = absurd (cc)
read_head-read_type_value major v (b ∷ r) rest h =
    let low = bit_and b 0x1f in
    elim (Bool-cases (not (b / 32 == major) || low == 31)) [
      | inl bad ↦ absurd (cc (rw bad at h))
      | inr good ↦
          let same : b / 32 ≡ major = ground arith in
          elim (Bool-cases (ltb low 24)) [
            | inl small ↦
                rw (small, same)
                  (ap (λ (s : ℕ × Bytes). ok (major, s.0, s.1)) (inj (rw (good, small) at h)))
            | inr large ↦
                let behind : follow low r ≡ ok (v, rest) = rw (good, large) at h in
                rw (large, same, behind) refl
          ]
    ]
  where
    inj : {s t : ℕ × Bytes} → ok s ≡ ok t → s ≡ t
    inj e = cc

pub read_head-head :
    (major v : ℕ) (r : Bytes)
    → major < 8
    → v < 2 ^ 64
    → read_head (head major v ++ r) ≡ ok (major, v, r)
read_head-head major v r m l =
    read_head-read_type_value major v (head major v ++ r) r (read_type_value-head major v r m l)

pub expect_uint-head : (v : ℕ) (r : Bytes) → v < 2 ^ 64 → expect_uint (head 0 v ++ r) ≡ ok (v, r)
unfolding expect_uint
expect_uint-head v r l = rw (read_head-head 0 v r (omega arith) l) refl

expect_u32-head : (v : ℕ) (r : Bytes) → v < 2 ^ 32 → expect_u32 (head 0 v ++ r) ≡ ok (v, r)
unfolding expect_u32
expect_u32-head v r l =
    let small : ltb 0xffffffff v ≡ false = ground arith in
    rw (expect_uint-head v r (omega arith), small) refl

pub expect_id-head :
    (v : ℕ) (r : Bytes) → 0 < v → v < 2 ^ 32 → expect_id (head 0 v ++ r) ≡ ok (v, r)
unfolding expect_id
expect_id-head v r pos l =
    let good : (v == 0 || ltb 0xffffffff v) ≡ false = ground arith in
    rw (expect_uint-head v r (omega arith), good) refl

pub expect_bstr-bstr :
    (n : ℕ) (bs r : Bytes) → length bs ≡ n → n < 2 ^ 64 → expect_bstr n (bstr bs ++ r) ≡ ok (bs, r)
unfolding expect_bstr
expect_bstr-bstr n bs r h l =
    let good : (not (2 == 2) || not (length bs == n) || ltb (length (bs ++ r)) (length bs))
        ≡ false =
      ground (arith, length-append bs r) in
    rw
      (
        append_assoc (head 2 (length bs)) bs r,
        read_head-head 2 (length bs) (bs ++ r) (omega arith) (omega arith),
        good,
        take-append_self bs r,
        drop-append_self bs r,
      )
      refl

-- An account as the struct holds it.
pub record IsAccount (a : Account) : Type 0 where
  pub account : length a.account ≡ hash_size
  pub balance : a.balance < 2 ^ 32
  pub seq_floor : a.seq_floor < 2 ^ 32
  pub member_public : length a.member_public ≡ public_size

pub read_account-account_wire :
    (a : Account) (r : Bytes) → IsAccount a → read_account (account_wire a ++ r) ≡ ok (a, r)
unfolding read_account
read_account-account_wire a r s =
    let e4 = bstr a.member_public ++ r in
    let e3 = head 0 a.seq_floor ++ e4 in
    let e2 = head 0 a.balance ++ e3 in
    let e1 = bstr a.account ++ e2 in
    let flat : account_wire a ++ r ≡ head 4 4 ++ e1 = simp append_assoc refl in
    rw
      (
        flat,
        read_head-head 4 4 e1 (omega arith) (omega arith),
        expect_bstr-bstr hash_size a.account e2 s.account (omega arith),
        expect_u32-head a.balance e3 s.balance,
        expect_u32-head a.seq_floor e4 s.seq_floor,
        expect_bstr-bstr public_size a.member_public r s.member_public (omega arith),
      )
      refl
