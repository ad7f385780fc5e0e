-- ===== src/Tx/RoundTrip.antt =====
-- Encoding a transaction and decoding the bytes (components/meshpay_tx/meshpay_tx.c).
use meshpay_v.Base.{
  ℕ, suc, ◌^◌, ◌<◌, ◌≢◌, ◌≡◌, refl, ap, ◌∙◌, ◌⊎◌, true, [], ◌∷◌, ◌++◌, append_assoc, Bytes, zeros,
  esp_ok, ok, arith, length, take, bit_and, bit_or, bytes_zero, bytes_zero_iff, All,
}
use meshpay_v.Tx.{
  Tx, cleared, transfer, mint, claim, id_size, hash_size, public_size, signature_size,
}
use meshpay_v.Tx.Codec.{validate_common, validate_claim}
use meshpay_v.Tx.Decode.{read_field, read_entries}
use meshpay_v.Tx.Encoded.{head, bstr, bstrs, signable, member_entry}
use meshpay_v.Tx.Fields.{
  HasParents, read_kind-head, read_parent_list-bstrs, read_entries-head, read_from, read_to,
  read_amount, read_seq, read_fee, read_timestamp_ms, read_currency_id, read_id, read_signature,
}

-- A transaction as the struct holds it: arrays of their sizes, and numbers of their widths.
pub record IsStored (t : Tx) : Type 0 where
  pub id : length t.id ≡ id_size
  pub from : length t.from ≡ hash_size
  pub to : length t.to ≡ hash_size
  pub signature : length t.signature ≡ signature_size
  pub member_public : length t.member_public ≡ public_size
  pub amount : t.amount < 2 ^ 32
  pub seq : t.seq < 2 ^ 32
  pub fee : t.fee < 2 ^ 32
  pub currency_id : t.currency_id < 2 ^ 32
  pub timestamp_ms : t.timestamp_ms < 2 ^ 64
  pub parents : HasParents t

-- The signed entries before further bytes, from the first on.
abbrev pub body : Tx → Bytes → Bytes
body t r =
    head 0 1
    ++ (head 0 t.kind
        ++ (head 0 2
            ++ (bstr t.from
                ++ (head 0 3
                    ++ (bstr t.to
                        ++ (head 0 4
                            ++ (head 0 t.amount
                                ++ (head 0 5
                                    ++ (head 0 t.seq
                                        ++ (head 0 6
                                            ++ (head 0 t.fee
                                                ++ (head 0 7
                                                    ++ (head 4 t.parent_count
                                                        ++ (bstrs (take t.parent_count t.parents)
                                                            ++ (head 0 8
                                                            ++ (head 0 t.timestamp_ms
                                                            ++ (head 0 9
                                                            ++ (head 0 t.currency_id
                                                            ++ r))))))))))))))))))

pub signable-body : (t : Tx) (r : Bytes) → signable t ++ r ≡ body t (member_entry t ++ r)
signable-body t r = simp append_assoc refl

-- What the decoder has after the nine common keys.
abbrev pub nine : Tx → Tx
nine t = record cleared {
  kind = t.kind;
  from = t.from;
  to = t.to;
  amount = t.amount;
  seq = t.seq;
  fee = t.fee;
  parent_count = t.parent_count;
  parents = t.parents;
  timestamp_ms = t.timestamp_ms;
  currency_id = t.currency_id;
}

pub read_entries-body :
    (n : ℕ) (t : Tx) (r : Bytes)
    → IsStored t
    → (t.kind ≡ transfer) ⊎ (t.kind ≡ mint) ⊎ (t.kind ≡ claim)
    → read_entries (suc (suc (suc (suc (suc (suc (suc (suc (suc n))))))))) cleared 0 (body t r)
      ≡ read_entries n (nine t) 0x3fe r
unfolding read_field
read_entries-body n t r s known =
    let s1 : Tx = record cleared { kind = t.kind } in
    let s2 : Tx = record s1 { from = t.from } in
    let s3 : Tx = record s2 { to = t.to } in
    let s4 : Tx = record s3 { amount = t.amount } in
    let s5 : Tx = record s4 { seq = t.seq } in
    let s6 : Tx = record s5 { fee = t.fee } in
    let s7 : Tx = record s6 { parent_count = t.parent_count; parents = t.parents } in
    let s8 : Tx = record s7 { timestamp_ms = t.timestamp_ms } in
    read_entries-head _ 1 0 cleared _ _ _ (omega arith) refl (read_kind-head cleared t.kind _ known)
    ∙ read_entries-head _ 2 0x2 _ _ _ _ (omega arith) refl (read_from s1 t.from _ s.from)
    ∙ read_entries-head _ 3 0x6 _ _ _ _ (omega arith) refl (read_to s2 t.to _ s.to)
    ∙ read_entries-head _ 4 0xe _ _ _ _ (omega arith) refl (read_amount s3 t.amount _ s.amount)
    ∙ read_entries-head _ 5 0x1e _ _ _ _ (omega arith) refl (read_seq s4 t.seq _ s.seq)
    ∙ read_entries-head _ 6 0x3e _ _ _ _ (omega arith) refl (read_fee s5 t.fee _ s.fee)
    ∙ read_entries-head _ 7 0x7e _ _ _ _ (omega arith) refl
        (read_parent_list-bstrs s6 t _ refl s.parents)
    ∙ read_entries-head _ 8 0xfe _ _ _ _ (omega arith) refl
        (read_timestamp_ms s7 t.timestamp_ms _ s.timestamp_ms)
    ∙ read_entries-head _ 9 0x1fe _ _ _ _ (omega arith) refl
        (read_currency_id s8 t.currency_id _ s.currency_id)

-- The id and the signature, behind everything.
abbrev pub ending : Tx → Bytes
ending t = head 0 10 ++ (bstr t.id ++ (head 0 11 ++ (bstr t.signature ++ [])))

pub read_entries-ending :
    (s t : Tx) (present : ℕ)
    → IsStored t
    → bit_and present (2 ^ 10) ≡ 0
    → bit_and (bit_or present (2 ^ 10)) (2 ^ 11) ≡ 0
    → read_entries 2 s present (ending t)
      ≡ ok (
        record s { id = t.id; signature = t.signature },
        bit_or (bit_or present (2 ^ 10)) (2 ^ 11),
        [],
      )
unfolding read_entries
read_entries-ending s t present w a b =
    let s1 : Tx = record s { id = t.id } in
    read_entries-head 1 10 present s _ _ _ (omega arith) a (read_id s t.id _ w.id)
    ∙ read_entries-head 0 11 _ s1 _ _ _ (omega arith) b
        (read_signature s1 t.signature [] w.signature)

zeros-length : (bs : Bytes) → All (λ b. b ≡ 0) bs → bs ≡ zeros (length bs)
unfolding zeros
zeros-length [] h = refl
zeros-length (b ∷ bs) (e, h) = ap (λ (x : ℕ). x ∷ bs) e ∙ ap (◌∷◌ 0) (zeros-length bs h)

-- Only a claim carries a key.
pub no_member :
    (t : Tx)
    → IsStored t
    → t.kind ≢ claim
    → validate_common t true ≡ esp_ok
    → t.member_public ≡ zeros public_size
unfolding validate_common validate_claim
no_member t s k v =
    let none' : bytes_zero t.member_public ≡ true = ground arith in
    zeros-length t.member_public ((bytes_zero_iff t.member_public).0 none')
    ∙ ap zeros s.member_public

pub known_kind :
    (t : Tx)
    → validate_common t true ≡ esp_ok
    → (t.kind ≡ transfer) ⊎ (t.kind ≡ mint) ⊎ (t.kind ≡ claim)
unfolding validate_common
known_kind t v = ground arith
