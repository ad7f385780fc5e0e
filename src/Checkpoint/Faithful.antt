-- ===== src/Checkpoint/Faithful.antt =====
-- Decoding what the encoder of components/checkpoint/checkpoint.c writes.
use meshpay_v.Base.{
  ℕ, suc, ◌+◌, ◌%◌, ◌^◌, ◌<◌, ◌≡◌, refl, sym, ap, ◌∙◌, false, not, ◌||◌, List, [], ◌∷◌, ◌++◌,
  append-nil, append_assoc, replicate, Bytes, Result, ok, arith, ltb, ◌==◌, length, length-append,
  length-replicate, take, take-append_self, set-append_end, All,
}
use meshpay_v.Tx.{signature_size}
use meshpay_v.Tx.Encoded.{head, bstr}
use meshpay_v.Checkpoint.{Account, Checkpoint, table, empty, zero_account, digest_size}
use meshpay_v.Checkpoint.Codec.{wire_fields}
use meshpay_v.Checkpoint.Decode.{read_accounts, read_table, read_value, read_values}
use meshpay_v.Checkpoint.Written.{
  account_wire, accounts_wire, message, read_head-head, expect_uint-head, expect_id-head,
  expect_bstr-bstr, IsAccount, read_account-account_wire,
}

-- What the loop returns for these accounts in front of the free slots.
abbrev with_table : List Account → ℕ → Bytes → Result (List Account × Bytes)
with_table entries spare r = ok (entries ++ replicate spare zero_account, r)

-- The loop over the accounts fills the slots behind those that it has read.
read_accounts-accounts_wire :
    (entries before : List Account) (spare : ℕ) (r : Bytes)
    → All IsAccount entries
    → read_accounts
        (length entries)
        (length before)
        (before ++ replicate (length entries + spare) zero_account)
        (accounts_wire entries ++ r)
      ≡ with_table (before ++ entries) spare r
unfolding read_accounts
read_accounts-accounts_wire [] before spare r all =
    let e : 0 + spare ≡ spare = omega arith in rw (e, append-nil before) refl
read_accounts-accounts_wire (a ∷ rest) before spare r (s, all) =
    let more : length (a ∷ rest) + spare ≡ suc (length rest + spare) = omega arith in
    let after : length (before ++ a ∷ []) ≡ suc (length before) =
      omega (arith, length-append before (a ∷ [])) in
    let ih = read_accounts-accounts_wire rest (before ++ a ∷ []) spare r all in
    rw
      (
        append_assoc (account_wire a) (accounts_wire rest) r,
        read_account-account_wire a (accounts_wire rest ++ r) s,
        more,
        set-append_end before (replicate (length rest + spare) zero_account) zero_account a,
      )
      (ap
          (λ (i : ℕ).
            read_accounts (length rest) i
              ((before ++ a ∷ []) ++ replicate (length rest + spare) zero_account)
              (accounts_wire rest ++ r))
          (sym after)
        ∙ ih
        ∙ ap (λ (xs : List Account). with_table xs spare r) (append_assoc before (a ∷ []) rest))

-- A checkpoint as the struct holds it: arrays of their sizes, numbers of their widths, and zero in the
-- slots behind the count.
pub record IsStored (max : ℕ) (cp : Checkpoint) : Type 0 where
  pub entries : List Account
  pub spare : ℕ
  pub table : cp.accounts ≡ entries ++ replicate spare zero_account
  pub count : cp.account_count ≡ length entries
  pub size : max ≡ length entries + spare
  pub small : max < 2 ^ 16
  pub each : All IsAccount entries
  pub currency_id : cp.currency_id < 2 ^ 32
  pub generation : cp.generation < 2 ^ 32
  pub created_at_ms : cp.created_at_ms < 2 ^ 64
  pub digest : length cp.horizon_digest ≡ digest_size
  pub signature : length cp.founder_signature ≡ signature_size

read_table-accounts_wire :
    (s cp : Checkpoint) (max : ℕ) (r : Bytes)
    → s.accounts ≡ replicate max zero_account
    → IsStored max cp
    → read_table s (head 4 cp.account_count ++ (accounts_wire (table cp) ++ r))
      ≡ ok (record s { account_count = cp.account_count; accounts = cp.accounts }, r)
unfolding read_table
read_table-accounts_wire s cp max r clean i =
    let n : ℕ = length i.entries in
    let taken : take n (i.entries ++ replicate i.spare zero_account) ≡ i.entries =
      take-append_self i.entries (replicate i.spare zero_account) in
    let whole : n % 2 ^ 16 ≡ n = omega (arith, i.small, i.size) in
    let fits : (not (4 == 4) || ltb (length (replicate max zero_account)) n) ≡ false =
      ground (arith, length-replicate max zero_account, i.size) in
    let loop = read_accounts-accounts_wire i.entries [] i.spare r i.each in
    rw
      (
        i.count,
        i.table,
        taken,
        read_head-head 4 n (accounts_wire i.entries ++ r) (omega arith)
            (omega (arith, i.small, i.size)),
        clean,
        fits,
        i.size,
        loop,
        whole,
      )
      refl

-- One entry of the map.
read_values-head :
    (left field : ℕ) (s s' : Checkpoint) (body rest : Bytes)
    → field < 2 ^ 64
    → read_value field s body ≡ ok (s', rest)
    → read_values (suc left) field s (head 0 field ++ body) ≡ read_values left (suc field) s' rest
unfolding read_values
read_values-head left field s s' body rest small value =
    let same : not (field == field) ≡ false = ground arith in
    rw (expect_uint-head field body small, same, value) refl

read_currency_id :
    (s : Checkpoint) (v : ℕ) (r : Bytes)
    → 0 < v
    → v < 2 ^ 32
    → read_value 1 s (head 0 v ++ r) ≡ ok (record s { currency_id = v }, r)
unfolding read_value
read_currency_id s v r pos l = rw (expect_id-head v r pos l) refl

read_generation :
    (s : Checkpoint) (v : ℕ) (r : Bytes)
    → 0 < v
    → v < 2 ^ 32
    → read_value 2 s (head 0 v ++ r) ≡ ok (record s { generation = v }, r)
unfolding read_value
read_generation s v r pos l = rw (expect_id-head v r pos l) refl

read_created_at_ms :
    (s : Checkpoint) (v : ℕ) (r : Bytes)
    → v < 2 ^ 64
    → read_value 3 s (head 0 v ++ r) ≡ ok (record s { created_at_ms = v }, r)
unfolding read_value
read_created_at_ms s v r l = rw (expect_uint-head v r l) refl

read_horizon_digest :
    (s : Checkpoint) (v : Bytes) (r : Bytes)
    → length v ≡ digest_size
    → read_value 4 s (bstr v ++ r) ≡ ok (record s { horizon_digest = v }, r)
unfolding read_value
read_horizon_digest s v r l = rw (expect_bstr-bstr digest_size v r l (omega arith)) refl

read_founder_signature :
    (s : Checkpoint) (v : Bytes) (r : Bytes)
    → length v ≡ signature_size
    → read_value 6 s (bstr v ++ r) ≡ ok (record s { founder_signature = v }, r)
unfolding read_value
read_founder_signature s v r l = rw (expect_bstr-bstr signature_size v r l (omega arith)) refl

-- The entries behind the head of the map.
abbrev pub body : Checkpoint → Bytes
body cp =
    head 0 1
    ++ (head 0 cp.currency_id
        ++ (head 0 2
            ++ (head 0 cp.generation
                ++ (head 0 3
                    ++ (head 0 cp.created_at_ms
                        ++ (head 0 4
                            ++ (bstr cp.horizon_digest
                                ++ (head 0 5
                                    ++ (head 4 cp.account_count
                                        ++ (accounts_wire (table cp)
                                            ++ (head 0 6
                                                ++ (bstr cp.founder_signature ++ []))))))))))))

pub message-body : (cp : Checkpoint) → message cp ≡ head 5 wire_fields ++ body cp
message-body cp = simp (append_assoc, append-nil) refl

pub read_values-body :
    (cp : Checkpoint) (max : ℕ)
    → IsStored max cp
    → 0 < cp.currency_id
    → 0 < cp.generation
    → read_values 6 1 (empty max) (body cp) ≡ ok (cp, [])
unfolding read_value read_values
read_values-body cp max i cid gen =
    let s1 : Checkpoint = record (empty max) { currency_id = cp.currency_id } in
    let s2 : Checkpoint = record s1 { generation = cp.generation } in
    let s3 : Checkpoint = record s2 { created_at_ms = cp.created_at_ms } in
    let s4 : Checkpoint = record s3 { horizon_digest = cp.horizon_digest } in
    let s5 : Checkpoint = record s4 { account_count = cp.account_count; accounts = cp.accounts } in
    read_values-head 5 1 (empty max) s1 _ _ (omega arith)
      (read_currency_id (empty max) cp.currency_id _ cid i.currency_id)
    ∙ read_values-head 4 2 s1 s2 _ _ (omega arith)
        (read_generation s1 cp.generation _ gen i.generation)
    ∙ read_values-head 3 3 s2 s3 _ _ (omega arith)
        (read_created_at_ms s2 cp.created_at_ms _ i.created_at_ms)
    ∙ read_values-head 2 4 s3 s4 _ _ (omega arith)
        (read_horizon_digest s3 cp.horizon_digest _ i.digest)
    ∙ read_values-head 1 5 s4 s5 _ _ (omega arith) (read_table-accounts_wire s4 cp max _ refl i)
    ∙ read_values-head 0 6 s5 cp _ _ (omega arith)
        (read_founder_signature s5 cp.founder_signature [] i.signature)
