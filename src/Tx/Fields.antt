-- ===== src/Tx/Fields.antt =====
-- The cases of the `switch` of `meshpay_tx_decode` (components/meshpay_tx/meshpay_tx.c), on the bytes
-- that the encoder appends for each field.
use meshpay_v.Base.{
  ℕ, suc, ◌^◌, ◌≤◌, ◌<◌, ◌≡◌, refl, ◌⊎◌, inl, inr, false, not, ◌&&◌, [], ◌∷◌, ◌++◌, append_assoc,
  Bytes, zeros, ok, arith, ltb, ◌==◌, length, take, replicate, bit_and, bit_or,
}
use meshpay_v.Tx.{
  Tx, transfer, mint, claim, max_parents, id_size, hash_size, public_size, signature_size,
}
use meshpay_v.Tx.Decode.{
  read_uint, read_u32, read_kind, read_parents, read_parent_list, read_field, read_entries,
}
use meshpay_v.Tx.Encoded.{head, bstr, bstrs}
use meshpay_v.Tx.Read.{read_type_value-head, read_bstr-bstr}

pub read_uint-head : (v : ℕ) (r : Bytes) → v < 2 ^ 64 → read_uint (head 0 v ++ r) ≡ ok (v, r)
read_uint-head v r l = read_type_value-head 0 v r (omega arith) l

pub read_u32-head : (v : ℕ) (r : Bytes) → v < 2 ^ 32 → read_u32 (head 0 v ++ r) ≡ ok (v, r)
unfolding read_u32
read_u32-head v r l =
    let small : ltb 0xffffffff v ≡ false = ground arith in
    rw (read_uint-head v r (omega arith), small) refl

pub read_kind-head :
    (t : Tx) (v : ℕ) (r : Bytes)
    → (v ≡ transfer) ⊎ (v ≡ mint) ⊎ (v ≡ claim)
    → read_kind t (head 0 v ++ r) ≡ ok (record t { kind = v }, r)
unfolding read_kind
read_kind-head t v r known =
    let good : (not (v == transfer) && not (v == mint) && not (v == claim)) ≡ false =
      ground arith in
    rw (read_uint-head v r (omega arith), good) refl

-- The array of parents: two ids, and zero in the slots behind the count.
pub record HasParents (t : Tx) : Type 0 where
  pub first : Bytes
  pub second : Bytes
  pub array : t.parents ≡ first ∷ second ∷ []
  pub first_size : length first ≡ id_size
  pub second_size : length second ≡ id_size
  pub count : t.parent_count ≤ max_parents
  pub spare_first : t.parent_count ≡ 0 → first ≡ zeros id_size
  pub spare_second : t.parent_count ≤ 1 → second ≡ zeros id_size

read_parents_lem :
    (n : ℕ) (a b r : Bytes)
    → n ≤ max_parents
    → length a ≡ id_size
    → length b ≡ id_size
    → (n ≡ 0 → a ≡ zeros id_size)
    → (n ≤ 1 → b ≡ zeros id_size)
    → read_parents n 0 (replicate max_parents (zeros id_size)) (bstrs (take n (a ∷ b ∷ [])) ++ r)
      ≡ ok (a ∷ b ∷ [], r)
unfolding read_parents
read_parents_lem n a b r h la lb za zb = elim (n_cases n h) [
  | inl e ↦ rw (e, za e, zb (omega arith)) refl
  | inr (inl e) ↦
      rw
        (
          e,
          zb (omega arith),
          append_assoc (bstr a) [] r,
          read_bstr-bstr id_size a r la (omega arith),
        )
        refl
  | inr (inr e) ↦
      rw
        (
          e,
          append_assoc (bstr a) (bstr b ++ []) r,
          read_bstr-bstr id_size a (bstr b ++ [] ++ r) la (omega arith),
          append_assoc (bstr b) [] r,
          read_bstr-bstr id_size b r lb (omega arith),
        )
        refl
]
  where
    n_cases : (n : ℕ) → n ≤ 2 → (n ≡ 0) ⊎ (n ≡ 1) ⊎ (n ≡ 2)
    n_cases n h = omega arith

pub read_parent_list-bstrs :
    (s t : Tx) (r : Bytes)
    → s.parents ≡ replicate max_parents (zeros id_size)
    → HasParents t
    → read_parent_list s (head 4 t.parent_count ++ (bstrs (take t.parent_count t.parents) ++ r))
      ≡ ok (record s { parent_count = t.parent_count; parents = t.parents }, r)
unfolding read_parent_list
read_parent_list-bstrs s t r clean p =
    let few = p.count in
    let fits : ltb max_parents t.parent_count ≡ false = ground arith in
    rw
      (
        read_type_value-head 4 t.parent_count (bstrs (take t.parent_count t.parents) ++ r)
            (omega arith) (omega arith),
        fits,
        p.array,
        clean,
        read_parents_lem t.parent_count p.first p.second r p.count p.first_size p.second_size
            p.spare_first p.spare_second,
      )
      refl

-- One entry of the map: its key is new and its value is read.
pub read_entries-head :
    (n key present : ℕ) (t t' : Tx) (body rest : Bytes)
    → key ≤ 31
    → bit_and present (2 ^ key) ≡ 0
    → read_field key t body ≡ ok (t', rest)
    → read_entries (suc n) t present (head 0 key ++ body)
      ≡ read_entries n t' (bit_or present (2 ^ key)) rest
unfolding read_entries
read_entries-head n key present t t' body rest h free value =
    let small : ltb 31 key ≡ false = ground arith in
    let new : not (bit_and present (2 ^ key) == 0) ≡ false = ground arith in
    rw (read_uint-head key body (omega arith), small, new, value) refl

pub read_from :
    (s : Tx) (bs r : Bytes)
    → length bs ≡ hash_size
    → read_field 2 s (bstr bs ++ r) ≡ ok (record s { from = bs }, r)
unfolding read_field
read_from s bs r h = rw (read_bstr-bstr hash_size bs r h (omega arith)) refl

pub read_to :
    (s : Tx) (bs r : Bytes)
    → length bs ≡ hash_size
    → read_field 3 s (bstr bs ++ r) ≡ ok (record s { to = bs }, r)
unfolding read_field
read_to s bs r h = rw (read_bstr-bstr hash_size bs r h (omega arith)) refl

pub read_amount :
    (s : Tx) (v : ℕ) (r : Bytes)
    → v < 2 ^ 32
    → read_field 4 s (head 0 v ++ r) ≡ ok (record s { amount = v }, r)
unfolding read_field
read_amount s v r h = rw (read_u32-head v r h) refl

pub read_seq :
    (s : Tx) (v : ℕ) (r : Bytes)
    → v < 2 ^ 32
    → read_field 5 s (head 0 v ++ r) ≡ ok (record s { seq = v }, r)
unfolding read_field
read_seq s v r h = rw (read_u32-head v r h) refl

pub read_fee :
    (s : Tx) (v : ℕ) (r : Bytes)
    → v < 2 ^ 32
    → read_field 6 s (head 0 v ++ r) ≡ ok (record s { fee = v }, r)
unfolding read_field
read_fee s v r h = rw (read_u32-head v r h) refl

pub read_timestamp_ms :
    (s : Tx) (v : ℕ) (r : Bytes)
    → v < 2 ^ 64
    → read_field 8 s (head 0 v ++ r) ≡ ok (record s { timestamp_ms = v }, r)
unfolding read_field
read_timestamp_ms s v r h = rw (read_uint-head v r h) refl

pub read_currency_id :
    (s : Tx) (v : ℕ) (r : Bytes)
    → v < 2 ^ 32
    → read_field 9 s (head 0 v ++ r) ≡ ok (record s { currency_id = v }, r)
unfolding read_field
read_currency_id s v r h = rw (read_u32-head v r h) refl

pub read_id :
    (s : Tx) (bs r : Bytes)
    → length bs ≡ id_size
    → read_field 10 s (bstr bs ++ r) ≡ ok (record s { id = bs }, r)
unfolding read_field
read_id s bs r h = rw (read_bstr-bstr id_size bs r h (omega arith)) refl

pub read_signature :
    (s : Tx) (bs r : Bytes)
    → length bs ≡ signature_size
    → read_field 11 s (bstr bs ++ r) ≡ ok (record s { signature = bs }, r)
unfolding read_field
read_signature s bs r h = rw (read_bstr-bstr signature_size bs r h (omega arith)) refl

pub read_member_public :
    (s : Tx) (bs r : Bytes)
    → length bs ≡ public_size
    → read_field 12 s (bstr bs ++ r) ≡ ok (record s { member_public = bs }, r)
unfolding read_field
read_member_public s bs r h = rw (read_bstr-bstr public_size bs r h (omega arith)) refl
