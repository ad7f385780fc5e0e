-- ===== src/Tx/Encoded.antt =====
-- What the writers of components/meshpay_tx/meshpay_tx.c append to a buffer.
use meshpay_v.Base.{
  ℕ, zero, suc, ◌-◌, ◌*◌, ◌/◌, ◌%◌, ◌^◌, ◌≡◌, refl, sym, ap, ◌∙◌, inl, inr, ◌||◌, List, [], ◌∷◌,
  ◌++◌, append-nil, append_assoc, Bytes, Err, Result, ok, err, ◌>>=◌, OnOk, ltb, leb, ◌==◌,
  if◌then◌else◌, Bool-cases, length, take,
}
use meshpay_v.Tx.{Tx, claim}
use meshpay_v.Tx.Cbor.{
  Writer, put, put_bytes, put_big_endian, initial, write_type_value, write_uint, write_bstr,
  write_array, write_map,
}
use meshpay_v.Tx.Codec.{write_parents, write_member, encode_signable_fields}

-- The most significant byte first.
abbrev pub big_endian : ℕ → ℕ → Bytes
big_endian zero v = []
big_endian (suc n) v = v / 2 ^ (8 * n) % 256 ∷ big_endian n v

-- A CBOR head: the major type and the value.
abbrev pub head : ℕ → ℕ → Bytes
head major v =
    if ltb v 24
    then initial major v ∷ []
    else if leb v 0xff
    then initial major 24 ∷ big_endian 1 v
    else if leb v 0xffff
    then initial major 25 ∷ big_endian 2 v
    else if leb v 0xffffffff
    then initial major 26 ∷ big_endian 4 v
    else initial major 27 ∷ big_endian 8 v

abbrev pub bstr : Bytes → Bytes
bstr bs = head 2 (length bs) ++ bs

-- The call appends the bytes or fails.
pub data Wrote (bs : Bytes) (w : Writer) : Result Writer → Type 0 where
  wrote : {w' : Writer} → w'.written ≡ w.written ++ bs → Wrote bs w (ok w')
  refused : {e : Err} → Wrote bs w (err e)

pub Wrote-OnOk :
    {bs : Bytes} {w : Writer} {r : Result Writer}
    → Wrote bs w r
    → OnOk (λ w'. w'.written ≡ w.written ++ bs) r
Wrote-OnOk (wrote e) = e
Wrote-OnOk refused = tt

behind :
    (xs ys : Bytes) {w w' : Writer} {r : Result Writer}
    → w'.written ≡ w.written ++ xs
    → Wrote ys w' r
    → Wrote (xs ++ ys) w r
behind xs ys e refused = refused
behind xs ys {w} e (wrote h) = wrote (h ∙ ap (λ zs. zs ++ ys) e ∙ append_assoc w.written xs ys)

infixl 5 ◌>>◌
-- One writer after another.
pub ◌>>◌ :
    {xs ys : Bytes} {w : Writer} {r : Result Writer} {f : Writer → Result Writer}
    → Wrote xs w r
    → ((w' : Writer) → Wrote ys w' (f w'))
    → Wrote (xs ++ ys) w (r >>= f)
refused >> k = refused
◌>>◌ {xs} {ys} (wrote {w'} e) k = behind xs ys e (k w')

put-Wrote : (b : ℕ) (w : Writer) → Wrote (b ∷ []) w (put b w)
unfolding put
put-Wrote b w = elim (Bool-cases (leb w.size (length w.written))) [
  | inl full ↦ rw full refused
  | inr room ↦ rw room (wrote refl)
]

pub put_bytes-Wrote : (bs : Bytes) (w : Writer) → Wrote bs w (put_bytes bs w)
unfolding put_bytes
put_bytes-Wrote bs w =
    elim (Bool-cases (ltb w.size (length bs) || ltb (w.size - length bs) (length w.written))) [
      | inl full ↦ rw full refused
      | inr room ↦ rw room (wrote refl)
    ]

put_big_endian-Wrote : (n v : ℕ) (w : Writer) → Wrote (big_endian n v) w (put_big_endian n v w)
unfolding put_big_endian
put_big_endian-Wrote zero v w = wrote (sym (append-nil w.written))
put_big_endian-Wrote (suc n) v w = put-Wrote _ w >> put_big_endian-Wrote n v

pub write_type_value-Wrote :
    (major v : ℕ) (w : Writer) → Wrote (head major v) w (write_type_value major v w)
unfolding write_type_value
write_type_value-Wrote major v w = elim (Bool-cases (ltb v 24)) [
  | inl a ↦ rw a (put-Wrote _ w)
  | inr a ↦ elim (Bool-cases (leb v 0xff)) [
    | inl b ↦ rw (a, b) (put-Wrote _ w >> put_big_endian-Wrote 1 v)
    | inr b ↦ elim (Bool-cases (leb v 0xffff)) [
      | inl k ↦ rw (a, b, k) (put-Wrote _ w >> put_big_endian-Wrote 2 v)
      | inr k ↦ elim (Bool-cases (leb v 0xffffffff)) [
        | inl l ↦ rw (a, b, k, l) (put-Wrote _ w >> put_big_endian-Wrote 4 v)
        | inr l ↦ rw (a, b, k, l) (put-Wrote _ w >> put_big_endian-Wrote 8 v)
      ]
    ]
  ]
]

pub write_uint-Wrote : (v : ℕ) (w : Writer) → Wrote (head 0 v) w (write_uint v w)
write_uint-Wrote = write_type_value-Wrote 0

pub write_bstr-Wrote : (bs : Bytes) (w : Writer) → Wrote (bstr bs) w (write_bstr bs w)
unfolding write_bstr
write_bstr-Wrote bs w = elim (Bool-cases (ltb 0xffffffff (length bs))) [
  | inl long ↦ rw long refused
  | inr short ↦ rw short (write_type_value-Wrote 2 (length bs) w >> put_bytes-Wrote bs)
]

write_array-Wrote : (n : ℕ) (w : Writer) → Wrote (head 4 n) w (write_array n w)
unfolding write_array
write_array-Wrote n w = elim (Bool-cases (ltb 0xffffffff n)) [
  | inl long ↦ rw long refused
  | inr short ↦ rw short (write_type_value-Wrote 4 n w)
]

pub write_map-Wrote : (n : ℕ) (w : Writer) → Wrote (head 5 n) w (write_map n w)
unfolding write_map
write_map-Wrote n w = elim (Bool-cases (ltb 0xffffffff n)) [
  | inl long ↦ rw long refused
  | inr short ↦ rw short (write_type_value-Wrote 5 n w)
]

abbrev pub bstrs : List Bytes → Bytes
bstrs [] = []
bstrs (b ∷ bs) = bstr b ++ bstrs bs

write_parents-Wrote : (ps : List Bytes) (w : Writer) → Wrote (bstrs ps) w (write_parents ps w)
unfolding write_parents
write_parents-Wrote [] w = wrote (sym (append-nil w.written))
write_parents-Wrote (q ∷ ps) w = write_bstr-Wrote q w >> write_parents-Wrote ps

abbrev pub member_entry : Tx → Bytes
member_entry t = if t.kind == claim then head 0 12 ++ bstr t.member_public else []

write_member-Wrote : (t : Tx) (w : Writer) → Wrote (member_entry t) w (write_member t w)
unfolding write_member
write_member-Wrote t w = elim (Bool-cases (t.kind == claim)) [
  | inl k ↦ rw k (write_uint-Wrote 12 w >> write_bstr-Wrote t.member_public)
  | inr k ↦ rw k (wrote (sym (append-nil w.written)))
]

-- The entries of the map that are signed.
abbrev pub signable : Tx → Bytes
signable t =
    head 0 1
    ++ head 0 t.kind
    ++ head 0 2
    ++ bstr t.from
    ++ head 0 3
    ++ bstr t.to
    ++ head 0 4
    ++ head 0 t.amount
    ++ head 0 5
    ++ head 0 t.seq
    ++ head 0 6
    ++ head 0 t.fee
    ++ head 0 7
    ++ head 4 t.parent_count
    ++ bstrs (take t.parent_count t.parents)
    ++ head 0 8
    ++ head 0 t.timestamp_ms
    ++ head 0 9
    ++ head 0 t.currency_id
    ++ member_entry t

pub encode_signable_fields-Wrote :
    (t : Tx) (w : Writer) → Wrote (signable t) w (encode_signable_fields t w)
unfolding encode_signable_fields
encode_signable_fields-Wrote t w =
    write_uint-Wrote 1 w
    >> write_uint-Wrote t.kind
    >> write_uint-Wrote 2
    >> write_bstr-Wrote t.from
    >> write_uint-Wrote 3
    >> write_bstr-Wrote t.to
    >> write_uint-Wrote 4
    >> write_uint-Wrote t.amount
    >> write_uint-Wrote 5
    >> write_uint-Wrote t.seq
    >> write_uint-Wrote 6
    >> write_uint-Wrote t.fee
    >> write_uint-Wrote 7
    >> write_array-Wrote t.parent_count
    >> write_parents-Wrote (take t.parent_count t.parents)
    >> write_uint-Wrote 8
    >> write_uint-Wrote t.timestamp_ms
    >> write_uint-Wrote 9
    >> write_uint-Wrote t.currency_id
    >> write_member-Wrote t
