-- ===== src/Tx/Read.antt =====
-- What the readers of components/meshpay_tx/meshpay_tx.c take from the bytes that the writers append.
use meshpay_v.Base.{
  ℕ, zero, suc, ◌*◌, ◌/◌, ◌%◌, ◌^◌, ◌≤◌, ◌<◌, ◌≡◌, refl, sym, ap, ◌∙◌, inl, inr, Bool, true, false,
  not, ◌&&◌, ◌||◌, ◌∷◌, ◌++◌, append_assoc, Bytes, ok, arith, ltb, leb, ◌==◌, Bool-cases, length,
  length-append, take-append_self, drop-append_self, bit_and, bit_or, bit_or_byte, shift_right,
  shift_right-le, div-shift_right, for_all_below, for_all_below_lem,
}
use meshpay_v.Tx.Cbor.{initial, get, get_big_endian, follow, read_type_value, read_bstr}
use meshpay_v.Tx.Encoded.{big_endian, head, bstr}

abbrev is_read : ℕ → ℕ → Bool
is_read major low = (initial major low / 32 == major) && (bit_and (initial major low) 0x1f == low)

run : for_all_below 8 (λ m. for_all_below 32 (λ l. is_read m l)) ≡ true
run = refl

initial-read :
    (major low : ℕ)
    → major < 8
    → low < 32
    → (initial major low / 32 ≡ major) × (bit_and (initial major low) 0x1f ≡ low)
initial-read major low a b =
    let all =
      for_all_below_lem 32 (λ l. is_read major l) low
        (for_all_below_lem 8 (λ m. for_all_below 32 (λ l. is_read m l)) major run a) b in
    (ground arith, ground arith)

-- Reading the last `n` bytes of a number behind the rest of it.
get_big_endian-big_endian :
    (n v : ℕ) (r : Bytes)
    → n ≤ 8
    → v < 2 ^ 64
    → get_big_endian n (shift_right n v) (big_endian n v ++ r) ≡ ok (v, r)
unfolding get_big_endian get
get_big_endian-big_endian zero v r h l = refl
get_big_endian-big_endian (suc n) v r h l =
    let q : ℕ = shift_right n v in
    let le : q ≤ v = shift_right-le n v in
    let whole : bit_or (q / 256 * 256 % 2 ^ 64) (v / 2 ^ (8 * n) % 256) ≡ q =
      rw (div-shift_right n v (omega arith)) (
        ap (λ (k : ℕ). bit_or k (q % 256)) {x = q / 256 * 256 % 2 ^ 64} {y = q / 256 * 256}
          (omega arith)
        ∙ bit_or_byte (q / 256) (q % 256) (omega arith)
        ∙ omega arith) in
    ap (λ (k : ℕ). get_big_endian n k (big_endian n v ++ r)) whole
    ∙ get_big_endian-big_endian n v r (omega arith) l

pub get_big_endian_all :
    (n v : ℕ) (r : Bytes)
    → n ≤ 8
    → v < 2 ^ 64
    → shift_right n v ≡ 0
    → get_big_endian n 0 (big_endian n v ++ r) ≡ ok (v, r)
get_big_endian_all n v r h l z =
    ap (λ (k : ℕ). get_big_endian n k (big_endian n v ++ r)) (sym z)
    ∙ get_big_endian-big_endian n v r h l

-- A head with bytes behind it.
read_head-follow :
    (major low : ℕ) (bs r : Bytes) (v : ℕ)
    → major < 8
    → 24 ≤ low
    → low < 31
    → follow low (bs ++ r) ≡ ok (v, r)
    → read_type_value major (initial major low ∷ bs ++ r) ≡ ok (v, r)
unfolding read_type_value get
read_head-follow major low bs r v m a b h =
    let (top, rest) = initial-read major low m (omega arith) in
    let good : (not (major == major) || low == 31) ≡ false = ground arith in
    let long : ltb low 24 ≡ false = ground arith in rw (top, rest, good, long) h

-- Every reader of a head gets the value that the writer put.
pub read_type_value-head :
    (major v : ℕ) (r : Bytes)
    → major < 8
    → v < 2 ^ 64
    → read_type_value major (head major v ++ r) ≡ ok (v, r)
unfolding read_type_value get
read_type_value-head major v r m l = elim (Bool-cases (ltb v 24)) [
  | inl a ↦
      let (top, rest) = initial-read major v m (ground arith) in
      let good : (not (major == major) || v == 31) ≡ false = ground arith in
      rw a (rw (top, rest, good, a) refl)
  | inr a ↦ elim (Bool-cases (leb v 0xff)) [
    | inl b ↦
        rw (a, b)
          (read_head-follow major 24 (big_endian 1 v) r v m (omega arith) (omega arith)
            (get_big_endian_all 1 v r (omega arith) l (ground arith)))
    | inr b ↦ elim (Bool-cases (leb v 0xffff)) [
      | inl k ↦
          rw (a, b, k)
            (read_head-follow major 25 (big_endian 2 v) r v m (omega arith) (omega arith)
              (get_big_endian_all 2 v r (omega arith) l (ground arith)))
      | inr k ↦ elim (Bool-cases (leb v 0xffffffff)) [
        | inl f ↦
            rw (a, b, k, f)
              (read_head-follow major 26 (big_endian 4 v) r v m (omega arith) (omega arith)
                (get_big_endian_all 4 v r (omega arith) l (ground arith)))
        | inr f ↦
            rw (a, b, k, f)
              (read_head-follow major 27 (big_endian 8 v) r v m (omega arith) (omega arith)
                (get_big_endian_all 8 v r (omega arith) l (ground arith)))
      ]
    ]
  ]
]

pub read_bstr-bstr :
    (n : ℕ) (bs r : Bytes) → length bs ≡ n → n < 2 ^ 64 → read_bstr n (bstr bs ++ r) ≡ ok (bs, r)
unfolding read_bstr
read_bstr-bstr n bs r h l =
    let good : (not (length bs == n) || ltb (length (bs ++ r)) (length bs)) ≡ false =
      ground (arith, length-append bs r) in
    rw
      (
        append_assoc (head 2 (length bs)) bs r,
        read_type_value-head 2 (length bs) (bs ++ r) (omega arith) (omega arith),
        good,
        take-append_self bs r,
        drop-append_self bs r,
      )
      refl
