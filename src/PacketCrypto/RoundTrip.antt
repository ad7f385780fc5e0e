-- ===== src/PacketCrypto/RoundTrip.antt =====
-- A token opens to the message it was made of (components/rns_packet_crypto/rns_packet_crypto.c).
use meshpay_v.Base.{
  take-append_self, drop-append_self, take-append_of, drop-append_of, ℕ, zero, suc, ◌+◌, ◌-◌, ◌%◌,
  ◌≤◌, ◌<◌, ◌≡◌, refl, ap, ◌∙◌, inl, inr, true, false, not, ◌||◌, [], ◌∷◌, ◌++◌, Option, none, some,
  Bytes, Result, ok, OnOk, OnOk-bind_eq, OnOk-ok, arith, ltb, ◌==◌, Bool-cases, length, take, drop,
  get_or, replicate, any, length-append, length-replicate, constant_equal, constant_equal_iff,
  bytes_zero,
}
use meshpay_v.Crypto
use meshpay_v.Crypto.{Provider}
use meshpay_v.Identity.{Identity}
use meshpay_v.Crypto.Symmetric.{
  or_fail, block_size, aes_key_size, aes_encrypt, aes_decrypt, hmac_sha256,
}
use meshpay_v.Identity.{key_size, get_public_key, get_hash}
use meshpay_v.Packet.{max_data}
use meshpay_v.PacketCrypto.{
  hmac_size, max_plaintext, max_ciphertext, overhead, padded_len, pad, unpadded_len,
  derive_token_key, token_hmac, encrypt_single, open_token, decrypt_single,
}

get_or-append : (xs ys : Bytes) (i d : ℕ) → get_or (xs ++ ys) (length xs + i) d ≡ get_or ys i d
get_or-append [] ys i d = let e : 0 + i ≡ i = omega arith in rw e refl
get_or-append (x ∷ xs) ys i d =
    let e : suc (length xs) + i ≡ suc (length xs + i) = omega arith in
    rw e (get_or-append xs ys i d)

get_or-replicate : (n i v d : ℕ) → i < n → get_or (replicate n v) i d ≡ v
get_or-replicate zero i v d h = absurd (omega arith)
get_or-replicate (suc n) zero v d h = refl
get_or-replicate (suc n) (suc i) v d h = get_or-replicate n i v d (omega arith)

any-replicate : (n v : ℕ) → any (λ b. not (b == v)) (replicate n v) ≡ false
any-replicate zero v = refl
any-replicate (suc n) v = ground (arith, any-replicate n v)

-- The same for any pad that fills the block.
unpadded_len-replicate :
    (m : Bytes) (v : ℕ)
    → 1 ≤ v
    → v ≤ block_size
    → (length m + v) % block_size ≡ 0
    → unpadded_len (m ++ replicate v v) ≡ ok (length m)
unfolding unpadded_len
unpadded_len-replicate m v low high whole =
    let padded = m ++ replicate v v in
    let len : length padded ≡ length m + v =
      omega (arith, length-append m (replicate v v), length-replicate v v) in
    let back : length m + v - 1 ≡ length m + (v - 1) = omega arith in
    let last : get_or padded (length m + (v - 1)) 0 ≡ v =
      get_or-append m (replicate v v) (v - 1) 0 ∙ get_or-replicate v (v - 1) v 0 (omega arith) in
    let front : length m + v - v ≡ length m = omega arith in
    let tail : any (λ b. not (b == v)) (drop (length m) padded) ≡ false =
      ap (any (λ b. not (b == v))) (drop-append_self m (replicate v v)) ∙ any-replicate v v in
    let filled : (length m + v == 0 || not ((length m + v) % block_size == 0)) ≡ false =
      ground arith in
    let sound : (v == 0 || ltb block_size v || ltb (length m + v) v) ≡ false = ground arith in
    rw (len, back, last, filled, sound, front, tail) refl

-- Padding is undone: the length that is read back is that of the message.
pub unpadded_len-pad : (m : Bytes) → unpadded_len (pad m) ≡ ok (length m)
unfolding pad
unpadded_len-pad m =
    unpadded_len-replicate m ((padded_len (length m) - length m) % 256) (omega arith) (omega arith)
      (omega arith)

-- What Mbed TLS and Monocypher document: the agreement of X25519, whose public keys are never zero,
-- the size of an HMAC, and AES in CBC mode with its inverse.
pub record IsConsistent (p : Provider) : Type 0 where
  pub agree : (a b : Bytes) → p.x25519 a (p.x25519_public b) ≡ p.x25519 b (p.x25519_public a)
  pub key_length : (a : Bytes) → length a ≡ key_size → length (p.x25519_public a) ≡ key_size
  pub key_nonzero : (a : Bytes) → bytes_zero a ≡ false → bytes_zero (p.x25519_public a) ≡ false
  pub mac_length : (key m mac : Bytes) → p.hmac_sha256 key m ≡ some mac → length mac ≡ hmac_size
  pub inverse :
      (key iv m c : Bytes)
      → p.aes_encrypt key iv m ≡ some c
      → (p.aes_decrypt key iv c ≡ some m) × (length c ≡ length m)

-- `recipient` is the public half of `holder`.
pub record IsHalf (p : Provider) (holder recipient : Identity) : Type 0 where
  pub private : holder.has_private ≡ true
  pub known : holder.has_public ≡ true
  pub nonzero : bytes_zero holder.x25519_private ≡ false
  pub same_key : recipient.x25519_public ≡ p.x25519_public holder.x25519_private
  pub same_hash : recipient.hash ≡ holder.hash
  pub sized : length recipient.x25519_public ≡ key_size

module _ (p : Provider) (k : IsConsistent p) where
  derive_token_key_comm :
      (a b salt : Bytes)
      → bytes_zero a ≡ false
      → bytes_zero b ≡ false
      → derive_token_key p a (p.x25519_public b) salt
        ≡ derive_token_key p b (p.x25519_public a) salt
  unfolding derive_token_key Crypto.shared_secret
  derive_token_key_comm a b salt x y =
      rw (x, y, k.key_nonzero a x, k.key_nonzero b y, k.agree a b) refl

  length-pad : (m : Bytes) → length (pad m) ≡ padded_len (length m)
  unfolding pad
  length-pad m =
      let v = (padded_len (length m) - length m) % 256 in
      omega (arith, length-append m (replicate v v), length-replicate v v)

  take-pad : (m : Bytes) → take (length m) (pad m) ≡ m
  unfolding pad
  take-pad m = take-append_self m _

  open_token_lem :
      (holder : Identity) (epub iv cipher mac m derived : Bytes) (out_len : ℕ)
      → holder.has_public ≡ true
      → derive_token_key p holder.x25519_private epub holder.hash ≡ ok derived
      → token_hmac p derived (iv ++ cipher) ≡ ok mac
      → aes_decrypt p (drop aes_key_size derived) iv cipher ≡ ok (pad m)
      → length m ≤ max_plaintext
      → length m ≤ out_len
      → open_token p holder epub iv cipher mac out_len ≡ ok m
  unfolding open_token get_hash
  open_token_lem holder epub iv cipher mac m derived out_len known d t a short room =
      let same : constant_equal mac mac ≡ true = (constant_equal_iff mac mac).1 refl in
      let fits : (ltb max_plaintext (length m) || ltb out_len (length m)) ≡ false = ground arith in
      rw (known, d, t, same, a, unpadded_len-pad m, fits, take-pad m) refl

  -- The parts of a token are found again.
  decrypt_single-open_token :
      (holder : Identity) (epub iv cipher mac : Bytes) (out_len : ℕ)
      → holder.has_private ≡ true
      → length epub ≡ key_size
      → length iv ≡ block_size
      → length mac ≡ hmac_size
      → 0 < length cipher
      → length cipher ≤ max_ciphertext
      → length cipher % block_size ≡ 0
      → decrypt_single p holder (epub ++ (iv ++ (cipher ++ mac))) out_len
        ≡ open_token p holder epub iv cipher mac out_len
  unfolding decrypt_single
  decrypt_single-open_token holder epub iv cipher mac out_len has le li lm some_c max whole =
      let token = epub ++ (iv ++ (cipher ++ mac)) in
      let len : length token ≡ length cipher + overhead = omega (
        arith,
        length-append epub (iv ++ (cipher ++ mac)),
        length-append iv (cipher ++ mac),
        length-append cipher mac,
      ) in
      let cut : length cipher + overhead - key_size - block_size - hmac_size ≡ length cipher =
        omega arith in
      let sized : (ltb (length cipher + overhead) (overhead + block_size)
            || ltb (overhead + max_ciphertext) (length cipher + overhead))
          ≡ false =
        ground arith in
      let filled : (length cipher == 0
            || ltb max_ciphertext (length cipher)
            || not (length cipher % block_size == 0))
          ≡ false =
        ground arith in
      let t1 = take-append_of key_size epub (iv ++ (cipher ++ mac)) le in
      let d1 = drop-append_of key_size epub (iv ++ (cipher ++ mac)) le in
      let t2 = take-append_of block_size iv (cipher ++ mac) li in
      let d2 = drop-append_of block_size iv (cipher ++ mac) li in
      rw
        (
          has,
          len,
          cut,
          sized,
          filled,
          t1,
          d1,
          t2,
          d2,
          take-append_self cipher mac,
          drop-append_self cipher mac,
        )
        refl

  public_key_ok :
      (e epub : Bytes)
      → Crypto.public_key p e ≡ ok epub
      → (bytes_zero e ≡ false) × (epub ≡ p.x25519_public e)
  unfolding Crypto.public_key
  public_key_ok e epub h = ground (arith, h)

  get_public_key_ok :
      (i : Identity) (public : Bytes)
      → length i.x25519_public ≡ key_size
      → get_public_key i ≡ ok public
      → take key_size public ≡ i.x25519_public
  unfolding get_public_key
  get_public_key_ok i public sized h =
      let t = take-append_of key_size i.x25519_public i.ed25519_public sized in ground (arith, h, t)

  get_hash_ok : (i : Identity) (hash : Bytes) → get_hash i ≡ ok hash → hash ≡ i.hash
  unfolding get_hash
  get_hash_ok i hash h = ground (arith, h)

  or_fail_ok : (o : Option Bytes) (b : Bytes) → or_fail o ≡ ok b → o ≡ some b
  or_fail_ok none b h = cc
  or_fail_ok (some x) b h = cc

  token_hmac_ok : (derived m mac : Bytes) → token_hmac p derived m ≡ ok mac → length mac ≡ hmac_size
  unfolding token_hmac hmac_sha256
  token_hmac_ok derived m mac h =
      k.mac_length (take aes_key_size derived) m mac (or_fail_ok _ mac h)

  aes_encrypt_ok :
      (key iv m c : Bytes)
      → aes_encrypt p key iv m ≡ ok c
      → (length c ≡ length m) × (length c % block_size ≡ 0) × (aes_decrypt p key iv c ≡ ok m)
  unfolding aes_encrypt aes_decrypt
  aes_encrypt_ok key iv m c h = elim (Bool-cases (not (length m % block_size == 0))) [
    | inl ragged ↦ let g = rw ragged at h in cc
    | inr whole ↦
        let g = rw whole at h in
        let (d, l) = k.inverse key iv m c (or_fail_ok _ c g) in
        (l, ground (arith, whole, l), rw (l, whole, d) refl)
  ]

  -- What was sealed under the facts of a run of the code opens again.
  token_opens :
      (holder recipient : Identity) (m e epub public hash derived iv cipher mac : Bytes)
      (out_len : ℕ)
      → IsHalf p holder recipient
      → length e ≡ key_size
      → length iv ≡ block_size
      → length m ≤ max_plaintext
      → length m ≤ out_len
      → Crypto.public_key p e ≡ ok epub
      → get_public_key recipient ≡ ok public
      → get_hash recipient ≡ ok hash
      → derive_token_key p e (take key_size public) hash ≡ ok derived
      → aes_encrypt p (drop aes_key_size derived) iv (pad m) ≡ ok cipher
      → token_hmac p derived (iv ++ cipher) ≡ ok mac
      → decrypt_single p holder (epub ++ (iv ++ (cipher ++ mac))) out_len ≡ ok m
  token_opens holder recipient m e epub public hash derived iv cipher mac out_len half se siv short
        room hepub hpublic hhash hderived hcipher hmac =
      let (e_nonzero, epub_is) = public_key_ok e epub hepub in
      let half_key = get_public_key_ok recipient public half.sized hpublic ∙ half.same_key in
      let hash_is = get_hash_ok recipient hash hhash ∙ half.same_hash in
      let (lc, whole, opens) =
        aes_encrypt_ok (drop aes_key_size derived) iv (pad m) cipher hcipher in
      let lp = length-pad m in
      let agreed : derive_token_key p holder.x25519_private epub holder.hash ≡ ok derived =
        rw epub_is (
          derive_token_key_comm holder.x25519_private e holder.hash half.nonzero e_nonzero
          ∙ rw (← half_key, ← hash_is) hderived) in
      decrypt_single-open_token holder epub iv cipher mac out_len half.private
        (ap length epub_is ∙ k.key_length e se) siv (token_hmac_ok derived (iv ++ cipher) mac hmac)
        (omega arith) (omega arith) whole
      ∙ open_token_lem holder epub iv cipher mac m derived out_len half.known agreed hmac opens
          short room

  pub encrypt_single-Opens :
      (holder recipient : Identity) (m : Bytes) (token_len out_len : ℕ)
      (draw iv_draw : Result Bytes)
      → IsHalf p holder recipient
      → OnOk (λ e. length e ≡ key_size) draw
      → OnOk (λ iv. length iv ≡ block_size) iv_draw
      → length m ≤ out_len
      → OnOk
          (λ token. decrypt_single p holder token out_len ≡ ok m)
          (encrypt_single p recipient m token_len draw iv_draw)
  unfolding encrypt_single
  encrypt_single-Opens holder recipient m token_len out_len draw iv_draw half sized_e sized_iv
        room =
      let Q = λ (token : Bytes). decrypt_single p holder token out_len ≡ ok m in
      let needed = key_size + block_size + padded_len (length m) + hmac_size in
      elim (Bool-cases (not recipient.has_public || ltb max_plaintext (length m))) [
        | inl bad ↦ rw bad tt
        | inr good ↦ elim (Bool-cases (ltb max_data needed || ltb token_len needed)) [
          | inl bad' ↦ rw (good, bad') tt
          | inr good' ↦
              rw (good, good')
                (OnOk-bind_eq Q draw _ λ e he.
                  OnOk-bind_eq Q (Crypto.public_key p e) _ λ epub hepub.
                    OnOk-bind_eq Q (get_public_key recipient) _ λ public hpublic.
                      OnOk-bind_eq Q (get_hash recipient) _ λ hash hhash.
                        OnOk-bind_eq Q (derive_token_key p e (take key_size public) hash) _
                          λ derived hderived. OnOk-bind_eq Q iv_draw _ λ iv hiv.
                            OnOk-bind_eq Q (aes_encrypt p (drop aes_key_size derived) iv (pad m)) _
                              λ cipher hcipher.
                                OnOk-bind_eq Q (token_hmac p derived (iv ++ cipher)) _ λ mac hmac.
                                  token_opens holder recipient m e epub public hash derived iv
                                    cipher mac out_len half (OnOk-ok _ draw e sized_e he)
                                    (OnOk-ok _ iv_draw iv sized_iv hiv) (ground (arith, good)) room
                                    hepub hpublic hhash hderived hcipher hmac)
        ]
      ]
