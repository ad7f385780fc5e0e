-- ===== src/Crypto/Derivation.antt =====
-- The loop of `rns_crypto_hkdf_sha256` (components/rns_crypto/rns_crypto.c): it ends by its test,
-- and fills the output.
use meshpay_v.Base.{
  ℕ, zero, suc, ◌+◌, ◌-◌, ◌*◌, ◌%◌, ◌≤◌, ◌<◌, ◌≡◌, refl, inl, inr, false, ◌||◌, [], ◌∷◌, ◌++◌, some,
  Bytes, zeros, ok, arith, ltb, ◌==◌, if◌then◌else◌, Bool-cases, length, take, length-append,
  length-take,
}
use meshpay_v.Crypto.{Provider}
use meshpay_v.Crypto.Symmetric.{digest_size, hmac_sha256, expand, hkdf_sha256}

-- Every HMAC is computed, in 32 bytes.
abbrev pub HasHmac : Provider → Type 0
HasHmac p =
    (key m : Bytes) → (mac : Bytes) × (p.hmac_sha256 key m ≡ some mac) × (length mac ≡ digest_size)

module _ (p : Provider) (has : HasHmac p) where
  expand-total :
      (fuel : ℕ) (prk context : Bytes) (out_len : ℕ) (block : Bytes) (counter : ℕ) (out : Bytes)
      → length out ≤ out_len
      → out_len ≤ length out + fuel
      → (r : Bytes) × (expand p fuel prk context out_len block counter out ≡ ok r)
        × (length r ≡ out_len)
  unfolding expand hmac_sha256
  expand-total zero prk context out_len block counter out low high = (out, refl, omega arith)
  expand-total (suc fuel) prk context out_len block counter out low high =
      elim (Bool-cases (ltb (length out) out_len)) [
        | inr done ↦ rw (done, expand) (out, refl, ground (arith, done))
        | inl more ↦
            let (next, made, sized) = has prk (block ++ (context ++ counter ∷ [])) in
            let part = take (out_len - length out) next in
            let grown = length-append out part in
            let cut = length-take (out_len - length out) next in
            rw (more, expand, made)
              (expand-total fuel prk context out_len next ((counter + 1) % 256) (out ++ part)
                (ground (arith, grown, cut, sized, more)) (ground (arith, grown, cut, sized, more)))
      ]

  -- If every HMAC is computed, in 32 bytes, then rns_crypto_hkdf_sha256 on key material that is not
  -- empty returns exactly the 1 to 8160 bytes that are asked for.
  pub hkdf_sha256-total :
      (ikm salt context : Bytes) (out_len : ℕ)
      → 0 < length ikm
      → 0 < out_len
      → out_len ≤ 255 * digest_size
      → (out : Bytes) × (hkdf_sha256 p ikm salt context out_len ≡ ok out) × (length out ≡ out_len)
  unfolding hkdf_sha256 hmac_sha256
  hkdf_sha256-total ikm salt context out_len some_key some_out few =
      let (prk, made, sized) = has (if length salt == 0 then zeros digest_size else salt) ikm in
      let asked : (out_len == 0 || length ikm == 0) ≡ false = ground arith in
      let small : ltb (255 * digest_size) out_len ≡ false = ground arith in
      rw (asked, small, made)
        (expand-total out_len prk context out_len [] 1 [] (omega arith) (omega arith))
