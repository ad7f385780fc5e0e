-- ===== src/Announce/Verify.antt =====
-- What an announce must be for `rns_announce_verify` (components/rns_announce/rns_announce.c) to
-- accept it.
use meshpay_v.Base.{
  ◌≡◌, refl, ap, ◌∙◌, inl, inr, false, not, ◌||◌, ◌==◌, ltb, length, drop, ok, OnOk, OnOk-bind_eq,
  OnOk-ok, OnOk-if, Bool-cases, bytes_zero, constant_equal, constant_equal_iff,
}
use meshpay_v.Crypto.{Provider}
use meshpay_v.Destination.{hash_equal, single, name_hash_size}
use meshpay_v.Packet.{Packet, max_data}
use meshpay_v.Announce.{
  announce, random_hash_size, public_key_size, signature_size, base_size, max_app_data, Announce,
  decode, compute_destination_hash, check_signature, verify,
}

decode-destination_hash :
    (k : Packet) → OnOk (λ a. a.destination_hash ≡ k.destination_hash) (decode k)
unfolding decode
decode-destination_hash k =
    let Q = λ (a : Announce). a.destination_hash ≡ k.destination_hash in
    let rest =
      drop signature_size
        (drop random_hash_size (drop name_hash_size (drop public_key_size k.payload))) in
    OnOk-if Q (not (k.packet_type == announce) || not (k.destination_type == single)) _ _ λ _.
      OnOk-if Q k.context_flag _ _ λ _.
        OnOk-if Q (ltb (length k.payload) base_size || ltb max_data (length k.payload)) _ _
          λ _. OnOk-if Q (ltb max_app_data (length rest)) _ _ λ _. refl

pub decode-destination_hash_ok :
    (k : Packet) (a : Announce) → decode k ≡ ok a → a.destination_hash ≡ k.destination_hash
decode-destination_hash_ok k a =
    OnOk-ok (λ a. a.destination_hash ≡ k.destination_hash) (decode k) a (decode-destination_hash k)

module _ (p : Provider) where
  -- The announce is in the packet, its key and name give the destination of the packet, and it is
  -- signed under its key.
  pub record IsAuthentic (k : Packet) (a : Announce) : Type 0 where
    pub decoded : decode k ≡ ok a
    pub random : bytes_zero a.random_hash ≡ false
    pub of_key : compute_destination_hash p a.name_hash a.public_key ≡ ok k.destination_hash
    pub signed : check_signature p a ≡ ok tt

  pub verify-IsAuthentic : (k : Packet) → OnOk (IsAuthentic k) (verify p k)
  unfolding verify hash_equal
  verify-IsAuthentic k = OnOk-bind_eq (IsAuthentic k) (decode k) _ λ a ha.
      elim (Bool-cases (bytes_zero a.random_hash)) [
        | inl zeros ↦ rw zeros tt
        | inr random ↦ rw random (
            OnOk-bind_eq (IsAuthentic k) (compute_destination_hash p a.name_hash a.public_key) _
              λ h hh. elim (Bool-cases (constant_equal k.destination_hash h)) [
                | inr differ ↦ rw differ tt
                | inl same ↦ rw same (
                    OnOk-bind_eq (IsAuthentic k) (check_signature p a) _ λ u hu. record {
                      decoded = ha;
                      random = random;
                      of_key =
                          hh
                          ∙ ap ok (
                              let e = (constant_equal_iff k.destination_hash h).0 same in
                              rw e refl);
                      signed = hu;
                    })
              ])
      ]
