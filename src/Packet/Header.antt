-- ===== src/Packet/Header.antt =====
-- The bits of the header byte (components/rns_packet/rns_packet.c), by a run over all its values.
use meshpay_v.Base.{
  for_all_below, for_all_below_lem, ℕ, ◌/◌, ◌<◌, ◌≡◌, refl, Bool, true, false, not, ◌&&◌, arith,
  ◌==◌, if◌then◌else◌, bit_and,
}
use meshpay_v.Packet.{header_byte}

abbrev same : Bool → Bool → Bool
same true b = b
same false b = not b

same_lem : (a b : Bool) → same a b ≡ true → a ≡ b
same_lem true b h = ground arith
same_lem false b h = ground arith

abbrev reads_back : ℕ → Bool → ℕ → ℕ → ℕ → Bool
reads_back header flag propagation destination kind =
    let h = header_byte header flag propagation destination kind in
    (bit_and h 0x80 == 0)
    && ((if not (bit_and h 0x40 == 0) then 1 else 0) == header)
    && same (not (bit_and h 0x20 == 0)) flag
    && ((if not (bit_and h 0x10 == 0) then 1 else 0) == propagation)
    && (bit_and h 0x0c / 4 == destination)
    && (bit_and h 0x03 == kind)
    && (bit_and h 0x0f == bit_and (header_byte 0 false 0 destination kind) 0x0f)

run :
    (flag : Bool)
    → for_all_below 2 (λ a.
      for_all_below 2 (λ b. for_all_below 4 (λ c. for_all_below 4 (λ d. reads_back a flag b c d))))
      ≡ true
unfolding header_byte
run true = refl
run false = refl

-- What `rns_packet_unpack` and `rns_packet_hash` read from a header byte.
pub record IsReadBack (header : ℕ) (flag : Bool) (propagation destination kind : ℕ) : Type 0 where
  pub closed : (bit_and (header_byte header flag propagation destination kind) 0x80 == 0) ≡ true
  pub header_type :
      (if not (bit_and (header_byte header flag propagation destination kind) 0x40 == 0)
        then 1
        else 0)
      ≡ header
  pub context_flag :
      not (bit_and (header_byte header flag propagation destination kind) 0x20 == 0) ≡ flag
  pub propagation_type :
      (if not (bit_and (header_byte header flag propagation destination kind) 0x10 == 0)
        then 1
        else 0)
      ≡ propagation
  pub destination_type :
      bit_and (header_byte header flag propagation destination kind) 0x0c / 4 ≡ destination
  pub packet_type : bit_and (header_byte header flag propagation destination kind) 0x03 ≡ kind
  pub masked :
      bit_and (header_byte header flag propagation destination kind) 0x0f
      ≡ bit_and (header_byte 0 false 0 destination kind) 0x0f

pub header_byte-IsReadBack :
    (header : ℕ) (flag : Bool) (propagation destination kind : ℕ)
    → header < 2
    → propagation < 2
    → destination < 4
    → kind < 4
    → IsReadBack header flag propagation destination kind
header_byte-IsReadBack header flag propagation destination kind a b c d =
    let all =
      for_all_below_lem 4 (λ k. reads_back header flag propagation destination k) kind
        (for_all_below_lem 4 (λ e. for_all_below 4 (λ k. reads_back header flag propagation e k))
          destination
          (for_all_below_lem 2
            (λ q. for_all_below 4 (λ e. for_all_below 4 (λ k. reads_back header flag q e k)))
            propagation
            (for_all_below_lem 2
              (λ h.
                for_all_below 2
                  (λ q. for_all_below 4 (λ e. for_all_below 4 (λ k. reads_back h flag q e k))))
              header (run flag) a)
            b)
          c)
        d in
    record {
      closed = ground arith;
      header_type = ground arith;
      context_flag = same_lem _ _ (ground arith);
      propagation_type = ground arith;
      destination_type = ground arith;
      packet_type = ground arith;
      masked = ground arith;
    }
