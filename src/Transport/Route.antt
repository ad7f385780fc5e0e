-- ===== src/Transport/Route.antt =====
-- How the paths of components/rns_transport_core/rns_transport_core.c change.
use meshpay_v.Base.{
  ℕ, ◌≡◌, refl, ◌⊎◌, inl, inr, true, false, not, List, some, Bytes, ok, OnOk-ok, Result-cases,
  Option-cases, arith, ◌==◌, Bool-cases, length, set, get_or, find_first, find_first-set,
  find_first-set_new, slot_for, slot_for-Cases, slot_for-find_first, constant_equal_iff,
}
use meshpay_v.Crypto.{Provider}
use meshpay_v.Destination.{hash_equal}
use meshpay_v.Packet.{Packet, packet_hash}
use meshpay_v.Announce.{Announce, announce, verify}
use meshpay_v.Announce.Verify.{IsAuthentic, verify-IsAuthentic}
use meshpay_v.Announce.Directory.{Known, verify_and_remember}
use meshpay_v.Transport.{NetworkPath, no_path, duplicate_seen, duplicate_remember}
use meshpay_v.Transport.Receive.{
  Node, is_to, find_path, path_of, enter_path, update_path_from_announce, receive,
}
use meshpay_v.Transport.Again.{receive_new}

-- What entering a path does: it stands in a place of its destination or in a free one, or there is none.
record IsEntered (paths : List NetworkPath) (k : Packet) (hash : Bytes) (after : List NetworkPath)
    : Type 0 where
  found : find_first (is_to k.destination_hash) after ≡ some (path_of k hash)
  others :
      (d : Bytes)
      → hash_equal k.destination_hash d ≡ false
      → find_first (is_to d) after ≡ find_first (is_to d) paths

others_kept :
    (paths : List NetworkPath) (k : Packet) (hash : Bytes) (j : ℕ) (d : Bytes)
    → (is_to k.destination_hash (get_or paths j no_path) ≡ true)
      ⊎ (not (get_or paths j no_path).in_use ≡ true)
    → hash_equal k.destination_hash d ≡ false
    → find_first (is_to d) (set paths j (path_of k hash)) ≡ find_first (is_to d) paths
unfolding hash_equal
others_kept paths k hash j d (inr free) differ =
    find_first-set (is_to d) paths j (path_of k hash) no_path (ground (arith, free))
      (ground (arith, differ))
others_kept paths k hash j d (inl meant) differ =
    let x = get_or paths j no_path in
    let same : x.destination_hash ≡ k.destination_hash =
      (constant_equal_iff x.destination_hash k.destination_hash).0 (ground (arith, meant)) in
    find_first-set (is_to d) paths j (path_of k hash) no_path (rw same (ground (arith, differ)))
      (ground (arith, differ))

is_to-path_of : (k : Packet) (hash : Bytes) → is_to k.destination_hash (path_of k hash) ≡ true
unfolding hash_equal
is_to-path_of k hash = (constant_equal_iff k.destination_hash k.destination_hash).1 refl

enter_path-Cases :
    (paths : List NetworkPath) (k : Packet) (hash : Bytes)
    → ((enter_path paths k hash).0 ≡ paths) ⊎ IsEntered paths k hash (enter_path paths k hash).0
unfolding enter_path
enter_path-Cases paths k hash =
    let meant = is_to k.destination_hash in
    let free = λ (x : NetworkPath). not x.in_use in
    let full = length paths in
    let v = path_of k hash in
    elim (Option-cases (find_first meant paths)) [
      | inl unknown ↦ elim (slot_for-Cases meant free full paths 0 full no_path) [
        | inl none_free ↦
            let at_end : (full == full) ≡ true = ground arith in inl (rw (none_free, at_end) refl)
        | inr (j, s, l, place) ↦
            let at : slot_for meant free full paths 0 full ≡ j = omega (arith, s) in
            let inside : (j == full) ≡ false = ground (arith, l) in
            inr (
              rw (at, inside)
                (record {
                  found = find_first-set_new meant paths j v unknown l (is_to-path_of k hash);
                  others = λ d differ. others_kept paths k hash j d place differ;
                }))
      ]
      | inr (x, known) ↦
          let (j, s, l, m, f) =
            slot_for-find_first meant free full paths 0 full x v no_path known
              (is_to-path_of k hash) in
          let at : slot_for meant free full paths 0 full ≡ j = omega (arith, s) in
          let inside : (j == full) ≡ false = ground (arith, l) in
          inr (
            rw (at, inside)
              (record {
                found = f;
                others = λ d differ. others_kept paths k hash j d (inl m) differ;
              }))
    ]

module _ (p : Provider) where
  verify_and_remember_ok :
      (known : List Known) (k : Packet) (a : Announce)
      → (verify_and_remember p known k).1 ≡ ok a
      → (b : Announce) × IsAuthentic p k b
  unfolding verify_and_remember
  verify_and_remember_ok known k a h = elim (Result-cases (verify p k)) [
    | inr (c, e) ↦ let g = rw (e, verify_and_remember) at h in cc
    | inl (b, e) ↦ elim (Result-cases (packet_hash p k)) [
      | inr (c, f) ↦ let g = rw (e, verify_and_remember, f) at h in cc
      | inl (hash, f) ↦ (b, OnOk-ok (IsAuthentic p k) (verify p k) b (verify-IsAuthentic p k) e)
    ]
  ]

  -- The paths of a node after a packet.
  abbrev IsRouted : Node → Packet → Bytes → List NetworkPath → Type 0
  IsRouted n k hash after =
      (after ≡ n.core.paths)
      ⊎ ((k.packet_type ≡ announce)
          × ((a : Announce) × IsAuthentic p k a)
          × IsEntered n.core.paths k hash after)

  update_path-IsRouted :
      (n : Node) (k : Packet) (hash : Bytes)
      → IsRouted n k hash (update_path_from_announce p n k hash).0.core.paths
  unfolding update_path_from_announce
  update_path-IsRouted n k hash = elim (Bool-cases (not (k.packet_type == announce))) [
    | inl other ↦ inl (rw other refl)
    | inr kind ↦ elim (Result-cases (verify_and_remember p n.known k).1) [
      | inr (c, e) ↦ inl (rw (kind, e, update_path_from_announce) refl)
      | inl (a, e) ↦ elim (enter_path-Cases n.core.paths k hash) [
        | inl same ↦ inl (rw (kind, e, update_path_from_announce) same)
        | inr entered ↦ inr (
          ground (arith, kind),
          verify_and_remember_ok n.known k a e,
          rw (kind, e, update_path_from_announce) entered,
        )
      ]
    ]
  ]

  -- The reception of a packet that was not seen leaves every path as it was, or the packet is an
  -- authentic announce, its destination has the path that the packet came by, with the hops and the
  -- relay of the packet, and every other destination keeps its path.
  pub receive-find_path :
      (n : Node) (k : Packet) (hash : Bytes)
      → packet_hash p k ≡ ok hash
      → duplicate_seen n.core hash ≡ false
      → ((d : Bytes) → find_path (receive p n k).0.core d ≡ find_path n.core d)
        ⊎ ((k.packet_type ≡ announce)
            × ((a : Announce) × IsAuthentic p k a)
            × (find_path (receive p n k).0.core k.destination_hash ≡ some (path_of k hash))
            × ((d : Bytes)
                → hash_equal k.destination_hash d ≡ false
                → find_path (receive p n k).0.core d ≡ find_path n.core d))
  unfolding find_path duplicate_remember
  receive-find_path n k hash h new =
      let fresh : Node = record n { core = duplicate_remember n.core hash } in
      let after = receive_new p n k hash h new in
      elim (update_path-IsRouted fresh k hash) [
        | inl same ↦ inl (λ d. rw (after, same) refl)
        | inr (kind, auth, entered) ↦
            inr (kind, auth, rw after entered.found, λ d differ. rw after (entered.others d differ))
      ]
