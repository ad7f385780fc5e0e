-- ===== src/Transport/Again.antt =====
-- A packet that comes again (components/rns_transport_core/rns_transport_core.c) causes nothing.
use meshpay_v.Base.{
  ℕ, suc, ◌+◌, ◌≤◌, ◌<◌, ◌≡◌, refl, sym, ap, ◌∙◌, ◌⊎◌, inl, inr, true, false, not, List, [], ◌∷◌,
  Bytes, Err, esp_ok, fits, ok, err, Result-cases, arith, ◌==◌, Bool-cases, length,
}
use meshpay_v.Crypto.{Provider}
use meshpay_v.Packet.{Packet, packet_hash}
use meshpay_v.Announce.{announce}
use meshpay_v.Announce.Directory.{verify_and_remember}
use meshpay_v.Transport.{Core, cache_size, duplicate_seen, duplicate_remember, is_local_destination}
use meshpay_v.Transport.Seen.{
  IsCache, IsHeld, IsHeld-next, remember-IsHeld, seen_after, duplicate_remember-IsCache,
}
use meshpay_v.Transport.Receive.{Node, duplicate_drop, update_path_from_announce, receive}

-- Two nodes have the same cache of seen packets.
record SameCache (c d : Core) : Type 0 where
  hashes : c.duplicate_hashes ≡ d.duplicate_hashes
  count : c.duplicate_count ≡ d.duplicate_count
  next : c.duplicate_next ≡ d.duplicate_next

IsCache-same : (c d : Core) → SameCache c d → IsCache d → IsCache c
IsCache-same c d s v = record {
  sized = ap length s.hashes ∙ v.sized;
  next = omega (arith, s.next, v.next);
  filled = omega (arith, s.next, s.count, v.filled);
  bounded = omega (arith, s.count, v.bounded);
  whole = λ h. s.next ∙ v.whole (omega (arith, s.count, h)) ∙ sym s.count;
}

IsHeld-same :
    (c d : Core) (hash : Bytes) (place j : ℕ)
    → SameCache c d
    → IsHeld d hash place j
    → IsHeld c hash place j
IsHeld-same c d hash place j s h = record {
  here = rw s.hashes h.here;
  inside = omega (arith, s.count, h.inside);
  apart = h.apart;
  ahead = s.next ∙ h.ahead;
}

module _ (p : Provider) where
  -- The paths and the directory leave the cache alone.
  update_path-SameCache :
      (n : Node) (k : Packet) (hash : Bytes)
      → SameCache (update_path_from_announce p n k hash).0.core n.core
  unfolding update_path_from_announce
  update_path-SameCache n k hash = elim (Bool-cases (not (k.packet_type == announce))) [
    | inl other ↦ rw other (record { hashes = refl; count = refl; next = refl })
    | inr kind ↦ elim (Result-cases (verify_and_remember p n.known k).1) [
      | inl (a, e) ↦
          rw (kind, e, update_path_from_announce)
            (record { hashes = refl; count = refl; next = refl })
      | inr (c, e) ↦
          rw (kind, e, update_path_from_announce)
            (record { hashes = refl; count = refl; next = refl })
    ]
  ]

  -- The node with a new packet remembered.
  abbrev fresh : Node → Bytes → Node
  fresh n hash = record n { core = duplicate_remember n.core hash }

  pub receive_new :
      (n : Node) (k : Packet) (hash : Bytes)
      → packet_hash p k ≡ ok hash
      → duplicate_seen n.core hash ≡ false
      → (receive p n k).0 ≡ (update_path_from_announce p (fresh n hash) k hash).0
  unfolding receive
  receive_new n k hash h new =
      let updated = update_path_from_announce p (fresh n hash) k hash in
      elim (Bool-cases (not (fits updated.1))) [
        | inl failed ↦ rw (h, receive, new, failed) refl
        | inr went ↦ elim (Bool-cases (is_local_destination updated.0.core k.destination_hash)) [
          | inl here ↦ rw (h, receive, new, went, here) refl
          | inr away ↦ rw (h, receive, new, went, away) refl
        ]
      ]

  receive_seen :
      (n : Node) (k : Packet) (hash : Bytes)
      → packet_hash p k ≡ ok hash
      → duplicate_seen n.core hash ≡ true
      → receive p n k ≡ (n, record { status = esp_ok; result = duplicate_drop; calls = [] })
  unfolding receive
  receive_seen n k hash h old = rw (h, receive, old) refl

  receive_unhashed :
      (n : Node) (k : Packet) (e : Err) → packet_hash p k ≡ err e → (receive p n k).0 ≡ n
  unfolding receive
  receive_unhashed n k e h = rw (h, receive) refl

  -- The first reception of a packet.
  receive_first :
      (n : Node) (k : Packet) (hash : Bytes)
      → packet_hash p k ≡ ok hash
      → duplicate_seen n.core hash ≡ false
      → SameCache (receive p n k).0.core (duplicate_remember n.core hash)
  receive_first n k hash h new =
      rw (receive_new n k hash h new) (update_path-SameCache (fresh n hash) k hash)

  -- A packet leaves the cache as it is, or has its hash remembered.
  receive-Cache :
      (n : Node) (k : Packet)
      → SameCache (receive p n k).0.core n.core
        ⊎ ((hash : Bytes) × SameCache (receive p n k).0.core (duplicate_remember n.core hash))
  receive-Cache n k = elim (Result-cases (packet_hash p k)) [
    | inr (e, h) ↦
        inl (rw (receive_unhashed n k e h) (record { hashes = refl; count = refl; next = refl }))
    | inl (hash, h) ↦ elim (Bool-cases (duplicate_seen n.core hash)) [
      | inl old ↦
          inl
            (rw (receive_seen n k hash h old) (record { hashes = refl; count = refl; next = refl }))
      | inr new ↦ inr (hash, receive_first n k hash h new)
    ]
  ]

  -- The node after these packets.
  unfoldable pub receive_all : Node → List Packet → Node
  receive_all n [] = n
  receive_all n (k ∷ ks) = receive_all (receive p n k).0 ks

  seen_after_packets :
      (ks : List Packet) (n : Node) (hash : Bytes) (place j : ℕ)
      → IsCache n.core
      → IsHeld n.core hash place j
      → j + length ks ≤ cache_size
      → duplicate_seen (receive_all n ks).core hash ≡ true
  unfolding receive_all
  seen_after_packets [] n hash place j v held l = seen_after n.core hash place j [] v held l
  seen_after_packets (k ∷ ks) n hash place j v held l = elim (receive-Cache n k) [
    | inl same ↦
        seen_after_packets ks (receive p n k).0 hash place j (IsCache-same _ n.core same v)
          (IsHeld-same _ n.core hash place j same held) (omega arith)
    | inr (other, same) ↦
        seen_after_packets ks (receive p n k).0 hash place (suc j)
          (IsCache-same _ _ same (duplicate_remember-IsCache n.core other v))
          (IsHeld-same _ _ hash place (suc j) same
            (IsHeld-next n.core hash other place j v (omega arith) held))
          (omega arith)
  ]

  -- After a node with a well-formed cache has received a packet that it had not seen, any packet with
  -- the same hash, such as a copy that was forwarded, changes nothing, calls nothing and is reported as
  -- a duplicate, as long as fewer than 48 packets came in between.
  pub receive_again :
      (n : Node) (k again : Packet) (hash : Bytes) (ks : List Packet)
      → IsCache n.core
      → packet_hash p k ≡ ok hash
      → packet_hash p again ≡ ok hash
      → duplicate_seen n.core hash ≡ false
      → length ks < cache_size
      → receive p (receive_all (receive p n k).0 ks) again ≡ (
        receive_all (receive p n k).0 ks,
        record { status = esp_ok; result = duplicate_drop; calls = [] },
      )
  receive_again n k again hash ks v h h' new few =
      let same = receive_first n k hash h new in
      receive_seen (receive_all (receive p n k).0 ks) again hash h' (
        seen_after_packets ks (receive p n k).0 hash n.core.duplicate_next 1
          (IsCache-same _ _ same (duplicate_remember-IsCache n.core hash v))
          (IsHeld-same _ _ hash n.core.duplicate_next 1 same (remember-IsHeld n.core hash v))
          (omega arith))
