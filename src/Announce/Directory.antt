-- ===== src/Announce/Directory.antt =====
-- components/rns_announce/rns_announce.c: the table `s_known` of the destinations that were
-- announced. A call holds the lock over the whole table, so it is one step on the table.
use meshpay_v.Base.{
  ℕ, ◌+◌, Bool, true, false, not, ◌&&◌, List, [], ◌∷◌, Option, none, some, Bytes, zeros, Err,
  esp_ok, invalid_state, no_mem, not_found, Result, ok, err, ltb, ◌==◌, if◌then◌else◌, length, take,
  keep, set, replicate, find_first, constant_equal, slot_for,
}
use meshpay_v.Tx.{hash_size}
use meshpay_v.Crypto.{Provider}
use meshpay_v.Destination.{hash_equal}
use meshpay_v.Packet.{Packet, packet_hash}
use meshpay_v.Announce.{Announce, verify, public_key_size}

-- `rns_announce_known_destination_t`
pub record Known : Type 0 where
  pub in_use : Bool
  pub destination_hash : Bytes
  pub packet_hash : Bytes
  pub public_key : Bytes
  pub app_data : Bytes

-- `rns_announce_peer_info_t`
pub record PeerInfo : Type 0 where
  pub destination_hash : Bytes
  pub public_key : Bytes
  pub app_data : Bytes

abbrev pub known_max : ℕ
known_max = 16

abbrev pub peer_app_data_max : ℕ
peer_app_data_max = 32

abbrev pub cleared : Known
cleared = record {
  in_use = false;
  destination_hash = zeros hash_size;
  packet_hash = zeros 32;
  public_key = zeros public_key_size;
  app_data = [];
}

-- `rns_announce_known_reset`, and the table at the start
abbrev pub empty : List Known
empty = replicate known_max cleared

-- The entry of a destination: in use, and of its hash.
abbrev pub is_of : Bytes → Known → Bool
is_of destination e = e.in_use && hash_equal e.destination_hash destination

-- `find_known_locked`
unfoldable pub find_known : List Known → Bytes → Option Known
find_known table destination = find_first (is_of destination) table

-- `fill_peer_info_locked`
abbrev pub peer_info : Known → PeerInfo
peer_info e = record {
  destination_hash = e.destination_hash;
  public_key = e.public_key;
  app_data =
      if ltb peer_app_data_max (length e.app_data)
      then take peer_app_data_max e.app_data
      else e.app_data;
}

-- The entry that an announce leaves.
abbrev pub entry_of : Announce → Bytes → Known
entry_of a hash = record {
  in_use = true;
  destination_hash = a.destination_hash;
  packet_hash = hash;
  public_key = a.public_key;
  app_data = a.app_data;
}

-- The critical section of `rns_announce_verify_and_remember`: the loop ends at the entry of the
-- destination, if there is one, and then compares the keys.
unfoldable pub remember : List Known → Announce → Bytes → List Known × Err
unfolding find_known
remember table a hash =
    let slot =
      slot_for (is_of a.destination_hash) (λ e. not e.in_use) (length table) table 0
        (length table) in
    let write =
      if slot == length table
      then (table, no_mem)
      else (set table slot (entry_of a hash), esp_ok) in
    elim (find_known table a.destination_hash) [
      | none ↦ write
      | some e ↦
          if not (constant_equal e.public_key a.public_key) then (table, invalid_state) else write
    ]

-- `rns_announce_verify_and_remember`
unfoldable pub verify_and_remember : Provider → List Known → Packet → List Known × Result Announce
unfolding remember
verify_and_remember p table k = elim (verify p k) [
  | err e ↦ (table, err e)
  | ok a ↦ elim (packet_hash p k) [
    | err e ↦ (table, err e)
    | ok hash ↦
        let done = remember table a hash in (done.0, elim done.1 [ esp_ok ↦ ok a | e ↦ err e ])
  ]
]

-- `rns_announce_known_count`
unfoldable pub known_count : List Known → ℕ
known_count table = length (keep (λ e. e.in_use) table)

-- `rns_announce_recall_copy`
unfoldable pub recall_copy : List Known → Bytes → Result Known
unfolding find_known
recall_copy table destination = elim (find_known table destination) [
  | none ↦ err not_found
  | some e ↦ ok e
]

-- `rns_announce_recall_info`
unfoldable pub recall_info : List Known → Bytes → Result PeerInfo
unfolding find_known
recall_info table destination = elim (find_known table destination) [
  | none ↦ err not_found
  | some e ↦ ok (peer_info e)
]

-- The loop of `rns_announce_known_info`, with `seen` entries in use behind it.
unfoldable pub nth_known : List Known → ℕ → ℕ → Option Known
nth_known [] index seen = none
nth_known (e ∷ rest) index seen =
    let next = nth_known rest index (if e.in_use then seen + 1 else seen) in
    if e.in_use && seen == index then some e else next

-- `rns_announce_known_info`
unfoldable pub known_info : List Known → ℕ → Result PeerInfo
unfolding nth_known
known_info table index = elim (nth_known table index 0) [
  | none ↦ err not_found
  | some e ↦ ok (peer_info e)
]
