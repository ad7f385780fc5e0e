-- ===== src/Transport/Receive.antt =====
-- components/rns_transport_core/rns_transport_core.c: the paths that announces leave, and
-- `rns_transport_core_receive`. The directory of announces, a table of another component, is passed
-- along; `calls` are the calls of the callbacks that a reception makes.
use meshpay_v.Base.{
  Bool, true, not, ◌&&◌, List, [], ◌∷◌, Option, none, some, Bytes, Err, esp_ok, no_mem, ok, err,
  fits, ◌==◌, if◌then◌else◌, length, set, find_first, slot_for, zeros,
}
use meshpay_v.Crypto.{Provider}
use meshpay_v.Destination.{hash_equal}
use meshpay_v.Packet.{Packet, packet_hash, increment_hops, type_2, broadcast, address_size}
use meshpay_v.Announce.{announce}
use meshpay_v.Announce.Directory.{Known, verify_and_remember}
use meshpay_v.Transport.{
  Core, NetworkPath, duplicate_seen, duplicate_remember, is_local_destination,
}

-- `rns_transport_rx_result_t`
pub data RxResult : Type 0 where
  accepted duplicate_drop local_delivered forwarded dropped : RxResult

pub data Call : Type 0 where
  local_rx forward_tx : Packet → Call

-- A node with the directory.
pub record Node : Type 0 where
  pub core : Core
  pub known : List Known

-- What a reception returns, with `*result` and the calls.
pub record Outcome : Type 0 where
  pub status : Err
  pub result : RxResult
  pub calls : List Call

-- The path of a destination: in use, and of its hash.
abbrev pub is_to : Bytes → NetworkPath → Bool
is_to destination path = path.in_use && hash_equal path.destination_hash destination

-- `rns_transport_core_find_path`
unfoldable pub find_path : Core → Bytes → Option NetworkPath
find_path c destination = find_first (is_to destination) c.paths

-- The path that an announce leaves.
abbrev pub path_of : Packet → Bytes → NetworkPath
path_of k hash = record {
  in_use = true;
  destination_hash = k.destination_hash;
  via_transport_id = if k.header_type == type_2 then k.transport_id else zeros address_size;
  announce_packet_hash = hash;
  hops = k.hops;
}

-- The table of paths after an announce.
unfoldable pub enter_path : List NetworkPath → Packet → Bytes → List NetworkPath × Err
enter_path paths k hash =
    let slot =
      slot_for (is_to k.destination_hash) (λ path. not path.in_use) (length paths) paths 0
        (length paths) in
    if slot == length paths then (paths, no_mem) else (set paths slot (path_of k hash), esp_ok)

-- The end for a local destination.
unfoldable pub deliver : Core → Packet → Outcome
deliver c k = elim c.callbacks.local_rx [
  | none ↦ record { status = esp_ok; result = local_delivered; calls = [] }
  | some callback ↦ record {
    status = callback k;
    result = if fits (callback k) then local_delivered else accepted;
    calls = local_rx k ∷ [];
  }
]

-- The end for any other: a broadcast goes on, one hop further.
unfoldable pub forward : Core → Packet → Outcome
forward c k =
    let next = increment_hops k in
    let stay : Outcome = record { status = esp_ok; result = accepted; calls = [] } in
    if not (k.propagation_type == broadcast) then stay else elim c.callbacks.forward_tx [
      | none ↦ stay
      | some callback ↦
          if not (fits next.1)
          then record { status = next.1; result = dropped; calls = [] }
          else record {
            status = callback next.0;
            result = if fits (callback next.0) then forwarded else accepted;
            calls = forward_tx next.0 ∷ [];
          }
    ]

module _ (p : Provider) where
  -- `update_path_from_announce`
  unfoldable pub update_path_from_announce : Node → Packet → Bytes → Node × Err
  unfolding enter_path
  update_path_from_announce n k hash =
      let learned = verify_and_remember p n.known k in
      let entered = enter_path n.core.paths k hash in
      if not (k.packet_type == announce) then (n, esp_ok) else elim learned.1 [
        | err e ↦ (record n { known = learned.0 }, e)
        | ok a ↦
            (record { core = record n.core { paths = entered.0 }; known = learned.0 }, entered.1)
      ]

  -- `rns_transport_core_receive`
  unfoldable pub receive : Node → Packet → Node × Outcome
  unfolding update_path_from_announce deliver forward
  receive n k = elim (packet_hash p k) [
    | err e ↦ (n, record { status = e; result = accepted; calls = [] })
    | ok hash ↦
        let fresh = record n { core = duplicate_remember n.core hash } in
        let updated = update_path_from_announce fresh k hash in
        let core = updated.0.core in
        if duplicate_seen n.core hash
        then (n, record { status = esp_ok; result = duplicate_drop; calls = [] })
        else if not (fits updated.1)
        then (updated.0, record { status = updated.1; result = dropped; calls = [] })
        else if is_local_destination core k.destination_hash
        then (updated.0, deliver core k)
        else (updated.0, forward core k)
  ]
