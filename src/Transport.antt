-- ===== src/Transport.antt =====
-- components/rns_transport_core/rns_transport_core.c: a node's cache of seen packets, its local
-- destinations and its paths. A callback is a function from the packet to the code that it returns;
-- its context is part of the function.
pub mod Receive
pub mod Again
pub mod Route
pub mod Seen
pub mod Local
mod Tests
mod ReceiveTests
use meshpay_v.Base.{
  ℕ, ◌+◌, ◌%◌, Bool, true, false, Option, none, List, Bytes, zeros, Err, esp_ok, invalid_arg,
  no_mem, ltb, leb, if◌then◌else◌, set, take, any, replicate, bytes_zero, constant_equal,
}
use meshpay_v.Destination.{hash_equal}
use meshpay_v.Packet.{Packet, address_size}

abbrev pub cache_size : ℕ
cache_size = 48

abbrev pub local_max : ℕ
local_max = 8

abbrev pub path_table_size : ℕ
path_table_size = 32

-- `rns_transport_path_t`
pub record NetworkPath : Type 0 where
  pub in_use : Bool
  pub destination_hash : Bytes
  pub via_transport_id : Bytes
  pub announce_packet_hash : Bytes
  pub hops : ℕ

-- `rns_transport_callbacks_t`
pub record Callbacks : Type 0 where
  pub local_rx : Option (Packet → Err)
  pub forward_tx : Option (Packet → Err)

-- `rns_transport_core_t`
pub record Core : Type 0 where
  pub duplicate_hashes : List Bytes
  pub duplicate_count : ℕ
  pub duplicate_next : ℕ
  pub local_destinations : List Bytes
  pub local_destination_count : ℕ
  pub paths : List NetworkPath
  pub callbacks : Callbacks

abbrev pub no_path : NetworkPath
no_path = record {
  in_use = false;
  destination_hash = zeros address_size;
  via_transport_id = zeros address_size;
  announce_packet_hash = zeros 32;
  hops = 0;
}

-- `rns_transport_core_init`
abbrev pub init : Core
init = record {
  duplicate_hashes = replicate cache_size (zeros 32);
  duplicate_count = 0;
  duplicate_next = 0;
  local_destinations = replicate local_max (zeros 16);
  local_destination_count = 0;
  paths = replicate path_table_size no_path;
  callbacks = record { local_rx = none; forward_tx = none };
}

-- `rns_transport_core_set_callbacks`
abbrev pub set_callbacks : Core → Callbacks → Core
set_callbacks c callbacks = record c { callbacks = callbacks }

unfoldable pub duplicate_seen : Core → Bytes → Bool
duplicate_seen c hash = any (λ h. constant_equal h hash) (take c.duplicate_count c.duplicate_hashes)

unfoldable pub duplicate_remember : Core → Bytes → Core
duplicate_remember c hash = record c {
  duplicate_hashes = set c.duplicate_hashes c.duplicate_next hash;
  duplicate_next = (c.duplicate_next + 1) % cache_size;
  duplicate_count =
      if ltb c.duplicate_count cache_size then c.duplicate_count + 1 else c.duplicate_count;
}

unfoldable pub is_local_destination : Core → Bytes → Bool
is_local_destination c hash =
    any (λ h. hash_equal h hash) (take c.local_destination_count c.local_destinations)

-- `rns_transport_core_add_local_destination`
unfoldable pub add_local_destination : Core → Bytes → Core × Err
unfolding is_local_destination
add_local_destination c hash =
    if bytes_zero hash
    then (c, invalid_arg)
    else if is_local_destination c hash
    then (c, esp_ok)
    else if leb local_max c.local_destination_count
    then (c, no_mem)
    else (
      record c {
        local_destinations = set c.local_destinations c.local_destination_count hash;
        local_destination_count = c.local_destination_count + 1;
      },
      esp_ok,
    )
