-- ===== src/Packet.antt =====
-- components/rns_packet/rns_packet.c: the wire format of a Reticulum packet. `payload` is the first
-- `data_len` bytes of `data`, the enumerations are numbers as the struct may hold them.
pub mod Header
pub mod Wire
pub mod Hash
mod Tests
use meshpay_v.Base.{
  ℕ, ◌+◌, ◌-◌, ◌*◌, ◌/◌, ◌%◌, Bool, true, false, not, ◌&&◌, ◌||◌, List, [], ◌∷◌, ◌++◌, Bytes, zeros,
  Err, esp_ok, invalid_arg, invalid_size, invalid_state, not_supported, Result, ok, err, ◌>>=◌, ltb,
  leb, ◌==◌, if◌then◌else◌, length, take, drop, get_or, bit_and, bit_or,
}
use meshpay_v.Crypto
use meshpay_v.Crypto.{Provider}

abbrev pub mtu : ℕ
mtu = 500

abbrev pub max_data : ℕ
max_data = 464

abbrev pub header_size : ℕ
header_size = 2

abbrev pub context_size : ℕ
context_size = 1

abbrev pub address_size : ℕ
address_size = 16

-- `rns_packet_header_type_t`
abbrev pub type_2 : ℕ
type_2 = 1

-- `rns_packet_propagation_type_t`
abbrev pub broadcast : ℕ
broadcast = 0

abbrev pub transport : ℕ
transport = 1

-- `rns_packet_t`
pub record Packet : Type 0 where
  pub header_type : ℕ
  pub context_flag : Bool
  pub propagation_type : ℕ
  pub destination_type : ℕ
  pub packet_type : ℕ
  pub hops : ℕ
  pub destination_hash : Bytes
  pub transport_id : Bytes
  pub context : ℕ
  pub payload : Bytes

-- `rns_packet_clear`
abbrev pub cleared : Packet
cleared = record {
  header_type = 0;
  context_flag = false;
  propagation_type = 0;
  destination_type = 0;
  packet_type = 0;
  hops = 0;
  destination_hash = zeros address_size;
  transport_id = zeros address_size;
  context = 0;
  payload = [];
}

-- `rns_packet_encode_header_byte`, by the fields that it reads
unfoldable pub header_byte : ℕ → Bool → ℕ → ℕ → ℕ → ℕ
header_byte header_type context_flag propagation destination kind =
    let h = if header_type == type_2 then 0x40 else 0 in
    let h = if context_flag then bit_or h 0x20 else h in
    let h = if propagation == transport then bit_or h 0x10 else h in
    let h = bit_or h (bit_and (destination % 256) 3 * 4) in bit_or h (bit_and (kind % 256) 3)

abbrev pub encode_header_byte : Packet → ℕ
encode_header_byte k =
    header_byte k.header_type k.context_flag k.propagation_type k.destination_type k.packet_type

-- `rns_packet_packed_size`
abbrev pub packed_size : Packet → ℕ
packed_size k =
    header_size
    + (if k.header_type == type_2 then address_size + address_size else address_size)
    + context_size
    + length k.payload

-- `enum_values_valid`
unfoldable pub enum_values_valid : Packet → Bool
enum_values_valid k =
    leb k.header_type 1
    && leb k.propagation_type 1
    && leb k.destination_type 3
    && leb k.packet_type 3

-- `rns_packet_pack`, into a buffer of `out_len` bytes.
unfoldable pub pack : Packet → ℕ → Result Bytes
pack k out_len =
    if not (enum_values_valid k)
    then err invalid_arg
    else if ltb max_data (length k.payload)
    then err invalid_size
    else if ltb mtu (packed_size k) || ltb out_len (packed_size k)
    then err invalid_size
    else ok (
        encode_header_byte k ∷ k.hops ∷ (if k.header_type == type_2 then k.transport_id else [])
        ++ (k.destination_hash ++ k.context ∷ k.payload))

-- What follows the header byte and the hops, at `wire + RNS_PACKET_HEADER_SIZE`.
unfoldable pub unpack_body : Packet → Bytes → Result Packet
unpack_body k body =
    let needed =
      context_size
      + (if k.header_type == type_2 then address_size + address_size else address_size) in
    let transport = if k.header_type == type_2 then take address_size body else k.transport_id in
    let rest = if k.header_type == type_2 then drop address_size body else body in
    let behind = drop address_size rest in
    if ltb (length body) needed
    then err invalid_size
    else if ltb max_data (length behind - context_size)
    then err invalid_size
    else ok (record k {
      transport_id = transport;
      destination_hash = take address_size rest;
      context = get_or behind 0 0;
      payload = drop context_size behind;
    })

-- The fields of the header byte.
unfoldable pub read_header : ℕ → ℕ → Packet
read_header header hops = record cleared {
  header_type = if not (bit_and header 0x40 == 0) then type_2 else 0;
  context_flag = not (bit_and header 0x20 == 0);
  propagation_type = if not (bit_and header 0x10 == 0) then transport else broadcast;
  destination_type = bit_and header 0x0c / 4;
  packet_type = bit_and header 0x03;
  hops = hops;
}

-- `rns_packet_unpack`
unfoldable pub unpack : Bytes → Result Packet
unfolding unpack_body read_header
unpack wire =
    if ltb mtu (length wire) || ltb (length wire) (header_size + address_size + context_size)
    then err invalid_size
    else if not (bit_and (get_or wire 0 0) 0x80 == 0)
    then err not_supported
    else unpack_body (read_header (get_or wire 0 0) (get_or wire 1 0)) (drop header_size wire)

-- `rns_packet_increment_hops`
unfoldable pub increment_hops : Packet → Packet × Err
increment_hops k =
    if k.hops == 255 then (k, invalid_state) else (record k { hops = k.hops + 1 }, esp_ok)

-- `hashable`, of the packed bytes
unfoldable pub hashable : Packet → Bytes → Result Bytes
hashable k raw =
    let offset = header_size + (if k.header_type == type_2 then address_size else 0) in
    if ltb (length raw) offset
    then err invalid_size
    else ok (bit_and (get_or raw 0 0) 0x0f ∷ drop offset raw)

-- `rns_packet_hash`
unfoldable pub packet_hash : Provider → Packet → Result Bytes
unfolding hashable
packet_hash p k = do raw ← pack k mtu; bytes ← hashable k raw; Crypto.sha256 p bytes

-- `rns_packet_truncated_hash`
unfoldable pub truncated_hash : Provider → Packet → Result Bytes
truncated_hash p k = do full ← packet_hash p k; ok (take address_size full)
