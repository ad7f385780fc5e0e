-- ===== src/Request.antt =====
-- components/rns_request_response/rns_request_response.c: requests over a link, their responses and
-- receipts. A path is its bytes; the arrays `data` and `response` are their first `data_len` and
-- `response_len` bytes.
pub mod Exchange
mod Tests
use meshpay_v.Base.{
  ℕ, ◌+◌, ◌-◌, ◌*◌, ◌%◌, ◌^◌, Bool, true, false, not, ◌&&◌, ◌||◌, List, [], ◌∷◌, ◌++◌, Bytes, Err,
  esp_ok, invalid_arg, invalid_size, invalid_state, not_found, timeout, Result, ok, err, ◌>>=◌,
  fits, ltb, leb, ◌==◌, if◌then◌else◌, length, take, drop, get_or, bit_or, bytes_zero,
  constant_equal,
}
use meshpay_v.Tx.Encoded.{big_endian}
use meshpay_v.Crypto
use meshpay_v.Crypto.{Provider}
use meshpay_v.Destination.{link as link_destination, hash_equal}
use meshpay_v.Packet
use meshpay_v.Packet.{Packet, max_data, address_size, truncated_hash}
use meshpay_v.Link.{Link, LinkStatus, active}

abbrev pub request_version : ℕ
request_version = 1

abbrev pub request_header_size : ℕ
request_header_size = 27

abbrev pub response_header_size : ℕ
response_header_size = 19

abbrev pub request_max_data : ℕ
request_max_data = max_data - request_header_size

abbrev pub response_max_data : ℕ
response_max_data = max_data - response_header_size

abbrev pub data_type : ℕ
data_type = 0

abbrev pub request_context : ℕ
request_context = 0x09

abbrev pub response_context : ℕ
response_context = 0x0a

-- `rns_request_receipt_status_t`
pub data ReceiptStatus : Type 0 where
  waiting complete timed_out : ReceiptStatus

abbrev pub is_waiting : ReceiptStatus → Bool
is_waiting waiting = true
is_waiting _ = false

-- `rns_request_t`
pub record Request : Type 0 where
  pub requested_at_ms : ℕ
  pub path_hash : Bytes
  pub content : Bytes
  pub request_id : Bytes

-- `rns_request_receipt_t`
pub record Receipt : Type 0 where
  pub is_open : Bool
  pub status : ReceiptStatus
  pub request_id : Bytes
  pub sent_at_ms : ℕ
  pub timeout_ms : ℕ
  pub response : Bytes

-- `put_u16`
abbrev pub put_u16 : ℕ → Bytes
put_u16 = big_endian 2

-- `put_u64`
abbrev pub put_u64 : ℕ → Bytes
put_u64 = big_endian 8

-- The loop of `get_u64`: `value = (value << 8) | in[i]`.
unfoldable pub get_uint : ℕ → Bytes → ℕ
get_uint value [] = value
get_uint value (b ∷ rest) = get_uint (bit_or (value * 256 % 2 ^ 64) b) rest

-- `get_u16`
abbrev pub get_u16 : Bytes → ℕ
get_u16 bytes = get_uint 0 (take 2 bytes)

-- `get_u64`
abbrev pub get_u64 : Bytes → ℕ
get_u64 bytes = get_uint 0 (take 8 bytes)

abbrev pub is_active : LinkStatus → Bool
is_active active = true
is_active _ = false

-- `link_is_active`
abbrev pub link_is_active : Link → Bool
link_is_active l = is_active l.status && not (bytes_zero l.link_id)

-- `packet_is_for_link`
abbrev pub packet_is_for_link : Link → Packet → Bool
packet_is_for_link l k =
    k.destination_type == link_destination && hash_equal l.link_id k.destination_hash

-- A packet over the link, in this context.
abbrev pub over_link : Link → ℕ → Bytes → Packet
over_link l context payload = record Packet.cleared {
  destination_type = link_destination;
  packet_type = data_type;
  context = context;
  destination_hash = l.link_id;
  payload = payload;
}

-- `rns_request_receipt_check_timeout`
unfoldable pub check_timeout : Receipt → ℕ → Receipt × Err
check_timeout r now =
    if not r.is_open || not (is_waiting r.status)
    then (r, esp_ok)
    else if ltb now r.sent_at_ms
    then (r, esp_ok)
    else if leb r.timeout_ms (now - r.sent_at_ms)
    then (record r { status = timed_out; is_open = false }, timeout)
    else (r, esp_ok)

-- What `rns_request_receipt_accept_response` refuses in the form of a packet.
abbrev pub is_response : Packet → Bool
is_response k =
    k.packet_type == data_type
    && k.context == response_context
    && k.destination_type == link_destination
    && not (ltb (length k.payload) response_header_size)
    && get_or k.payload 0 0 == request_version

-- The end of `rns_request_receipt_accept_response`, on a packet of the form.
unfoldable pub take_response : Receipt → Packet → Receipt × Err
take_response r k =
    let id = take address_size (drop 1 k.payload) in
    let len = get_u16 (drop 17 k.payload) in
    if ltb response_max_data len || not (length k.payload == response_header_size + len)
    then (r, invalid_size)
    else if not (constant_equal r.request_id id)
    then (r, not_found)
    else (
      record r {
        response = take len (drop response_header_size k.payload);
        status = complete;
        is_open = false;
      },
      esp_ok,
    )

-- `rns_request_receipt_accept_response`; the test of the status behind that of the time is never met.
unfoldable pub accept_response : Receipt → Packet → ℕ → Receipt × Err
accept_response r k now =
    if not r.is_open || not (is_waiting r.status)
    then (r, invalid_state)
    else let (r', checked) = check_timeout r now in
      if not (fits checked)
      then (r', checked)
      else if not (is_response k)
      then (r', invalid_arg)
      else take_response r' k

-- `rns_response_create`
unfoldable pub response_create : Link → Bytes → Bytes → Result Packet
response_create l id response =
    if not (link_is_active l)
    then err invalid_arg
    else if ltb response_max_data (length response)
    then err invalid_size
    else ok (
        over_link l response_context
          (request_version ∷ (id ++ (put_u16 (length response) ++ response))))

module _ (p : Provider) where
  -- `rns_request_path_hash`
  unfoldable pub path_hash_of : Bytes → Result Bytes
  path_hash_of path =
      if length path == 0
      then err invalid_arg
      else do full ← Crypto.sha256 p path; ok (take address_size full)

  -- `rns_request_create`
  unfoldable pub request_over : Link → Bytes → Bytes → ℕ → ℕ → Result (Packet × Receipt)
  unfolding path_hash_of
  request_over l path content now timeout_ms =
      if not (link_is_active l)
      then err invalid_arg
      else if ltb request_max_data (length content) || timeout_ms == 0
      then err invalid_size
      else do
        hash ← path_hash_of path
        let k =
            over_link l request_context
              (request_version ∷ (put_u64 now ++ (hash ++ (put_u16 (length content) ++ content))))
        id ← truncated_hash p k
        ok (
          k,
          record {
            is_open = true;
            status = waiting;
            request_id = id;
            sent_at_ms = now;
            timeout_ms = timeout_ms;
            response = [];
          },
        )

  -- `rns_request_decode`
  unfoldable pub request_decode : Packet → Result Request
  request_decode k =
      let len = get_u16 (drop 25 k.payload) in
      if not (k.packet_type == data_type)
        || not (k.context == request_context)
        || not (k.destination_type == link_destination)
      then err invalid_arg
      else if ltb (length k.payload) request_header_size
          || not (get_or k.payload 0 0 == request_version)
      then err invalid_size
      else if ltb request_max_data len || not (length k.payload == request_header_size + len)
      then err invalid_size
      else do
        id ← truncated_hash p k
        ok (record {
          requested_at_ms = get_u64 (drop 1 k.payload);
          path_hash = take address_size (drop 9 k.payload);
          content = take len (drop request_header_size k.payload);
          request_id = id;
        })

  -- `rns_response_create_for_request`
  unfoldable pub response_for_request : Link → Packet → Bytes → Result Packet
  unfolding request_decode response_create
  response_for_request l k response =
      if not (packet_is_for_link l k)
      then err invalid_arg
      else do request ← request_decode k; response_create l request.request_id response
