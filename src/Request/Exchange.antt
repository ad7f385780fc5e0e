-- ===== src/Request/Exchange.antt =====
-- A request, its response and the receipt (components/rns_request_response/rns_request_response.c).
use meshpay_v.Base.{
  ℕ, suc, ◌+◌, ◌*◌, ◌%◌, ◌^◌, ◌≤◌, ◌<◌, ◌≡◌, refl, sym, ap, ◌∙◌, inl, inr, true, false, not, ◌||◌,
  [], ◌∷◌, ◌++◌, append_assoc, some, Option-cases, Bytes, Err, esp_ok, invalid_state, ok, OnOk,
  OnOk-bind_eq, OnOk-ok, OnOk-if, arith, ltb, ◌==◌, length, length-append, length-take, take, drop,
  take_all, take-append_of, drop-append_of, get_or, bit_or, constant_equal_iff,
}
use meshpay_v.Tx.Cbor.{get, get_big_endian}
use meshpay_v.Tx.Read.{get_big_endian_all}
use meshpay_v.Crypto
use meshpay_v.Crypto.{Provider}
use meshpay_v.Packet.{Packet, mtu, pack, hashable, address_size, packet_hash, truncated_hash}
use meshpay_v.Destination.{link as link_destination}
use meshpay_v.Link.{Link}
use meshpay_v.Request.{
  Receipt, waiting, complete, request_version, request_header_size, response_header_size,
  request_max_data, response_max_data, put_u16, put_u64, get_uint, get_u16, link_is_active,
  packet_is_for_link, over_link, check_timeout, is_response, take_response, accept_response,
  response_create, request_context, response_context, data_type, Request, is_waiting, path_hash_of,
  request_over, request_decode, response_for_request,
}

get_big_endian-get_uint :
    (bs r : Bytes) (value : ℕ)
    → get_big_endian (length bs) value (bs ++ r) ≡ ok (get_uint value bs, r)
unfolding get_big_endian get get_uint
get_big_endian-get_uint [] r value = refl
get_big_endian-get_uint (b ∷ bs) r value =
    get_big_endian-get_uint bs r (bit_or (value * 256 % 2 ^ 64) b)

-- The reader of two bytes gets what the writer put.
get_u16-put_u16 : (v : ℕ) (r : Bytes) → v < 2 ^ 16 → get_u16 (put_u16 v ++ r) ≡ v
get_u16-put_u16 v r h = first (
    sym (get_big_endian-get_uint (put_u16 v) r 0)
    ∙ get_big_endian_all 2 v r (omega arith) (omega arith) (omega arith))
  where
    first : {s t : ℕ × Bytes} → ok s ≡ ok t → s.0 ≡ t.0
    first e = ap (λ (s : ℕ × Bytes). s.0) (whole e)
      where
        whole : {s t : ℕ × Bytes} → ok s ≡ ok t → s ≡ t
        whole e = cc

-- A response with this id.
abbrev answer : Link → Bytes → Bytes → Packet
answer l id response =
    over_link l response_context (request_version ∷ (id ++ (put_u16 (length response) ++ response)))

take_response-answer :
    (l : Link) (r : Receipt) (response : Bytes)
    → length r.request_id ≡ address_size
    → length response ≤ response_max_data
    → take_response r (answer l r.request_id response)
      ≡ (record r { response = response; status = complete; is_open = false }, esp_ok)
unfolding take_response
take_response-answer l r response sized small =
    let tail = put_u16 (length response) ++ response in
    let whole = r.request_id ++ tail in
    let id : take address_size whole ≡ r.request_id =
      take-append_of address_size r.request_id tail sized in
    let behind : drop 16 whole ≡ tail = drop-append_of 16 r.request_id tail sized in
    let eighteen : length (r.request_id ++ put_u16 (length response)) ≡ 18 =
      omega (arith, length-append r.request_id (put_u16 (length response))) in
    let content : drop 18 whole ≡ response =
      ap (drop 18) (sym (append_assoc r.request_id (put_u16 (length response)) response))
      ∙ drop-append_of 18 (r.request_id ++ put_u16 (length response)) response eighteen in
    let len : get_u16 tail ≡ length response =
      get_u16-put_u16 (length response) response (omega arith) in
    let size : length whole ≡ 18 + length response = omega (
      arith,
      length-append r.request_id tail,
      length-append (put_u16 (length response)) response,
    ) in
    let fits' : (ltb response_max_data (length response)
          || not (suc (18 + length response) == response_header_size + length response))
        ≡ false =
      ground arith in
    let mine = (constant_equal_iff r.request_id r.request_id).1 refl in
    rw (behind, len, size, fits', id, mine, content, take_all response) refl

-- What Mbed TLS documents: a digest has 32 bytes.
abbrev pub HasDigest : Provider → Type 0
HasDigest p = (m h : Bytes) → p.mbedtls_sha256 m ≡ some h → length h ≡ 32

check_timeout_early :
    (r : Receipt) (now : ℕ) → now < r.sent_at_ms + r.timeout_ms → check_timeout r now ≡ (r, esp_ok)
unfolding check_timeout
check_timeout_early r now early = ground arith

still_waiting :
    (r : Receipt)
    → r.is_open ≡ true
    → r.status ≡ waiting
    → (not r.is_open || not (is_waiting r.status)) ≡ false
still_waiting r o w = rw (o, w) refl

accept_response-answer :
    (l : Link) (r : Receipt) (response : Bytes) (now : ℕ)
    → r.is_open ≡ true
    → r.status ≡ waiting
    → now < r.sent_at_ms + r.timeout_ms
    → length r.request_id ≡ address_size
    → length response ≤ response_max_data
    → accept_response r (answer l r.request_id response) now
      ≡ (record r { response = response; status = complete; is_open = false }, esp_ok)
unfolding accept_response
accept_response-answer l r response now open_now pending_now early sized small =
    let size : length (r.request_id ++ (put_u16 (length response) ++ response))
        ≡ 18 + length response =
      omega (
        arith,
        length-append r.request_id (put_u16 (length response) ++ response),
        length-append (put_u16 (length response)) response,
      ) in
    let form : is_response (answer l r.request_id response) ≡ true = ground (arith, size) in
    let in_time : check_timeout r now ≡ (r, esp_ok) = check_timeout_early r now early in
    let done = take_response-answer l r response sized small in
    let waits : (not r.is_open || not (is_waiting r.status)) ≡ false =
      still_waiting r open_now pending_now in
    rw (waits, in_time, form) done

module _ (p : Provider) where
  sha256-sized : HasDigest p → (m : Bytes) → OnOk (λ h. length h ≡ 32) (Crypto.sha256 p m)
  unfolding Crypto.sha256
  sha256-sized sized m = elim (Option-cases (p.mbedtls_sha256 m)) [
    | inl nothing ↦ rw (nothing, Crypto.sha256) tt
    | inr (h, made) ↦ rw (made, Crypto.sha256) (sized m h made)
  ]

  -- The receipt waits for the response to the packet.
  record Opened (now timeout_ms : ℕ) (k : Packet) (r : Receipt) : Type 0 where
    open_now : r.is_open ≡ true
    pending_now : r.status ≡ waiting
    id : truncated_hash p k ≡ ok r.request_id
    sent : r.sent_at_ms ≡ now
    limit : r.timeout_ms ≡ timeout_ms

  request_over-Opened :
      (l : Link) (path content : Bytes) (now timeout_ms : ℕ)
      → OnOk
          (λ (x : Packet × Receipt). Opened now timeout_ms x.0 x.1)
          (request_over p l path content now timeout_ms)
  unfolding request_over
  request_over-Opened l path content now timeout_ms =
      let Q = λ (x : Packet × Receipt). Opened now timeout_ms x.0 x.1 in
      OnOk-if Q (not (link_is_active l)) _ _ λ up.
        OnOk-if Q (ltb request_max_data (length content) || timeout_ms == 0) _ _ λ small.
          OnOk-bind_eq Q (path_hash_of p path) _ λ hash named.
            let k = over_link l request_context (
              request_version ∷ (put_u64 now ++ (hash ++ (put_u16 (length content) ++ content)))) in
            OnOk-bind_eq Q (truncated_hash p k) _ λ id made. record {
              open_now = refl;
              pending_now = refl;
              id = made;
              sent = refl;
              limit = refl;
            }

  -- The response has the id of the packet that it answers.
  abbrev Answers : Link → Packet → Bytes → Packet → Type 0
  Answers l k response k' =
      (id : Bytes) × (truncated_hash p k ≡ ok id)
      × (k' ≡ answer l id response)
      × (length response ≤ response_max_data)

  request_decode-id :
      (k : Packet)
      → OnOk (λ (q : Request). truncated_hash p k ≡ ok q.request_id) (request_decode p k)
  unfolding request_decode
  request_decode-id k =
      let Q = λ (q : Request). truncated_hash p k ≡ ok q.request_id in
      OnOk-if Q
        (not (k.packet_type == data_type)
          || not (k.context == request_context)
          || not (k.destination_type == link_destination))
        _ _
        λ kind.
          OnOk-if Q
            (ltb (length k.payload) request_header_size
              || not (get_or k.payload 0 0 == request_version))
            _ _
            λ long.
              OnOk-if Q
                (ltb request_max_data (get_u16 (drop 25 k.payload))
                  || not (length k.payload == request_header_size + get_u16 (drop 25 k.payload)))
                _ _ λ whole. OnOk-bind_eq Q (truncated_hash p k) _ λ id made. made

  response_for_request-Answers :
      (l : Link) (k : Packet) (response : Bytes)
      → OnOk (Answers l k response) (response_for_request p l k response)
  unfolding response_for_request response_create
  response_for_request-Answers l k response =
      let Q = Answers l k response in
      OnOk-if Q (not (packet_is_for_link l k)) _ _ λ ours.
        OnOk-bind_eq Q (request_decode p k) _ λ q decoded.
          OnOk-if Q (not (link_is_active l)) _ _ λ up.
            OnOk-if Q (ltb response_max_data (length response)) _ _ λ small. (
              q.request_id,
              OnOk-ok _ (request_decode p k) q (request_decode-id k) decoded,
              refl,
              ground (arith, small),
            )

  packet_hash-sized : HasDigest p → (k : Packet) → OnOk (λ h. length h ≡ 32) (packet_hash p k)
  unfolding packet_hash
  packet_hash-sized sized k =
      OnOk-bind_eq _ (pack k mtu) _
        λ raw packed. OnOk-bind_eq _ (hashable k raw) _ λ bytes hashes. sha256-sized sized bytes

  truncated_hash-sized :
      HasDigest p → (k : Packet) → OnOk (λ id. length id ≡ address_size) (truncated_hash p k)
  unfolding truncated_hash packet_hash
  truncated_hash-sized sized k = OnOk-bind_eq _ (packet_hash p k) _ λ full made.
      let long : length full ≡ 32 =
        OnOk-ok _ (packet_hash p k) full (packet_hash-sized sized k) made in
      omega (arith, length-take address_size full)

  -- With digests of 32 bytes: if a request is sent over a link, the other end makes a response for the
  -- packet over its end of the link, and the response arrives before the time of the request is over,
  -- then the receipt is complete and holds exactly the response, and it accepts no other after that.
  pub accept_response-response_for_request :
      (l l' : Link) (path content response : Bytes) (sent_at timeout_ms now later : ℕ)
      (k k' other : Packet) (r : Receipt)
      → HasDigest p
      → request_over p l path content sent_at timeout_ms ≡ ok (k, r)
      → response_for_request p l' k response ≡ ok k'
      → now < sent_at + timeout_ms
      → let done = (accept_response r k' now).0 in
        (accept_response r k' now
          ≡ (record r { response = response; status = complete; is_open = false }, esp_ok))
        × (accept_response done other later ≡ (done, invalid_state))
  unfolding accept_response
  accept_response-response_for_request l l' path content response sent_at timeout_ms now later k k'
        other r sized asks answers early =
      let o =
        OnOk-ok (λ (x : Packet × Receipt). Opened sent_at timeout_ms x.0 x.1)
          (request_over p l path content sent_at timeout_ms) (k, r)
          (request_over-Opened l path content sent_at timeout_ms) asks in
      let (id, hashed, form, small) =
        OnOk-ok (Answers l' k response) (response_for_request p l' k response) k'
          (response_for_request-Answers l' k response) answers in
      let same : id ≡ r.request_id = ok-inj (sym hashed ∙ o.id) in
      let long : length r.request_id ≡ address_size =
        OnOk-ok _ (truncated_hash p k) r.request_id (truncated_hash-sized sized k) o.id in
      let before : now < r.sent_at_ms + r.timeout_ms = omega (arith, o.sent, o.limit) in
      let taken : accept_response r k' now
          ≡ (record r { response = response; status = complete; is_open = false }, esp_ok) =
        ap (λ (x : Packet). accept_response r x now)
          (form ∙ ap (λ (i : Bytes). answer l' i response) same)
        ∙ accept_response-answer l' r response now o.open_now o.pending_now before long small in
      (
        taken,
        ap (λ (x : Receipt × Err). accept_response x.0 other later) taken
            ∙ ap (λ (x : Receipt × Err). (x.0, invalid_state)) (sym taken),
      )
    where
      ok-inj : {x y : Bytes} → ok x ≡ ok y → x ≡ y
      ok-inj e = cc
