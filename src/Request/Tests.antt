-- ===== src/Request/Tests.antt =====
-- Runs of components/rns_request_response/rns_request_response.c, and the theorem at these inputs.
use meshpay_v.Base.{
  ◌≡◌, refl, [], ◌∷◌, ◌++◌, Bytes, replicate, true, false, ok, esp_ok, timeout, invalid_state,
  arith, bytes_zero, constant_equal,
}
use meshpay_v.Crypto.{sha256}
use meshpay_v.Destination.{hash_equal}
use meshpay_v.Packet.{
  Packet, enum_values_valid, pack, packet_hash, truncated_hash, hashable, header_byte,
}
use meshpay_v.Announce.Tests.{trusting-IsSigning}
use meshpay_v.Link.Tests.{second_end}
use meshpay_v.Request.{
  Receipt, waiting, complete, timed_out, over_link, get_uint, check_timeout, accept_response,
  response_create, path_hash_of, request_over, request_decode, response_for_request,
}
use meshpay_v.Request.Exchange.{accept_response-response_for_request}
use meshpay_v.Samples.{trusting}

abbrev path : Bytes
path = 47 ∷ 97 ∷ []

abbrev asked : Packet
asked =
    over_link second_end 9
      (1 ∷ ((0 ∷ 0 ∷ 0 ∷ 0 ∷ 0 ∷ 0 ∷ 3 ∷ 0xe8 ∷ []) ++ (replicate 16 4 ++ 0 ∷ 2 ∷ 7 ∷ 8 ∷ [])))

abbrev receipt : Receipt
receipt = record {
  is_open = true;
  status = waiting;
  request_id = replicate 16 4;
  sent_at_ms = 1000;
  timeout_ms = 500;
  response = [];
}

abbrev reply : Packet
reply = over_link second_end 10 (1 ∷ (replicate 16 4 ++ 0 ∷ 1 ∷ 9 ∷ []))

asks : request_over trusting second_end path (7 ∷ 8 ∷ []) 1000 500 ≡ ok (asked, receipt)
unfolding request_over path_hash_of truncated_hash packet_hash pack hashable header_byte sha256
    enum_values_valid bytes_zero
asks = refl

decode_runs :
    request_decode trusting asked
    ≡ ok (record {
      requested_at_ms = 1000;
      path_hash = replicate 16 4;
      content = 7 ∷ 8 ∷ [];
      request_id = replicate 16 4;
    })
unfolding request_decode get_uint truncated_hash packet_hash pack hashable header_byte sha256
    enum_values_valid bytes_zero
decode_runs = refl

answers : response_for_request trusting second_end asked (9 ∷ []) ≡ ok reply
unfolding response_for_request request_decode response_create get_uint truncated_hash packet_hash
    pack hashable header_byte sha256 enum_values_valid bytes_zero hash_equal constant_equal
answers = refl

-- At its limit the request is over.
late_runs :
    accept_response receipt reply 1500
    ≡ (record receipt { status = timed_out; is_open = false }, timeout)
unfolding accept_response check_timeout
late_runs = refl

accept_response-response_for_request_example :
    let done = (accept_response receipt reply 1499).0 in
    (accept_response receipt reply 1499
      ≡ (record receipt { response = 9 ∷ []; status = complete; is_open = false }, esp_ok))
    × (accept_response done reply 1499 ≡ (done, invalid_state))
accept_response-response_for_request_example =
    accept_response-response_for_request trusting second_end second_end path (7 ∷ 8 ∷ []) (9 ∷ [])
      1000 500 1499 1499 asked reply reply receipt trusting-IsSigning.digest_length asks answers
      (omega arith)
