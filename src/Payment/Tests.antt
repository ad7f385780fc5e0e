-- ===== src/Payment/Tests.antt =====
-- Runs of components/payment_engine/payment_engine.c, and the theorems at these inputs.
use meshpay_v.Base.{
  ◌≡◌, refl, ◌≤◌, arith, [], ◌∷◌, ◌++◌, Bytes, replicate, zeros, true, ok, err, some, none, esp_ok,
  length, bytes_zero, mem_equal, constant_equal, drop, invalid_arg, ◌<◌, ◌⊎◌, subst, sym,
}
use meshpay_v.Base.{◌+ℤ◌, ◌-ℤ◌}
use meshpay_v.Tx.{Tx}
use meshpay_v.Tx.Cbor.{
  put, put_bytes, put_big_endian, write_type_value, write_bstr, write_array, write_map, get,
  read_type_value, read_bstr,
}
use meshpay_v.Tx.Codec.{
  validate_claim, validate_common, compute_id, encode, encode_signable, encode_signable_fields,
  write_parents, write_member, create_transfer, finish, sign, copy_parents,
}
use meshpay_v.Identity
use meshpay_v.Crypto
use meshpay_v.Crypto.{sha256}
use meshpay_v.Packet.{Packet}
use meshpay_v.Dag.{conflicts, below_floor, shape_valid, find, merge_tx, validate_merge}
use meshpay_v.Dag.Tips.{is_parent_reference, referenced, insert_tip, add_tip, tips_loop, get_tips}
use meshpay_v.Currency.{is_mint_authority}
use meshpay_v.Currency.Ledger.{
  u32_max, get_balance, base_balance, balance_loop, balance_step, transfer_step, fee_recipient,
}
use meshpay_v.Currency.Rules.{validate_tx}
use meshpay_v.Wallet.{allocate_seq}
use meshpay_v.Payment.{packet_base, expire_pending, settle, receive_ack, msg_reject}
use meshpay_v.Payment.Sent.{Sent, Clear, create_payment-Sent}
use meshpay_v.Payment.Received.{Received, receive_payment-Received}
use meshpay_v.Payment.History.{Reach, Pays, pending_tx-increasing}
use meshpay_v.Payment.Exchange.{
  receive_payment-create_payment, receive_payment-create_encrypted_payment,
}
use meshpay_v.Payment.Misread.{receive_payment-misread}
use meshpay_v.Payment.Send.{
  select_parents, check_built, build_payment, commit_built, create_payment,
}
use meshpay_v.Tx.Codec
use meshpay_v.Tx.Decode.{decode, read_field, read_entries, is_empty}
use meshpay_v.Tx.RoundTrip.{IsStored}
use meshpay_v.Identity.{load_public, update_hash, get_public_key, get_hash}
use meshpay_v.Crypto.Symmetric.{hkdf_sha256, hmac_sha256, expand, aes_encrypt, aes_decrypt}
use meshpay_v.PacketCrypto.{
  decrypt_single, open_token, unpadded_len, pad, encrypt_single, derive_token_key, token_hmac,
}
use meshpay_v.PacketCrypto.Tests.{loads, trusting-IsConsistent}
use meshpay_v.Checkpoint.{find_account}
use meshpay_v.Currency.{claim_valid}
use meshpay_v.Currency.Members.{member_key, refounded_key, published_key}
use meshpay_v.Currency.Rules.{check_signature, ingest_transfer, ingest_check}
use meshpay_v.Payment.{msg_ack, payment_status_packet}
use meshpay_v.Payment.Send.{is_entered, seal, create_encrypted_payment}
use meshpay_v.Payment.Receive.{open_payload, gate, judge, enter_payment, receive_payment}
use meshpay_v.Samples.{
  alice, bob, payment, trusting, alice_engine, bob_engine, claimed_dag, holder_key, holder_public,
  recipient,
}

abbrev sent_tx : Tx
sent_tx = record payment {
  id = replicate 32 4;
  parents = replicate 32 1 ∷ zeros 32 ∷ [];
  parent_count = 1;
}

abbrev wire : Bytes
wire =
    0xab ∷ 1 ∷ 1 ∷ 2 ∷ 0x50 ∷ replicate 16 0xa1
    ++ (3 ∷ 0x50 ∷ replicate 16 0xb0)
    ++ (4 ∷ 0x18 ∷ 30 ∷ 5 ∷ 1 ∷ 6 ∷ 1 ∷ 7 ∷ 0x81 ∷ 0x58 ∷ 0x20 ∷ replicate 32 1)
    ++ (8 ∷ 0x19 ∷ 3 ∷ 0xe8 ∷ 9 ∷ 7 ∷ [])
    ++ (10 ∷ 0x58 ∷ 0x20 ∷ replicate 32 4)
    ++ (11 ∷ 0x58 ∷ 0x40 ∷ replicate 64 5)

abbrev clear_packet : Packet
clear_packet = record (packet_base bob) { payload = 1 ∷ wire }

pays_runs :
    ((create_payment trusting alice_engine bob 30 1000).1 ≡ ok clear_packet)
    × ((create_payment trusting alice_engine bob 30 1000).0.pending_tx ≡ sent_tx)
unfolding create_payment build_payment check_built commit_built select_parents expire_pending
    allocate_seq create_transfer finish sign copy_parents validate_common validate_claim compute_id
    encode encode_signable encode_signable_fields write_parents write_member put put_bytes
    put_big_endian write_type_value write_bstr write_array write_map bytes_zero constant_equal
    mem_equal zeros sha256 Identity.sign Crypto.sign is_parent_reference referenced insert_tip
    add_tip tips_loop get_tips validate_tx get_balance base_balance balance_loop balance_step
    transfer_step fee_recipient is_mint_authority ◌+ℤ◌ ◌-ℤ◌ merge_tx validate_merge shape_valid find
    conflicts
pays_runs = (refl, refl)

receives_runs :
    (receive_payment trusting [] bob_engine clear_packet).2
    ≡ some (payment_status_packet alice msg_ack (replicate 32 4))
unfolding receive_payment open_payload judge gate enter_payment decode read_field read_entries
    is_empty read_type_value get ingest_check ingest_transfer below_floor member_key refounded_key
    published_key find_account claim_valid is_mint_authority check_signature load_public update_hash
    sha256 Codec.verify Identity.verify Crypto.verify validate_common validate_claim compute_id
    encode_signable encode_signable_fields write_parents write_member put put_bytes put_big_endian
    write_type_value write_bstr write_array write_map bytes_zero constant_equal mem_equal zeros
    validate_tx get_balance base_balance balance_loop balance_step transfer_step fee_recipient ◌+ℤ◌
    ◌-ℤ◌ merge_tx validate_merge shape_valid find conflicts read_bstr
receives_runs = refl

-- The token of this payment, by the public half of the ephemeral key.
abbrev token : Bytes → Bytes
token key = key ++ (replicate 16 6 ++ ((1 ∷ wire ++ 1 ∷ []) ++ replicate 32 8))

abbrev sealed_packet : Bytes → Packet
sealed_packet key = record (packet_base bob) { payload = token key }

seals_runs :
    ((create_encrypted_payment trusting alice_engine bob recipient 30 1000
        (ok (replicate 32 5))
        (ok (replicate 16 6))).1
      ≡ ok (sealed_packet (replicate 32 5)))
    × ((create_encrypted_payment trusting alice_engine bob recipient 30 1000
          (ok (replicate 32 5))
          (ok (replicate 16 6))).0.pending_tx
        ≡ sent_tx)
unfolding create_encrypted_payment seal build_payment check_built commit_built select_parents
    expire_pending allocate_seq create_transfer finish sign copy_parents validate_common
    validate_claim compute_id encode encode_signable encode_signable_fields write_parents
    write_member put put_bytes put_big_endian write_type_value write_bstr write_array write_map
    bytes_zero constant_equal mem_equal zeros sha256 Identity.sign Crypto.sign is_parent_reference
    referenced insert_tip add_tip tips_loop get_tips validate_tx get_balance base_balance
    balance_loop balance_step transfer_step fee_recipient is_mint_authority ◌+ℤ◌ ◌-ℤ◌ merge_tx
    validate_merge shape_valid find conflicts encrypt_single derive_token_key token_hmac pad
    get_public_key get_hash Crypto.public_key Crypto.shared_secret hkdf_sha256 hmac_sha256 expand
    aes_encrypt
seals_runs = (refl, refl)

-- An ephemeral key whose public half begins with 1.
abbrev unlucky : Bytes
unlucky = 1 ∷ replicate 31 5

unlucky_runs :
    (create_encrypted_payment trusting alice_engine bob recipient 30 1000
      (ok unlucky)
      (ok (replicate 16 6))).1
    ≡ ok (sealed_packet unlucky)
unfolding create_encrypted_payment seal build_payment check_built commit_built select_parents
    expire_pending allocate_seq create_transfer finish sign copy_parents validate_common
    validate_claim compute_id encode encode_signable encode_signable_fields write_parents
    write_member put put_bytes put_big_endian write_type_value write_bstr write_array write_map
    bytes_zero constant_equal mem_equal zeros sha256 Identity.sign Crypto.sign is_parent_reference
    referenced insert_tip add_tip tips_loop get_tips validate_tx get_balance base_balance
    balance_loop balance_step transfer_step fee_recipient is_mint_authority ◌+ℤ◌ ◌-ℤ◌ merge_tx
    validate_merge shape_valid find conflicts encrypt_single derive_token_key token_hmac pad
    get_public_key get_hash Crypto.public_key Crypto.shared_secret hkdf_sha256 hmac_sha256 expand
    aes_encrypt
unlucky_runs = refl

sealed_receives_runs :
    (receive_payment trusting [] bob_engine (sealed_packet (replicate 32 5))).2
    ≡ some (payment_status_packet alice msg_ack (replicate 32 4))
unfolding receive_payment open_payload judge gate enter_payment decode read_field read_entries
    is_empty read_type_value get ingest_check ingest_transfer below_floor member_key refounded_key
    published_key find_account claim_valid is_mint_authority check_signature load_public update_hash
    sha256 Codec.verify Identity.verify Crypto.verify validate_common validate_claim compute_id
    encode_signable encode_signable_fields write_parents write_member put put_bytes put_big_endian
    write_type_value write_bstr write_array write_map bytes_zero constant_equal mem_equal zeros
    validate_tx get_balance base_balance balance_loop balance_step transfer_step fee_recipient ◌+ℤ◌
    ◌-ℤ◌ merge_tx validate_merge shape_valid find conflicts read_bstr decrypt_single open_token
    unpadded_len derive_token_key token_hmac get_hash Crypto.shared_secret hkdf_sha256 hmac_sha256
    expand aes_decrypt
sealed_receives_runs = refl

-- What follows the first byte is no transaction.
unlucky_decodes : decode (drop 1 (token unlucky)) ≡ err invalid_arg
unfolding decode read_type_value get
unlucky_decodes = refl

abbrev second_wire : Bytes
second_wire =
    0xab ∷ 1 ∷ 1 ∷ 2 ∷ 0x50 ∷ replicate 16 0xa1
    ++ (3 ∷ 0x50 ∷ replicate 16 0xb0)
    ++ (4 ∷ 20 ∷ 5 ∷ 2 ∷ 6 ∷ 1 ∷ 7 ∷ 0x81 ∷ 0x58 ∷ 0x20 ∷ replicate 32 4)
    ++ (8 ∷ 0x19 ∷ 7 ∷ 0xd0 ∷ 9 ∷ 7 ∷ [])
    ++ (10 ∷ 0x58 ∷ 0x20 ∷ replicate 32 4)
    ++ (11 ∷ 0x58 ∷ 0x40 ∷ replicate 64 5)

-- She pays again.
second_runs :
    (create_payment trusting (create_payment trusting alice_engine bob 30 1000).0 bob 20 2000).1
    ≡ ok (record (packet_base bob) { payload = 1 ∷ second_wire })
unfolding create_payment build_payment check_built commit_built select_parents expire_pending
    allocate_seq create_transfer finish sign copy_parents validate_common validate_claim compute_id
    encode encode_signable encode_signable_fields write_parents write_member put put_bytes
    put_big_endian write_type_value write_bstr write_array write_map bytes_zero constant_equal
    mem_equal zeros sha256 Identity.sign Crypto.sign is_parent_reference referenced insert_tip
    add_tip tips_loop get_tips validate_tx get_balance base_balance balance_loop balance_step
    transfer_step fee_recipient is_mint_authority ◌+ℤ◌ ◌-ℤ◌ merge_tx validate_merge shape_valid find
    conflicts
second_runs = refl

length-zeros : (length (zeros 32) ≡ 32) × (length (zeros 64) ≡ 64)
unfolding zeros
length-zeros = (refl, refl)

sent_tx-IsStored : IsStored sent_tx
sent_tx-IsStored = record {
  id = refl;
  from = refl;
  to = refl;
  signature = refl;
  member_public = length-zeros.1;
  amount = omega arith;
  seq = omega arith;
  fee = omega arith;
  currency_id = omega arith;
  timestamp_ms = omega arith;
  parents = record {
    first = replicate 32 1;
    second = zeros 32;
    array = refl;
    first_size = refl;
    second_size = length-zeros.0;
    count = omega arith;
    spare_first = λ e. absurd (omega arith);
    spare_second = λ _. refl;
  };
}

bound : alice_engine.wallet.next_seq ≤ u32_max
bound = omega arith

create_payment-Sent_example :
    let (e', r) = create_payment trusting alice_engine bob 30 1000 in
    Sent Clear trusting (expire_pending alice_engine 1000).0 bob 30 1000 e' r
create_payment-Sent_example = create_payment-Sent trusting alice_engine bob 30 1000 bound

receive_payment-Received_example :
    let (e', c, answer) = receive_payment trusting [] bob_engine clear_packet in
    Received trusting [] bob_engine clear_packet e' c answer
receive_payment-Received_example = receive_payment-Received trusting [] bob_engine clear_packet

pending_tx-increasing_example :
    let first = (create_payment trusting alice_engine bob 30 1000).0 in
    first.pending_tx.seq < (create_payment trusting first bob 20 2000).0.pending_tx.seq
pending_tx-increasing_example =
    pending_tx-increasing trusting alice_engine _ _ _ bound
      (Pays.in_clear alice_engine bob 30 1000 clear_packet pays_runs.0) Reach.here
      (Pays.in_clear _ bob 20 2000 _ second_runs)

receive_payment-create_payment_example :
    let a = (create_payment trusting alice_engine bob 30 1000).0 in
    let b = (receive_payment trusting [] bob_engine clear_packet).0 in
    (receive_ack a (payment_status_packet alice msg_ack (replicate 32 4))
      ≡ (settle a msg_ack, esp_ok))
    × ((msg_ack ≡ msg_ack) × (b.last_received_tx ≡ a.pending_tx) × (b.has_last_received ≡ true)
        ⊎ (msg_ack ≡ msg_reject) × (b.dag ≡ claimed_dag))
receive_payment-create_payment_example =
    receive_payment-create_payment trusting [] alice_engine bob_engine bob 30 1000 clear_packet
      (payment_status_packet alice msg_ack (replicate 32 4)) bound pays_runs.0
      (subst IsStored (sym pays_runs.1) sent_tx-IsStored) receives_runs

receive_payment-create_encrypted_payment_example :
    let a =
      (create_encrypted_payment trusting alice_engine bob recipient 30 1000
        (ok (replicate 32 5))
        (ok (replicate 16 6))).0 in
    let b = (receive_payment trusting [] bob_engine (sealed_packet (replicate 32 5))).0 in
    (receive_ack a (payment_status_packet alice msg_ack (replicate 32 4))
      ≡ (settle a msg_ack, esp_ok))
    × ((msg_ack ≡ msg_ack) × (b.last_received_tx ≡ a.pending_tx) × (b.has_last_received ≡ true)
        ⊎ (msg_ack ≡ msg_reject) × (b.dag ≡ claimed_dag))
receive_payment-create_encrypted_payment_example =
    receive_payment-create_encrypted_payment trusting [] alice_engine bob_engine bob holder_key
      holder_public recipient 30 1000 (ok (replicate 32 5)) (ok (replicate 16 6))
      (sealed_packet (replicate 32 5)) (payment_status_packet alice msg_ack (replicate 32 4)) bound
      trusting-IsConsistent (omega arith) loads.0 loads.1 loads.2 refl refl seals_runs.0
      (subst IsStored (sym seals_runs.1) sent_tx-IsStored) refl sealed_receives_runs

receive_payment-misread_example :
    let a =
      (create_encrypted_payment trusting alice_engine bob recipient 30 1000
        (ok unlucky)
        (ok (replicate 16 6))).0 in
    let (b, _, answer) = receive_payment trusting [] bob_engine (sealed_packet unlucky) in
    (is_entered (merge_tx claimed_dag a.pending_tx).1 ≡ true)
    × (a.dag ≡ (merge_tx claimed_dag a.pending_tx).0)
    × (answer ≡ none)
    × (b.dag ≡ claimed_dag)
receive_payment-misread_example =
    receive_payment-misread trusting [] alice_engine bob_engine bob recipient 30 1000 (ok unlucky)
      (ok (replicate 16 6)) (sealed_packet unlucky) invalid_arg bound unlucky_runs refl
      unlucky_decodes
