-- ===== src/Samples.antt =====
-- Concrete transactions, checkpoints, windows and engines for the tests.
use meshpay_v.Base.{ℕ, zeros, false, [], ◌∷◌, ◌++◌, take, Bytes, replicate, true, some}
use meshpay_v.Tx.{Tx, cleared, transfer, claim}
use meshpay_v.Checkpoint
use meshpay_v.Checkpoint.{Checkpoint, Account, zero_account}
use meshpay_v.Dag.{Dag}
use meshpay_v.Currency.{Config}
use meshpay_v.Crypto.{Provider}
use meshpay_v.Identity
use meshpay_v.Identity.{Identity}
use meshpay_v.Wallet.{Wallet}
use meshpay_v.Payment
use meshpay_v.Payment.{Engine}
use meshpay_v.Packet
use meshpay_v.Packet.{Packet}

abbrev pub alice : Bytes
alice = replicate 16 0xa1

abbrev pub bob : Bytes
bob = replicate 16 0xb0

abbrev pub founder : Bytes
founder = replicate 16 0xf0

abbrev pub coin : ℕ
coin = 7

-- Alice's claim of the initial credit.
abbrev pub alice_claim : Tx
alice_claim = record cleared {
  id = replicate 32 1;
  kind = claim;
  from = alice;
  to = alice;
  amount = 100;
  currency_id = coin;
  member_public = replicate 64 9;
  signature = replicate 64 5;
}

-- She pays 30 to Bob, at a fee of 1.
abbrev pub payment : Tx
payment = record cleared {
  id = replicate 32 2;
  kind = transfer;
  from = alice;
  to = bob;
  amount = 30;
  seq = 1;
  fee = 1;
  currency_id = coin;
  timestamp_ms = 1000;
  signature = replicate 64 5;
}

-- The same place as `payment`, to herself.
abbrev pub double_spend : Tx
double_spend = record payment { id = replicate 32 3; to = alice }

abbrev pub rules : Config
rules = record {
  currency_id = coin;
  max_supply = 1000;
  transfer_fee = 1;
  initial_credit = 100;
  mint_authorities = founder ∷ replicate 3 (replicate 16 0);
  mint_authority_count = 1;
  demurrage_enabled = true;
  demurrage_bps = 100;
  founder_public = replicate 64 0xf1;
  has_descriptor = true;
}

abbrev pub fresh_dag : Dag
fresh_dag = record { slots = replicate 3 cleared; count = 0; checkpoint = Checkpoint.empty 4 }

abbrev pub paid_dag : Dag
paid_dag = record {
  slots = alice_claim ∷ payment ∷ cleared ∷ [];
  count = 2;
  checkpoint = Checkpoint.empty 4;
}

-- A checkpoint of generation 1 that has Alice's claim below her floor.
abbrev pub first_checkpoint : Checkpoint
first_checkpoint = record (Checkpoint.empty 4) {
  currency_id = coin;
  generation = 1;
  account_count = 1;
  accounts =
      (record zero_account {
        account = alice;
        balance = 100;
        seq_floor = 0;
        member_public = replicate 64 9;
      })
      ∷ replicate 3 zero_account;
}

-- A library whose digest is constant and which accepts every signature.
abbrev pub trusting : Provider
trusting = record {
  mbedtls_sha256 = λ m. some (replicate 32 4);
  ed25519_check = λ s k m. true;
  ed25519_sign = λ k m. replicate 64 5;
  ed25519_key_pair = λ s. (replicate 64 6, replicate 32 6);
  x25519_public = λ k. k;
  x25519 = λ k peer. replicate 32 3;
  hmac_sha256 = λ k m. some (replicate 32 8);
  aes_encrypt = λ k iv m. some m;
  aes_decrypt = λ k iv m. some m;
  pbkdf2_hmac = λ password salt n len. some (replicate len 1);
}

abbrev pub claimed_dag : Dag
claimed_dag = record fresh_dag { slots = alice_claim ∷ cleared ∷ cleared ∷ []; count = 1 }

-- The window of `paid_dag` as a node holds it that received the payment first.
abbrev pub swapped_dag : Dag
swapped_dag = record paid_dag { slots = payment ∷ alice_claim ∷ cleared ∷ [] }

abbrev pub founder_entry : Account
founder_entry = record zero_account { account = founder; balance = 1 }

abbrev pub alice_entry : Account
alice_entry = record {
  account = alice;
  balance = 69;
  seq_floor = 1;
  member_public = replicate 64 9;
}

-- Bob has not claimed: the checkpoint has no key of his.
abbrev pub bob_entry : Account
bob_entry = record zero_account { account = bob; balance = 30 }

-- The checkpoint that the founder makes of `paid_dag`.
abbrev pub paid_checkpoint : Checkpoint
paid_checkpoint = record (Checkpoint.empty 4) {
  currency_id = coin;
  generation = 1;
  created_at_ms = 5000;
  horizon_digest = replicate 8 4;
  account_count = 3;
  accounts = founder_entry ∷ alice_entry ∷ bob_entry ∷ zero_account ∷ [];
}

-- The announce of a wallet under this library.
abbrev pub announce_wire : Bytes
announce_wire =
    (replicate 32 2 ++ replicate 32 6)
    ++ (replicate 10 4 ++ (replicate 10 7 ++ (replicate 64 5 ++ 1 ∷ 2 ∷ [])))

abbrev pub announce_packet : Packet
announce_packet = record Packet.cleared {
  packet_type = 1;
  hops = 2;
  destination_hash = replicate 16 4;
  payload = announce_wire;
}

-- An identity that is loaded from a private key under this library.
abbrev pub holder_key : Bytes
holder_key = replicate 64 2

abbrev pub holder : Identity
holder = record Identity.empty {
  has_private = true;
  has_public = true;
  x25519_private = replicate 32 2;
  x25519_public = replicate 32 2;
  ed25519_seed = replicate 32 2;
  ed25519_private = replicate 64 6;
  ed25519_public = replicate 32 6;
  hash = replicate 16 4;
}

abbrev pub holder_public : Bytes
holder_public = replicate 32 2 ++ replicate 32 6

abbrev pub recipient : Identity
recipient = record Identity.empty {
  has_public = true;
  x25519_public = replicate 32 2;
  ed25519_public = replicate 32 6;
  hash = replicate 16 4;
}

-- Two engines: Alice's, who has her initial credit, and Bob's.
abbrev pub alice_wallet : Wallet
alice_wallet = record {
  owner = alice;
  next_seq = 1;
  lock_active = false;
  lock_tx_id = zeros 32;
  locked_amount = 0;
  lock_started_ms = 0;
  has_pin = false;
  pin_hash = zeros 32;
  pin_failures = 0;
  pin_locked = false;
}

abbrev pub alice_engine : Engine
alice_engine = Payment.init alice_wallet claimed_dag rules holder

abbrev pub bob_engine : Engine
bob_engine = Payment.init (record alice_wallet { owner = bob }) claimed_dag rules holder

-- A library whose digest is the start of the message.
abbrev pub prefixing : Provider
prefixing = record trusting { mbedtls_sha256 = λ m. some (take 32 (m ++ replicate 32 0)) }
