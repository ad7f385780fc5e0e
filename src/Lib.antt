-- ===== src/Lib.antt =====
-- MeshPay V2, a payment system for a mesh of radios: a verification development of its ledger, its
-- wallet and its packet format. Paths are those of the repository.
--
-- The parts and how they interact. A transaction (components/meshpay_tx) moves an amount between two
-- accounts, mints it, or claims the initial credit of a member; its id is the SHA-256 of its canonical
-- CBOR encoding, and its sender signs the id. A node keeps the transactions that it knows in a sliding
-- window (components/dag), without deep history: at a re-genesis the founder sums the window up in a
-- checkpoint of balances, sequence floors and keys (components/checkpoint), and a node that adopts it
-- purges what the checkpoint counts. The rules of a currency (components/currency) compute balances
-- and the minted total from the checkpoint and the window, judge local transactions
-- (`meshpay_currency_validate_tx`) and received ones (`meshpay_currency_ingest_check`), and build
-- checkpoints. Keys and accounts come from Reticulum identities and destinations
-- (components/rns_identity, components/rns_destination), over components/rns_crypto. The wallet
-- (components/wallet) allocates sequence numbers, holds an amount back while a payment is pending, and
-- guards itself by a PIN. Packets (components/rns_packet) carry all of it.
--
-- Which file models which part:
--   Base: the shared helpers. Base/Arrays has `bytes_zero`, `rns_crypto_constant_equal` and `memcmp`
--     as tests on byte lists; Base/Status has `esp_err_t` and results; Base/Int has the signed
--     sum of `meshpay_currency_get_balance`; Base/Lists and Base/Pairs have arrays and what holds of
--     their entries.
--   Tx: `meshpay_tx_t`. Tx/Cbor: `cbor_writer_t`, `cbor_reader_t` and their functions. Tx/Codec:
--     `validate_common`, `meshpay_tx_encode*`, `meshpay_tx_compute_id`, `meshpay_tx_sign`,
--     `meshpay_tx_verify` and the three constructors `meshpay_tx_create_*`. Tx/Decode:
--     `meshpay_tx_decode`. Proofs: Tx/Errors on the codes with which the encoder fails; Tx/Encoded,
--     Tx/Read, Tx/Fields, Tx/RoundTrip and Tx/Faithful on the bytes that it writes.
--   Checkpoint: `meshpay_checkpoint_t`, its initial state and `meshpay_checkpoint_find_account`.
--     Checkpoint/Codec: its encoding, hash and signature; Checkpoint/Decode: `meshpay_checkpoint_decode`.
--     Proofs: Checkpoint/Written, Checkpoint/Faithful, Checkpoint/RoundTrip and Checkpoint/Signed.
--   Crypto, Identity, Destination: components/rns_crypto, components/rns_identity and
--     components/rns_destination. Crypto/Symmetric is HMAC, HKDF, PBKDF2 and AES, Crypto/Derivation
--     its proofs; Identity/Loaded and Destination/Created say what the constructors make.
--   PacketCrypto: components/rns_packet_crypto/rns_packet_crypto.c, with proofs in
--     PacketCrypto/RoundTrip and PacketCrypto/Keys.
--   Link: components/rns_link_request/rns_link_request.c, with proofs in Link/Handshake and
--     Link/Agreement.
--   Request: components/rns_request_response/rns_request_response.c, with proofs in Request/Exchange.
--   Announce: components/rns_announce/rns_announce.c, its table of known destinations in
--     Announce/Directory, and proofs in Announce/Verify, Announce/Accept and Announce/Trust.
--   Dag: `meshpay_dag_t` and the functions of components/dag/dag.c. Dag/Merge, Dag/Compact,
--     Dag/Invariant and Dag/History hold its proofs; Dag/Digest is `meshpay_dag_digest`
--     and Dag/Convergence its proofs; Dag/Tips is `meshpay_dag_get_tips` and Dag/Newest and
--     Dag/Selection its proofs.
--   Currency: `meshpay_currency_config_t`, the authorities and demurrage. Currency/Ledger: balances
--     and the minted total. Currency/Members: the directory. Currency/Rules: validation and the gate.
--     Currency/Refound: `meshpay_currency_build_checkpoint`. Proofs: Net, Order, Supply, Solvency,
--     Gate, Directory and Decay, and for the re-genesis Interned, Regenesis, Rebuild and Adoption.
--   Wallet: components/wallet/wallet.c, with proofs in Wallet/Lock, Wallet/Pin and Wallet/History.
--   Payment: components/payment_engine/payment_engine.c: the engine and its receipts; Payment/Send the
--     making of payments, with proofs in Payment/Sent, and Payment/Receive their reception, with
--     proofs in Payment/Received.
--   Packet: components/rns_packet/rns_packet.c, with proofs in Packet/Header, Packet/Wire and
--     Packet/Hash.
--   Transport and Transport/Receive: components/rns_transport_core/rns_transport_core.c, over Packet
--     and Announce, with proofs in Transport/Seen, Transport/Local, Transport/Again and
--     Transport/Route.
--   Samples and the modules Tests and GateTests: concrete runs, and each theorem at such a run.
--
-- How the code is modelled. A C function that updates a struct returns the new struct beside its
-- result; one with an output argument returns the output in a result type, or an option where it may
-- be left unset. Pointer arguments are live: the guards that answer a NULL pointer before any effect
-- are not represented. A fixed array is a list, whose length is the capacity that the build sets
-- (CONFIG_MESHPAY_DAG_WINDOW, CONFIG_MESHPAY_CHECKPOINT_MAX_ACCOUNTS): the model is generic in both,
-- so no bound on them is needed, and the slots behind a count are kept and written as the code does.
-- An enumeration that a struct may hold out of range (the type of a transaction, the types of a
-- packet) is a number. Loops are structural recursion over the window, the table or a count; only the
-- loop of HKDF takes fuel, as many rounds as bytes are asked for, and each round writes at least one.
--
-- Numbers are natural numbers with the code's bounds written out where it tests or casts:
-- `% 256`, `% 2 ^ 32` and `% 2 ^ 64`, and the cuts of a balance to `uint32_t`. The sums of the ledger
-- run over at most 250 entries of 34 bits, far inside `uint64_t` and `int64_t`, and are not wrapped.
--
-- The cryptographic functions of Mbed TLS and Monocypher (the copy in
-- components/rns_crypto/vendor/monocypher included) are the fields of `Crypto.Provider`, a parameter
-- of every definition that reaches them. Most theorems assume nothing of them; those on tokens,
-- announces and HKDF assume what the libraries document, as the records `IsConsistent`, `IsSigning`
-- and the predicate `HasHmac`. What `rns_crypto_random` answers is an argument of its caller. `qsort`
-- in `meshpay_dag_digest` is an insertion sort by id, which gives the same concatenation of ids.
--
-- Not modelled: logging; the wiping of temporaries by `rns_crypto_secure_zero`; what is left in an
-- output after a failure; a `malloc` that fails; `meshpay_currency_config_from_descriptor`; the
-- registration of a random source; and the components for synchronisation, descriptors, storage, radio,
-- user interface and drivers.
pub mod Base
pub mod Tx
pub mod Checkpoint
pub mod Crypto
pub mod Identity
pub mod Destination
pub mod Dag
pub mod Currency
pub mod Wallet
pub mod Packet
pub mod Transport
pub mod PacketCrypto
pub mod Link
pub mod Request
pub mod Announce
pub mod Payment
mod Samples
