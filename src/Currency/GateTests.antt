-- ===== src/Currency/GateTests.antt =====
-- Runs of the gate, the directory, demurrage and the re-genesis of components/currency/currency.c,
-- and the theorems at these inputs.
use meshpay_v.Base.{
  ◌≡◌, ◌≤◌, ◌+◌, ◌*◌, ◌^◌, refl, inl, inr, [], ◌∷◌, true, false, replicate, zeros, bytes_zero,
  constant_equal, mem_equal, arith, ok, err, invalid_arg, some, ltb, if◌then◌else◌, length, get_or,
}
use meshpay_v.Tx.{Tx}
use meshpay_v.Tx.Cbor.{
  put, put_bytes, put_big_endian, write_type_value, write_bstr, write_array, write_map,
}
use meshpay_v.Tx.Codec.{
  validate_claim, validate_common, compute_id, encode_signable, encode_signable_fields,
  write_parents, write_member,
}
use meshpay_v.Tx.Codec
use meshpay_v.Identity
use meshpay_v.Identity.{load_public, update_hash}
use meshpay_v.Crypto
use meshpay_v.Crypto.{sha256}
use meshpay_v.Checkpoint.{find_account}
use meshpay_v.Dag.{Dag, below_floor}
use meshpay_v.Currency.{
  accepted, replay, claim_valid, is_mint_authority, apply_demurrage, decay, bps_scale,
}
use meshpay_v.Currency.Members.{member_key, refounded_key, published_key, member_count, member_at}
use meshpay_v.Currency.Rules.{check_signature, ingest_transfer, ingest_check}
use meshpay_v.Currency.Gate.{IsAuthentic, ingest_check-IsAuthentic}
use meshpay_v.Currency.Directory.{members, member_at-members}
use meshpay_v.Currency.Decay.{kept, apply_demurrage-brackets}
use meshpay_v.Currency.Adoption.{ingest_check-build_checkpoint, ingest_check-orphan}
use meshpay_v.Currency.Tests.{paid_dag-build_checkpoint}
use meshpay_v.Base.{◌+ℤ◌, ◌-ℤ◌}
use meshpay_v.Currency.Ledger.{
  get_balance, base_balance, balance_loop, balance_step, transfer_step, fee_recipient, total_minted,
  mint_loop, mint_step, sum_balances,
}
use meshpay_v.Samples.{
  alice, bob, founder, coin, rules, payment, alice_claim, paid_dag, claimed_dag, paid_checkpoint,
  trusting,
}

-- The payment under the constant digest of `trusting`.
abbrev signed_payment : Tx
signed_payment = record payment { id = replicate 32 4 }

payment_admitted : ingest_check trusting rules claimed_dag signed_payment ≡ accepted
unfolding ingest_check ingest_transfer below_floor member_key refounded_key published_key
    find_account claim_valid is_mint_authority check_signature load_public update_hash sha256
    Codec.verify Identity.verify Crypto.verify validate_common validate_claim compute_id
    encode_signable encode_signable_fields write_parents write_member put put_bytes put_big_endian
    write_type_value write_bstr write_array write_map bytes_zero constant_equal mem_equal zeros
payment_admitted = refl

ingest_check-IsAuthentic_example :
    (coin ≡ coin)
    × (rules.has_descriptor ≡ true)
    × (below_floor claimed_dag.checkpoint signed_payment ≡ false)
    × IsAuthentic trusting rules claimed_dag signed_payment
ingest_check-IsAuthentic_example =
    ingest_check-IsAuthentic trusting rules claimed_dag signed_payment payment_admitted

member_at-members_example :
    (member_count rules paid_dag ≡ length (members rules paid_dag))
    × (member_at rules paid_dag 1 ≡ (
        if ltb 1 (member_count rules paid_dag)
        then ok (some (get_or (members rules paid_dag) 1 []))
        else err invalid_arg))
member_at-members_example = member_at-members rules paid_dag 1

demurrage_runs : apply_demurrage rules 1000 3 ≡ 970
unfolding apply_demurrage decay
demurrage_runs = refl

apply_demurrage-brackets_example :
    (apply_demurrage rules 1000 3 ≤ 1000)
    × (apply_demurrage rules 1000 3 * bps_scale ^ 3 ≤ 1000 * kept rules ^ 3)
    × (1000 * kept rules ^ 3 ≤ (apply_demurrage rules 1000 3 + 3) * bps_scale ^ 3)
apply_demurrage-brackets_example = apply_demurrage-brackets rules 1000 3

abbrev refounded_dag : Dag
refounded_dag = record paid_dag { checkpoint = paid_checkpoint }

ingest_check-build_checkpoint_example :
    ingest_check trusting rules refounded_dag alice_claim ≡ replay
ingest_check-build_checkpoint_example =
    ingest_check-build_checkpoint trusting rules paid_dag refounded_dag 5000 4 paid_checkpoint
      alice_claim (omega arith) paid_dag-build_checkpoint refl (inl refl) refl

-- Bob's claim, which no node has seen.
abbrev bob_claim : Tx
bob_claim = record alice_claim {
  id = replicate 32 8;
  from = bob;
  to = bob;
  member_public = replicate 64 3;
}

ingest_check-orphan_example : ingest_check trusting rules refounded_dag bob_claim ≡ replay
ingest_check-orphan_example =
    ingest_check-orphan trusting rules paid_dag refounded_dag 5000 4 paid_checkpoint payment
      bob_claim (omega arith) paid_dag-build_checkpoint refl (inr (inl refl)) refl refl refl refl

-- Two payments of all that Alice has, which no gate weighs against her balance.
abbrev overdrawn_dag : Dag
overdrawn_dag = record paid_dag {
  slots =
      alice_claim
      ∷ record payment { amount = 100 }
      ∷ record payment { id = replicate 32 3; amount = 100; seq = 2 }
      ∷ [];
  count = 3;
}

overdraft_runs :
    (total_minted rules overdrawn_dag ≡ 100)
    × (get_balance rules overdrawn_dag alice ≡ 0)
    × (get_balance rules overdrawn_dag bob ≡ 200)
    × (get_balance rules overdrawn_dag founder ≡ 2)
unfolding get_balance base_balance balance_loop balance_step transfer_step fee_recipient
    total_minted mint_loop mint_step sum_balances is_mint_authority bytes_zero constant_equal ◌+ℤ◌
    ◌-ℤ◌
overdraft_runs = (refl, refl, refl, refl)
