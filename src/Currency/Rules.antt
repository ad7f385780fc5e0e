-- ===== src/Currency/Rules.antt =====
-- components/currency/currency.c: `meshpay_currency_validate_tx` and
-- `meshpay_currency_ingest_check`.
use meshpay_v.Base.{
  ◌+◌, not, ◌&&◌, ◌||◌, Option, none, some, Bytes, ok, err, not_found, fits, ltb, ◌==◌,
  if◌then◌else◌, mem_equal, constant_equal,
}
use meshpay_v.Tx.{Tx, transfer, mint, claim}
use meshpay_v.Tx.Codec
use meshpay_v.Crypto.{Provider}
use meshpay_v.Identity
use meshpay_v.Identity.{Identity}
use meshpay_v.Destination
use meshpay_v.Dag.{Dag, below_floor}
use meshpay_v.Currency.{
  Config, CurrencyResult, accepted, malformed, wrong_id, not_authority, supply_exceeded, bad_fee,
  insufficient, bad_signature, bad_amount, unknown_member, replay, is_mint_authority,
}
use meshpay_v.Currency.Ledger.{total_minted, get_balance}
use meshpay_v.Currency.Members.{member_key}

-- The plafond of a mint or a claim.
unfoldable pub check_supply : Config → Dag → Tx → CurrencyResult
check_supply c d t =
    if ltb 0 c.max_supply && ltb c.max_supply (total_minted c d + t.amount)
    then supply_exceeded
    else accepted

-- The first answer that is not `MESHPAY_CURRENCY_OK`.
abbrev pub and_then : CurrencyResult → CurrencyResult → CurrencyResult
and_then accepted next = next
and_then refused next = refused

module _ (p : Provider) where
  -- `rns_identity_load_public` of a key, then `meshpay_tx_verify` against it.
  unfoldable pub check_signature : Bytes → Tx → CurrencyResult
  check_signature key t = elim (Identity.load_public p key) [
    | err e ↦ malformed
    | ok who ↦ if fits (Codec.verify p t who) then accepted else bad_signature
  ]

  -- `meshpay_currency_validate_tx`
  unfoldable pub validate_tx : Config → Dag → Tx → CurrencyResult
  validate_tx c d t =
      if not (t.currency_id == c.currency_id)
      then wrong_id
      else if t.kind == mint
      then if not (is_mint_authority c t.from)
        then not_authority
        else and_then (if c.has_descriptor then check_signature c.founder_public t else accepted)
            (check_supply c d t)
      else if t.kind == claim
      then if not (constant_equal t.from t.to)
        then malformed
        else if not (t.amount == c.initial_credit)
        then bad_amount
        else check_supply c d t
      else if t.kind == transfer
      then if not (t.fee == c.transfer_fee)
        then bad_fee
        else if ltb (get_balance c d t.from) (t.amount + t.fee)
        then insufficient
        else accepted
      else malformed

  -- `currency_key_binds_account`; the identity is what goes through `out_identity`.
  unfoldable pub key_binds_account : Bytes → Bytes → Option Identity
  key_binds_account key account = elim (Identity.load_public p key) [
    | err e ↦ none
    | ok who ↦ elim (Destination.create_wallet p who) [
      | err e ↦ none
      | ok wallet ↦ if mem_equal wallet.hash account then some who else none
    ]
  ]

  unfoldable pub ingest_claim : Config → Tx → CurrencyResult
  unfolding key_binds_account
  ingest_claim c t =
      if not (constant_equal t.from t.to) || not (t.seq == 0)
      then malformed
      else if not (t.amount == c.initial_credit)
      then bad_amount
      else elim (key_binds_account t.member_public t.from) [
        | none ↦ bad_signature
        | some member ↦ if fits (Codec.verify p t member) then accepted else bad_signature
      ]

  unfoldable pub ingest_transfer : Config → Dag → Tx → CurrencyResult
  ingest_transfer c d t =
      if not (t.fee == c.transfer_fee) then bad_fee else elim (member_key c d t.from) [
        | err not_found ↦ unknown_member
        | err e ↦ malformed
        | ok key ↦ check_signature key t
      ]

  -- `meshpay_currency_ingest_check`
  unfoldable pub ingest_check : Config → Dag → Tx → CurrencyResult
  ingest_check c d t =
      if not (t.currency_id == c.currency_id)
      then wrong_id
      else if not c.has_descriptor
      then malformed
      else if below_floor d.checkpoint t
      then replay
      else if t.kind == mint
      then if not (is_mint_authority c t.from)
        then not_authority
        else check_signature c.founder_public t
      else if t.kind == claim
      then ingest_claim c t
      else if t.kind == transfer
      then ingest_transfer c d t
      else malformed
