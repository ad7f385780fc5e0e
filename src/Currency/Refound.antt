-- ===== src/Currency/Refound.antt =====
-- components/currency/currency.c: `meshpay_currency_build_checkpoint`, the founder's re-genesis.
use meshpay_v.Base.{
  ℕ, zero, suc, ◌+◌, ◌%◌, ◌^◌, not, ◌||◌, List, [], ◌∷◌, none, some, Bytes, Result, ok, err,
  invalid_size, invalid_state, ◌>>=◌, ltb, leb, ◌==◌, if◌then◌else◌, length, get_or, set, take, any,
  mem_equal, constant_equal,
}
use meshpay_v.Tx.{Tx}
use meshpay_v.Checkpoint
use meshpay_v.Checkpoint.{Checkpoint, Account, find_account, table, zero_account, digest_size}
use meshpay_v.Crypto.{Provider}
use meshpay_v.Dag.{Dag, window}
use meshpay_v.Dag.Digest.{digest}
use meshpay_v.Currency.{Config, is_mint_authority, has_checkpoint}
use meshpay_v.Currency.Ledger.{get_balance}
use meshpay_v.Currency.Members.{member_key}

-- `checkpoint_intern_account`; an error stands for the index -1, and the indices are not used.
unfoldable pub intern : Bytes → Checkpoint → Result Checkpoint
intern account cp =
    if any (λ a. mem_equal a.account account) (table cp)
    then ok cp
    else if leb (length cp.accounts) cp.account_count
    then err invalid_size
    else let slot = get_or cp.accounts cp.account_count zero_account in
      ok (record cp {
        accounts = set cp.accounts cp.account_count (record slot { account = account });
        account_count = cp.account_count + 1;
      })

unfoldable pub intern_table : List Account → Checkpoint → Result Checkpoint
intern_table [] cp = ok cp
intern_table (a ∷ rest) cp = intern a.account cp >>= intern_table rest

-- The accounts of the window's transactions in this currency.
unfoldable pub intern_window : Config → List Tx → Checkpoint → Result Checkpoint
intern_window c [] cp = ok cp
intern_window c (t ∷ rest) cp =
    (if not (t.currency_id == c.currency_id) then ok cp else intern t.from cp >>= intern t.to)
    >>= intern_window c rest

-- `if (tx->seq > a->seq_floor) a->seq_floor = tx->seq`, over the window.
unfoldable pub raise_floor : Config → Bytes → ℕ → List Tx → ℕ
raise_floor c account floor [] = floor
raise_floor c account floor (t ∷ rest) =
    raise_floor c account
      (if not (t.currency_id == c.currency_id) || not (constant_equal t.from account)
        then floor
        else if ltb floor t.seq
        then t.seq
        else floor)
      rest

-- The floor that an account has in the checkpoint before.
unfoldable pub inherited_floor : Dag → Bytes → ℕ
inherited_floor d account =
    if d.checkpoint.generation == 0
    then 0
    else elim (find_account d.checkpoint account) [ none ↦ 0 | some a ↦ a.seq_floor ]

unfoldable pub refound_key : Config → Dag → Account → Bytes
refound_key c d a =
    if is_mint_authority c a.account
    then a.member_public
    else elim (member_key c d a.account) [ err e ↦ a.member_public | ok key ↦ key ]

-- One account of the second loop.
unfoldable pub refound_account : Config → Dag → Account → Account
unfolding raise_floor inherited_floor refound_key
refound_account c d a = record {
  account = a.account;
  balance = get_balance c d a.account;
  seq_floor = raise_floor c a.account (inherited_floor d a.account) (window d);
  member_public = refound_key c d a;
}

-- The second loop, over the first `account_count` entries.
unfoldable pub refound_accounts : Config → Dag → ℕ → List Account → List Account
refound_accounts c d zero accounts = accounts
refound_accounts c d (suc n) [] = []
refound_accounts c d (suc n) (a ∷ rest) = refound_account c d a ∷ refound_accounts c d n rest

-- The header of the checkpoint, on a cleared table. `generation` is a `uint32_t`.
abbrev pub header : Config → Dag → ℕ → Bytes → ℕ → Checkpoint
header c d created_at hash max = record (Checkpoint.empty max) {
  currency_id = c.currency_id;
  generation = (d.checkpoint.generation + 1) % 2 ^ 32;
  created_at_ms = created_at;
  horizon_digest = take digest_size hash;
}

-- `meshpay_currency_build_checkpoint`, into a table of `max` accounts.
unfoldable pub build_checkpoint : Provider → Config → Dag → ℕ → ℕ → Result Checkpoint
unfolding intern intern_table intern_window refound_accounts
build_checkpoint p c d created_at max =
    if not c.has_descriptor || c.mint_authority_count == 0 then err invalid_state else do
      hash ← digest p d
      cp ←
          intern_table (if has_checkpoint c d then table d.checkpoint else [])
            (header c d created_at hash max)
          >>= intern (get_or c.mint_authorities 0 [])
          >>= intern_window c (window d)
      ok (record cp { accounts = refound_accounts c d cp.account_count cp.accounts })
