-- ===== src/Currency/Members.antt =====
-- components/currency/currency.c: membership, the directory of keys and the walk over the members.
use meshpay_v.Base.{
  ℕ, ◌+◌, ◌^◌, ◌-◌, Bool, true, not, ◌&&◌, List, [], ◌∷◌, Option, none, some, Bytes, Result, ok,
  err, invalid_arg, invalid_state, not_found, ltb, ◌==◌, if◌then◌else◌, any, find_first, bytes_zero,
  constant_equal,
}
use meshpay_v.Tx.{Tx}
use meshpay_v.Checkpoint.{Account, find_account, table}
use meshpay_v.Dag.{Dag, window}
use meshpay_v.Currency.{Config, authorities, is_mint_authority, claim_valid, has_checkpoint}

-- The checkpoint's key of an account, if it names one that is not zero.
unfoldable pub refounded_key : Config → Dag → Bytes → Option Bytes
refounded_key c d account =
    if has_checkpoint c d
    then elim (find_account d.checkpoint account) [
      | none ↦ none
      | some a ↦ if bytes_zero a.member_public then none else some a.member_public
    ]
    else none

-- `meshpay_currency_is_member`
unfoldable pub is_member : Config → Dag → Bytes → Bool
unfolding refounded_key
is_member c d account =
    if is_mint_authority c account then true else elim (refounded_key c d account) [
      | some key ↦ true
      | none ↦ any (λ t. claim_valid c t && constant_equal t.from account) (window d)
    ]

-- Whether a claim publishes the key of an account.
abbrev pub publishes : Config → Bytes → Tx → Bool
publishes c account t =
    claim_valid c t && constant_equal t.from account && not (bytes_zero t.member_public)

-- The claim of the window that publishes the key of an account.
unfoldable pub published_key : Config → Dag → Bytes → Result Bytes
published_key c d account = elim (find_first (publishes c account) (window d)) [
  | none ↦ err not_found
  | some t ↦ ok t.member_public
]

-- `meshpay_currency_member_key`
unfoldable pub member_key : Config → Dag → Bytes → Result Bytes
unfolding refounded_key published_key
member_key c d account =
    if not c.has_descriptor
    then err invalid_state
    else if is_mint_authority c account
    then ok c.founder_public
    else elim (refounded_key c d account) [ some key ↦ ok key | none ↦ published_key c d account ]

-- The state of the walk: the members counted, and what went to `out_account`.
abbrev pub Walk : Type 0
Walk = ℕ × Option Bytes

-- `if (count == wanted) memcpy(out_account, account); count++;`
abbrev pub visit : ℕ → Bytes → Walk → Walk
visit wanted account (count, out) = (count + 1, if count == wanted then some account else out)

-- The members of the checkpoint's directory.
unfoldable pub walk_directory : Config → ℕ → List Account → Walk → Walk
walk_directory c wanted [] w = w
walk_directory c wanted (a ∷ rest) w = walk_directory c wanted rest (
    if not (bytes_zero a.member_public) && not (is_mint_authority c a.account)
    then visit wanted a.account w
    else w)

-- The members by a claim of the window.
unfoldable pub walk_claims : Config → ℕ → List Tx → Walk → Walk
walk_claims c wanted [] w = w
walk_claims c wanted (t ∷ rest) w =
    walk_claims c wanted rest (if claim_valid c t then visit wanted t.from w else w)

abbrev pub has_claim : Config → Dag → Bytes → Bool
has_claim c d account = any (λ t. claim_valid c t && constant_equal t.from account) (window d)

-- The authorities without a claim.
unfoldable pub walk_authorities : Config → Dag → ℕ → List Bytes → Walk → Walk
walk_authorities c d wanted [] w = w
walk_authorities c d wanted (a ∷ rest) w =
    walk_authorities c d wanted rest (if has_claim c d a then w else visit wanted a w)

-- `currency_member_walk`
unfoldable pub member_walk : Config → Dag → ℕ → Walk
unfolding walk_directory walk_claims walk_authorities
member_walk c d wanted = walk_authorities c d wanted (authorities c) (
    walk_claims c wanted (window d)
      (walk_directory c wanted (if has_checkpoint c d then table d.checkpoint else []) (0, none)))

-- `SIZE_MAX`
abbrev pub size_max : ℕ
size_max = 2 ^ 32 - 1

-- `meshpay_currency_member_count`
unfoldable pub member_count : Config → Dag → ℕ
member_count c d = (member_walk c d size_max).0

-- `meshpay_currency_member_at`; the option is what went to `out_account`.
unfoldable pub member_at : Config → Dag → ℕ → Result (Option Bytes)
member_at c d index =
    let (total, out) = member_walk c d index in if ltb index total then ok out else err invalid_arg
