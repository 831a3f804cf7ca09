-- ===== src/Entitlements/Limits.antt =====
-- The plan of an organisation, what it uses, and whether it may add an integration.
use balance_tracker.Prelude.{
  ℕ, ◌+◌, Bool, false, ◌&&◌, not, Option, none, some, List, [], ◌∷◌, ◌==◌, ltb, leb, if◌then◌else◌,
}
use balance_tracker.Prelude.Lists.{any, find?, count_if}
use balance_tracker.Prelude.Text.{Text, codes, text_eq, strip, lower, is_empty}
use balance_tracker.Integration.{Integration}
use balance_tracker.Billing.Store.{Db}
use balance_tracker.Billing.Plans.{is_plan, get_active_subscription, add_subscription}
use balance_tracker.Entitlements.Policy.{Policy}

abbrev pub evm_chain_whitelist : List Text
evm_chain_whitelist =
    codes "eth"
    ∷ codes "ethereum"
    ∷ codes "arb"
    ∷ codes "arbitrum"
    ∷ codes "op"
    ∷ codes "optimism"
    ∷ codes "base"
    ∷ codes "matic"
    ∷ codes "bsc"
    ∷ codes "polygon"
    ∷ codes "avax"
    ∷ codes "avalanche"
    ∷ codes "ftm"
    ∷ codes "linea"
    ∷ codes "scroll"
    ∷ codes "zksync"
    ∷ codes "blast"
    ∷ codes "mantle"
    ∷ codes "xdai"
    ∷ codes "gnosis"
    ∷ codes "fantom"
    ∷ codes "berachain"
    ∷ codes "sepolia"
    ∷ codes "holesky"
    ∷ []

unfoldable pub is_whitelisted : Text → Bool
is_whitelisted chain = any (text_eq chain) evm_chain_whitelist

-- `_is_evm_chain`
unfoldable pub is_evm_chain : Text → Bool
is_evm_chain chain = is_whitelisted (lower (strip chain))

-- `where organization_id = org and is_active and kind = kind`
abbrev pub active_kind : ℕ → Text → Integration → Bool
active_kind org kind i = i.organization_id == org && i.is_active && text_eq kind i.kind

abbrev pub code_is : Text → Option Text → Bool
code_is c none = false
code_is c (some x) = text_eq c x

-- `... and exchange_code = code`
abbrev pub on_exchange : ℕ → Text → Integration → Bool
on_exchange org code i = active_kind org (codes "cex") i && code_is code i.exchange_code

-- A row without a chain passes neither `in_` nor its negation.
abbrev pub chain_passes : (Text → Bool) → Option Text → Bool
chain_passes p none = false
chain_passes p (some c) = p c

abbrev pub on_evm : ℕ → Integration → Bool
on_evm org i = active_kind org (codes "dex") i && chain_passes is_whitelisted i.chain

abbrev pub off_evm : ℕ → Integration → Bool
off_evm org i =
    active_kind org (codes "dex") i && chain_passes (λ c. not (is_whitelisted c)) i.chain

pub record Usage : Type 0 where
  pub cex : ℕ
  pub evm : ℕ
  pub non_evm_dex : ℕ
  pub wallets : ℕ
  pub integrations : ℕ

-- `_get_active_usage`
unfoldable pub get_active_usage : ℕ → List Integration → Usage
get_active_usage org rows =
    let cex_active = count_if (active_kind org (codes "cex")) rows in
    let evm_active = count_if (on_evm org) rows in
    let non_evm_active = count_if (off_evm org) rows in
    record {
      cex = cex_active;
      evm = evm_active;
      non_evm_dex = non_evm_active;
      wallets = evm_active + non_evm_active;
      integrations = cex_active + (evm_active + non_evm_active);
    }

-- The HTTPException 403 that refuses an integration.
pub data Denial : Type 0 where
  dex_not_allowed : Denial
  cex_account_limit_reached : ℕ → Denial
  exchange_account_limit_reached : Text → ℕ → Denial
  wallet_limit_reached : ℕ → Denial

-- `limit > 0 and count >= limit`
abbrev pub is_full : ℕ → ℕ → Bool
is_full limit count = ltb 0 limit && leb limit count

-- `none` where the text is absent or empty, else in lower case
unfoldable pub lowered : Option Text → Option Text
lowered none = none
lowered (some s) = if is_empty s then none else some (lower s)

unfoldable pub check_exchange : Policy → ℕ → Option Text → List Integration → Option Denial
check_exchange p org none rows = none
check_exchange p org (some code) rows =
    if is_full p.max_accounts_per_exchange (count_if (on_exchange org code) rows)
    then some (exchange_account_limit_reached code p.max_accounts_per_exchange)
    else none

unfoldable pub check_kind : Policy → ℕ → Text → Option Text → List Integration → Option Denial
check_kind p org kind code rows =
    if text_eq kind (codes "dex") && not p.allow_dex
    then some dex_not_allowed
    else if text_eq kind (codes "cex")
    then (if is_full p.max_cex_accounts (count_if (active_kind org (codes "cex")) rows)
        then some (cex_account_limit_reached p.max_cex_accounts)
        else check_exchange p org code rows)
    else if text_eq kind (codes "dex")
        && is_full p.max_wallets (count_if (active_kind org (codes "dex")) rows)
    then some (wallet_limit_reached p.max_wallets)
    else none

unfoldable pub check_lowered :
    Policy → ℕ → Option Text → Option Text → List Integration → Option Denial
check_lowered p org none code rows = none
check_lowered p org (some kind) code rows = check_kind p org kind code rows

-- `ensure_can_create_integration`, for a policy that is resolved
unfoldable pub ensure_can_create_integration :
    Policy → ℕ → Option Text → Option Text → List Integration → Option Denial
ensure_can_create_integration p org kind exchange_code rows =
    check_lowered p org (lowered kind) (lowered exchange_code) rows

-- `ensure_default_subscription`, after the plans were ensured; `current_period_end` is null.
unfoldable pub ensure_default_subscription : ℕ → ℕ → Db → Db
ensure_default_subscription org now d = elim (get_active_subscription org d) [
  | some _ ↦ d
  | none ↦ elim (find? (is_plan (codes "free")) d.plans) [
    | none ↦ d
    | some free ↦ add_subscription org free.id none now d
  ]
]
