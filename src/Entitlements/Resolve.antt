-- ===== src/Entitlements/Resolve.antt =====
-- `_resolve_policy`: the policy of a plan, from its columns and its `policy_json`.
use balance_tracker.Prelude.{
  ◌+◌, max, Bool, ◌&&◌, ◌||◌, not, none, some, is_some, or_else, if◌then◌else◌,
}
use balance_tracker.Prelude.Text.{Text, codes}
use balance_tracker.Json.{int, Fields, end, lookup, get, as_dict, or_value}
use balance_tracker.Billing.Store.{Plan}
use balance_tracker.Entitlements.Policy.{Policy, default_policy, safe_int, set_int, set_bool}

abbrev pub has_key : Text → Fields → Bool
has_key k d = is_some (lookup k d)

-- The columns of the plan over the default.
unfoldable pub from_columns : Plan → Policy → Policy
from_columns plan p = record p {
  max_integrations = safe_int (int plan.max_integrations) p.max_integrations;
  limit_refresh = safe_int (int plan.min_refresh_interval_seconds) p.limit_refresh;
}

-- `raw_policy["limits"]`
unfoldable pub read_limits : Fields → Policy → Policy
read_limits d p = record p {
  max_integrations = set_int (codes "max_integrations") d p.max_integrations;
  max_cex_accounts = set_int (codes "max_cex_accounts") d p.max_cex_accounts;
  max_wallets =
      if has_key (codes "max_wallets") d || has_key (codes "max_evm_wallets") d
      then safe_int (or_value (get (codes "max_wallets") d) (get (codes "max_evm_wallets") d))
          p.max_wallets
      else p.max_wallets;
  max_accounts_per_exchange =
      set_int (codes "max_accounts_per_exchange") d p.max_accounts_per_exchange;
  limit_refresh = set_int (codes "min_refresh_interval_seconds") d p.limit_refresh;
}

-- `raw_policy["background"]`
unfoldable pub read_background : Fields → Policy → Policy
read_background d p = record p {
  background_enabled = set_bool (codes "enabled") d p.background_enabled;
  background_refresh = set_int (codes "refresh_interval_seconds") d p.background_refresh;
}

-- `raw_policy["throttling"]`
unfoldable pub read_throttling : Fields → Policy → Policy
read_throttling d p = record p {
  throttle_refresh = set_int (codes "min_refresh_interval_seconds") d p.throttle_refresh;
  throttle_background =
      set_int (codes "background_refresh_interval_seconds") d p.throttle_background;
}

-- `raw_policy["features"]`, or else "capabilities"
unfoldable pub read_features : Fields → Policy → Policy
read_features d p = record p {
  allow_dex = set_bool (codes "allow_evm") d (set_bool (codes "allow_dex") d p.allow_dex);
}

-- The entries that stand in the policy itself.
unfoldable pub read_legacy : Fields → Policy → Policy
read_legacy d p = record p {
  max_integrations = set_int (codes "max_integrations") d p.max_integrations;
  max_accounts_per_exchange =
      set_int (codes "max_accounts_per_exchange") d p.max_accounts_per_exchange;
  limit_refresh = set_int (codes "min_refresh_interval_seconds") d p.limit_refresh;
  allow_dex = set_bool (codes "allow_dex") d p.allow_dex;
}

-- `d.get(k)`, if that is a dictionary; else one without keys, which sets nothing.
abbrev pub section_of : Text → Fields → Fields
section_of k d = or_else (as_dict (get k d)) end

abbrev pub features_of : Fields → Fields
features_of d = elim (as_dict (get (codes "features") d)) [
  | some f ↦ f
  | none ↦ section_of (codes "capabilities") d
]

unfoldable pub read_policy : Fields → Policy → Policy
read_policy d p = read_legacy d (
    read_features (features_of d) (
      read_throttling (section_of (codes "throttling") d) (
        read_background (section_of (codes "background") d) (
          read_limits (section_of (codes "limits") d)
            (record p { version = safe_int (get (codes "version") d) p.version })))))

-- Which limits and intervals `policy_json` sets.
pub record Explicit : Type 0 where
  pub cex_limit : Bool
  pub evm_limit : Bool
  pub background_refresh : Bool
  pub throttling_refresh : Bool

unfoldable pub explicit : Fields → Explicit
explicit d =
    let limits = section_of (codes "limits") d in
    record {
      cex_limit = has_key (codes "max_cex_accounts") limits;
      evm_limit = has_key (codes "max_wallets") limits || has_key (codes "max_evm_wallets") limits;
      background_refresh =
          has_key (codes "refresh_interval_seconds") (section_of (codes "background") d);
      throttling_refresh =
          has_key (codes "min_refresh_interval_seconds") (section_of (codes "throttling") d);
    }

-- The limits that were not set, and the two intervals brought together.
unfoldable pub complete_limits : Explicit → Policy → Policy
complete_limits e p = record p {
  max_cex_accounts = if e.cex_limit then p.max_cex_accounts else p.max_integrations;
  max_wallets = if e.evm_limit then p.max_wallets else 0;
}

unfoldable pub complete_intervals : Explicit → Policy → Policy
complete_intervals e p =
    if e.throttling_refresh && not e.background_refresh
    then record p {
      background_refresh = p.throttle_refresh;
      throttle_background = p.throttle_refresh;
    }
    else if e.background_refresh && not e.throttling_refresh
    then record p { throttle_refresh = p.background_refresh }
    else p

unfoldable pub derive : Policy → Policy
derive p = record p {
  limit_refresh = p.background_refresh;
  max_integrations = max p.max_integrations (p.max_cex_accounts + p.max_wallets);
}

-- `policy_json`, if that is a dictionary
abbrev pub raw_policy : Plan → Fields
raw_policy plan = or_else (as_dict plan.policy_json) end

unfoldable pub resolve_policy : Plan → Policy
resolve_policy plan =
    let e = explicit (raw_policy plan) in
    derive (
      complete_intervals e
        (complete_limits e (read_policy (raw_policy plan) (from_columns plan default_policy))))
