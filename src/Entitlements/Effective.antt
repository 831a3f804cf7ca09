-- ===== src/Entitlements/Effective.antt =====
-- `get_effective_entitlements`: what a client sees of the plan, for a policy that is resolved. The
-- entries that the answer repeats under several keys stand once.
use balance_tracker.Prelude.{
  ℕ, ◌+◌, ◌-◌, Bool, false, ◌&&◌, not, Option, List, ltb, ◌==◌, if◌then◌else◌,
}
use balance_tracker.Prelude.Text.{Text}
use balance_tracker.Clock.{Datetime}
use balance_tracker.Integration.{Integration}
use balance_tracker.Entitlements.Policy.{Policy}
use balance_tracker.Entitlements.Refresh.{RefreshState, build_refresh_state}
use balance_tracker.Entitlements.Limits.{get_active_usage, is_full}

pub record GroupState : Type 0 where
  pub active : ℕ
  pub remaining : ℕ
  pub limit_reached : Bool

-- `max(limit - active, 0) if limit > 0 else 0`, and `limit > 0 and active >= limit`
abbrev pub group_state : ℕ → ℕ → GroupState
group_state limit active = record {
  active = active;
  remaining = if ltb 0 limit then limit - active else 0;
  limit_reached = is_full limit active;
}

pub record Capabilities : Type 0 where
  pub allow_dex : Bool
  pub can_refresh : Bool
  pub can_add_cex : Bool
  pub can_add_wallet : Bool

pub record EffectiveEntitlements : Type 0 where
  pub plan_code : Text
  pub plan_name : Text
  pub version : ℕ
  pub max_integrations : ℕ
  pub max_accounts_per_exchange : ℕ
  pub max_cex_accounts : ℕ
  pub max_wallets : ℕ
  pub background_enabled : Bool
  pub background_refresh : ℕ
  pub throttle_refresh : ℕ
  pub throttle_background : ℕ
  pub refresh : RefreshState
  pub cex : GroupState
  pub evm : GroupState
  pub wallets : GroupState
  pub non_evm_dex : ℕ
  pub integrations : GroupState
  pub capabilities : Capabilities

-- `policy["limits"].get("max_integrations") or (cex_limit + wallet_limit)`
abbrev pub total_limit : Policy → ℕ
total_limit p =
    if p.max_integrations == 0 then p.max_cex_accounts + p.max_wallets else p.max_integrations

unfoldable pub get_effective_entitlements :
    Text → Text → Policy → ℕ → List Integration → Option Datetime → ℕ → EffectiveEntitlements
unfolding get_active_usage build_refresh_state
get_effective_entitlements code name p org rows last_refresh_at now =
    let usage = get_active_usage org rows in
    let refresh = build_refresh_state last_refresh_at p.throttle_refresh now in
    let cex = group_state p.max_cex_accounts usage.cex in
    let wallets = group_state p.max_wallets usage.wallets in
    record {
      plan_code = code;
      plan_name = name;
      version = p.version;
      max_integrations = total_limit p;
      max_accounts_per_exchange = p.max_accounts_per_exchange;
      max_cex_accounts = p.max_cex_accounts;
      max_wallets = p.max_wallets;
      background_enabled = p.background_enabled;
      background_refresh = p.background_refresh;
      throttle_refresh = p.throttle_refresh;
      throttle_background = p.throttle_background;
      refresh = refresh;
      cex = cex;
      evm = record { active = usage.evm; remaining = 0; limit_reached = false };
      wallets = wallets;
      non_evm_dex = usage.non_evm_dex;
      integrations = group_state (total_limit p) usage.integrations;
      capabilities = record {
        allow_dex = p.allow_dex;
        can_refresh = refresh.can_refresh;
        can_add_cex = not cex.limit_reached;
        can_add_wallet = p.allow_dex && not wallets.limit_reached;
      };
    }
