-- ===== src/Entitlements/Tests.antt =====
-- The theorems on plans and limits, on concrete plans.
use balance_tracker.Prelude.{
  ◌+◌, ◌*◌, ◌≤◌, ◌≡◌, ◌↔◌, refl, inl, inr, ◌⊎◌, true, not, none, some, is_some, or_else, [], ◌∷◌,
  arith,
}
use balance_tracker.Prelude.Lists.{find?, count_if}
use balance_tracker.Prelude.Int.{pos, ◌-ℤ◌}
use balance_tracker.Prelude.Text.{codes, text_eq, lower}
use balance_tracker.Clock.{aware, second}
use balance_tracker.Json.{obj, int, end, field, lookup}
use balance_tracker.Integration.{Integration}
use balance_tracker.Billing.Store.{Plan, Db, active_of}
use balance_tracker.Billing.Plans.{is_plan}
use balance_tracker.Billing.Invariant.{IsValid}
use balance_tracker.Entitlements.Policy.{default_policy, make_policy}
use balance_tracker.Entitlements.Resolve.{explicit, resolve_policy}
use balance_tracker.Entitlements.Refresh.{ensure_refresh_interval, wait_since}
use balance_tracker.Entitlements.Limits.{
  Denial, active_kind, get_active_usage, lowered, ensure_can_create_integration,
  ensure_default_subscription, check_lowered, check_kind, check_exchange,
}
use balance_tracker.Entitlements.Effective.{get_effective_entitlements}
use balance_tracker.Entitlements.EffectiveLaws.{
  HasRoom, get_effective_entitlements_refresh, get_effective_entitlements_agrees,
}
use balance_tracker.Entitlements.PolicyLaws.{resolve_policy_lem, resolve_policy_intervals}
use balance_tracker.Entitlements.RefreshLaws.{ensure_refresh_interval_retry}
use balance_tracker.Entitlements.LimitLaws.{
  WithinPlan, ensure_can_create_integration-WithinPlan, get_active_usage_wallets,
  ensure_default_subscription_lem,
}

abbrev low : Plan
low = record {
  id = 2;
  code = codes "low";
  name = codes "Low";
  max_integrations = pos 17;
  min_refresh_interval_seconds = pos 300;
  policy_json =
      obj (field (codes "limits") (obj (field (codes "max_wallets") (int (pos 3)) end)) end);
  price_monthly = pos 500;
  currency = codes "USD";
  is_active = true;
}

resolve_policy_lem_example :
    let p = resolve_policy low in
    (p.max_cex_accounts + p.max_wallets ≤ p.max_integrations)
    × (p.limit_refresh ≡ p.background_refresh)
resolve_policy_lem_example = resolve_policy_lem low

resolve_policy_intervals_example :
    (resolve_policy low).throttle_refresh ≡ (resolve_policy low).background_refresh
unfolding explicit lookup text_eq
resolve_policy_intervals_example = resolve_policy_intervals low refl

refused : ensure_refresh_interval default_policy (some (aware 5_000_000)) 9_000_000 ≡ some 596
unfolding ensure_refresh_interval wait_since make_policy ◌-ℤ◌
refused = refl

ensure_refresh_interval_retry_example :
    (1 ≤ 596)
    × (596 ≤ default_policy.background_refresh)
    × (ensure_refresh_interval default_policy
          (some (aware 5_000_000))
          (9_000_000 + 596 * second + 1)
        ≡ none)
ensure_refresh_interval_retry_example =
    ensure_refresh_interval_retry default_policy (aware 5_000_000) 5_000_000 9_000_000 596 1 refl
      (omega arith) refused

abbrev account : Integration
account = record {
  id = 1;
  organization_id = 3;
  provider = codes "bybit";
  kind = codes "cex";
  exchange_code = some (codes "bybit");
  wallet_address = none;
  chain = none;
  is_active = true;
  last_synced_at = none;
}

abbrev wallet : Integration
wallet = record account {
  id = 2;
  kind = codes "dex";
  exchange_code = none;
  chain = some (codes "eth");
}

none-WithinPlan : WithinPlan default_policy 3 []
unfolding make_policy
none-WithinPlan = record {
  cex = inr (omega arith);
  wallets = inr (omega arith);
  exchange = λ c cs. inl refl;
}

ensure_can_create_integration-WithinPlan_example : WithinPlan default_policy 3 (account ∷ [])
unfolding lowered lower ensure_can_create_integration check_lowered check_kind check_exchange
    make_policy text_eq
ensure_can_create_integration-WithinPlan_example =
    ensure_can_create_integration-WithinPlan default_policy 3 account [] (some (codes "CEX"))
      (some (codes "Bybit")) none-WithinPlan refl refl refl

get_active_usage_wallets_example :
    (get_active_usage 3 (wallet ∷ account ∷ [])).wallets
    ≤ count_if (active_kind 3 (codes "dex")) (wallet ∷ account ∷ [])
get_active_usage_wallets_example = get_active_usage_wallets 3 (wallet ∷ account ∷ [])

abbrev db : Db
db = record {
  plans = record low { id = 1; code = codes "free" } ∷ low ∷ [];
  subscriptions = [];
  next_subscription = 1;
  ledger = [];
  events = [];
  webhooks = [];
  promos = [];
  next_promo = 1;
  redemptions = [];
  invoices = [];
}

db-IsValid : IsValid db
db-IsValid = record {
  one_active = λ org. omega arith;
  unique_id = λ i. omega arith;
  numbered = tt;
  amounts = tt;
}

ensure_default_subscription_lem_example :
    let d' = ensure_default_subscription 3 50 db in
    IsValid d'
    × ((find? (is_plan (codes "free")) db.plans ≡ none)
        ⊎ (count_if (active_of 3) d'.subscriptions ≡ 1))
ensure_default_subscription_lem_example = ensure_default_subscription_lem 3 50 db db-IsValid

get_effective_entitlements_refresh_example :
    let p = resolve_policy low in
    let r = ensure_refresh_interval p (some (aware 5_000_000)) 9_000_000 in
    let e =
      get_effective_entitlements
        (codes "low")
        (codes "Low")
        p
        3
        []
        (some (aware 5_000_000))
        9_000_000 in
    (e.capabilities.can_refresh ≡ not (is_some r))
    × (e.refresh.can_refresh ≡ not (is_some r))
    × (e.refresh.retry_after_seconds ≡ or_else r 0)
unfolding explicit lookup text_eq
get_effective_entitlements_refresh_example =
    get_effective_entitlements_refresh (codes "low") (codes "Low") low 3 [] (some (aware 5_000_000))
      9_000_000 refl

get_effective_entitlements_agrees_example :
    let shown =
      (get_effective_entitlements
        (codes "free")
        (codes "Free")
        default_policy
        3
        (wallet ∷ account ∷ [])
        none
        100).capabilities in
    ((ensure_can_create_integration default_policy 3
          (some (codes "cex"))
          (some (codes "okx"))
          (wallet ∷ account ∷ [])
        ≡ none)
      ↔ ((shown.can_add_cex ≡ true)
          × HasRoom default_policy 3 (codes "okx") (wallet ∷ account ∷ [])))
    × ((shown.can_add_wallet ≡ true)
        ⊎ ((d : Denial) × (ensure_can_create_integration default_policy 3
                (some (codes "dex"))
                none
                (wallet ∷ account ∷ [])
              ≡ some d)))
get_effective_entitlements_agrees_example =
    get_effective_entitlements_agrees (codes "free") (codes "Free") default_policy 3
      (wallet ∷ account ∷ []) none 100 (codes "okx") refl
