-- ===== src/Entitlements/PolicyLaws.antt =====
-- What a resolved policy satisfies.
use balance_tracker.Prelude.{ℕ, ◌+◌, ◌≤◌, ◌≡◌, refl, inl, inr, false, ◌&&◌, arith, Option-cases}
use balance_tracker.Prelude.Text.{Text, codes}
use balance_tracker.Json.{Fields, lookup}
use balance_tracker.Billing.Store.{Plan}
use balance_tracker.Entitlements.Policy.{Policy, default_policy, make_policy, set_int}
use balance_tracker.Entitlements.Resolve.{
  has_key, from_columns, read_limits, read_background, read_throttling, read_features, read_legacy,
  section_of, read_policy, Explicit, explicit, complete_limits, complete_intervals, derive,
  raw_policy, resolve_policy,
}

-- A resolved policy allows at least as many integrations as its accounts and wallets together, and
-- shows the background interval as the limit.
pub resolve_policy_lem :
    (plan : Plan)
    → let p = resolve_policy plan in
      (p.max_cex_accounts + p.max_wallets ≤ p.max_integrations)
      × (p.limit_refresh ≡ p.background_refresh)
unfolding resolve_policy derive
resolve_policy_lem plan = ground arith

set_int_absent : (k : Text) (d : Fields) (old : ℕ) → has_key k d ≡ false → set_int k d old ≡ old
unfolding set_int
set_int_absent k d old h = elim (Option-cases (lookup k d)) [
  | inl e ↦ rw (e, set_int) refl
  | inr (v, e) ↦ cc (rw e at h)
]

intervals_meet :
    (e : Explicit) (p : Policy)
    → (e.background_refresh && e.throttling_refresh) ≡ false
    → (e.background_refresh ≡ false
        → e.throttling_refresh ≡ false
        → p.throttle_refresh ≡ p.background_refresh)
    → (complete_intervals e p).throttle_refresh ≡ (complete_intervals e p).background_refresh
unfolding complete_intervals
intervals_meet e p h same = ground arith

-- Both intervals of the default are the same.
intervals_default :
    (plan : Plan)
    → let d = raw_policy plan in
      let p = complete_limits (explicit d) (read_policy d (from_columns plan default_policy)) in
      (explicit d).background_refresh ≡ false
      → (explicit d).throttling_refresh ≡ false
      → p.throttle_refresh ≡ p.background_refresh
unfolding complete_limits read_policy read_legacy read_features read_throttling read_background
    read_limits from_columns explicit make_policy
intervals_default plan b t =
    let d = raw_policy plan in
    rw
      (
        set_int_absent (codes "min_refresh_interval_seconds") (section_of (codes "throttling") d)
            600 t,
        set_int_absent (codes "refresh_interval_seconds") (section_of (codes "background") d) 600 b,
      )
      refl

-- Where `policy_json` does not set both intervals, the one that refreshes are refused by and the
-- one that clients are shown are the same.
pub resolve_policy_intervals :
    (plan : Plan)
    → ((explicit (raw_policy plan)).background_refresh
        && (explicit (raw_policy plan)).throttling_refresh)
      ≡ false
    → (resolve_policy plan).throttle_refresh ≡ (resolve_policy plan).background_refresh
unfolding resolve_policy derive
resolve_policy_intervals plan h =
    let d = raw_policy plan in
    let p = complete_limits (explicit d) (read_policy d (from_columns plan default_policy)) in
    intervals_meet (explicit d) p h (intervals_default plan)
