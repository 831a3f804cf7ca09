-- ===== src/Billing/Renewal.antt =====
-- `reconcile_subscription`: a subscription whose period is over is renewed from the balance or
-- falls back to the free plan. `isoformat` is that of a UTC `datetime`.
use balance_tracker.Prelude.{ℕ, Option, none, some, ◌∷◌, ◌++◌, ◌==◌, ltb, or_else, if◌then◌else◌}
use balance_tracker.Prelude.Lists.{find?}
use balance_tracker.Prelude.Int.{ℤ, pos, leb_ℤ}
use balance_tracker.Prelude.Text.{Text, codes, is_empty}
use balance_tracker.Clock.{aware, normalize}
use balance_tracker.Json.{Json, end, field, text, int, decimal}
use balance_tracker.SyncJob.Key.{show_nat}
use balance_tracker.Billing.Store.{
  Plan, Subscription, SubscriptionStatus, BillingEvent, Db, ok, Action, pure, ◌>>◌, modify,
}
use balance_tracker.Billing.Ledger.{NewEntry, add_entry, has_source_entry, get_balance}
use balance_tracker.Billing.Plans.{
  next_period_end, resolve_plan, get_active_subscription, add_billing_event, add_subscription,
  update_subscription, set_status, set_period_end,
}

pub data RenewalAction : Type 0 where
  missing unchanged missing_plan free_plan_missing downgraded : RenewalAction
  renewed : Text → RenewalAction

-- `str(plan.currency or "USD")`
abbrev pub plan_currency : Plan → Text
plan_currency p = if is_empty p.currency then codes "USD" else p.currency

abbrev pub money : ℤ → Json
money z = decimal z 2

module _ (isoformat : ℕ → Text) where
  abbrev pub renewal_source : ℕ → ℕ → Text
  renewal_source id period_end =
      codes "subscription:" ++ (show_nat id ++ (58 ∷ isoformat period_end))

  abbrev pub renewal_debit : ℕ → Plan → Subscription → ℕ → NewEntry
  renewal_debit org plan c period_end = record {
    organization_id = org;
    entry_type = codes "debit";
    amount = plan.price_monthly;
    source_type = codes "subscription_renewal";
    source_id = some (renewal_source c.id period_end);
    currency = plan_currency plan;
    created_by_user_id = none;
    note = some (codes "Auto-renew " ++ (plan.code ++ codes " plan"));
    metadata =
        field (codes "plan_code") (text plan.code)
          (field (codes "subscription_id") (int (pos c.id)) end);
  }

  unfoldable pub renewed_event : ℕ → Plan → Subscription → ℕ → ℕ → BillingEvent
  renewed_event org plan c period_end new_end = record {
    organization_id = org;
    event_type = codes "subscription.renewed";
    provider = codes "internal";
    provider_event_id = some (renewal_source c.id period_end);
    amount = plan.price_monthly;
    currency = plan_currency plan;
    payload = field (codes "plan_code") (text plan.code) (
        field (codes "subscription_id") (int (pos c.id)) (
          field (codes "previous_period_end") (text (isoformat period_end))
            (field (codes "current_period_end") (text (isoformat new_end)) end)));
  }

  unfoldable pub expired_event : ℕ → Plan → Subscription → ℕ → ℤ → BillingEvent
  expired_event org plan c period_end balance = record {
    organization_id = org;
    event_type = codes "subscription.expired";
    provider = codes "internal";
    provider_event_id =
        some
          (codes "subscription:" ++ (show_nat c.id ++ (codes ":expired:" ++ isoformat period_end)));
    amount = pos 0;
    currency = plan_currency plan;
    payload = field (codes "plan_code") (text plan.code) (
        field (codes "subscription_id") (int (pos c.id)) (
          field (codes "period_end") (text (isoformat period_end)) (
            field (codes "balance") (money balance) (
              field (codes "required_amount") (money plan.price_monthly)
                (field (codes "downgraded_to") (text (codes "free")) end)))));
  }

  -- The debit, unless this renewal was charged before.
  unfoldable pub charge : ℕ → Plan → Subscription → ℕ → Action (Unit {0})
  charge org plan c period_end d =
      if has_source_entry org (codes "subscription_renewal") (renewal_source c.id period_end) d
      then (ok tt, d)
      else (add_entry (renewal_debit org plan c period_end) >> pure tt) d

  -- The period starts over from now, since `period_end` has passed.
  unfoldable pub extend : ℕ → Plan → Subscription → ℕ → ℕ → Db → Db
  extend org plan c period_end now d =
      let new_end = next_period_end (some (aware period_end)) now none in
      add_billing_event (renewed_event org plan c period_end (or_else (normalize (some new_end)) 0))
        (update_subscription c.id (set_period_end new_end) now d)

  unfoldable pub renew : ℕ → Plan → Subscription → ℕ → ℕ → Action RenewalAction
  renew org plan c period_end now = do
    charge org plan c period_end
    modify (extend org plan c period_end now)
    pure (renewed plan.code)

  unfoldable pub downgrade : ℕ → Plan → Subscription → ℕ → ℕ → ℤ → Action RenewalAction
  downgrade org plan c period_end now balance d = elim (resolve_plan (codes "free") d) [
    | none ↦ (ok free_plan_missing, d)
    | some free ↦ (
      ok downgraded,
      add_billing_event (expired_event org plan c period_end balance) (
          add_subscription org free.id none now
            (update_subscription c.id (set_status SubscriptionStatus.expired) now d)),
    )
  ]

  -- The plan of a subscription whose period is over: renew it or fall back.
  unfoldable pub settle_plan : ℕ → Option Plan → Subscription → ℕ → ℕ → Action RenewalAction
  settle_plan org none c period_end now d = (ok missing_plan, d)
  settle_plan org (some plan) c period_end now d =
      if leb_ℤ plan.price_monthly (pos 0)
      then (ok unchanged, d)
      else let balance = get_balance org (codes "USD") d in
        if leb_ℤ plan.price_monthly balance
        then renew org plan c period_end now d
        else downgrade org plan c period_end now balance d

  unfoldable pub settle_period : ℕ → Subscription → Option ℕ → ℕ → Action RenewalAction
  settle_period org c none now d = (ok unchanged, d)
  settle_period org c (some period_end) now d =
      if ltb now period_end
      then (ok unchanged, d)
      else settle_plan org (find? (λ (p : Plan). p.id == c.plan_id) d.plans) c period_end now d

  unfoldable pub reconcile_subscription : ℕ → ℕ → Action RenewalAction
  reconcile_subscription org now d = elim (get_active_subscription org d) [
    | none ↦ (ok missing, d)
    | some c ↦ settle_period org c (normalize c.current_period_end) now d
  ]
