-- ===== src/Billing/Plans.antt =====
-- `BillingService`: period ends, plan lookup, and the switch of a subscription's plan.
use balance_tracker.Prelude.{
  ℕ, ◌+◌, ◌*◌, Bool, true, false, ◌&&◌, Option, none, some, ◌∷◌, ◌==◌, ltb, or_else, if◌then◌else◌,
}
use balance_tracker.Prelude.Lists.{any, keep, best, find?, update_where}
use balance_tracker.Prelude.Int.{ℤ, pos, ltb_ℤ}
use balance_tracker.Prelude.Text.{Text, codes, text_eq, strip, lower, is_empty}
use balance_tracker.Clock.{Datetime, aware, normalize, day}
use balance_tracker.Json.{Json, Fields, lookup, truthy, text, decimal}
use balance_tracker.Billing.Store.{
  Plan, Subscription, SubscriptionStatus, BillingEvent, WebhookEvent, Db, Action, Error, ok, err,
  raise, active_of, later, has_id,
}

abbrev pub monthly_period_days : ℕ
monthly_period_days = 30

-- The start is the base if that lies ahead, else now. `days or MONTHLY_PERIOD_DAYS`.
-- `base if base and base > now else now`
abbrev pub period_start : Option ℕ → ℕ → ℕ
period_start none now = now
period_start (some b) now = if ltb now b then b else now

unfoldable pub next_period_end : Option Datetime → ℕ → Option ℕ → Datetime
next_period_end base now days =
    let n = or_else days 0 in
    aware (period_start (normalize base) now + (if n == 0 then monthly_period_days else n) * day)

unfoldable pub normalize_plan_code : Text → Text
normalize_plan_code raw =
    let n = lower (strip raw) in if text_eq n (codes "full") then codes "pro" else n

abbrev pub is_plan : Text → Plan → Bool
is_plan code p = text_eq code p.code && p.is_active

unfoldable pub resolve_plan : Text → Db → Option Plan
resolve_plan plan_code d =
    let n = normalize_plan_code plan_code in if is_empty n then none else find? (is_plan n) d.plans

unfoldable pub get_active_subscription : ℕ → Db → Option Subscription
get_active_subscription org d = best later (keep (active_of org) d.subscriptions)

abbrev pub event_is : Text → Option Text → Bool
event_is s none = false
event_is s (some t) = text_eq s t

-- `provider_event_id` none or empty is never found.
unfoldable pub has_billing_event : ℕ → Text → Option Text → Text → Db → Bool
has_billing_event org provider none event_type d = false
has_billing_event org provider (some i) event_type d =
    if is_empty i
    then false
    else any
        (λ (e : BillingEvent).
          e.organization_id == org
          && text_eq provider e.provider
          && event_is i e.provider_event_id
          && text_eq event_type e.event_type)
        d.events

abbrev pub add_billing_event : BillingEvent → Db → Db
add_billing_event e d = record d { events = e ∷ d.events }

abbrev pub same_webhook : Text → Text → WebhookEvent → Bool
same_webhook provider i x = text_eq provider x.provider && text_eq i x.external_event_id

-- `payload.get(k, default)`
abbrev pub value_or : Text → Json → Fields → Json
value_or k default payload = elim (lookup k payload) [ none ↦ default | some v ↦ v ]

-- `float(payload.get("amount", 0.0) or 0.0)`, where `none` is a TypeError or a ValueError
unfoldable pub webhook_amount : (Json → Option ℤ) → Fields → Option ℤ
webhook_amount float_of payload =
    let v = value_or (codes "amount") (decimal (pos 0) 1) payload in
    if truthy v then float_of v else some (pos 0)

-- The column takes a text and no null: `none` is an error of the database.
abbrev pub text_only : Json → Option Text
text_only (text s) = some s
text_only _ = none

-- `payload.get("type", "billing.webhook")`
unfoldable pub webhook_type : Fields → Option Text
webhook_type payload = text_only (value_or (codes "type") (text (codes "billing.webhook")) payload)

abbrev pub webhook_event : (Json → Text) → Text → Text → Text → Fields → ℕ → ℤ → BillingEvent
webhook_event str event_type provider i payload org amount = record {
  organization_id = org;
  event_type = event_type;
  provider = provider;
  provider_event_id = some i;
  amount = amount;
  currency = str (value_or (codes "currency") (text (codes "USD")) payload);
  payload = payload;
}

-- What a webhook that is new writes, by its amount and its type.
unfoldable pub record_webhook :
    (Json → Text) → Text → Text → Fields → ℕ → Option ℤ → Option Text → Action Bool
record_webhook str provider i payload org none event_type d = (err Error.bad_amount, d)
record_webhook str provider i payload org (some amount) none d = (err Error.bad_event_type, d)
record_webhook str provider i payload org (some amount) (some event_type) d = (
  ok true,
  record d {
    webhooks =
        record { provider = provider; external_event_id = i; payload = payload } ∷ d.webhooks;
    events = webhook_event str event_type provider i payload org amount ∷ d.events;
  },
)

-- A webhook is recorded once by provider and external number; the flag says whether it is new. A
-- row that is only in the session when the amount or the type is refused is lost with the session. `str` and
-- `float_of` are Python's `str` and `float` on a JSON value.
unfoldable pub process_webhook_event :
    (Json → Text) → (Json → Option ℤ) → Text → Text → Fields → ℕ → Action Bool
process_webhook_event str float_of provider external_event_id payload org d =
    if any (same_webhook provider external_event_id) d.webhooks
    then (ok false, d)
    else record_webhook str provider external_event_id payload org (webhook_amount float_of payload)
        (webhook_type payload) d

abbrev pub add_subscription : ℕ → ℕ → Option Datetime → ℕ → Db → Db
add_subscription org plan period_end now d = record d {
  subscriptions =
      record {
        id = d.next_subscription;
        organization_id = org;
        plan_id = plan;
        status = SubscriptionStatus.active;
        current_period_end = period_end;
        updated_at = now;
      }
      ∷ d.subscriptions;
  next_subscription = d.next_subscription + 1;
}

-- An assignment to an attribute of a loaded row; `updated_at` has `onupdate=now()`.
abbrev pub update_subscription : ℕ → (Subscription → Subscription) → ℕ → Db → Db
update_subscription i f now d = record d {
  subscriptions =
      update_where (has_id i) (λ s. let t = f s in record t { updated_at = now }) d.subscriptions;
}

abbrev pub set_status : SubscriptionStatus → Subscription → Subscription
set_status st s = record s { status = st }

abbrev pub set_period_end : Datetime → Subscription → Subscription
set_period_end t s = record s { current_period_end = some t }

-- The period end that an old subscription hands on to one of another plan.
abbrev pub kept_period_end : Option Datetime → ℕ → Option Datetime
kept_period_end period_end now = elim (normalize period_end) [
  | none ↦ none
  | some t ↦ if ltb now t then some (aware t) else none
]

abbrev pub next_end : Bool → Bool → Option Datetime → ℕ → Option ℕ → Option Datetime
next_end should_extend preserve period_end now days =
    if should_extend
    then some (next_period_end none now days)
    else if preserve
    then kept_period_end period_end now
    else none

-- The rest of `switch_subscription_plan`, once the plan and the current subscription are known.
unfoldable pub switch_current :
    Plan → Option Subscription → ℕ → Option ℕ → Bool → ℕ → Db → Bool × Db
switch_current plan none org days preserve now d =
    let extend = ltb 0 (or_else days 0) && ltb_ℤ (pos 0) plan.price_monthly in
    (true, add_subscription org plan.id (next_end extend preserve none now days) now d)
switch_current plan (some c) org days preserve now d =
    let extend = ltb 0 (or_else days 0) && ltb_ℤ (pos 0) plan.price_monthly in
    if c.plan_id == plan.id
    then (if extend
        then (
          true,
          update_subscription c.id (set_period_end (next_period_end c.current_period_end now days))
              now d,
        )
        else (false, d))
    else (
      true,
      add_subscription org plan.id (next_end extend preserve c.current_period_end now days) now
          (update_subscription c.id (set_status SubscriptionStatus.replaced) now d),
    )

unfoldable pub switch_subscription_plan : ℕ → Text → Option ℕ → Bool → ℕ → Action Bool
unfolding switch_current
switch_subscription_plan org plan_code days preserve now d = elim (resolve_plan plan_code d) [
  | none ↦ raise Error.plan_not_found d
  | some plan ↦
      let (changed, d') =
        switch_current plan (get_active_subscription org d) org days preserve now d in
      (ok changed, d')
]
