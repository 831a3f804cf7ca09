-- ===== src/Billing/Tests.antt =====
-- The billing theorems on a concrete database: two plans, a paid subscription that is over, a
-- ledger with a credit, a code and an invoice.
use balance_tracker.Prelude.{
  ℕ, ◌+◌, ◌*◌, ◌≤◌, ◌≡◌, refl, ◌⊎◌, Bool, true, false, none, some, [], ◌∷◌, arith,
}
use balance_tracker.Prelude.Int.{pos}
use balance_tracker.Prelude.Text.{Text, codes, text_eq, strip, lower}
use balance_tracker.Clock.{aware, normalize, day}
use balance_tracker.Json.{end, null}
use balance_tracker.SyncJob.Key.{show_nat}
use balance_tracker.Billing.Store.{
  Plan, Subscription, SubscriptionStatus, credit, LedgerEntry, PromoCode, PaymentInvoice, Db, ok,
  err, Error,
}
use balance_tracker.Billing.Ledger.{NewEntry, add_entry}
use balance_tracker.Billing.Plans.{
  get_active_subscription, resolve_plan, switch_subscription_plan, normalize_plan_code,
}
use balance_tracker.Billing.Renewal.{RenewalAction, reconcile_subscription}
use balance_tracker.Billing.Invariant.{IsValid}
use balance_tracker.Billing.SwitchLaws.{
  OnPlan, switch_subscription_plan_lem, switch_subscription_plan_paid,
}
use balance_tracker.Billing.LedgerLaws.{Posted, IsRefused, add_entry_lem}
use balance_tracker.Billing.Reconciled.{Reconciled}
use balance_tracker.Billing.RenewalLaws.{reconcile_subscription_lem}

abbrev pro : Plan
pro = record {
  id = 2;
  code = codes "pro";
  name = codes "Pro";
  max_integrations = pos 71;
  min_refresh_interval_seconds = pos 0;
  policy_json = null;
  price_monthly = pos 2_000;
  currency = codes "USD";
  is_active = true;
}

abbrev free : Plan
free = record pro { id = 1; code = codes "free"; name = codes "Free"; price_monthly = pos 0 }

abbrev over : Subscription
over = record {
  id = 4;
  organization_id = 3;
  plan_id = 2;
  status = SubscriptionStatus.active;
  current_period_end = some (aware 1_000);
  updated_at = 10;
}

abbrev paid_in : LedgerEntry
paid_in = record {
  organization_id = 3;
  created_by_user_id = none;
  entry_type = credit;
  amount = pos 2_500;
  currency = codes "USD";
  source_type = codes "manual";
  source_id = none;
  note = none;
  metadata = end;
}

abbrev pub gift : PromoCode
gift = record {
  id = 6;
  code = codes "GIFT";
  reward_type = codes "balance_credit";
  reward_value = pos 500;
  reward_currency = codes "USD";
  plan_code = none;
  duration_days = none;
  max_redemptions = some (pos 2);
  per_org_limit = pos 1;
  redeemed_count = 1;
  is_active = true;
  expires_at = none;
}

abbrev pub topup : PaymentInvoice
topup = record {
  id = 9;
  organization_id = 3;
  created_by_user_id = some 1;
  provider = codes "cryptobot";
  external_invoice_id = some (codes "77");
  invoice_type = codes "balance_topup";
  status = codes "active";
  amount = pos 1_000;
  asset = codes "USDT";
  pay_url = [];
  bot_invoice_url = [];
  paid_asset = none;
  paid_amount = none;
  paid_usd_amount = none;
  expires_at = none;
  paid_at = none;
  metadata = end;
}

abbrev pub db : Db
db = record {
  plans = free ∷ pro ∷ [];
  subscriptions = over ∷ [];
  next_subscription = 5;
  ledger = paid_in ∷ [];
  events = [];
  webhooks = [];
  promos = gift ∷ [];
  next_promo = 7;
  redemptions = [];
  invoices = topup ∷ [];
}

pub db-IsValid : IsValid db
db-IsValid = record {
  one_active = λ org. ground arith;
  unique_id = λ i. ground arith;
  numbered = (omega arith, tt);
  amounts = (omega arith, tt);
}

abbrev isoformat : ℕ → Text
isoformat t = show_nat t

reconcile_subscription_lem_example :
    (a : RenewalAction) × ((reconcile_subscription isoformat 3 5_000 db).0 ≡ ok a)
    × Reconciled isoformat 3 5_000 db (reconcile_subscription isoformat 3 5_000 db).1
reconcile_subscription_lem_example = reconcile_subscription_lem isoformat 3 5_000 db db-IsValid

switch_subscription_plan_lem_example :
    let (r, d') = switch_subscription_plan 3 (codes "free") none true 5_000 db in
    ((changed : Bool) × (plan : Plan) × (r ≡ ok changed)
      × (resolve_plan (codes "free") db ≡ some plan)
      × IsValid d'
      × OnPlan 3 plan.id d')
    ⊎ ((r ≡ err Error.plan_not_found) × (resolve_plan (codes "free") db ≡ none) × (d' ≡ db))
switch_subscription_plan_lem_example =
    switch_subscription_plan_lem 3 (codes "free") none true 5_000 db db-IsValid

found_pro : resolve_plan (codes "full") db ≡ some pro
unfolding resolve_plan normalize_plan_code text_eq strip lower
found_pro = refl

switch_subscription_plan_paid_example :
    let d' = (switch_subscription_plan 3 (codes "full") (some 30) false 5_000 db).1 in
    (s : Subscription) × (t : ℕ) × (get_active_subscription 3 d' ≡ some s)
    × (normalize s.current_period_end ≡ some t)
    × (5_000 + 30 * day ≤ t)
switch_subscription_plan_paid_example =
    switch_subscription_plan_paid 3 (codes "full") 30 false 5_000 db pro db-IsValid found_pro
      (omega arith) refl

abbrev withdrawal : NewEntry
withdrawal = record {
  organization_id = 3;
  entry_type = codes " Debit";
  amount = pos 700;
  source_type = codes "manual";
  source_id = none;
  currency = codes "usd";
  created_by_user_id = none;
  note = none;
  metadata = end;
}

add_entry_lem_example :
    let (r, d') = add_entry withdrawal db in
    Posted withdrawal db r d' ⊎ ((x : Error) × (r ≡ err x) × (d' ≡ db) × IsRefused withdrawal)
add_entry_lem_example = add_entry_lem withdrawal db
