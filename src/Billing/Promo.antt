-- ===== src/Billing/Promo.antt =====
-- `PromoService`. `local_time` reads a `datetime` without a zone in the zone of the host, as
-- `astimezone` does. One instant stands for the calls of `now` within one request.
use balance_tracker.Prelude.{
  ℕ, ◌+◌, ◌*◌, max, Bool, true, false, ◌&&◌, not, Option, none, some, ◌∷◌, ◌++◌, ◌==◌, ltb, or_else,
  if◌then◌else◌,
}
use balance_tracker.Prelude.Lists.{any, find?, update_where}
use balance_tracker.Prelude.Int.{ℤ, pos, negsuc, leb_ℤ}
use balance_tracker.Prelude.Text.{Text, codes, text_eq, strip, upper, is_empty}
use balance_tracker.Clock.{Datetime, naive, aware, day}
use balance_tracker.Json.{Json, null, bool, int, text, Fields, end, field, put, text_or_null}
use balance_tracker.SyncJob.Key.{show_nat}
use balance_tracker.Billing.Store.{
  PromoCode, PromoRedemption, LedgerEntry, BillingEvent, Db, Result, ok, err, Action, Error,
}
use balance_tracker.Billing.Ledger.{NewEntry, add_entry}
use balance_tracker.Billing.Plans.{
  add_billing_event, get_active_subscription, set_period_end, switch_subscription_plan,
  update_subscription,
}
use balance_tracker.Billing.Renewal.{money}

-- `(raw or "").strip().upper()`
unfoldable pub normalize_code : Text → Text
normalize_code raw = upper (strip raw)

abbrev pub has_code : Text → PromoCode → Bool
has_code code p = text_eq code p.code

-- `none` where the text is absent or empty
abbrev pub given : Option Text → Option Text
given none = none
given (some s) = if is_empty s then none else some s

abbrev pub applied_to : ℕ → ℕ → PromoRedemption → Bool
applied_to promo org r =
    r.promo_code_id == promo && r.organization_id == org && text_eq (codes "applied") r.status

-- `max_redemptions is not None and redeemed_count >= max_redemptions`
unfoldable pub reaches : Option ℤ → ℕ → Bool
reaches none count = false
reaches (some m) count = leb_ℤ m (pos count)

unfoldable pub limit_reached : PromoCode → Bool
limit_reached p = reaches p.max_redemptions p.redeemed_count

int_or_null : Option ℤ → Json
int_or_null none = null
int_or_null (some i) = int i

unfoldable pub reward_snapshot : PromoCode → Fields
unfolding int_or_null
reward_snapshot p = field (codes "reward_type") (text p.reward_type) (
    field (codes "reward_value") (money p.reward_value) (
      field (codes "reward_currency") (text p.reward_currency) (
        field (codes "plan_code") (text_or_null p.plan_code)
          (field (codes "duration_days") (int_or_null p.duration_days) end))))

abbrev pub reward_currency : PromoCode → Text
reward_currency p = if is_empty p.reward_currency then codes "USD" else p.reward_currency

unfoldable pub promo_credit : ℕ → Option ℕ → PromoCode → NewEntry
promo_credit org user p = record {
  organization_id = org;
  entry_type = codes "credit";
  amount = p.reward_value;
  source_type = codes "promo";
  source_id = some (show_nat p.id);
  currency = reward_currency p;
  created_by_user_id = user;
  note = some (codes "Promo code " ++ p.code);
  metadata = reward_snapshot p;
}

-- `max(1, days)`
abbrev pub at_least_one : ℤ → ℕ
at_least_one (pos n) = max 1 n
at_least_one (negsuc n) = 1

abbrev pub add_days : Datetime → ℕ → Datetime
add_days (naive t) n = naive (t + n * day)
add_days (aware t) n = aware (t + n * day)

-- The base is the old end, also one that has passed.
unfoldable pub extend_active_subscription_period : ℕ → ℤ → ℕ → Db → Db
extend_active_subscription_period org days now d = elim (get_active_subscription org d) [
  | none ↦ d
  | some c ↦
      update_subscription c.id
        (set_period_end (add_days (or_else c.current_period_end (aware now)) (at_least_one days)))
        now d
]

-- `if promo.duration_days:`
unfoldable pub extend_for : ℕ → Option ℤ → ℕ → Db → Db
extend_for org none now d = d
extend_for org (some (pos n)) now d =
    if n == 0 then d else extend_active_subscription_period org (pos n) now d
extend_for org (some (negsuc n)) now d = extend_active_subscription_period org (negsuc n) now d

-- The reward of a plan, after `switch_subscription_plan` returned or raised.
unfoldable pub upgraded : PromoCode → ℕ → ℕ → Result Bool → Action Fields
upgraded p org now (err e) d = (err e, d)
upgraded p org now (ok changed) d = (
  ok (put (codes "subscription_changed") (bool changed) (reward_snapshot p)),
  extend_for org p.duration_days now d,
)

unfoldable pub credited : PromoCode → Result LedgerEntry → Action Fields
credited p (err e) d = (err e, d)
credited p (ok _) d = (ok (reward_snapshot p), d)

unfoldable pub upgrade : PromoCode → ℕ → ℕ → Option Text → Action Fields
upgrade p org now none d = (err Error.promo_plan_missing, d)
upgrade p org now (some plan_code) d =
    let (r, d') = switch_subscription_plan org plan_code none true now d in upgraded p org now r d'

-- What the code is worth, by `reward_type`.
unfoldable pub reward : PromoCode → ℕ → Option ℕ → ℕ → Action Fields
reward p org user now d =
    if text_eq p.reward_type (codes "balance_credit")
    then (let (r, d') = add_entry (promo_credit org user p) d in credited p r d')
    else if text_eq p.reward_type (codes "plan_upgrade")
    then upgrade p org now (given p.plan_code) d
    else (err Error.promo_type, d)

abbrev pub redemption_of : PromoCode → ℕ → Option ℕ → Fields → PromoRedemption
redemption_of p org user snapshot = record {
  promo_code_id = p.id;
  organization_id = org;
  user_id = user;
  status = codes "applied";
  reward_snapshot = snapshot;
}

abbrev pub redeemed_event : PromoCode → ℕ → Fields → BillingEvent
redeemed_event p org snapshot = record {
  organization_id = org;
  event_type = codes "promo.redeemed";
  provider = codes "promo";
  provider_event_id = some p.code;
  amount = p.reward_value;
  currency = reward_currency p;
  payload = snapshot;
}

abbrev pub same_promo : ℕ → PromoCode → Bool
same_promo i p = p.id == i

abbrev pub count_redemption : PromoCode → PromoCode
count_redemption p = record p { redeemed_count = p.redeemed_count + 1 }

-- The redemption, the counter and the event, if the reward was given.
unfoldable pub redeemed : PromoCode → ℕ → Option ℕ → Result Fields → Action PromoRedemption
redeemed p org user (err e) d = (err e, d)
redeemed p org user (ok snapshot) d = (
  ok (redemption_of p org user snapshot),
  add_billing_event (redeemed_event p org snapshot) (record d {
    promos = update_where (same_promo p.id) count_redemption d.promos;
    redemptions = redemption_of p org user snapshot ∷ d.redemptions;
  }),
)

module _ (local_time : ℕ → ℕ) where
  abbrev pub instant : Datetime → ℕ
  instant (naive t) = local_time t
  instant (aware t) = t

  unfoldable pub is_expired : PromoCode → ℕ → Bool
  is_expired p now = elim p.expires_at [ none ↦ false | some t ↦ ltb (instant t) now ]

  -- The checks on a code that was found, in their order.
  unfoldable pub refusal : PromoCode → ℕ → ℕ → Db → Option Error
  refusal p org now d =
      if not p.is_active
      then some Error.promo_not_found
      else if is_expired p now
      then some Error.promo_expired
      else if limit_reached p
      then some Error.promo_limit
      else if any (applied_to p.id org) d.redemptions
      then some Error.promo_applied
      else none

  unfoldable pub redeem_checked :
      PromoCode → ℕ → Option ℕ → ℕ → Option Error → Action PromoRedemption
  redeem_checked p org user now (some e) d = (err e, d)
  redeem_checked p org user now none d =
      let (r, d') = reward p org user now d in redeemed p org user r d'

  unfoldable pub redeem_found : Option PromoCode → ℕ → Option ℕ → ℕ → Action PromoRedemption
  redeem_found none org user now d = (err Error.promo_not_found, d)
  redeem_found (some p) org user now d = redeem_checked p org user now (refusal p org now d) d

  unfoldable pub redeem_code : ℕ → Option ℕ → Text → ℕ → Action PromoRedemption
  redeem_code org user raw_code now d =
      let code = normalize_code raw_code in
      if is_empty code
      then (err Error.promo_empty, d)
      else redeem_found (find? (has_code code) d.promos) org user now d
