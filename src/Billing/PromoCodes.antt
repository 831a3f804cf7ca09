-- ===== src/Billing/PromoCodes.antt =====
-- `PromoService.create_promo_code` and `list_promo_codes`.
use balance_tracker.Prelude.{
  ℕ, ◌+◌, max, min, Bool, true, false, ◌&&◌, not, Option, none, some, List, ◌∷◌, if◌then◌else◌,
}
use balance_tracker.Prelude.Lists.{any, take}
use balance_tracker.Prelude.Int.{ℤ, pos}
use balance_tracker.Prelude.Text.{Text, codes, text_eq, strip, lower, upper, is_empty}
use balance_tracker.Clock.{Datetime}
use balance_tracker.Billing.Store.{PromoCode, Db, ok, err, Action, Error}
use balance_tracker.Billing.Plans.{is_plan}
use balance_tracker.Billing.Promo.{normalize_code, has_code, at_least_one}

-- The arguments of `create_promo_code`.
pub record PromoRequest : Type 0 where
  pub code : Text
  pub reward_type : Text
  pub reward_value : ℤ
  pub reward_currency : Text
  pub plan_code : Text
  pub duration_days : Option ℤ
  pub max_redemptions : Option ℤ
  pub per_org_limit : ℤ
  pub expires_at : Option Datetime

-- `(plan_code or "").strip().lower() or None`
abbrev pub normalized_plan : Text → Option Text
normalized_plan raw = let s = lower (strip raw) in if is_empty s then none else some s

unfoldable pub new_promo : PromoRequest → ℕ → PromoCode
new_promo r id = record {
  id = id;
  code = normalize_code r.code;
  reward_type = lower (strip r.reward_type);
  reward_value = r.reward_value;
  reward_currency = upper (if is_empty r.reward_currency then codes "USD" else r.reward_currency);
  plan_code = normalized_plan r.plan_code;
  duration_days = r.duration_days;
  max_redemptions = r.max_redemptions;
  per_org_limit = pos (at_least_one r.per_org_limit);
  redeemed_count = 0;
  is_active = true;
  expires_at = r.expires_at;
}

-- Whether a code that upgrades a plan names one that is not there.
unfoldable pub lacks_plan : PromoCode → Db → Bool
lacks_plan p d = elim p.plan_code [
  | none ↦ false
  | some c ↦ text_eq p.reward_type (codes "plan_upgrade") && not (any (is_plan c) d.plans)
]

-- A code that exists is refused by the unique index.
unfoldable pub create_promo_code : PromoRequest → Action PromoCode
create_promo_code r d =
    let p = new_promo r d.next_promo in
    if is_empty p.code
    then (err Error.promo_empty, d)
    else if lacks_plan p d
    then (err Error.promo_plan_unknown, d)
    else if any (has_code p.code) d.promos
    then (err Error.promo_exists, d)
    else (ok p, record d { promos = p ∷ d.promos; next_promo = d.next_promo + 1 })

-- The newest codes stand first in the table.
unfoldable pub list_promo_codes : ℕ → Db → List PromoCode
list_promo_codes limit d = take (max 1 (min limit 100)) d.promos
