-- ===== src/Billing/PromoFrame.antt =====
-- A reward leaves the codes and their redemptions alone, and valid tables valid.
use balance_tracker.Prelude.{
  ℕ, ◌≡◌, refl, ◌∙◌, inl, inr, Bool, true, ◌&&◌, Option, none, some, ◌==◌, ltb, or_else, Bool-cases,
  Option-cases,
}
use balance_tracker.Prelude.Int.{ℤ, pos, negsuc, ltb_ℤ}
use balance_tracker.Prelude.Text.{Text, codes, text_eq}
use balance_tracker.Clock.{aware}
use balance_tracker.Billing.Store.{Plan, Subscription, PromoCode, Db, LedgerEntry, Result, ok, err}
use balance_tracker.Billing.Ledger.{NewEntry, add_entry}
use balance_tracker.Billing.Plans.{
  get_active_subscription, resolve_plan, switch_current, switch_subscription_plan,
}
use balance_tracker.Billing.Promo.{
  given, promo_credit, extend_active_subscription_period, extend_for, upgraded, credited, upgrade,
  reward, add_days, at_least_one,
}
use balance_tracker.Billing.Invariant.{IsValid, same_tables-IsValid}
use balance_tracker.Billing.SwitchLaws.{extended-IsValid, switch_subscription_plan_lem}
use balance_tracker.Billing.LedgerLaws.{add_entry_cases}

-- A step that keeps the codes and their redemptions, and valid tables valid.
pub record Kept (d d' : Db) : Type 0 where
  pub promos : d'.promos ≡ d.promos
  pub redemptions : d'.redemptions ≡ d.redemptions
  pub valid : IsValid d → IsValid d'

pub Kept-same : (d : Db) → Kept d d
Kept-same d = record { promos = refl; redemptions = refl; valid = λ v. v }

switch_current-Kept :
    (plan : Plan) (o : Option Subscription) (org : ℕ) (days : Option ℕ) (preserve : Bool) (now : ℕ)
    (d : Db)
    → let d' = (switch_current plan o org days preserve now d).1 in
      (d'.promos ≡ d.promos) × (d'.redemptions ≡ d.redemptions)
unfolding switch_current
switch_current-Kept plan none org days preserve now d = (refl, refl)
switch_current-Kept plan (some c) org days preserve now d =
    elim (Bool-cases (c.plan_id == plan.id)) [
      | inl same ↦ elim (Bool-cases (ltb 0 (or_else days 0) && ltb_ℤ (pos 0) plan.price_monthly)) [
        | inl e ↦ rw (same, e) (refl, refl)
        | inr e ↦ rw (same, e) (refl, refl)
      ]
      | inr other ↦ rw other (refl, refl)
    ]

module _ (org : ℕ) (plan_code : Text) (days : Option ℕ) (preserve : Bool) (now : ℕ) (d : Db) where
  switch_tables :
      let d' = (switch_subscription_plan org plan_code days preserve now d).1 in
      (d'.promos ≡ d.promos) × (d'.redemptions ≡ d.redemptions)
  unfolding switch_subscription_plan
  switch_tables = elim (Option-cases (resolve_plan plan_code d)) [
    | inl e ↦ rw (e, switch_subscription_plan) (refl, refl)
    | inr (plan, e) ↦
        rw (e, switch_subscription_plan)
          (switch_current-Kept plan (get_active_subscription org d) org days preserve now d)
  ]

  pub switch-Kept : Kept d (switch_subscription_plan org plan_code days preserve now d).1
  switch-Kept = record {
    promos = switch_tables.0;
    redemptions = switch_tables.1;
    valid = λ v. elim (switch_subscription_plan_lem org plan_code days preserve now d v) [
      | inl (_, _, _, _, w, _) ↦ w
      | inr (_, _, same) ↦ rw same v
    ];
  }

pub entry-Kept : (n : NewEntry) (d : Db) → Kept d (add_entry n d).1
entry-Kept n d = elim (add_entry_cases n d) [
  | inl (t, _, e, _, positive) ↦ rw e (record {
    promos = refl;
    redemptions = refl;
    valid = λ v. same_tables-IsValid d _ refl refl (positive, v.amounts) v;
  })
  | inr (_, _, e, _) ↦ rw e (Kept-same d)
]

extend-Kept :
    (org : ℕ) (days : ℤ) (now : ℕ) (d : Db)
    → Kept d (extend_active_subscription_period org days now d)
unfolding extend_active_subscription_period
extend-Kept org days now d = elim (Option-cases (get_active_subscription org d)) [
  | inl e ↦ rw (e, extend_active_subscription_period) (Kept-same d)
  | inr (c, e) ↦
      rw (e, extend_active_subscription_period)
        (record {
          promos = refl;
          redemptions = refl;
          valid = λ v.
              extended-IsValid org now
                (add_days (or_else c.current_period_end (aware now)) (at_least_one days)) d c v e;
        })
]

extend_for-Kept :
    (org : ℕ) (days : Option ℤ) (now : ℕ) (d : Db) → Kept d (extend_for org days now d)
unfolding extend_for
extend_for-Kept org none now d = Kept-same d
extend_for-Kept org (some (pos n)) now d = elim (Bool-cases (n == 0)) [
  | inl e ↦ rw e (Kept-same d)
  | inr e ↦ rw e (extend-Kept org (pos n) now d)
]
extend_for-Kept org (some (negsuc n)) now d = extend-Kept org (negsuc n) now d

pub Kept-trans : (a b c : Db) → Kept a b → Kept b c → Kept a c
Kept-trans a b c h k = record {
  promos = k.promos ∙ h.promos;
  redemptions = k.redemptions ∙ h.redemptions;
  valid = λ v. k.valid (h.valid v);
}

upgraded-Kept :
    (p : PromoCode) (org now : ℕ) (r : Result Bool) (d : Db) → Kept d (upgraded p org now r d).1
unfolding upgraded
upgraded-Kept p org now (err e) d = Kept-same d
upgraded-Kept p org now (ok changed) d = extend_for-Kept org p.duration_days now d

upgrade-Kept :
    (p : PromoCode) (org now : ℕ) (o : Option Text) (d : Db) → Kept d (upgrade p org now o d).1
unfolding upgrade
upgrade-Kept p org now none d = Kept-same d
upgrade-Kept p org now (some c) d =
    let x = switch_subscription_plan org c none true now d in
    Kept-trans d x.1 _ (switch-Kept org c none true now d) (upgraded-Kept p org now x.0 x.1)

credited-Kept : (p : PromoCode) (r : Result LedgerEntry) (d : Db) → Kept d (credited p r d).1
unfolding credited
credited-Kept p (err e) d = Kept-same d
credited-Kept p (ok _) d = Kept-same d

pub reward-Kept :
    (p : PromoCode) (org : ℕ) (user : Option ℕ) (now : ℕ) (d : Db)
    → Kept d (reward p org user now d).1
unfolding reward
reward-Kept p org user now d = elim (Bool-cases (text_eq p.reward_type (codes "balance_credit"))) [
  | inl e ↦
      let x = add_entry (promo_credit org user p) d in
      rw e (Kept-trans d x.1 _ (entry-Kept (promo_credit org user p) d) (credited-Kept p x.0 x.1))
  | inr e ↦ elim (Bool-cases (text_eq p.reward_type (codes "plan_upgrade"))) [
    | inl u ↦ rw (e, u) (upgrade-Kept p org now (given p.plan_code) d)
    | inr u ↦ rw (e, u) (Kept-same d)
  ]
]
