-- ===== src/Billing/SwitchLaws.antt =====
-- A switch of plan leaves one active subscription, on the plan that was asked for.
use balance_tracker.Prelude.{
  ℕ, zero, suc, ◌+◌, ◌*◌, ◌≤◌, ◌<◌, ◌≡◌, refl, inl, inr, Bool, true, false, ◌&&◌, Option, none,
  some, Memᴰ, arith, ◌==◌, ==_refl, ==_iff, ◌⊎◌, ltb, Bool-cases, Option-cases, or_else,
}
use balance_tracker.Prelude.UniqueRows.{mem-update_where}
use balance_tracker.Prelude.Lists.{count_if}
use balance_tracker.Prelude.Int.{pos, ltb_ℤ}
use balance_tracker.Prelude.Text.{Text}
use balance_tracker.Clock.{Datetime, normalize, day}
use balance_tracker.Billing.Store.{
  Plan, Subscription, SubscriptionStatus, Db, ok, err, Error, active_of, has_id,
}
use balance_tracker.Billing.Plans.{
  get_active_subscription, resolve_plan, add_subscription, update_subscription, set_status,
  set_period_end, next_period_end, period_start, switch_current, switch_subscription_plan,
}
use balance_tracker.Billing.Invariant.{
  IsValid, get_active_subscription_sound, get_active_subscription-none,
  get_active_subscription_unique, add_subscription-IsValid, update_subscription-IsValid,
  retired_none_active,
}

-- The organisation's active subscription is on the plan.
abbrev pub OnPlan : ℕ → ℕ → Db → Type 0
OnPlan org plan d =
    (s : Subscription) × (get_active_subscription org d ≡ some s) × (s.plan_id ≡ plan)

module _ (org plan : ℕ) (period_end : Option Datetime) (now : ℕ) (d : Db) (v : IsValid d)
    (free : count_if (active_of org) d.subscriptions ≡ 0) where
  pub added_active :
      get_active_subscription org (add_subscription org plan period_end now d)
      ≡ some (record {
        id = d.next_subscription;
        organization_id = org;
        plan_id = plan;
        status = SubscriptionStatus.active;
        current_period_end = period_end;
        updated_at = now;
      })
  added_active =
      get_active_subscription_unique org (add_subscription org plan period_end now d) _
        (add_subscription-IsValid org plan period_end now d v free) (rw (==_refl org))
        (Memᴰ.head refl)

  pub added-OnPlan : OnPlan org plan (add_subscription org plan period_end now d)
  added-OnPlan = (_, added_active, refl)

module _ (org now : ℕ) (t : Datetime) (d : Db) (c : Subscription) (v : IsValid d)
    (found : get_active_subscription org d ≡ some c) where
  pub extended-IsValid : IsValid (update_subscription c.id (set_period_end t) now d)
  extended-IsValid =
      update_subscription-IsValid c.id now d v (set_period_end t) (λ o s h. h) (λ s. refl)

  -- The subscription that was extended is still the active one.
  pub extended_active :
      get_active_subscription org (update_subscription c.id (set_period_end t) now d)
      ≡ some (record c { current_period_end = some t; updated_at = now })
  extended_active =
      let (a, m) = get_active_subscription_sound org d c found in
      get_active_subscription_unique org (update_subscription c.id (set_period_end t) now d)
        (record c { current_period_end = some t; updated_at = now }) extended-IsValid a
        (mem-update_where (has_id c.id)
          (λ s. record s { current_period_end = some t; updated_at = now }) c d.subscriptions
          (==_refl c.id) m)

module _ (org now : ℕ) (st : SubscriptionStatus) (d : Db) (c : Subscription) (v : IsValid d)
    (retired : (o : ℕ) (s : Subscription) → active_of o (set_status st s) ≡ false) where
  pub retired-IsValid : IsValid (update_subscription c.id (set_status st) now d)
  retired-IsValid =
      update_subscription-IsValid c.id now d v (set_status st) (λ o s h. cc (retired o s))
        (λ s. refl)

module _ (plan : Plan) (org : ℕ) (days : Option ℕ) (preserve : Bool) (now : ℕ) (d : Db)
    (v : IsValid d) where
  switch_new :
      (o : Option Subscription)
      → get_active_subscription org d ≡ o
      → let d' = (switch_current plan o org days preserve now d).1 in
        IsValid d' × OnPlan org plan.id d'
  unfolding switch_current
  switch_new none h =
      let free = get_active_subscription-none org d h in
      (add_subscription-IsValid org plan.id _ now d v free, added-OnPlan org plan.id _ now d v free)
  switch_new (some c) h = elim (Bool-cases (c.plan_id == plan.id)) [
    | inl same ↦ elim (Bool-cases (ltb 0 (or_else days 0) && ltb_ℤ (pos 0) plan.price_monthly)) [
      | inl longer ↦
          rw (same, longer)
            (
              extended-IsValid org now (next_period_end c.current_period_end now days) d c v h,
              (
                _,
                extended_active org now (next_period_end c.current_period_end now days) d c v h,
                (==_iff c.plan_id plan.id).0 same,
              ),
            )
      | inr no_longer ↦ rw (same, no_longer) (v, (c, h, (==_iff c.plan_id plan.id).0 same))
    ]
    | inr other ↦
        let d₁ = update_subscription c.id (set_status SubscriptionStatus.replaced) now d in
        let v₁ = retired-IsValid org now SubscriptionStatus.replaced d c v (λ o s. ground arith) in
        let free = retired_none_active org now SubscriptionStatus.replaced d c v refl h in
        rw other (
          add_subscription-IsValid org plan.id _ now d₁ v₁ free,
          added-OnPlan org plan.id _ now d₁ v₁ free,
        )
  ]

period_start_le : (base : Option ℕ) (now : ℕ) → now ≤ period_start base now
period_start_le none now = omega arith
period_start_le (some b) now = ground arith

-- From valid tables, a switch either returns, the tables are valid, and the organisation's active
-- subscription is on the plan that the code names, or it raises that the plan is not found, there is
-- no such plan, and nothing has changed.
pub switch_subscription_plan_lem :
    (org : ℕ) (plan_code : Text) (days : Option ℕ) (preserve : Bool) (now : ℕ) (d : Db)
    → IsValid d
    → let (r, d') = switch_subscription_plan org plan_code days preserve now d in
      ((changed : Bool) × (plan : Plan) × (r ≡ ok changed)
        × (resolve_plan plan_code d ≡ some plan)
        × IsValid d'
        × OnPlan org plan.id d')
      ⊎ ((r ≡ err Error.plan_not_found) × (resolve_plan plan_code d ≡ none) × (d' ≡ d))
unfolding switch_subscription_plan
switch_subscription_plan_lem org plan_code days preserve now d v =
    elim (Option-cases (resolve_plan plan_code d)) [
      | inl e ↦ rw (e, switch_subscription_plan) (inr (refl, refl, refl))
      | inr (plan, e) ↦
          let (a, b) =
            switch_new plan org days preserve now d v (get_active_subscription org d) refl in
          rw (e, switch_subscription_plan) (inl (_, plan, refl, refl, a, b))
    ]

next_period_end_lem :
    (base : Option Datetime) (now n : ℕ)
    → 0 < n
    → (t : ℕ) × (normalize (some (next_period_end base now (some n))) ≡ some t)
      × (now + n * day ≤ t)
unfolding next_period_end
next_period_end_lem base now zero h = elim h [ ]
next_period_end_lem base now (suc n) h = (
  period_start (normalize base) now + suc n * day,
  ground arith,
  omega (arith, period_start_le (normalize base) now),
)

module _ (plan : Plan) (org n : ℕ) (preserve : Bool) (now : ℕ) (d : Db) (v : IsValid d)
    (paid : 0 < n) (price : ltb_ℤ (pos 0) plan.price_monthly ≡ true) where
  abbrev Paid : Db → Type 0
  Paid d' =
      (s : Subscription) × (t : ℕ) × (get_active_subscription org d' ≡ some s)
      × (normalize s.current_period_end ≡ some t)
      × (now + n * day ≤ t)

  added-Paid :
      (e : Db)
      → IsValid e
      → count_if (active_of org) e.subscriptions ≡ 0
      → Paid (add_subscription org plan.id (some (next_period_end none now (some n))) now e)
  added-Paid e w free =
      let (t, a, b) = next_period_end_lem none now n paid in
      (
        record {
          id = e.next_subscription;
          organization_id = org;
          plan_id = plan.id;
          status = SubscriptionStatus.active;
          current_period_end = some (next_period_end none now (some n));
          updated_at = now;
        },
        t,
        added_active org plan.id _ now e w free,
        a,
        b,
      )

  extends : (ltb 0 n && ltb_ℤ (pos 0) plan.price_monthly) ≡ true
  extends = ground arith

  Paid-current :
      (o : Option Subscription)
      → get_active_subscription org d ≡ o
      → Paid (switch_current plan o org (some n) preserve now d).1
  unfolding switch_current
  Paid-current none h = rw extends (added-Paid d v (get_active_subscription-none org d h))
  Paid-current (some c) h = elim (Bool-cases (c.plan_id == plan.id)) [
    | inl same ↦
        let (t, a, b) = next_period_end_lem c.current_period_end now n paid in
        rw (same, extends)
          (
            _,
            t,
            extended_active org now (next_period_end c.current_period_end now (some n)) d c v h,
            a,
            b,
          )
    | inr other ↦
        let d₁ = update_subscription c.id (set_status SubscriptionStatus.replaced) now d in
        let v₁ = retired-IsValid org now SubscriptionStatus.replaced d c v (λ o s. ground arith) in
        rw (other, extends)
          (added-Paid d₁ v₁ (retired_none_active org now SubscriptionStatus.replaced d c v refl h))
  ]

-- From valid tables, a switch to a plan that is found and costs something, with a positive number of
-- paid days, leaves the organisation an active subscription that ends no sooner than these days from
-- now.
pub switch_subscription_plan_paid :
    (org : ℕ) (plan_code : Text) (n : ℕ) (preserve : Bool) (now : ℕ) (d : Db) (plan : Plan)
    → IsValid d
    → resolve_plan plan_code d ≡ some plan
    → 0 < n
    → ltb_ℤ (pos 0) plan.price_monthly ≡ true
    → let d' = (switch_subscription_plan org plan_code (some n) preserve now d).1 in
      (s : Subscription) × (t : ℕ) × (get_active_subscription org d' ≡ some s)
      × (normalize s.current_period_end ≡ some t)
      × (now + n * day ≤ t)
unfolding switch_subscription_plan
switch_subscription_plan_paid org plan_code n preserve now d plan v e h price =
    let p = Paid-current plan org n preserve now d v h price (get_active_subscription org d) refl in
    rw (e, switch_subscription_plan) p
