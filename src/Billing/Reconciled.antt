-- ===== src/Billing/Reconciled.antt =====
-- A renewal and a fall back to the free plan leave a state that is reconciled.
use balance_tracker.Prelude.{
  ℕ, ◌<◌, ◌≡◌, refl, inl, inr, ◌⊎◌, true, false, Option, none, some, ◌∷◌, arith, Bool-cases,
  if◌then◌else◌,
}
use balance_tracker.Prelude.Int.{ℤ, pos, ◌≤ℤ◌, leb_ℤ}
use balance_tracker.Prelude.Text.{Text, codes}
use balance_tracker.Clock.{aware, normalize}
use balance_tracker.Billing.Store.{
  ◌>>◌, modify, pure, Plan, Subscription, SubscriptionStatus, Db, ok,
}
use balance_tracker.Billing.Ledger.{has_source_entry, counted, get_balance}
use balance_tracker.Billing.Plans.{
  get_active_subscription, resolve_plan, add_billing_event, add_subscription, update_subscription,
  set_status, next_period_end,
}
use balance_tracker.Billing.Renewal.{
  unchanged, free_plan_missing, downgraded, renewed, renewal_source, charge, extend, expired_event,
  renew, downgrade, settle_period, reconcile_subscription,
}
use balance_tracker.Billing.Invariant.{
  IsValid, same_tables-IsValid, add_subscription-IsValid, retired_none_active,
}
use balance_tracker.Billing.SwitchLaws.{
  added_active, extended-IsValid, extended_active, retired-IsValid,
}
use balance_tracker.Billing.ChargeLaws.{
  bind_ok, charged_entry, charge_lem, renewed_end_later, debited_solvent, get_balance-posted,
  event-IsValid, event_active, event_balance, update_balance, added_balance,
}

module _ (isoformat : ℕ → Text) (org now : ℕ) where
  abbrev pub usd : Db → ℤ
  usd d = get_balance org (codes "USD") d

  -- The state that a reconciliation leaves.
  pub record Reconciled (d d' : Db) : Type 0 where
    pub valid : IsValid d'
    pub solvent : (pos 0 ≤ℤ usd d') ⊎ (usd d' ≡ usd d)
    pub again : (reconcile_subscription isoformat org now d').1 ≡ d'

  -- A period that has not ended, or has no end.
  abbrev IsAhead : Option ℕ → Type 0
  IsAhead none = Unit
  IsAhead (some t) = now < t

  pub reconcile_found :
      (c : Subscription) (d : Db)
      → get_active_subscription org d ≡ some c
      → reconcile_subscription isoformat org now d
        ≡ settle_period isoformat org c (normalize c.current_period_end) now d
  unfolding reconcile_subscription
  reconcile_found c d h = rw (h, reconcile_subscription)

  settle_period_ahead :
      (c : Subscription) (p : Option ℕ) (d : Db)
      → IsAhead p
      → settle_period isoformat org c p now d ≡ (ok unchanged, d)
  unfolding settle_period
  settle_period_ahead c none d h = refl
  settle_period_ahead c (some t) d h = ground arith

  ahead_again :
      (c : Subscription) (d : Db)
      → get_active_subscription org d ≡ some c
      → IsAhead (normalize c.current_period_end)
      → (reconcile_subscription isoformat org now d).1 ≡ d
  ahead_again c d h a =
      rw (reconcile_found c d h, settle_period_ahead c (normalize c.current_period_end) d a)

  module _ (plan : Plan) (c : Subscription) (period_end : ℕ) (d : Db) (v : IsValid d)
      (found : get_active_subscription org d ≡ some c)
      (price : leb_ℤ plan.price_monthly (pos 0) ≡ false) where
    abbrev pub charged : Db
    charged =
        if has_source_entry org (codes "subscription_renewal")
          (renewal_source isoformat c.id period_end) d
        then d
        else record d { ledger = charged_entry isoformat org plan c period_end ∷ d.ledger }

    charged-IsValid : IsValid charged
    charged-IsValid =
        elim (Bool-cases (
          has_source_entry org (codes "subscription_renewal")
            (renewal_source isoformat c.id period_end) d)) [
              | inl e ↦ rw e v
              | inr e ↦ rw e (same_tables-IsValid d _ refl refl (ground arith, v.amounts) v)
            ]

    charged_active : get_active_subscription org charged ≡ some c
    unfolding get_active_subscription
    charged_active =
        elim (Bool-cases (
          has_source_entry org (codes "subscription_renewal")
            (renewal_source isoformat c.id period_end) d)) [
              | inl e ↦ rw e found
              | inr e ↦ rw e found
            ]

    charged_solvent : leb_ℤ plan.price_monthly (usd d) ≡ true → pos 0 ≤ℤ usd charged
    charged_solvent enough =
        elim (Bool-cases (
          has_source_entry org (codes "subscription_renewal")
            (renewal_source isoformat c.id period_end) d)) [
              | inl e ↦ rw e above
              | inr e ↦
                  let entry = charged_entry isoformat org plan c period_end in
                  rw (e, get_balance-posted org (codes "USD") entry d)
                    (debited_solvent (counted org (codes "USD") entry) plan.price_monthly (usd d)
                      (ground arith) above)
            ]
      where
        above : pos 0 ≤ℤ usd d
        above = ground (arith, enough, price)

    pub renew_lem :
        renew isoformat org plan c period_end now d
        ≡ (ok (renewed plan.code), extend isoformat org plan c period_end now charged)
    unfolding renew
    renew_lem =
        bind_ok (charge isoformat org plan c period_end)
          (λ u. modify (extend isoformat org plan c period_end now) >> pure (renewed plan.code)) d
          charged tt (charge_lem isoformat org plan c period_end d price)

    pub extend-Reconciled :
        leb_ℤ plan.price_monthly (usd d) ≡ true
        → Reconciled d (extend isoformat org plan c period_end now charged)
    unfolding extend
    extend-Reconciled enough =
        let t = next_period_end (some (aware period_end)) now none in
        let (p, e, l) = renewed_end_later (some (aware period_end)) now in
        let v₁ = extended-IsValid org now t charged c charged-IsValid charged_active in
        let a = extended_active org now t charged c charged-IsValid charged_active in
        record {
          valid = event-IsValid _ _ v₁;
          solvent = inl (
              rw (event_balance org (codes "USD"), update_balance org (codes "USD"))
                (charged_solvent enough));
          again =
              ahead_again (record c { current_period_end = some t; updated_at = now }) _
                (rw (event_active org _ _) a) (rw e l);
        }

    pub downgrade_free :
        (free : Plan)
        → resolve_plan (codes "free") d ≡ some free
        → downgrade isoformat org plan c period_end now (usd d) d ≡ (
          ok downgraded,
          add_billing_event (expired_event isoformat org plan c period_end (usd d)) (
              add_subscription org free.id none now
                (update_subscription c.id (set_status SubscriptionStatus.expired) now d)),
        )
    unfolding downgrade
    downgrade_free free e = rw (e, downgrade)

    pub downgrade_missing :
        resolve_plan (codes "free") d ≡ none
        → downgrade isoformat org plan c period_end now (usd d) d ≡ (ok free_plan_missing, d)
    unfolding downgrade
    downgrade_missing e = rw (e, downgrade)

    pub downgrade-Reconciled :
        (free : Plan)
        → resolve_plan (codes "free") d ≡ some free
        → Reconciled d (downgrade isoformat org plan c period_end now (usd d) d).1
    downgrade-Reconciled free e =
        let d₁ = update_subscription c.id (set_status SubscriptionStatus.expired) now d in
        let v₁ = retired-IsValid org now SubscriptionStatus.expired d c v (λ o s. ground arith) in
        let free_slot = retired_none_active org now SubscriptionStatus.expired d c v refl found in
        let v₂ = add_subscription-IsValid org free.id none now d₁ v₁ free_slot in
        let a = added_active org free.id none now d₁ v₁ free_slot in
        rw (downgrade_free free e) (record {
          valid = event-IsValid _ _ v₂;
          solvent = inr (
              rw
                (
                  event_balance org (codes "USD"),
                  added_balance org (codes "USD"),
                  update_balance org (codes "USD"),
                )
                refl);
          again =
              ahead_again
                (record {
                  id = d₁.next_subscription;
                  organization_id = org;
                  plan_id = free.id;
                  status = SubscriptionStatus.active;
                  current_period_end = none;
                  updated_at = now;
                })
                _ (rw (event_active org _ _) a) tt;
        })
