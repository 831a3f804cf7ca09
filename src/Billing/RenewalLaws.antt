-- ===== src/Billing/RenewalLaws.antt =====
-- Reconciling a subscription.
use balance_tracker.Prelude.{
  ℕ, ◌≡◌, refl, ap, ◌∙◌, inl, inr, Option, none, some, ◌==◌, ltb, Bool-cases, Option-cases,
}
use balance_tracker.Prelude.Lists.{find?}
use balance_tracker.Prelude.Int.{pos, leb_ℤ}
use balance_tracker.Prelude.Text.{Text, codes}
use balance_tracker.Clock.{normalize}
use balance_tracker.Billing.Store.{Plan, Subscription, Db, Result, ok}
use balance_tracker.Billing.Ledger.{get_balance}
use balance_tracker.Billing.Plans.{get_active_subscription, resolve_plan}
use balance_tracker.Billing.Renewal.{
  RenewalAction, missing, unchanged, missing_plan, free_plan_missing, downgraded, renewed,
  settle_plan, settle_period, reconcile_subscription,
}
use balance_tracker.Billing.Invariant.{IsValid}
use balance_tracker.Billing.Reconciled.{
  Reconciled, reconcile_found, renew_lem, extend-Reconciled, downgrade_free, downgrade_missing,
  downgrade-Reconciled,
}

module _ (isoformat : ℕ → Text) (org now : ℕ) where
  abbrev Settled : Db → Result RenewalAction × Db → Type 0
  Settled d p = (a : RenewalAction) × (p.0 ≡ ok a) × Reconciled isoformat org now d p.1

  idle :
      (a : RenewalAction) (d : Db) (p : Result RenewalAction × Db)
      → IsValid d
      → reconcile_subscription isoformat org now d ≡ p
      → p ≡ (ok a, d)
      → Settled d p
  idle a d p v h e =
      rw e (a, refl, record { valid = v; solvent = inr refl; again = ap (λ x. x.1) (h ∙ e) })

  module _ (c : Subscription) (d : Db) (v : IsValid d)
      (found : get_active_subscription org d ≡ some c) where
    due_plan :
        (period_end : ℕ) (o : Option Plan)
        → reconcile_subscription isoformat org now d
          ≡ settle_plan isoformat org o c period_end now d
        → Settled d (settle_plan isoformat org o c period_end now d)
    unfolding settle_plan
    due_plan period_end none h = idle missing_plan d _ v h refl
    due_plan period_end (some plan) h = elim (Bool-cases (leb_ℤ plan.price_monthly (pos 0))) [
      | inl costless ↦ idle unchanged d _ v h (rw costless refl)
      | inr price ↦ elim (Bool-cases (leb_ℤ plan.price_monthly (get_balance org (codes "USD") d))) [
        | inl enough ↦
            rw (price, enough, renew_lem isoformat org now plan c period_end d v found price)
              (
                renewed plan.code,
                refl,
                extend-Reconciled isoformat org now plan c period_end d v found price enough,
              )
        | inr short ↦ elim (Option-cases (resolve_plan (codes "free") d)) [
          | inl e ↦ idle free_plan_missing d _ v h (
              rw (price, short)
                (downgrade_missing isoformat org now plan c period_end d v found price e))
          | inr (free, e) ↦
              rw (price, short)
                (
                  downgraded,
                  ap (λ x. x.0)
                      (downgrade_free isoformat org now plan c period_end d v found price free e),
                  downgrade-Reconciled isoformat org now plan c period_end d v found price free e,
                )
        ]
      ]
    ]

    due_period :
        (o : Option ℕ)
        → reconcile_subscription isoformat org now d ≡ settle_period isoformat org c o now d
        → Settled d (settle_period isoformat org c o now d)
    unfolding settle_period
    due_period none h = idle unchanged d _ v h refl
    due_period (some t) h = elim (Bool-cases (ltb now t)) [
      | inl early ↦ idle unchanged d _ v h (rw early refl)
      | inr due ↦
          let plan = find? (λ (p : Plan). p.id == c.plan_id) d.plans in
          let s = due_plan t plan (h ∙ rw due refl) in rw due s
    ]

  -- From valid tables, reconciling a subscription returns, the tables stay valid, the organisation's
  -- USD balance is at least 0 afterwards or as it was, and reconciling again at the same time changes
  -- nothing.
  pub reconcile_subscription_lem :
      (d : Db)
      → IsValid d
      → (a : RenewalAction) × ((reconcile_subscription isoformat org now d).0 ≡ ok a)
        × Reconciled isoformat org now d (reconcile_subscription isoformat org now d).1
  unfolding reconcile_subscription
  reconcile_subscription_lem d v = elim (Option-cases (get_active_subscription org d)) [
    | inl e ↦ idle missing d _ v refl (rw (e, reconcile_subscription) refl)
    | inr (c, e) ↦
        let s =
          due_period c d v e (normalize c.current_period_end)
            (reconcile_found isoformat org now c d e) in
        rw (e, reconcile_subscription) s
  ]
