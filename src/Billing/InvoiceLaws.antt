-- ===== src/Billing/InvoiceLaws.antt =====
-- What a paid invoice does, and that it does it once.
use balance_tracker.Prelude.{
  ℕ, ◌≡◌, refl, inl, inr, Bool, true, false, Option, none, some, ==_refl, Bool-cases,
}
use balance_tracker.Prelude.Text.{Text, codes, text_eq, text_eq_refl, is_empty}
use balance_tracker.Json.{Fields}
use balance_tracker.SyncJob.Key.{show_nat}
use balance_tracker.Billing.Store.{PaymentInvoice, LedgerEntry, Db, Result, ok, err}
use balance_tracker.Billing.Ledger.{add_entry, has_source_entry}
use balance_tracker.Billing.Plans.{
  add_billing_event, has_billing_event, monthly_period_days, switch_subscription_plan,
}
use balance_tracker.Billing.Invoice.{
  extract_plan_code, paid_event, topup_entry, plan_paid, pay_plan, topup_paid, pay_topup,
  settle_paid,
}

-- The payment of the organisation's invoice with the provider's number is recorded.
abbrev pub Recorded : ℕ → Text → Db → Type 0
Recorded org k d =
    has_billing_event org (codes "cryptobot") (some k) (codes "payment.invoice_paid") d ≡ true

-- The event of a paid invoice records it.
pub event_Recorded :
    (i : PaymentInvoice) (k : Text) (payload : Fields) (d : Db)
    → i.external_invoice_id ≡ some k
    → is_empty k ≡ false
    → Recorded i.organization_id k (add_billing_event (paid_event i payload) d)
unfolding has_billing_event
event_Recorded i k payload d h full =
    rw
      (
        full,
        h,
        ==_refl i.organization_id,
        text_eq_refl (codes "cryptobot"),
        text_eq_refl k,
        text_eq_refl (codes "payment.invoice_paid"),
      )
      refl

module _ (i : PaymentInvoice) (k : Text) (payload : Fields) (now : ℕ)
    (h : i.external_invoice_id ≡ some k) (full : is_empty k ≡ false) where
  plan_paid-Recorded :
      (code : Text) (r : Result Bool) (d : Db)
      → (plan_paid i payload code r d).0 ≡ ok tt
      → Recorded i.organization_id k (plan_paid i payload code r d).1
  unfolding plan_paid
  plan_paid-Recorded code (err e) d q = cc
  plan_paid-Recorded code (ok b) d q = event_Recorded i k _ d h full

  topup_paid-Recorded :
      (r : Result LedgerEntry) (d : Db)
      → (topup_paid i payload r d).0 ≡ ok tt
      → Recorded i.organization_id k (topup_paid i payload r d).1
  unfolding topup_paid
  topup_paid-Recorded (err e) d q = cc
  topup_paid-Recorded (ok b) d q = event_Recorded i k payload d h full

  pay_plan-Recorded :
      (o : Option Text) (d : Db)
      → (pay_plan i payload now o d).0 ≡ ok tt
      → Recorded i.organization_id k (pay_plan i payload now o d).1
  unfolding pay_plan
  pay_plan-Recorded none d q = cc
  pay_plan-Recorded (some c) d q =
      let x = switch_subscription_plan i.organization_id c (some monthly_period_days) false now d in
      plan_paid-Recorded c x.0 x.1 q

  pay_topup-Recorded :
      (d : Db)
      → (pay_topup i payload d).0 ≡ ok tt
      → Recorded i.organization_id k (pay_topup i payload d).1
  unfolding pay_topup
  pay_topup-Recorded d q =
      elim (Bool-cases (has_source_entry i.organization_id (codes "invoice") (show_nat i.id) d)) [
        | inl e ↦ rw e (event_Recorded i k payload d h full)
        | inr e ↦
            let x = add_entry (topup_entry i) d in
            let p = topup_paid-Recorded x.0 x.1 (rw e at q) in rw e p
      ]

  -- A settlement that returned leaves the payment recorded.
  pub settle_paid-Recorded :
      (d : Db)
      → (settle_paid i payload now d).0 ≡ ok tt
      → Recorded i.organization_id k (settle_paid i payload now d).1
  unfolding settle_paid
  settle_paid-Recorded d q =
      elim (Bool-cases (
        has_billing_event i.organization_id (codes "cryptobot") i.external_invoice_id
          (codes "payment.invoice_paid") d)) [
            | inl e ↦ let e' = (rw h at e) in rw e e'
            | inr e ↦ elim (Bool-cases (text_eq i.invoice_type (codes "plan_purchase"))) [
              | inl t ↦
                  let p = pay_plan-Recorded (extract_plan_code i) d (rw (e, t) at q) in rw (e, t) p
              | inr t ↦ let p = pay_topup-Recorded d (rw (e, t) at q) in rw (e, t) p
            ]
          ]

  -- A payment that is recorded is not settled again.
  pub settle_paid_again :
      (d : Db) → Recorded i.organization_id k d → settle_paid i payload now d ≡ (ok tt, d)
  unfolding settle_paid
  settle_paid_again d e = rw (h, e) refl
