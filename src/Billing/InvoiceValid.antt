-- ===== src/Billing/InvoiceValid.antt =====
-- The messages of the provider keep the tables valid.
use balance_tracker.Prelude.{ℕ, refl, inl, inr, Bool, false, Option, none, some, Bool-cases}
use balance_tracker.Prelude.Int.{ℤ}
use balance_tracker.Prelude.Text.{Text, codes, text_eq}
use balance_tracker.Clock.{Datetime}
use balance_tracker.Json.{Json, Fields, get}
use balance_tracker.SyncJob.Key.{show_nat}
use balance_tracker.Billing.Store.{PaymentInvoice, LedgerEntry, Db, Result, ok, err}
use balance_tracker.Billing.Ledger.{add_entry, has_source_entry}
use balance_tracker.Billing.Plans.{
  add_billing_event, has_billing_event, monthly_period_days, switch_subscription_plan,
}
use balance_tracker.Billing.Invoice.{
  safe_float, extract_plan_code, save_invoice, paid_event, topup_entry, plan_paid, pay_plan,
  topup_paid, pay_topup, settle_paid, read_payment, read_rest, apply_read, apply_rate,
  apply_invoice_payload,
}
use balance_tracker.Billing.Invariant.{IsValid, same_tables-IsValid}
use balance_tracker.Billing.PromoFrame.{switch-Kept, entry-Kept}

event-IsValid :
    (i : PaymentInvoice) (payload : Fields) (d : Db)
    → IsValid d
    → IsValid (add_billing_event (paid_event i payload) d)
event-IsValid i payload d v = same_tables-IsValid d _ refl refl v.amounts v

save-IsValid : (i : PaymentInvoice) (d : Db) → IsValid d → IsValid (save_invoice i d)
save-IsValid i d v = same_tables-IsValid d _ refl refl v.amounts v

plan_paid-IsValid :
    (i : PaymentInvoice) (payload : Fields) (code : Text) (r : Result Bool) (d : Db)
    → IsValid d
    → IsValid (plan_paid i payload code r d).1
unfolding plan_paid
plan_paid-IsValid i payload code (err e) d v = v
plan_paid-IsValid i payload code (ok b) d v = event-IsValid i _ d v

topup_paid-IsValid :
    (i : PaymentInvoice) (payload : Fields) (r : Result LedgerEntry) (d : Db)
    → IsValid d
    → IsValid (topup_paid i payload r d).1
unfolding topup_paid
topup_paid-IsValid i payload (err e) d v = v
topup_paid-IsValid i payload (ok b) d v = event-IsValid i payload d v

module _ (i : PaymentInvoice) (payload : Fields) (now : ℕ) where
  pay_plan-IsValid : (o : Option Text) (d : Db) → IsValid d → IsValid (pay_plan i payload now o d).1
  unfolding pay_plan
  pay_plan-IsValid none d v = v
  pay_plan-IsValid (some c) d v =
      let x = switch_subscription_plan i.organization_id c (some monthly_period_days) false now d in
      plan_paid-IsValid i payload c x.0 x.1
        ((switch-Kept i.organization_id c (some monthly_period_days) false now d).valid v)

  pay_topup-IsValid : (d : Db) → IsValid d → IsValid (pay_topup i payload d).1
  unfolding pay_topup
  pay_topup-IsValid d v =
      elim (Bool-cases (has_source_entry i.organization_id (codes "invoice") (show_nat i.id) d)) [
        | inl e ↦ rw e (event-IsValid i payload d v)
        | inr e ↦
            let x = add_entry (topup_entry i) d in
            rw e (topup_paid-IsValid i payload x.0 x.1 ((entry-Kept (topup_entry i) d).valid v))
      ]

  settle_paid-IsValid : (d : Db) → IsValid d → IsValid (settle_paid i payload now d).1
  unfolding settle_paid
  settle_paid-IsValid d v =
      elim (Bool-cases (
        has_billing_event i.organization_id (codes "cryptobot") i.external_invoice_id
          (codes "payment.invoice_paid") d)) [
            | inl e ↦ rw e v
            | inr e ↦ elim (Bool-cases (text_eq i.invoice_type (codes "plan_purchase"))) [
              | inl t ↦ rw (e, t) (pay_plan-IsValid (extract_plan_code i) d v)
              | inr t ↦ rw (e, t) (pay_topup-IsValid d v)
            ]
          ]

module _ (str : Json → Text) (float_of : Json → Option ℤ) (product : ℤ → ℤ → ℤ)
    (fromisoformat : Text → Option Datetime) (default_asset : Text) where
  read-IsValid :
      (j : PaymentInvoice) (payload : Fields) (now : ℕ) (d : Db)
      → IsValid d
      → IsValid (apply_read str float_of product fromisoformat default_asset j payload now d).1
  unfolding apply_read
  read-IsValid j payload now d v = elim (Bool-cases (text_eq j.status (codes "paid"))) [
    | inl e ↦ rw e (settle_paid-IsValid j payload now _ (save-IsValid j d v))
    | inr e ↦ rw e (save-IsValid j d v)
  ]

  rate-IsValid :
      (j : PaymentInvoice) (payload : Fields) (now : ℕ) (o : Option ℤ) (d : Db)
      → IsValid d
      → IsValid (apply_rate str float_of product fromisoformat default_asset j payload now o d).1
  unfolding apply_rate
  rate-IsValid j payload now none d v = save-IsValid j d v
  rate-IsValid j payload now (some rate) d v =
      read-IsValid (read_rest str float_of product fromisoformat default_asset j payload rate)
        payload now d v

  -- A message about an invoice, whether it is applied or raises, keeps valid tables valid: among other
  -- things one active subscription at most for each organisation, and positive ledger amounts.
  pub apply_invoice_payload-IsValid :
      (i : PaymentInvoice) (payload : Fields) (now : ℕ) (d : Db)
      → IsValid d
      → IsValid
          (apply_invoice_payload str float_of product fromisoformat default_asset i payload now d).1
  unfolding apply_invoice_payload
  apply_invoice_payload-IsValid i payload now d v =
      rate-IsValid (read_payment str float_of product fromisoformat default_asset i payload) payload
        now (safe_float float_of (get (codes "paid_usd_rate") payload)) d v
