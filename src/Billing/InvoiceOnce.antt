-- ===== src/Billing/InvoiceOnce.antt =====
-- A payment is settled once.
use balance_tracker.Prelude.{ℕ, ◌≡◌, refl, inl, inr, true, false, Option, none, some, Bool-cases}
use balance_tracker.Prelude.Int.{ℤ}
use balance_tracker.Prelude.Text.{Text, codes, text_eq, text_eq_refl, is_empty}
use balance_tracker.Clock.{Datetime}
use balance_tracker.Json.{Json, Fields, get}
use balance_tracker.Billing.Store.{PaymentInvoice, Db, ok}
use balance_tracker.Billing.Plans.{has_billing_event}
use balance_tracker.Billing.Invoice.{
  safe_float, save_invoice, read_payment, read_rest, apply_read, apply_rate, apply_invoice_payload,
}
use balance_tracker.Billing.InvoiceLaws.{Recorded, settle_paid-Recorded, settle_paid_again}

module _ (str : Json → Text) (float_of : Json → Option ℤ) (product : ℤ → ℤ → ℤ)
    (fromisoformat : Text → Option Datetime) (default_asset : Text) where
  -- The tables that a payment changes.
  abbrev SameAccounts : Db → Db → Type 0
  SameAccounts d e =
      (e.ledger ≡ d.ledger) × (e.subscriptions ≡ d.subscriptions) × (e.events ≡ d.events)

  read_again :
      (j : PaymentInvoice) (k : Text) (payload : Fields) (now : ℕ) (d : Db)
      → j.external_invoice_id ≡ some k
      → is_empty k ≡ false
      → Recorded j.organization_id k d
      → SameAccounts d
          (apply_read str float_of product fromisoformat default_asset j payload now d).1
  unfolding apply_read has_billing_event
  read_again j k payload now d h full r = elim (Bool-cases (text_eq j.status (codes "paid"))) [
    | inl e ↦
        rw (e, settle_paid_again j k payload now h full (save_invoice j d) r) (refl, refl, refl)
    | inr e ↦ rw e (refl, refl, refl)
  ]

  rate_again :
      (j : PaymentInvoice) (k : Text) (payload : Fields) (now : ℕ) (o : Option ℤ) (d : Db)
      → j.external_invoice_id ≡ some k
      → is_empty k ≡ false
      → Recorded j.organization_id k d
      → SameAccounts d
          (apply_rate str float_of product fromisoformat default_asset j payload now o d).1
  unfolding apply_rate read_rest
  rate_again j k payload now none d h full r = (refl, refl, refl)
  rate_again j k payload now (some rate) d h full r =
      read_again (read_rest str float_of product fromisoformat default_asset j payload rate) k
        payload now d h full r

  read_records :
      (j : PaymentInvoice) (k : Text) (payload : Fields) (now : ℕ) (d : Db)
      → j.external_invoice_id ≡ some k
      → is_empty k ≡ false
      → j.status ≡ codes "paid"
      → (apply_read str float_of product fromisoformat default_asset j payload now d).0 ≡ ok tt
      → Recorded j.organization_id k
          (apply_read str float_of product fromisoformat default_asset j payload now d).1
  unfolding apply_read
  read_records j k payload now d h full paid q =
      let e : text_eq j.status (codes "paid") ≡ true = rw paid (text_eq_refl (codes "paid")) in
      let p = settle_paid-Recorded j k payload now h full (save_invoice j d) (rw e at q) in rw e p

  rate_records :
      (j : PaymentInvoice) (k : Text) (payload : Fields) (now : ℕ) (o : Option ℤ) (d : Db)
      → j.external_invoice_id ≡ some k
      → is_empty k ≡ false
      → j.status ≡ codes "paid"
      → (apply_rate str float_of product fromisoformat default_asset j payload now o d).0 ≡ ok tt
      → Recorded j.organization_id k
          (apply_rate str float_of product fromisoformat default_asset j payload now o d).1
  unfolding apply_rate read_rest
  rate_records j k payload now none d h full paid q = cc
  rate_records j k payload now (some rate) d h full paid q =
      read_records (read_rest str float_of product fromisoformat default_asset j payload rate) k
        payload now d h full paid q

  -- A payment is settled once: after a message that says paid was applied to an invoice with a number
  -- of the provider, a further message about an invoice of that organisation with that number,
  -- whatever it says and whenever it comes, leaves the ledger, the subscriptions and the billing
  -- events as they are.
  pub apply_invoice_payload_once :
      (i i' : PaymentInvoice) (k : Text) (payload payload' : Fields) (now now' : ℕ) (d : Db)
      → i.external_invoice_id ≡ some k
      → is_empty k ≡ false
      → (read_payment str float_of product fromisoformat default_asset i payload).status
        ≡ codes "paid"
      → (apply_invoice_payload str float_of product fromisoformat default_asset i payload now d).0
        ≡ ok tt
      → i'.external_invoice_id ≡ some k
      → i'.organization_id ≡ i.organization_id
      → let d' =
          (apply_invoice_payload str float_of product fromisoformat default_asset i payload now
            d).1 in
        let d'' =
          (apply_invoice_payload str float_of product fromisoformat default_asset i' payload' now'
            d').1 in
        (d''.ledger ≡ d'.ledger) × (d''.subscriptions ≡ d'.subscriptions) × (d''.events ≡ d'.events)
  unfolding apply_invoice_payload read_payment
  apply_invoice_payload_once i i' k payload payload' now now' d h full paid q h' org =
      let r =
        rate_records (read_payment str float_of product fromisoformat default_asset i payload) k
          payload now (safe_float float_of (get (codes "paid_usd_rate") payload)) d h full paid q in
      rate_again (read_payment str float_of product fromisoformat default_asset i' payload') k
        payload' now' (safe_float float_of (get (codes "paid_usd_rate") payload')) _ h' full
        (rw org r)
