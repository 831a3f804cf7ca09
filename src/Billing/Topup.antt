-- ===== src/Billing/Topup.antt =====
-- A paid top-up is credited.
use balance_tracker.Prelude.{ℕ, ◌≡◌, refl, sym, ap, ◌∙◌, ◌∷◌, inl, inr, false, some, arith}
use balance_tracker.Prelude.Int.{pos, ◌+ℤ◌, ◌≤ℤ◌}
use balance_tracker.Prelude.Text.{Text, codes, text_eq, is_empty, strip, lower}
use balance_tracker.Json.{Fields}
use balance_tracker.SyncJob.Key.{show_nat}
use balance_tracker.Billing.Store.{PaymentInvoice, Db, ok, credit}
use balance_tracker.Billing.Ledger.{
  add_entry, has_source_entry, get_balance, entry_of, entry_type_of,
}
use balance_tracker.Billing.Plans.{has_billing_event}
use balance_tracker.Billing.Invoice.{topup_entry, topup_paid, pay_topup, settle_paid}
use balance_tracker.Billing.LedgerLaws.{add_entry_cases, total_own}
use balance_tracker.Billing.InvoiceLaws.{Recorded, event_Recorded}

credit_text : entry_type_of (codes "credit") ≡ some credit
unfolding entry_type_of text_eq strip lower
credit_text = refl

topup_steps :
    (i : PaymentInvoice) (k : Text) (payload : Fields) (now : ℕ) (d : Db)
    → i.external_invoice_id ≡ some k
    → text_eq i.invoice_type (codes "plan_purchase") ≡ false
    → has_billing_event i.organization_id
        (codes "cryptobot")
        (some k)
        (codes "payment.invoice_paid")
        d
      ≡ false
    → has_source_entry i.organization_id (codes "invoice") (show_nat i.id) d ≡ false
    → settle_paid i payload now d
      ≡ topup_paid i payload (add_entry (topup_entry i) d).0 (add_entry (topup_entry i) d).1
unfolding settle_paid pay_topup
topup_steps i k payload now d h kind fresh unposted = rw (h, fresh, kind, unposted) refl

-- A top-up's entry is posted, as a credit.
topup_posted :
    (i : PaymentInvoice) (d : Db)
    → pos 1 ≤ℤ i.amount
    → let (r, d') = add_entry (topup_entry i) d in
      (r ≡ ok (entry_of credit (topup_entry i)))
      × (get_balance i.organization_id (codes "USD") d'
          ≡ i.amount +ℤ get_balance i.organization_id (codes "USD") d)
unfolding get_balance
topup_posted i d positive = elim (add_entry_cases (topup_entry i) d) [
  | inl (t, e, s, known, _) ↦
      let q : t ≡ credit = cc (sym known ∙ credit_text) in
      let l : (add_entry (topup_entry i) d).1.ledger ≡ entry_of credit (topup_entry i) ∷ d.ledger =
        ap (λ x. x.ledger) s ∙ rw q refl in
      (rw q at e, rw l (total_own (topup_entry i) credit d.ledger))
  | inr (_, _, _, inl unknown) ↦ cc (sym credit_text ∙ unknown)
  | inr (_, _, _, inr small) ↦ absurd (omega arith)
]

-- Settling a paid invoice that is no plan purchase, with a number of the provider and a positive
-- amount, while neither its payment is recorded nor its entry posted, returns, records the payment,
-- and adds the amount to the organisation's USD balance.
pub settle_paid_topup :
    (i : PaymentInvoice) (k : Text) (payload : Fields) (now : ℕ) (d : Db)
    → i.external_invoice_id ≡ some k
    → is_empty k ≡ false
    → text_eq i.invoice_type (codes "plan_purchase") ≡ false
    → has_billing_event i.organization_id
        (codes "cryptobot")
        (some k)
        (codes "payment.invoice_paid")
        d
      ≡ false
    → has_source_entry i.organization_id (codes "invoice") (show_nat i.id) d ≡ false
    → pos 1 ≤ℤ i.amount
    → let (r, d') = settle_paid i payload now d in
      (r ≡ ok tt)
      × Recorded i.organization_id k d'
      × (get_balance i.organization_id (codes "USD") d'
          ≡ i.amount +ℤ get_balance i.organization_id (codes "USD") d)
unfolding topup_paid get_balance
settle_paid_topup i k payload now d h full kind fresh unposted positive =
    let (e, b) = topup_posted i d positive in
    rw (topup_steps i k payload now d h kind fresh unposted, e)
      (refl, event_Recorded i k payload _ h full, b)
