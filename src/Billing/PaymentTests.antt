-- ===== src/Billing/PaymentTests.antt =====
-- The theorems on promo codes and invoices, on the database of the billing tests.
use balance_tracker.Prelude.{ℕ, ◌≡◌, refl, Option, none, some, [], ◌∷◌, arith}
use balance_tracker.Prelude.Int.{ℤ, pos, ◌+ℤ◌}
use balance_tracker.Prelude.Text.{Text, codes, text_eq, strip, lower, upper}
use balance_tracker.Clock.{Datetime}
use balance_tracker.Json.{Json, Fields, end, field, text, int, lookup, truthy}
use balance_tracker.Billing.Store.{Db, ok, err, Error}
use balance_tracker.Billing.Ledger.{
  add_entry, add_typed, entry_type_of, get_balance, has_source_entry,
}
use balance_tracker.Billing.Plans.{has_billing_event}
use balance_tracker.Billing.Plans.{
  process_webhook_event, webhook_amount, webhook_type, record_webhook,
}
use balance_tracker.Billing.WebhookLaws.{process_webhook_event_again}
use balance_tracker.Prelude.{true, false}
use balance_tracker.Billing.Promo.{
  redeem_code, normalize_code, redeem_found, redeem_checked, refusal, is_expired, limit_reached,
  reaches, reward, credited, redeemed, reward_snapshot, promo_credit, redemption_of,
}
use balance_tracker.Billing.Invoice.{
  settle_paid, apply_invoice_payload, read_payment, apply_rate, apply_read, read_rest, pay_topup,
  topup_paid, clean_optional_str,
}
use balance_tracker.Billing.Invariant.{IsValid}
use balance_tracker.Billing.PromoLaws.{redeem_code_once}
use balance_tracker.Billing.PromoLimits.{HasLimits, redeem_code-HasLimits}
use balance_tracker.Billing.InvoiceLaws.{Recorded}
use balance_tracker.Billing.InvoiceValid.{apply_invoice_payload-IsValid}
use balance_tracker.Billing.InvoiceOnce.{apply_invoice_payload_once}
use balance_tracker.Billing.Topup.{settle_paid_topup}
use balance_tracker.Billing.Tests.{db, db-IsValid, gift, topup}

abbrev local_time : ℕ → ℕ
local_time t = t

redeemed_gift :
    (redeem_code local_time 3 (some 1) (codes " gift") 5_000 db).0
    ≡ ok (redemption_of gift 3 (some 1) (reward_snapshot gift))
unfolding redeem_code normalize_code redeem_found redeem_checked refusal is_expired limit_reached
    reaches reward credited redeemed add_entry add_typed entry_type_of promo_credit text_eq strip
    lower upper
redeemed_gift = refl

redeem_code_once_example :
    let d' = (redeem_code local_time 3 (some 1) (codes " gift") 5_000 db).1 in
    (y : Error) × ((redeem_code local_time 3 (some 2) (codes "GIFT") 6_000 d').0 ≡ err y)
unfolding normalize_code strip upper
redeem_code_once_example =
    redeem_code_once local_time 3 (some 1) (some 2) (codes " gift") (codes "GIFT") 5_000 6_000 db
      (redemption_of gift 3 (some 1) (reward_snapshot gift)) redeemed_gift refl

-- Another organisation has redeemed the gift.
abbrev given_once : Db
given_once = record db { redemptions = redemption_of gift 9 none (reward_snapshot gift) ∷ [] }

given_once-HasLimits : HasLimits given_once
given_once-HasLimits = record { unique_id = λ i. ground arith; within = ((refl, omega arith), tt) }

redeem_code-HasLimits_example :
    HasLimits (redeem_code local_time 3 (some 1) (codes " gift") 5_000 given_once).1
redeem_code-HasLimits_example =
    redeem_code-HasLimits local_time 3 (some 1) (codes " gift") 5_000 given_once
      given_once-HasLimits

abbrev str : Json → Text
str (text s) = s
str _ = []

abbrev float_of : Json → Option ℤ
float_of (int i) = some i
float_of _ = none

abbrev product : ℤ → ℤ → ℤ
product a b = b

abbrev fromisoformat : Text → Option Datetime
fromisoformat s = none

abbrev paid : Fields
paid =
    field (codes "status") (text (codes "paid")) (field (codes "paid_usd_rate") (int (pos 1)) end)

paid_status :
    (read_payment str float_of product fromisoformat (codes "USDT") topup paid).status
    ≡ codes "paid"
unfolding read_payment lookup text_eq truthy lower
paid_status = refl

applied :
    (apply_invoice_payload str float_of product fromisoformat (codes "USDT") topup paid 5_000 db).0
    ≡ ok tt
unfolding apply_invoice_payload apply_rate apply_read read_rest read_payment settle_paid pay_topup
    topup_paid has_billing_event has_source_entry add_entry add_typed entry_type_of lookup truthy
    clean_optional_str text_eq strip lower
applied = refl

apply_invoice_payload_once_example :
    let d' =
      (apply_invoice_payload str float_of product fromisoformat
        (codes "USDT")
        topup
        paid
        5_000
        db).1 in
    let d'' =
      (apply_invoice_payload str float_of product fromisoformat
        (codes "USDT")
        topup
        paid
        6_000
        d').1 in
    (d''.ledger ≡ d'.ledger) × (d''.subscriptions ≡ d'.subscriptions) × (d''.events ≡ d'.events)
apply_invoice_payload_once_example =
    apply_invoice_payload_once str float_of product fromisoformat (codes "USDT") topup topup
      (codes "77") paid paid 5_000 6_000 db refl refl paid_status applied refl refl

apply_invoice_payload-IsValid_example :
    IsValid
      (apply_invoice_payload str float_of product fromisoformat
        (codes "USDT")
        topup
        paid
        5_000
        db).1
apply_invoice_payload-IsValid_example =
    apply_invoice_payload-IsValid str float_of product fromisoformat (codes "USDT") topup paid 5_000
      db db-IsValid

settle_paid_topup_example :
    let (r, d') = settle_paid topup paid 5_000 db in
    (r ≡ ok tt)
    × Recorded 3 (codes "77") d'
    × (get_balance 3 (codes "USD") d' ≡ pos 1_000 +ℤ get_balance 3 (codes "USD") db)
unfolding has_billing_event has_source_entry text_eq
settle_paid_topup_example =
    settle_paid_topup topup (codes "77") paid 5_000 db refl refl refl refl refl (omega arith)

first_webhook :
    (process_webhook_event str float_of (codes "cryptobot") (codes "w1") paid 3 db).0 ≡ ok true
unfolding process_webhook_event webhook_amount webhook_type record_webhook lookup truthy text_eq
first_webhook = refl

process_webhook_event_again_example :
    let d' = (process_webhook_event str float_of (codes "cryptobot") (codes "w1") paid 3 db).1 in
    process_webhook_event str float_of (codes "cryptobot") (codes "w1") end 4 d' ≡ (ok false, d')
process_webhook_event_again_example =
    process_webhook_event_again str float_of (codes "cryptobot") (codes "w1") paid end 3 4 db true
      first_webhook
