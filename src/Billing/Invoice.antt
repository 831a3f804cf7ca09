-- ===== src/Billing/Invoice.antt =====
-- `CryptoBotService`: what a provider's message about an invoice does. Python's `str` and `float`
-- on a JSON value, the product of two floats and `datetime.fromisoformat` are parameters;
-- `default_asset` is the setting `crypto_bot_invoice_asset`.
use balance_tracker.Prelude.{
  ℕ, Bool, true, false, ◌&&◌, Option, none, some, [], ◌∷◌, ◌==◌, or_else, if◌then◌else◌,
}
use balance_tracker.Prelude.Lists.{find?, update_where}
use balance_tracker.Prelude.Int.{ℤ, pos}
use balance_tracker.Prelude.Text.{Text, codes, text_eq, strip, lower, is_empty}
use balance_tracker.Clock.{Datetime}
use balance_tracker.Json.{
  Json, null, bool, text, obj, Fields, end, field, get, as_dict, truthy, update, text_or_null,
}
use balance_tracker.SyncJob.Key.{show_nat}
use balance_tracker.Billing.Store.{
  PaymentInvoice, LedgerEntry, BillingEvent, Db, Result, ok, err, Action, Error,
}
use balance_tracker.Billing.Ledger.{NewEntry, add_entry, has_source_entry}
use balance_tracker.Billing.Plans.{
  add_billing_event, has_billing_event, monthly_period_days, switch_subscription_plan,
}

-- `str(a or b or c)`, where `b` and `c` are texts
abbrev pub or_text : (Json → Text) → Json → Text → Text → Text
or_text str a b c = if truthy a then str a else if is_empty b then c else b

abbrev pub is_blank : Json → Bool
is_blank null = true
is_blank (text s) = is_empty s
is_blank _ = false

-- `_safe_float`
abbrev pub safe_float : (Json → Option ℤ) → Json → Option ℤ
safe_float float_of v = if is_blank v then none else float_of v

abbrev pub non_empty : Text → Option Text
non_empty s = if is_empty s then none else some s

-- `_clean_optional_str`
unfoldable pub clean_optional_str : (Json → Text) → Json → Option Text
clean_optional_str str null = none
clean_optional_str str v = non_empty (strip (str v))

utc_suffix : Text → Text
utc_suffix [] = []
utc_suffix (c ∷ []) = if c == 90 then codes "+00:00" else c ∷ []
utc_suffix (c ∷ b ∷ s) = c ∷ utc_suffix (b ∷ s)

-- `_parse_datetime`
unfoldable pub parse_datetime : (Json → Text) → (Text → Option Datetime) → Json → Option Datetime
unfolding utc_suffix
parse_datetime str fromisoformat v =
    let s = strip (str v) in
    if is_blank v then none else if is_empty s then none else fromisoformat (utc_suffix s)

abbrev pub first_of : {A : Type 0} → Option A → Option A → Option A
first_of none b = b
first_of (some a) b = some a

named_plan : Json → Option Text
named_plan (text s) =
    let n = lower (strip s) in
    if is_empty n then none else if text_eq n (codes "full") then some (codes "pro") else some n
named_plan _ = none

-- `_extract_plan_code`
unfoldable pub extract_plan_code : PaymentInvoice → Option Text
unfolding named_plan
extract_plan_code i = named_plan (get (codes "plan_code") i.metadata)

abbrev pub is_invoice : ℕ → PaymentInvoice → Bool
is_invoice k i = i.id == k

abbrev pub save_invoice : PaymentInvoice → Db → Db
save_invoice i d = record d { invoices = update_where (is_invoice i.id) (λ _. i) d.invoices }

abbrev pub paid_event : PaymentInvoice → Fields → BillingEvent
paid_event i payload = record {
  organization_id = i.organization_id;
  event_type = codes "payment.invoice_paid";
  provider = codes "cryptobot";
  provider_event_id = i.external_invoice_id;
  amount = i.amount;
  currency = codes "USD";
  payload = payload;
}

abbrev pub topup_entry : PaymentInvoice → NewEntry
topup_entry i = record {
  organization_id = i.organization_id;
  entry_type = codes "credit";
  amount = i.amount;
  source_type = codes "invoice";
  source_id = some (show_nat i.id);
  currency = codes "USD";
  created_by_user_id = i.created_by_user_id;
  note = some (codes "Crypto Bot top-up");
  metadata =
      field (codes "provider") (text (codes "cryptobot"))
        (field (codes "external_invoice_id") (text_or_null i.external_invoice_id) end);
}

-- After `switch_subscription_plan` returned or raised.
unfoldable pub plan_paid : PaymentInvoice → Fields → Text → Result Bool → Action (Unit {0})
plan_paid i payload plan_code (err e) d = (err e, d)
plan_paid i payload plan_code (ok switched) d = (
  ok tt,
  add_billing_event
      (paid_event i (
        field (codes "invoice") (obj payload) (
          field (codes "invoice_type") (text i.invoice_type) (
            field (codes "plan_code") (text plan_code)
              (field (codes "switched") (bool switched) end)))))
      d,
)

unfoldable pub pay_plan : PaymentInvoice → Fields → ℕ → Option Text → Action (Unit {0})
pay_plan i payload now none d = (err Error.missing_plan_code, d)
pay_plan i payload now (some plan_code) d =
    let (r, d') =
      switch_subscription_plan i.organization_id plan_code (some monthly_period_days) false now d in
    plan_paid i payload plan_code r d'

-- After `add_entry` returned or raised.
unfoldable pub topup_paid : PaymentInvoice → Fields → Result LedgerEntry → Action (Unit {0})
topup_paid i payload (err e) d = (err e, d)
topup_paid i payload (ok _) d = (ok tt, add_billing_event (paid_event i payload) d)

unfoldable pub pay_topup : PaymentInvoice → Fields → Action (Unit {0})
pay_topup i payload d =
    if has_source_entry i.organization_id (codes "invoice") (show_nat i.id) d
    then (ok tt, add_billing_event (paid_event i payload) d)
    else let (r, d') = add_entry (topup_entry i) d in topup_paid i payload r d'

-- What a paid invoice buys, unless that was recorded before.
unfoldable pub settle_paid : PaymentInvoice → Fields → ℕ → Action (Unit {0})
settle_paid i payload now d =
    if has_billing_event i.organization_id (codes "cryptobot") i.external_invoice_id
      (codes "payment.invoice_paid") d
    then (ok tt, d)
    else if text_eq i.invoice_type (codes "plan_purchase")
    then pay_plan i payload now (extract_plan_code i) d
    else pay_topup i payload d

module _ (str : Json → Text) (float_of : Json → Option ℤ) (product : ℤ → ℤ → ℤ)
    (fromisoformat : Text → Option Datetime) (default_asset : Text) where
  -- The assignments before the rate is read.
  unfoldable pub read_payment : PaymentInvoice → Fields → PaymentInvoice
  read_payment i payload = record i {
    status = lower (or_text str (get (codes "status") payload) i.status (codes "pending"));
    asset = or_text str (get (codes "asset") payload) i.asset default_asset;
    pay_url = or_text str (get (codes "pay_url") payload) i.pay_url [];
    bot_invoice_url = or_text str (get (codes "bot_invoice_url") payload) i.bot_invoice_url [];
    paid_asset = clean_optional_str str (get (codes "paid_asset") payload);
    paid_amount = safe_float float_of (get (codes "paid_amount") payload);
  }

  -- The rest, with the rate.
  unfoldable pub read_rest : PaymentInvoice → Fields → ℤ → PaymentInvoice
  read_rest i payload rate = record i {
    paid_usd_amount = some (product rate (or_else i.paid_amount (pos 0)));
    expires_at =
        first_of (parse_datetime str fromisoformat (get (codes "expiration_date") payload))
          i.expires_at;
    paid_at = first_of (parse_datetime str fromisoformat (get (codes "paid_at") payload)) i.paid_at;
    metadata = update i.metadata payload;
  }

  -- The invoice as read is in the session when `settle_paid` runs.
  unfoldable pub apply_read : PaymentInvoice → Fields → ℕ → Action (Unit {0})
  apply_read i payload now d =
      let e = save_invoice i d in
      if text_eq i.status (codes "paid") then settle_paid i payload now e else (ok tt, e)

  -- Without a rate the product is a TypeError.
  unfoldable pub apply_rate : PaymentInvoice → Fields → ℕ → Option ℤ → Action (Unit {0})
  apply_rate i payload now none d = (err Error.missing_rate, save_invoice i d)
  apply_rate i payload now (some rate) d = apply_read (read_rest i payload rate) payload now d

  -- `_apply_invoice_payload`
  unfoldable pub apply_invoice_payload : PaymentInvoice → Fields → ℕ → Action (Unit {0})
  apply_invoice_payload i payload now d =
      apply_rate (read_payment i payload) payload now
        (safe_float float_of (get (codes "paid_usd_rate") payload)) d

  abbrev pub invoice_payload : Fields → Fields
  invoice_payload payload = or_else (as_dict (get (codes "payload") payload)) payload

  -- `str(invoice_id or id or external_event_id or "")`
  unfoldable pub external_invoice_id : Fields → Text → Text
  external_invoice_id payload event =
      if truthy (get (codes "invoice_id") payload)
      then str (get (codes "invoice_id") payload)
      else or_text str (get (codes "id") payload) event []

  abbrev pub is_external : Text → PaymentInvoice → Bool
  is_external k i =
      text_eq i.provider (codes "cryptobot")
      && elim i.external_invoice_id [ none ↦ false | some x ↦ text_eq k x ]

  unfoldable pub apply_to : Option PaymentInvoice → Fields → ℕ → Action (Unit {0})
  apply_to none payload now d = (ok tt, d)
  apply_to (some i) payload now d = apply_invoice_payload i payload now d

  unfoldable pub apply_webhook_update : Fields → Text → ℕ → Action (Unit {0})
  apply_webhook_update payload event now d =
      let inner = invoice_payload payload in
      let k = external_invoice_id inner event in
      if is_empty k then (ok tt, d) else apply_to (find? (is_external k) d.invoices) inner now d
