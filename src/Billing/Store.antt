-- ===== src/Billing/Store.antt =====
-- The tables that the billing services share, and the errors that they raise.
use balance_tracker.Prelude.{ℕ, Bool, true, false, ◌&&◌, Option, List, ◌==◌, ltb, ◌||◌}
use balance_tracker.Prelude.Int.{ℤ}
use balance_tracker.Prelude.Text.{Text}
use balance_tracker.Json.{Json, Fields}
use balance_tracker.Clock.{Datetime}

pub record Plan : Type 0 where
  pub id : ℕ
  pub code : Text
  pub name : Text
  pub max_integrations : ℤ
  pub min_refresh_interval_seconds : ℤ
  pub policy_json : Json
  pub price_monthly : ℤ
  pub currency : Text
  pub is_active : Bool

-- The values that the code writes into `subscriptions.status`.
pub data SubscriptionStatus : Type 0 where
  active replaced expired : SubscriptionStatus

pub record Subscription : Type 0 where
  pub id : ℕ
  pub organization_id : ℕ
  pub plan_id : ℕ
  pub status : SubscriptionStatus
  pub current_period_end : Option Datetime
  pub updated_at : ℕ

pub data EntryType : Type 0 where
  credit release debit hold : EntryType

pub record LedgerEntry : Type 0 where
  pub organization_id : ℕ
  pub created_by_user_id : Option ℕ
  pub entry_type : EntryType
  pub amount : ℤ
  pub currency : Text
  pub source_type : Text
  pub source_id : Option Text
  pub note : Option Text
  pub metadata : Fields

pub record BillingEvent : Type 0 where
  pub organization_id : ℕ
  pub event_type : Text
  pub provider : Text
  pub provider_event_id : Option Text
  pub amount : ℤ
  pub currency : Text
  pub payload : Fields

pub record WebhookEvent : Type 0 where
  pub provider : Text
  pub external_event_id : Text
  pub payload : Fields

pub record PromoCode : Type 0 where
  pub id : ℕ
  pub code : Text
  pub reward_type : Text
  pub reward_value : ℤ
  pub reward_currency : Text
  pub plan_code : Option Text
  pub duration_days : Option ℤ
  pub max_redemptions : Option ℤ
  pub per_org_limit : ℤ
  pub redeemed_count : ℕ
  pub is_active : Bool
  pub expires_at : Option Datetime

pub record PromoRedemption : Type 0 where
  pub promo_code_id : ℕ
  pub organization_id : ℕ
  pub user_id : Option ℕ
  pub status : Text
  pub reward_snapshot : Fields

pub record PaymentInvoice : Type 0 where
  pub id : ℕ
  pub organization_id : ℕ
  pub created_by_user_id : Option ℕ
  pub provider : Text
  pub external_invoice_id : Option Text
  pub invoice_type : Text
  pub status : Text
  pub amount : ℤ
  pub asset : Text
  pub pay_url : Text
  pub bot_invoice_url : Text
  pub paid_asset : Option Text
  pub paid_amount : Option ℤ
  pub paid_usd_amount : Option ℤ
  pub expires_at : Option Datetime
  pub paid_at : Option Datetime
  pub metadata : Fields

pub record Db : Type 0 where
  pub plans : List Plan
  pub subscriptions : List Subscription
  pub next_subscription : ℕ
  pub ledger : List LedgerEntry
  pub events : List BillingEvent
  pub webhooks : List WebhookEvent
  pub promos : List PromoCode
  pub next_promo : ℕ
  pub redemptions : List PromoRedemption
  pub invoices : List PaymentInvoice

-- What the services raise.
pub data Error : Type 0 where
  unsupported_entry_type amount_not_positive plan_not_found : Error
  promo_empty promo_not_found promo_expired promo_limit promo_applied : Error
  promo_plan_missing promo_type promo_plan_unknown promo_exists : Error
  missing_plan_code missing_rate bad_amount bad_event_type : Error

pub data Result (A : Type 0) : Type 0 where
  ok : A → Result A
  err : Error → Result A

-- A method that may raise: what was written before stays in the session.
abbrev pub Action : Type 0 → Type 0
Action A = Db → Result A × Db

abbrev pub pure : {A : Type 0} → A → Action A
pure a d = (ok a, d)

abbrev pub raise : {A : Type 0} → Error → Action A
raise e d = (err e, d)

infixl 5 ◌>>=◌ ◌>>◌
abbrev pub ◌>>=◌ : {A B : Type 0} → Action A → (A → Action B) → Action B
◌>>=◌ m f d = let (r, d') = m d in elim r [ ok a ↦ f a d' | err e ↦ raise e d' ]

abbrev pub ◌>>◌ : {A B : Type 0} → Action A → Action B → Action B
m >> k = m >>= λ _. k

abbrev pub raise_if : Bool → Error → Action (Unit {0})
raise_if true e = raise e
raise_if false e = pure tt

abbrev pub modify : (Db → Db) → Action (Unit {0})
modify f d = (ok tt, f d)

abbrev pub is_current : SubscriptionStatus → Bool
is_current active = true
is_current _ = false

-- `where organization_id = org and status = 'active'`
abbrev pub active_of : ℕ → Subscription → Bool
active_of org s = s.organization_id == org && is_current s.status

-- `order_by(updated_at.desc(), id.desc())`
abbrev pub later : Subscription → Subscription → Bool
later a b = ltb b.updated_at a.updated_at || (a.updated_at == b.updated_at && ltb b.id a.id)

abbrev pub has_id : ℕ → Subscription → Bool
has_id i s = s.id == i
