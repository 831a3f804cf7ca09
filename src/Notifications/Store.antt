-- ===== src/Notifications/Store.antt =====
-- The tables of notifications, and those that the service reads.
use balance_tracker.Prelude.{ℕ, Bool, true, false, ◌&&◌, Option, List, ◌==◌}
use balance_tracker.Prelude.Int.{ℤ}
use balance_tracker.Prelude.Text.{Text, text_eq}
use balance_tracker.Json.{Fields}
use balance_tracker.ServiceStatus.{ServiceStatus}
use balance_tracker.SyncJob.Store.{Job}
use balance_tracker.Transactions.Store.{Transaction}

-- The thresholds are floats; here they are hundredths.
pub record NotificationSetting : Type 0 where
  pub id : ℕ
  pub organization_id : ℕ
  pub user_id : ℕ
  pub enabled : Bool
  pub system_enabled : Bool
  pub transaction_enabled : Bool
  pub balance_enabled : Bool
  pub min_balance_delta_usd : ℤ
  pub min_balance_delta_percent : ℤ
  pub muted_services : List Text
  pub channels : List Text

pub record NotificationCursor : Type 0 where
  pub organization_id : ℕ
  pub user_id : ℕ
  pub cursor_type : Text
  pub source_key : Text
  pub cursor_value : Option Text
  pub payload : Fields

-- The values that the code writes into the column `status` of an event.
pub data EventStatus : Type 0 where
  pending sending sent failed : EventStatus

pub record NotificationEvent : Type 0 where
  pub id : ℕ
  pub organization_id : ℕ
  pub user_id : ℕ
  pub integration_id : Option ℕ
  pub event_type : Text
  pub severity : Text
  pub source : Text
  pub title : Text
  pub body : Text
  pub payload : Fields
  pub dedupe_key : Text
  pub status : EventStatus
  pub error_message : Option Text
  pub send_after_at : Option ℕ
  pub sent_at : Option ℕ
  pub created_at : ℕ

-- A membership joined with its user.
pub record Member : Type 0 where
  pub organization_id : ℕ
  pub user_id : ℕ
  pub is_active : Bool
  pub telegram_user_id : Option ℕ

pub record NotifyDb : Type 0 where
  pub settings : List NotificationSetting
  pub next_setting : ℕ
  pub cursors : List NotificationCursor
  pub events : List NotificationEvent
  pub next_event : ℕ
  pub members : List Member
  pub statuses : List ServiceStatus
  pub jobs : List Job
  pub transactions : List Transaction

abbrev pub is_pending : EventStatus → Bool
is_pending EventStatus.pending = true
is_pending _ = false

-- The columns of the unique index on events.
abbrev pub event_keyed : ℕ → ℕ → Text → NotificationEvent → Bool
event_keyed org user key e =
    e.organization_id == org && e.user_id == user && text_eq key e.dedupe_key

abbrev pub event_numbered : ℕ → NotificationEvent → Bool
event_numbered i e = e.id == i

-- The columns of the unique index on settings.
abbrev pub settings_of : ℕ → ℕ → NotificationSetting → Bool
settings_of org user s = s.organization_id == org && s.user_id == user

-- The columns of the unique index on cursors.
abbrev pub cursor_at : ℕ → ℕ → Text → Text → NotificationCursor → Bool
cursor_at org user kind source c =
    c.organization_id == org
    && c.user_id == user
    && text_eq kind c.cursor_type
    && text_eq source c.source_key
