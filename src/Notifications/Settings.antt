-- ===== src/Notifications/Settings.antt =====
-- The notification settings of users, and the cursors that remember how far a user was notified.
use balance_tracker.Prelude.{
  ℕ, ◌+◌, max, Bool, true, false, ◌&&◌, Option, none, some, List, [], ◌∷◌, map, ltb, ◌==◌,
  if◌then◌else◌, or_else, is_some,
}
use balance_tracker.Prelude.Lists.{keep, find?, update_where}
use balance_tracker.Prelude.Sort.{sort_by}
use balance_tracker.Prelude.Int.{ℤ, pos, pos_part}
use balance_tracker.Prelude.Text.{Text, codes, is_empty}
use balance_tracker.Json.{Fields, end, field, text, parse_int}
use balance_tracker.SyncJob.Key.{show_nat}
use balance_tracker.Transactions.Store.{Transaction}
use balance_tracker.Notifications.Store.{
  NotificationSetting, NotificationCursor, NotifyDb, Member, settings_of, cursor_at,
}

unfoldable pub get_settings : ℕ → ℕ → NotifyDb → Option NotificationSetting
get_settings org user d = find? (settings_of org user) d.settings

abbrev pub default_settings : ℕ → ℕ → ℕ → NotificationSetting
default_settings id org user = record {
  id = id;
  organization_id = org;
  user_id = user;
  enabled = true;
  system_enabled = true;
  transaction_enabled = false;
  balance_enabled = false;
  min_balance_delta_usd = pos 1_000;
  min_balance_delta_percent = pos 500;
  muted_services = [];
  channels = codes "telegram" ∷ [];
}

unfoldable pub created_settings :
    ℕ → ℕ → Option NotificationSetting → NotifyDb → NotificationSetting × NotifyDb
created_settings org user (some s) d = (s, d)
created_settings org user none d =
    let s = default_settings d.next_setting org user in
    (s, record d { settings = s ∷ d.settings; next_setting = d.next_setting + 1 })

-- With no other session between the lookup and the commit.
unfoldable pub get_or_create_settings : ℕ → ℕ → NotifyDb → NotificationSetting × NotifyDb
unfolding get_settings created_settings
get_or_create_settings org user d = created_settings org user (get_settings org user d) d

-- The values that a request sets; a value of None is not assigned.
pub record SettingsUpdate : Type 0 where
  pub enabled : Option Bool
  pub system_enabled : Option Bool
  pub transaction_enabled : Option Bool
  pub balance_enabled : Option Bool
  pub min_balance_delta_usd : Option ℤ
  pub min_balance_delta_percent : Option ℤ
  pub muted_services : Option (List Text)
  pub channels : Option (List Text)

unfoldable pub apply_settings : SettingsUpdate → NotificationSetting → NotificationSetting
apply_settings u s = record s {
  enabled = or_else u.enabled s.enabled;
  system_enabled = or_else u.system_enabled s.system_enabled;
  transaction_enabled = or_else u.transaction_enabled s.transaction_enabled;
  balance_enabled = or_else u.balance_enabled s.balance_enabled;
  min_balance_delta_usd = or_else u.min_balance_delta_usd s.min_balance_delta_usd;
  min_balance_delta_percent = or_else u.min_balance_delta_percent s.min_balance_delta_percent;
  muted_services = or_else u.muted_services s.muted_services;
  channels = or_else u.channels s.channels;
}

abbrev setting_numbered : ℕ → NotificationSetting → Bool
setting_numbered i s = s.id == i

unfoldable pub write_settings : SettingsUpdate → NotificationSetting → NotifyDb → NotifyDb
unfolding apply_settings
write_settings u s d = record d {
  settings = update_where (setting_numbered s.id) (apply_settings u) d.settings;
}

-- The event types that `list_enabled_settings` knows.
pub data EventType : Type 0 where
  transaction balance system : EventType

abbrev pub type_enabled : Option EventType → NotificationSetting → Bool
type_enabled none s = true
type_enabled (some EventType.transaction) s = s.transaction_enabled
type_enabled (some EventType.balance) s = s.balance_enabled
type_enabled (some EventType.system) s = s.system_enabled

abbrev pub org_filter : Option ℕ → ℕ → Bool
org_filter none org = true
org_filter (some o) org = org == o

abbrev pub is_enabled : Option ℕ → Option EventType → NotificationSetting → Bool
is_enabled org kind s = s.enabled && org_filter org s.organization_id && type_enabled kind s

unfoldable pub list_enabled_settings :
    Option ℕ → Option EventType → NotifyDb → List NotificationSetting
list_enabled_settings org kind d =
    sort_by (λ a b. ltb a.id b.id) (keep (is_enabled org kind) d.settings)

abbrev pub is_active_telegram : ℕ → Member → Bool
is_active_telegram org m = m.organization_id == org && m.is_active && is_some m.telegram_user_id

unfoldable pub list_active_telegram_users_for_org : ℕ → NotifyDb → List ℕ
list_active_telegram_users_for_org org d =
    map (λ (m : Member). m.user_id)
      (sort_by (λ a b. ltb a.user_id b.user_id) (keep (is_active_telegram org) d.members))

unfoldable pub create_each : ℕ → List ℕ → NotifyDb → NotifyDb
create_each org [] d = d
create_each org (user ∷ users) d = create_each org users (get_or_create_settings org user d).1

unfoldable pub ensure_default_settings_for_org : ℕ → NotifyDb → NotifyDb
unfolding create_each list_active_telegram_users_for_org
ensure_default_settings_for_org org d = create_each org (list_active_telegram_users_for_org org d) d

unfoldable pub get_cursor : ℕ → ℕ → Text → Text → NotifyDb → Option NotificationCursor
get_cursor org user kind source d = find? (cursor_at org user kind source) d.cursors

abbrev pub moved : Option Text → Option Fields → NotificationCursor → NotificationCursor
moved value payload c = record c { cursor_value = value; payload = or_else payload end }

unfoldable pub upsert_found :
    ℕ
    → ℕ
    → Text
    → Text
    → Option Text
    → Option Fields
    → Option NotificationCursor
    → NotifyDb
    → NotifyDb
upsert_found org user kind source value payload none d = record d {
  cursors =
      record {
        organization_id = org;
        user_id = user;
        cursor_type = kind;
        source_key = source;
        cursor_value = value;
        payload = or_else payload end;
      }
      ∷ d.cursors;
}
upsert_found org user kind source value payload (some c) d = record d {
  cursors = update_where (cursor_at org user kind source) (moved value payload) d.cursors;
}

-- With no other session between the lookup and the commit; the unique index allows one row.
unfoldable pub upsert_cursor :
    ℕ → ℕ → Text → Text → Option Text → Option Fields → NotifyDb → NotifyDb
unfolding get_cursor upsert_found
upsert_cursor org user kind source value payload d =
    upsert_found org user kind source value payload (get_cursor org user kind source d) d

abbrev int_or_zero : Option ℤ → ℕ
int_or_zero none = 0
int_or_zero (some i) = pos_part i

-- `int(cursor.cursor_value or 0)`, and 0 when that fails. Row numbers start at 1, so that a
-- negative value selects the rows that 0 selects.
unfoldable pub read_cursor : Option Text → ℕ
read_cursor none = 0
read_cursor (some s) = if is_empty s then 0 else int_or_zero (parse_int s)

-- `func.max(Transaction.id)`, 0 for no row
abbrev pub max_id : List ℕ → ℕ
max_id [] = 0
max_id (i ∷ is) = max i (max_id is)

abbrev pub transaction_ids : ℕ → List Transaction → List ℕ
transaction_ids org ts =
    map (λ (t : Transaction). t.id) (keep (λ (t : Transaction). t.organization_id == org) ts)

-- `isoformat` prints the time of the baseline.
unfoldable pub seed_transaction_baseline : (ℕ → Text) → ℕ → ℕ → ℕ → NotifyDb → ℕ × NotifyDb
unfolding upsert_cursor show_nat
seed_transaction_baseline isoformat now org user d =
    let top = max_id (transaction_ids org d.transactions) in
    (
      top,
      upsert_cursor org user (codes "transactions") (codes "all") (some (show_nat top))
          (some (field (codes "seeded_at") (text (isoformat now)) end)) d,
    )

-- `NotificationService.update_settings`: switching transactions on starts after the present ones.
unfoldable pub update_settings :
    (ℕ → Text) → ℕ → ℕ → ℕ → SettingsUpdate → NotifyDb → NotificationSetting × NotifyDb
unfolding get_or_create_settings write_settings apply_settings seed_transaction_baseline
update_settings isoformat now org user u d =
    let (s, d₁) = get_or_create_settings org user d in
    let s' = apply_settings u s in
    let d₂ = write_settings u s d₁ in
    (
      s',
      if s.transaction_enabled
          then d₂
          else if s'.transaction_enabled
          then (seed_transaction_baseline isoformat now org user d₂).1
          else d₂,
    )
