-- ===== src/Notifications/Tests.antt =====
-- The theorems on notifications on concrete tables.
use balance_tracker.Prelude.{ℕ, true, false, none, some, [], ◌∷◌, Memᴰ, ◌≡◌, ◌≢◌, refl, arith}
use balance_tracker.Prelude.Int.{pos}
use balance_tracker.Prelude.Text.{codes, text_eq, strip, lower, starts_with}
use balance_tracker.Json.{end, field, text, null}
use balance_tracker.ServiceStatus.{ServiceStatus}
use balance_tracker.SyncJob.Key.{show_nat}
use balance_tracker.Transactions.Store.{Transaction}
use balance_tracker.Notifications.Store.{
  NotificationSetting, NotificationCursor, NotificationEvent, EventStatus, NotifyDb,
}
use balance_tracker.Notifications.Events.{
  claim_pending_events, claim_ids, select_due, is_among, hand_out, get_event_by_dedupe_key,
  enqueue_found, enqueue_event,
}
use balance_tracker.Notifications.Settings.{
  SettingsUpdate, default_settings, get_settings, created_settings, get_or_create_settings,
  apply_settings, write_settings, get_cursor, upsert_cursor, upsert_found, read_cursor,
  seed_transaction_baseline, update_settings,
}
use balance_tracker.Notifications.Generate.{
  Format, settled_since, transaction_events_for, transaction_events_at, announce_since,
  announce_each, move_cursor, is_announced, is_supported_transaction_source,
  is_dex_transaction_source, transaction_request, transaction_key,
}
use balance_tracker.Notifications.ClaimLaws.{alone, Reach, claim_pending_events_once}
use balance_tracker.Notifications.AnnounceLaws.{
  Told, transaction_events_for_lem, transaction_events_for_once,
}
use balance_tracker.Notifications.CursorLaws.{read_cursor-show_nat}
use balance_tracker.Notifications.BaselineLaws.{update_settings_baseline}

abbrev format : Format
format = record {
  isoformat = λ t. codes "t";
  show_amount = λ a. codes "1";
  json_amount = λ a. null;
  str = λ j. codes "s";
}

abbrev event : NotificationEvent
event = record {
  id = 1;
  organization_id = 3;
  user_id = 8;
  integration_id = none;
  event_type = codes "transaction";
  severity = codes "info";
  source = codes "bybit";
  title = codes "t";
  body = codes "b";
  payload = end;
  dedupe_key = codes "k";
  status = EventStatus.pending;
  error_message = none;
  send_after_at = none;
  sent_at = none;
  created_at = 5;
}

abbrev later_event : NotificationEvent
later_event = record event { id = 2; dedupe_key = codes "l"; created_at = 6 }

abbrev settings : NotificationSetting
settings = record (default_settings 1 3 8) { transaction_enabled = true }

abbrev cursor : NotificationCursor
cursor = record {
  organization_id = 3;
  user_id = 8;
  cursor_type = codes "transactions";
  source_key = codes "all";
  cursor_value = some (show_nat 6);
  payload = end;
}

abbrev deposit : Transaction
deposit = record {
  id = 7;
  organization_id = 3;
  integration_id = some 5;
  tx_id = codes "d1";
  service = codes "bybit";
  tx_type = codes "deposit";
  currency = codes "BTC";
  amount = pos 100;
  fee = none;
  fee_currency = none;
  network = none;
  address = none;
  address_from = none;
  address_to = none;
  tag = none;
  status = codes "ok";
  txid = none;
  tx_timestamp = some 10;
  notified = false;
}

abbrev healthy : ServiceStatus
healthy = record {
  organization_id = 3;
  service = codes "bybit";
  is_healthy = true;
  last_error = none;
  last_check = 9;
}

abbrev db : NotifyDb
db = record {
  settings = settings ∷ [];
  next_setting = 2;
  cursors = cursor ∷ [];
  events = event ∷ later_event ∷ [];
  next_event = 3;
  members = [];
  statuses = healthy ∷ [];
  jobs = [];
  transactions = deposit ∷ [];
}

first_claim : Memᴰ (hand_out event) (claim_pending_events alone 1 20 db).0
unfolding claim_pending_events claim_ids select_due is_among
first_claim = Memᴰ.head refl

abbrev after : NotifyDb
after = record db { events = hand_out event ∷ later_event ∷ [] }

claimed_table : (claim_pending_events alone 1 20 db).1 ≡ after
unfolding claim_pending_events claim_ids select_due is_among
claimed_table = refl

second_claim : Memᴰ (hand_out later_event) (claim_pending_events alone 9 30 after).0
unfolding claim_pending_events claim_ids select_due is_among
second_claim = Memᴰ.head refl

claim_pending_events_once_example : (hand_out later_event).id ≢ (hand_out event).id
claim_pending_events_once_example =
    claim_pending_events_once 1 20 9 30 db after (hand_out event) (hand_out later_event)
      (omega arith, (omega arith, tt)) first_claim (rw claimed_table Reach.here) second_claim

found_cursor : get_cursor 3 8 (codes "transactions") (codes "all") db ≡ some cursor
unfolding get_cursor text_eq
found_cursor = refl

transaction_events_for_lem_example :
    (m : ℕ) × (c' : NotificationCursor) × ((transaction_events_for format 100 20 settings 0 db).0
      ≡ some m)
    × Told settings 100
        (read_cursor (some (show_nat 6)))
        0
        m
        db
        (transaction_events_for format 100 20 settings 0 db).1
        c'
transaction_events_for_lem_example =
    transaction_events_for_lem format 100 20 settings 0 db cursor found_cursor

abbrev moved_cursor : NotificationCursor
moved_cursor = record cursor {
  cursor_value = some (show_nat 7);
  payload = field (codes "updated_at") (text (codes "t")) end;
}

reads_six : read_cursor (some (show_nat 6)) ≡ 6
reads_six = read_cursor-show_nat 6

found_moved :
    get_cursor 3 8
      (codes "transactions")
      (codes "all")
      (transaction_events_for format 100 20 settings 0 db).1
    ≡ some moved_cursor
unfolding transaction_events_for transaction_events_at announce_since announce_each get_cursor
    move_cursor settled_since is_announced is_supported_transaction_source enqueue_event
    enqueue_found get_event_by_dedupe_key upsert_cursor upsert_found text_eq strip lower
    is_dex_transaction_source starts_with transaction_request transaction_key
found_moved = rw reads_six refl

taken_up : Memᴰ deposit (settled_since 100 3 (read_cursor (some (show_nat 6))) db.transactions)
unfolding settled_since text_eq
taken_up = rw reads_six (Memᴰ.head refl)

transaction_events_for_once_example : ¬ Memᴰ deposit (
    settled_since 5 3
      (read_cursor (some (show_nat 7)))
      (transaction_events_for format 100 20 settings 0 db).1.transactions)
transaction_events_for_once_example =
    transaction_events_for_once format 100 5 20 settings 0 db cursor moved_cursor deposit
      found_cursor found_moved taken_up

abbrev switch_on : SettingsUpdate
switch_on = record {
  enabled = none;
  system_enabled = none;
  transaction_enabled = some true;
  balance_enabled = none;
  min_balance_delta_usd = none;
  min_balance_delta_percent = none;
  muted_services = none;
  channels = none;
}

abbrev fresh_db : NotifyDb
fresh_db = record db { settings = []; cursors = [] }

abbrev seeded_cursor : NotificationCursor
seeded_cursor = record cursor {
  cursor_value = some (show_nat 7);
  payload = field (codes "seeded_at") (text (codes "t")) end;
}

starts_off : (get_or_create_settings 3 8 fresh_db).0.transaction_enabled ≡ false
unfolding get_or_create_settings get_settings created_settings
starts_off = refl

ends_on : (update_settings (λ t. codes "t") 20 3 8 switch_on fresh_db).0.transaction_enabled ≡ true
unfolding update_settings apply_settings get_or_create_settings get_settings created_settings
ends_on = refl

found_seeded :
    get_cursor 3 8
      (codes "transactions")
      (codes "all")
      (update_settings (λ t. codes "t") 20 3 8 switch_on fresh_db).1
    ≡ some seeded_cursor
unfolding update_settings apply_settings get_or_create_settings get_settings created_settings
    write_settings seed_transaction_baseline upsert_cursor upsert_found get_cursor text_eq
found_seeded = refl

update_settings_baseline_example : ¬ Memᴰ deposit (
    settled_since 100 3
      (read_cursor (some (show_nat 7)))
      (update_settings (λ t. codes "t") 20 3 8 switch_on fresh_db).1.transactions)
update_settings_baseline_example =
    update_settings_baseline (λ t. codes "t") 20 3 8 100 switch_on fresh_db seeded_cursor deposit
      starts_off ends_on found_seeded
