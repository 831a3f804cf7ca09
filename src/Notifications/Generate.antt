-- ===== src/Notifications/Generate.antt =====
-- What the three generators of events share, and the events of transactions.
use balance_tracker.Prelude.{
  ℕ, suc, max, Bool, true, false, ◌&&◌, ◌||◌, not, Option, none, some, List, [], ◌∷◌, ◌++◌, map,
  ltb, ◌==◌, if◌then◌else◌,
}
use balance_tracker.Prelude.Lists.{keep, any, take}
use balance_tracker.Prelude.Sort.{sort_by}
use balance_tracker.Prelude.Int.{ℤ, pos}
use balance_tracker.Prelude.Text.{Text, codes, text_eq, strip, lower, starts_with, is_empty}
use balance_tracker.Json.{Json, end, field, text, int, null}
use balance_tracker.SyncJob.Key.{show_nat}
use balance_tracker.ServiceStatus.{ServiceStatus}
use balance_tracker.Transactions.Store.{Transaction}
use balance_tracker.Notifications.Store.{NotificationSetting, NotificationCursor, NotifyDb}
use balance_tracker.Notifications.Events.{EventRequest, enqueue_event}
use balance_tracker.Notifications.Settings.{
  EventType, list_enabled_settings, get_cursor, upsert_cursor, read_cursor, max_id,
  seed_transaction_baseline,
}

-- Python's printing of times, floats and JSON values.
pub record Format : Type 0 where
  pub isoformat : ℕ → Text
  pub show_amount : ℤ → Text
  pub json_amount : ℤ → Json
  pub str : Json → Text

abbrev pub alone : NotifyDb → NotifyDb
alone d = d

-- The number of events created so far, or an error that is raised, and the tables.
abbrev pub Generated : Type 0
Generated = Option ℕ × NotifyDb

-- `for settings in settings_rows`
unfoldable pub for_each_user :
    (NotificationSetting → ℕ → NotifyDb → Generated)
    → List NotificationSetting
    → ℕ
    → NotifyDb
    → Generated
for_each_user f [] n d = (some n, d)
for_each_user f (s ∷ ss) n d =
    let (r, d') = f s n d in elim r [ none ↦ (none, d') | some m ↦ for_each_user f ss m d' ]

-- `if created: created_count += 1`
abbrev pub count_created : Bool → ℕ → ℕ
count_created true n = suc n
count_created false n = n

abbrev pub normalized_service : Text → Text
normalized_service s = lower (strip s)

abbrev pub is_in : List Text → Text → Bool
is_in names s = any (text_eq s) names

abbrev pub cex_sources : List Text
cex_sources =
    codes "binance"
    ∷ codes "bingx"
    ∷ codes "bitget"
    ∷ codes "bitmart"
    ∷ codes "bybit"
    ∷ codes "coinex"
    ∷ codes "gateio"
    ∷ codes "htx"
    ∷ codes "kucoin"
    ∷ codes "mexc"
    ∷ codes "okx"
    ∷ codes "poloniex"
    ∷ codes "xt"
    ∷ []

abbrev pub dex_prefixes : List Text
dex_prefixes = codes "evm_" ∷ codes "sol_" ∷ codes "sui_" ∷ codes "tron_" ∷ codes "ton_" ∷ []

unfoldable pub is_dex_transaction_source : Text → Bool
is_dex_transaction_source s = any (starts_with s) dex_prefixes

unfoldable pub is_supported_transaction_source : Text → Bool
unfolding is_dex_transaction_source
is_supported_transaction_source s = is_in cex_sources s || is_dex_transaction_source s

unfoldable pub transaction_title : Transaction → Text
unfolding is_dex_transaction_source
transaction_title t =
    let deposit = text_eq t.tx_type (codes "deposit") in
    if is_dex_transaction_source t.service
    then codes "DEX "
      ++ ((if deposit then codes "Incoming" else codes "Outgoing") ++ codes " transaction")
    else (if deposit then codes "Deposit" else codes "Withdrawal") ++ (codes " on " ++ t.service)

abbrev pub network_part : Option Text → Text
network_part none = []
network_part (some n) = if is_empty n then [] else codes " on " ++ n

abbrev pub time_part : (ℕ → Text) → Option ℕ → Text
time_part isoformat none = codes "unknown time"
time_part isoformat (some t) = isoformat t

unfoldable pub transaction_body : Format → Transaction → Text
unfolding is_dex_transaction_source
transaction_body fmt t =
    let direction =
      if text_eq t.tx_type (codes "deposit") then codes "Received " else codes "Sent " in
    let amount = fmt.show_amount t.amount ++ (codes " " ++ t.currency) in
    let time = codes " (" ++ (time_part fmt.isoformat t.tx_timestamp ++ codes ")") in
    if is_dex_transaction_source t.service
    then direction ++ (amount ++ (network_part t.network ++ time))
    else direction ++ (amount ++ (codes " via " ++ (t.service ++ time)))

abbrev pub json_time : (ℕ → Text) → Option ℕ → Json
json_time isoformat none = null
json_time isoformat (some t) = text (isoformat t)

unfoldable pub transaction_key : Transaction → Text
unfolding show_nat
transaction_key t = codes "transaction:" ++ (show_nat t.id ++ codes ":ok")

unfoldable pub transaction_request : Format → NotificationSetting → Transaction → EventRequest
unfolding transaction_title transaction_body transaction_key
transaction_request fmt s t = record {
  organization_id = s.organization_id;
  user_id = s.user_id;
  event_type = codes "transaction";
  title = transaction_title t;
  body = transaction_body fmt t;
  dedupe_key = transaction_key t;
  severity = codes "info";
  source = t.service;
  integration_id = t.integration_id;
  payload = some (
      field (codes "transaction_id") (int (pos t.id)) (
        field (codes "tx_id") (text t.tx_id) (
          field (codes "tx_type") (text t.tx_type) (
            field (codes "service") (text t.service) (
              field (codes "currency") (text t.currency) (
                field (codes "amount") (fmt.json_amount t.amount) (
                  field (codes "status") (text t.status) (
                    field (codes "tx_timestamp") (json_time fmt.isoformat t.tx_timestamp)
                      end))))))));
  send_after_at = none;
}

-- The transactions that are settled since the cursor, the oldest first.
unfoldable pub settled_since : ℕ → ℕ → ℕ → List Transaction → List Transaction
settled_since limit org last ts = take (max 1 limit) (
    sort_by (λ a b. ltb a.id b.id)
      (keep
        (λ (t : Transaction).
          t.organization_id == org && ltb last t.id && text_eq (codes "ok") t.status)
        ts))

abbrev pub healthy_services : ℕ → List ServiceStatus → List Text
healthy_services org statuses =
    map (λ (r : ServiceStatus). normalized_service r.service)
      (keep (λ (r : ServiceStatus). r.organization_id == org && r.is_healthy) statuses)

-- The three tests of the loop that skip a transaction.
unfoldable pub is_announced : NotificationSetting → List ServiceStatus → Transaction → Bool
unfolding is_supported_transaction_source
is_announced s statuses t =
    let service = normalized_service t.service in
    not (is_in (map normalized_service s.muted_services) service)
    && is_supported_transaction_source service
    && is_in (healthy_services s.organization_id statuses) service

unfoldable pub announce_each :
    Format → ℕ → NotificationSetting → List Transaction → ℕ → NotifyDb → Generated
unfolding is_announced transaction_request enqueue_event
announce_each fmt now s [] n d = (some n, d)
announce_each fmt now s (t ∷ ts) n d = elim (is_announced s d.statuses t) [
  | true ↦
      let (r, d') = enqueue_event now alone (transaction_request fmt s t) d in
      elim r [ none ↦ (none, d') | some e ↦ announce_each fmt now s ts (count_created e.1 n) d' ]
  | false ↦ announce_each fmt now s ts n d
]

-- `if max_seen != last_id`
unfoldable pub move_cursor :
    Format → ℕ → NotificationSetting → Text → Text → ℕ → ℕ → NotifyDb → NotifyDb
unfolding upsert_cursor show_nat
move_cursor fmt now s kind source last seen d =
    if seen == last
    then d
    else upsert_cursor s.organization_id s.user_id kind source (some (show_nat seen))
        (some (field (codes "updated_at") (text (fmt.isoformat now)) end)) d

abbrev pub seen_ids : List Transaction → List ℕ
seen_ids ts = map (λ (t : Transaction). t.id) ts

unfoldable pub announce_since : Format → ℕ → ℕ → NotificationSetting → ℕ → ℕ → NotifyDb → Generated
unfolding settled_since announce_each move_cursor
announce_since fmt limit now s last n d =
    let ts = settled_since limit s.organization_id last d.transactions in
    let (r, d') = announce_each fmt now s ts n d in
    elim r [
      | none ↦ (none, d')
      | some m ↦ (
        some m,
        move_cursor fmt now s (codes "transactions") (codes "all") last
            (max last (max_id (seen_ids ts))) d',
      )
    ]

unfoldable pub transaction_events_at :
    Format → ℕ → ℕ → NotificationSetting → ℕ → Option NotificationCursor → NotifyDb → Generated
unfolding announce_since seed_transaction_baseline read_cursor
transaction_events_at fmt limit now s n none d =
    (some n, (seed_transaction_baseline fmt.isoformat now s.organization_id s.user_id d).1)
transaction_events_at fmt limit now s n (some c) d =
    announce_since fmt limit now s (read_cursor c.cursor_value) n d

unfoldable pub transaction_events_for :
    Format → ℕ → ℕ → NotificationSetting → ℕ → NotifyDb → Generated
unfolding transaction_events_at get_cursor
transaction_events_for fmt limit now s n d =
    transaction_events_at fmt limit now s n
      (get_cursor s.organization_id s.user_id (codes "transactions") (codes "all") d) d

unfoldable pub generate_transaction_events : Format → Option ℕ → ℕ → ℕ → NotifyDb → Generated
unfolding for_each_user transaction_events_for list_enabled_settings
generate_transaction_events fmt org limit now d =
    for_each_user (transaction_events_for fmt limit now)
      (list_enabled_settings org (some EventType.transaction) d) 0 d
