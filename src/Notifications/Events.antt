-- ===== src/Notifications/Events.antt =====
-- The events of a user: adding them, handing them to a dispatcher, and settling them.
use balance_tracker.Prelude.{
  ℕ, ◌+◌, Bool, true, false, ◌&&◌, ◌||◌, Option, none, some, List, [], ◌∷◌, map, leb, ltb, ◌==◌,
  if◌then◌else◌, or_else,
}
use balance_tracker.Prelude.Lists.{keep, any, find?, take, count_if, update_where}
use balance_tracker.Prelude.Sort.{sort_by, drop}
use balance_tracker.Prelude.Text.{Text}
use balance_tracker.Json.{Fields, end}
use balance_tracker.Notifications.Store.{
  NotificationEvent, EventStatus, NotifyDb, is_pending, event_keyed, event_numbered,
}

-- The arguments of `enqueue_event`.
pub record EventRequest : Type 0 where
  pub organization_id : ℕ
  pub user_id : ℕ
  pub event_type : Text
  pub title : Text
  pub body : Text
  pub dedupe_key : Text
  pub severity : Text
  pub source : Text
  pub integration_id : Option ℕ
  pub payload : Option Fields
  pub send_after_at : Option ℕ

-- The unique index lets at most one row through.
unfoldable pub get_event_by_dedupe_key : ℕ → ℕ → Text → NotifyDb → Option NotificationEvent
get_event_by_dedupe_key org user key d = find? (event_keyed org user key) d.events

unfoldable pub new_event : ℕ → ℕ → EventRequest → NotificationEvent
new_event id now r = record {
  id = id;
  organization_id = r.organization_id;
  user_id = r.user_id;
  integration_id = r.integration_id;
  event_type = r.event_type;
  severity = r.severity;
  source = r.source;
  title = r.title;
  body = r.body;
  payload = or_else r.payload end;
  dedupe_key = r.dedupe_key;
  status = EventStatus.pending;
  error_message = none;
  send_after_at = r.send_after_at;
  sent_at = none;
  created_at = now;
}

abbrev pub insert_event : NotificationEvent → NotifyDb → NotifyDb
insert_event e d = record d { events = e ∷ d.events; next_event = d.next_event + 1 }

-- An event and whether it was created; `none` is an IntegrityError that is raised again.
abbrev pub Enqueued : Type 0
Enqueued = Option (NotificationEvent × Bool) × NotifyDb

-- The handler of the IntegrityError.
unfoldable pub event_after_conflict : Option NotificationEvent → NotifyDb → Enqueued
event_after_conflict none d = (none, d)
event_after_conflict (some e) d = (some (e, false), d)

-- `others` is what other sessions commit between the lookup and the commit.
unfoldable pub enqueue_found :
    ℕ → (NotifyDb → NotifyDb) → EventRequest → Option NotificationEvent → NotifyDb → Enqueued
unfolding get_event_by_dedupe_key event_after_conflict new_event
enqueue_found now others r (some e) d = (some (e, false), d)
enqueue_found now others r none d =
    let d' = others d in
    let e = new_event d'.next_event now r in
    let same = get_event_by_dedupe_key r.organization_id r.user_id r.dedupe_key d' in
    if any (event_keyed r.organization_id r.user_id r.dedupe_key) d'.events
    then event_after_conflict same d'
    else (some (e, true), insert_event e d')

unfoldable pub enqueue_event : ℕ → (NotifyDb → NotifyDb) → EventRequest → NotifyDb → Enqueued
unfolding enqueue_found get_event_by_dedupe_key
enqueue_event now others r d =
    enqueue_found now others r (get_event_by_dedupe_key r.organization_id r.user_id r.dedupe_key d)
      d

abbrev pub is_due_at : ℕ → Option ℕ → Bool
is_due_at now none = true
is_due_at now (some t) = leb t now

-- `status == "pending"` and `send_after_at` is NULL or past
abbrev pub is_due : ℕ → NotificationEvent → Bool
is_due now e = is_pending e.status && is_due_at now e.send_after_at

-- `order_by(created_at, id)`
abbrev pub oldest_first : NotificationEvent → NotificationEvent → Bool
oldest_first a b = ltb a.created_at b.created_at || (a.created_at == b.created_at && ltb a.id b.id)

unfoldable pub select_due : ℕ → ℕ → List NotificationEvent → List NotificationEvent
select_due limit now events = take limit (sort_by oldest_first (keep (is_due now) events))

abbrev pub event_ids : List NotificationEvent → List ℕ
event_ids es = map (λ (e : NotificationEvent). e.id) es

-- `id.in_(ids)`
unfoldable pub is_among : List ℕ → NotificationEvent → Bool
is_among ids e = any (λ i. event_numbered i e) ids

abbrev pub hand_out : NotificationEvent → NotificationEvent
hand_out e = record e { status = EventStatus.sending }

-- The guard of the update.
abbrev pub is_claimed : List ℕ → NotificationEvent → Bool
is_claimed ids e = is_among ids e && is_pending e.status

-- `others` is what other sessions commit between the choice and the update.
unfoldable pub claim_ids :
    (NotifyDb → NotifyDb) → List ℕ → NotifyDb → List NotificationEvent × NotifyDb
unfolding is_among
claim_ids others [] d = ([], d)
claim_ids others (i ∷ ids) d =
    let d' = others d in
    let events' = update_where (is_claimed (i ∷ ids)) hand_out d'.events in
    (keep (is_among (i ∷ ids)) events', record d' { events = events' })

unfoldable pub claim_pending_events :
    (NotifyDb → NotifyDb) → ℕ → ℕ → NotifyDb → List NotificationEvent × NotifyDb
unfolding claim_ids select_due
claim_pending_events others limit now d =
    claim_ids others (event_ids (select_due limit now d.events)) d

abbrev pub event_sent : ℕ → NotificationEvent → NotificationEvent
event_sent now e = record e { status = EventStatus.sent; sent_at = some now; error_message = none }

unfoldable pub mark_sent : ℕ → ℕ → NotifyDb → NotifyDb
mark_sent i now d = record d { events = update_where (event_numbered i) (event_sent now) d.events }

abbrev pub event_failed : Text → NotificationEvent → NotificationEvent
event_failed error e = record e {
  status = EventStatus.failed;
  error_message = some (take 1000 error);
}

unfoldable pub mark_failed : ℕ → Text → NotifyDb → NotifyDb
mark_failed i error d = record d {
  events = update_where (event_numbered i) (event_failed error) d.events;
}

abbrev pub event_of : ℕ → ℕ → ℕ → NotificationEvent → Bool
event_of org user i e = e.organization_id == org && e.user_id == user && event_numbered i e

-- The service looks the event up among the user's own first.
unfoldable pub mark_event_sent : ℕ → ℕ → ℕ → ℕ → NotifyDb → Bool × NotifyDb
unfolding mark_sent
mark_event_sent org user i now d =
    if any (event_of org user i) d.events then (true, mark_sent i now d) else (false, d)

unfoldable pub mark_event_failed : ℕ → ℕ → ℕ → Text → NotifyDb → Bool × NotifyDb
unfolding mark_failed
mark_event_failed org user i error d =
    if any (event_of org user i) d.events then (true, mark_failed i error d) else (false, d)

abbrev pub same_status : EventStatus → EventStatus → Bool
same_status EventStatus.pending EventStatus.pending = true
same_status EventStatus.sending EventStatus.sending = true
same_status EventStatus.sent EventStatus.sent = true
same_status EventStatus.failed EventStatus.failed = true
same_status _ _ = false

abbrev pub status_filter : Option EventStatus → EventStatus → Bool
status_filter none s = true
status_filter (some t) s = same_status t s

abbrev pub listed_event : ℕ → ℕ → Option EventStatus → NotificationEvent → Bool
listed_event org user status e =
    e.organization_id == org && e.user_id == user && status_filter status e.status

-- `order_by(desc(created_at), desc(id))`
abbrev pub newest_first : NotificationEvent → NotificationEvent → Bool
newest_first a b = oldest_first b a

unfoldable pub list_events : ℕ → ℕ → Option EventStatus → ℕ → ℕ → NotifyDb → List NotificationEvent
list_events org user status limit offset d =
    take limit (drop offset (sort_by newest_first (keep (listed_event org user status) d.events)))

unfoldable pub count_events : ℕ → ℕ → Option EventStatus → NotifyDb → ℕ
count_events org user status d = count_if (listed_event org user status) d.events
