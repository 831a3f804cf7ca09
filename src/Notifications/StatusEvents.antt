-- ===== src/Notifications/StatusEvents.antt =====
-- The events of services that break down or recover.
use balance_tracker.Prelude.{
  ℕ, Bool, true, false, ◌&&◌, ◌||◌, Option, none, some, List, [], ◌∷◌, ◌++◌, map, ltb, ◌==◌,
  if◌then◌else◌,
}
use balance_tracker.Prelude.Lists.{keep}
use balance_tracker.Prelude.Sort.{sort_by}
use balance_tracker.Prelude.Text.{Text, codes, text_eq, is_empty}
use balance_tracker.Json.{Json, end, field, text, null, get, text_or_null}
use balance_tracker.ServiceStatus.{ServiceStatus}
use balance_tracker.Notifications.Store.{NotificationSetting, NotificationCursor, NotifyDb}
use balance_tracker.Notifications.Events.{EventRequest, enqueue_event}
use balance_tracker.Notifications.Settings.{
  EventType, list_enabled_settings, ensure_default_settings_for_org, get_cursor, upsert_cursor,
}
use balance_tracker.Notifications.Generate.{
  Format, Generated, alone, for_each_user, count_created, normalized_service, is_in,
}
use balance_tracker.Notifications.JobEvents.{either_text}

abbrev pub state_name : Bool → Text
state_name true = codes "healthy"
state_name false = codes "unhealthy"

-- `str(status.last_error or "Integration refresh requires attention.")`
abbrev pub error_text : Option Text → Text
error_text none = codes "Integration refresh requires attention."
error_text (some e) = either_text e (codes "Integration refresh requires attention.")

unfoldable pub service_status_body : ServiceStatus → Text
service_status_body r =
    let service = either_text r.service (codes "service") in
    if r.is_healthy
    then service ++ codes " is healthy again."
    else service ++ (codes " requires attention: " ++ error_text r.last_error)

unfoldable pub status_request : Format → NotificationSetting → ServiceStatus → Json → EventRequest
unfolding service_status_body
status_request fmt s r previous =
    let service = normalized_service r.service in
    let state = state_name r.is_healthy in
    let last_check = fmt.isoformat r.last_check in
    record {
      organization_id = s.organization_id;
      user_id = s.user_id;
      event_type = if r.is_healthy then codes "service_recovered" else codes "service_unhealthy";
      title =
          if r.is_healthy
          then service ++ codes " recovered"
          else service ++ codes " needs attention";
      body = service_status_body r;
      dedupe_key =
          codes "service_status:"
          ++ (service ++ (codes ":" ++ (state ++ (codes ":" ++ last_check))));
      severity = if r.is_healthy then codes "info" else codes "warning";
      source = service;
      integration_id = none;
      payload = some (
          field (codes "service") (text service) (
            field (codes "state") (text state) (
              field (codes "previous_state") previous (
                field (codes "last_error") (text_or_null r.last_error)
                  (field (codes "last_check") (text last_check) end)))));
      send_after_at = none;
    }

-- The state that the user was told last.
abbrev pub previous_state : Option NotificationCursor → Json
previous_state none = null
previous_state (some c) = get (codes "state") c.payload

-- `previous_state is None or previous_state == state`
abbrev pub is_no_news : Json → Text → Bool
is_no_news null state = true
is_no_news (text t) state = text_eq t state
is_no_news _ state = false

unfoldable pub remember_state : Format → NotificationSetting → ServiceStatus → NotifyDb → NotifyDb
unfolding upsert_cursor
remember_state fmt s r d =
    let last_check = fmt.isoformat r.last_check in
    upsert_cursor s.organization_id s.user_id (codes "service_status")
      (normalized_service r.service) (some last_check)
      (some (
        field (codes "state") (text (state_name r.is_healthy)) (
          field (codes "last_error") (text_or_null r.last_error)
            (field (codes "last_check") (text last_check) end))))
      d

-- One turn of the inner loop: whether an event was created.
unfoldable pub status_turn :
    Format → ℕ → NotificationSetting → ServiceStatus → NotifyDb → Option Bool × NotifyDb
unfolding get_cursor remember_state status_request enqueue_event
status_turn fmt now s r d =
    let service = normalized_service r.service in
    if is_empty service || is_in (map normalized_service s.muted_services) service
    then (some false, d)
    else let previous =
        previous_state
          (get_cursor s.organization_id s.user_id (codes "service_status") service d) in
      let d₁ = remember_state fmt s r d in
      if is_no_news previous (state_name r.is_healthy)
      then (some false, d₁)
      else let (e, d₂) = enqueue_event now alone (status_request fmt s r previous) d₁ in
        elim e [ none ↦ (none, d₂) | some p ↦ (some p.1, d₂) ]

unfoldable pub status_each :
    Format → ℕ → NotificationSetting → List ServiceStatus → ℕ → NotifyDb → Generated
unfolding status_turn
status_each fmt now s [] n d = (some n, d)
status_each fmt now s (r ∷ rs) n d =
    let (created, d') = status_turn fmt now s r d in
    elim created [ none ↦ (none, d') | some b ↦ status_each fmt now s rs (count_created b n) d' ]

-- `order_by(service)`, by code points.
unfoldable pub text_before : Text → Text → Bool
text_before s [] = false
text_before [] (b ∷ t) = true
text_before (a ∷ s) (b ∷ t) = ltb a b || (a == b && text_before s t)

unfoldable pub list_service_statuses : ℕ → NotifyDb → List ServiceStatus
unfolding text_before
list_service_statuses org d =
    sort_by (λ (a b : ServiceStatus). text_before a.service b.service)
      (keep (λ (r : ServiceStatus). r.organization_id == org) d.statuses)

unfoldable pub generate_system_status_events : Format → ℕ → ℕ → NotifyDb → Generated
unfolding for_each_user status_each list_enabled_settings ensure_default_settings_for_org
    list_service_statuses
generate_system_status_events fmt org now d =
    let d' = ensure_default_settings_for_org org d in
    let statuses = list_service_statuses org d' in
    for_each_user (λ s. status_each fmt now s statuses)
      (list_enabled_settings (some org) (some EventType.system) d') 0 d'
