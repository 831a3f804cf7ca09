-- ===== src/Notifications/JobEvents.antt =====
-- The events of failed refresh jobs.
use balance_tracker.Prelude.{
  ℕ, max, Bool, true, false, ◌&&◌, ◌||◌, Option, none, some, List, [], ◌∷◌, ◌++◌, map, ltb, ◌==◌,
  if◌then◌else◌,
}
use balance_tracker.Prelude.Lists.{keep, take}
use balance_tracker.Prelude.Sort.{sort_by}
use balance_tracker.Prelude.Int.{pos}
use balance_tracker.Prelude.Text.{Text, codes, text_eq, lower, contains, is_empty}
use balance_tracker.Json.{Json, Fields, end, field, text, int, null, get, as_dict, truthy}
use balance_tracker.SyncJob.Key.{show_nat}
use balance_tracker.SyncJob.Store.{Job, JobStatus}
use balance_tracker.Notifications.Store.{NotificationSetting, NotificationCursor, NotifyDb}
use balance_tracker.Notifications.Events.{EventRequest, enqueue_event}
use balance_tracker.Notifications.Settings.{
  EventType, list_enabled_settings, ensure_default_settings_for_org, get_cursor, upsert_cursor,
  read_cursor, max_id,
}
use balance_tracker.Notifications.Generate.{
  Format, Generated, alone, for_each_user, count_created, move_cursor,
}

abbrev pub is_failed : JobStatus → Bool
is_failed JobStatus.failed = true
is_failed _ = false

-- The failed jobs since the cursor, the oldest first.
unfoldable pub failed_since : ℕ → ℕ → ℕ → List Job → List Job
failed_since limit org last jobs = take (max 1 limit) (
    sort_by (λ a b. ltb a.id b.id)
      (keep (λ (j : Job). j.organization_id == org && ltb last j.id && is_failed j.status) jobs))

-- `value or ""`
abbrev pub text_or_empty : Option Text → Text
text_or_empty none = []
text_or_empty (some t) = t

abbrev code_in : (Json → Text) → Option Fields → Text
code_in str none = []
code_in str (some f) = let v = get (codes "code") f in if truthy v then str v else []

-- `str(result_payload.get("code") or "")`
unfoldable pub job_code : (Json → Text) → Job → Text
job_code str j = code_in str (as_dict j.result)

unfoldable pub needs_attention : Text → Text → Bool
needs_attention code error =
    text_eq code (codes "stale_running_job_recovered")
    || text_eq code (codes "refresh_provider_timeout")
    || contains (codes "timeout") (lower error)
    || contains (codes "stale") (lower error)

-- `a or b`
abbrev pub either_text : Text → Text → Text
either_text a b = if is_empty a then b else a

abbrev pub id_or_null : Option ℕ → Json
id_or_null none = null
id_or_null (some i) = int (pos i)

unfoldable pub job_request : Format → NotificationSetting → Job → EventRequest
unfolding job_code show_nat
job_request fmt s j =
    let error = text_or_empty j.error_message in
    let code = job_code fmt.str j in
    record {
      organization_id = s.organization_id;
      user_id = s.user_id;
      event_type = codes "sync_job_failed";
      title = codes "Refresh job needs attention";
      body =
          codes "Refresh job "
          ++ (show_nat j.id
              ++ (codes " failed: "
                  ++ either_text error (either_text code (codes "unknown error"))));
      dedupe_key = codes "sync_job:" ++ (show_nat j.id ++ codes ":failed");
      severity = codes "warning";
      source = codes "sync_jobs";
      integration_id = j.integration_id;
      payload = some (
          field (codes "job_id") (int (pos j.id)) (
            field (codes "integration_id") (id_or_null j.integration_id)
              (field (codes "code") (text code) (field (codes "error_message") (text error) end))));
      send_after_at = none;
    }

unfoldable pub report_each : Format → ℕ → NotificationSetting → List Job → ℕ → NotifyDb → Generated
unfolding needs_attention job_code job_request enqueue_event
report_each fmt now s [] n d = (some n, d)
report_each fmt now s (j ∷ js) n d =
    elim (needs_attention (job_code fmt.str j) (text_or_empty j.error_message)) [
      | true ↦
          let (r, d') = enqueue_event now alone (job_request fmt s j) d in
          elim r [ none ↦ (none, d') | some e ↦ report_each fmt now s js (count_created e.1 n) d' ]
      | false ↦ report_each fmt now s js n d
    ]

abbrev pub job_ids : List Job → List ℕ
job_ids js = map (λ (j : Job). j.id) js

unfoldable pub report_since : Format → ℕ → ℕ → NotificationSetting → ℕ → ℕ → NotifyDb → Generated
unfolding failed_since report_each move_cursor
report_since fmt limit now s last n d =
    let js = failed_since limit s.organization_id last d.jobs in
    let (r, d') = report_each fmt now s js n d in
    elim r [
      | none ↦ (none, d')
      | some m ↦ (
        some m,
        move_cursor fmt now s (codes "sync_jobs") (codes "failed") last
            (max last (max_id (job_ids js))) d',
      )
    ]

-- The first call only remembers the newest job.
unfoldable pub job_events_at :
    Format → ℕ → ℕ → NotificationSetting → ℕ → Option NotificationCursor → NotifyDb → Generated
unfolding report_since upsert_cursor read_cursor show_nat
job_events_at fmt limit now s n none d =
    let top =
      max_id (job_ids (keep (λ (j : Job). j.organization_id == s.organization_id) d.jobs)) in
    (
      some n,
      upsert_cursor s.organization_id s.user_id (codes "sync_jobs") (codes "failed")
          (some (show_nat top)) (some (field (codes "seeded_at") (text (fmt.isoformat now)) end)) d,
    )
job_events_at fmt limit now s n (some c) d =
    report_since fmt limit now s (read_cursor c.cursor_value) n d

unfoldable pub job_events_for : Format → ℕ → ℕ → NotificationSetting → ℕ → NotifyDb → Generated
unfolding job_events_at get_cursor
job_events_for fmt limit now s n d =
    job_events_at fmt limit now s n
      (get_cursor s.organization_id s.user_id (codes "sync_jobs") (codes "failed") d) d

unfoldable pub generate_sync_job_events : Format → ℕ → ℕ → ℕ → NotifyDb → Generated
unfolding for_each_user job_events_for list_enabled_settings ensure_default_settings_for_org
generate_sync_job_events fmt org limit now d =
    let d' = ensure_default_settings_for_org org d in
    for_each_user (job_events_for fmt limit now)
      (list_enabled_settings (some org) (some EventType.system) d') 0 d'
