-- ===== src/RefreshQueue.antt =====
-- Queueing refreshes: `queue_refresh_for_organization` and `queue_refresh_for_integration` of
-- app/services/sync_job_service.py, which app/services/refresh_orchestrator.py passes on, and
-- `queue_integration_refresh` of app/services/integration_service.py.
pub mod Laws
mod Tests
use balance_tracker.Prelude.{
  ℕ, Bool, true, false, ◌&&◌, ◌||◌, Option, none, some, List, [], ◌∷◌, ltb, ◌==◌, is_some,
  if◌then◌else◌,
}
use balance_tracker.Prelude.Lists.{keep, best}
use balance_tracker.Prelude.Text.{Text, codes, text_eq}
use balance_tracker.Json.{Fields, end, field, text}
use balance_tracker.Clock.{Datetime, aware}
use balance_tracker.Integration.{Integration}
use balance_tracker.Entitlements.Policy.{Policy}
use balance_tracker.Entitlements.Refresh.{ensure_refresh_interval}
use balance_tracker.SyncJob.Store.{Job, JobStatus, JobStore, SyncSettings}
use balance_tracker.SyncJob.Queue.{JobRequest, enqueue_job}
use balance_tracker.SyncJob.Dedupe.{alone}
use balance_tracker.Integrations.Store.{IntegrationRow, IntegrationDb}
use balance_tracker.Integrations.Service.{get_integration}

-- `status.in_(["success", "completed", "partial"])`
abbrev pub is_successful : JobStatus → Bool
is_successful JobStatus.success = true
is_successful JobStatus.completed = true
is_successful JobStatus.partial = true
is_successful _ = false

abbrev pub successful_refresh : ℕ → Job → Bool
successful_refresh org j =
    j.organization_id == org
    && text_eq (codes "refresh") j.job_type
    && is_successful j.status
    && is_some j.finished_at

abbrev time_before : Option ℕ → Option ℕ → Bool
time_before (some x) (some y) = ltb x y
time_before _ _ = false

-- `order_by(finished_at.desc())`
abbrev pub finished_later : Job → Job → Bool
finished_later a b = time_before b.finished_at a.finished_at

abbrev time_of : Option ℕ → Option Datetime
time_of none = none
time_of (some t) = some (aware t)

-- The column is at an instant; it is `none` for no row.
abbrev finish_of : Option Job → Option Datetime
finish_of none = none
finish_of (some j) = time_of j.finished_at

unfoldable pub get_latest_successful_refresh_at : ℕ → List Job → Option Datetime
get_latest_successful_refresh_at org jobs =
    finish_of (best finished_later (keep (successful_refresh org) jobs))

-- The seconds to wait, or `none` where a refresh is allowed.
unfoldable pub ensure_refresh_interval_for_organization : Policy → ℕ → ℕ → List Job → Option ℕ
unfolding get_latest_successful_refresh_at ensure_refresh_interval
ensure_refresh_interval_for_organization p org now jobs =
    ensure_refresh_interval p (get_latest_successful_refresh_at org jobs) now

-- What a request to refresh ends with; `failed` is an IntegrityError that is raised again.
pub data Queued (A : Type 0) : Type 0 where
  queued : A → Queued A
  rate_limited : ℕ → Queued A
  not_found inactive failed : Queued A

abbrev pub refresh_request : ℕ → ℕ → Option Fields → JobRequest
refresh_request org i payload = record {
  organization_id = org;
  integration_id = some i;
  job_type = codes "refresh";
  payload = payload;
}

abbrev pub active_of_org : ℕ → Integration → Bool
active_of_org org i = i.organization_id == org && i.is_active

module _ (cfg : SyncSettings) (fingerprint : Fields → Text) (now : ℕ) where
  -- The loop over the integrations, while no other session writes.
  unfoldable pub enqueue_each :
      ℕ → Option Fields → List Integration → JobStore → Option (List Job) × JobStore
  unfolding enqueue_job
  enqueue_each org payload [] s = (some [], s)
  enqueue_each org payload (i ∷ is) s =
      let (job, s₁) =
        enqueue_job cfg fingerprint now (refresh_request org i.id payload) alone alone s in
      elim job [
        | none ↦ (none, s₁)
        | some j ↦
            let (jobs, s₂) = enqueue_each org payload is s₁ in
            elim jobs [ none ↦ (none, s₂) | some js ↦ (some (j ∷ js), s₂) ]
      ]

  abbrev pub queued_all : Option (List Job) → Queued (List Job)
  queued_all none = failed
  queued_all (some js) = queued js

  unfoldable pub after_interval :
      ℕ → Option Fields → List Integration → Option ℕ → JobStore → Queued (List Job) × JobStore
  unfolding enqueue_each
  after_interval org payload rows (some wait) s = (rate_limited wait, s)
  after_interval org payload rows none s =
      let (jobs, s') = enqueue_each org payload (keep (active_of_org org) rows) s in
      (queued_all jobs, s')

  unfoldable pub queue_refresh_for_organization :
      Policy → ℕ → Option Fields → List Integration → JobStore → Queued (List Job) × JobStore
  unfolding after_interval ensure_refresh_interval_for_organization
  queue_refresh_for_organization p org payload rows s =
      after_interval org payload rows (ensure_refresh_interval_for_organization p org now s.jobs) s

  abbrev pub queued_one : Option Job → Queued Job
  queued_one none = failed
  queued_one (some j) = queued j

  unfoldable pub enqueue_after : ℕ → ℕ → Option Fields → Option ℕ → JobStore → Queued Job × JobStore
  unfolding enqueue_job
  enqueue_after org i payload (some wait) s = (rate_limited wait, s)
  enqueue_after org i payload none s =
      let (job, s') =
        enqueue_job cfg fingerprint now (refresh_request org i payload) alone alone s in
      (queued_one job, s')

  unfoldable pub queue_refresh_for_integration :
      Policy → ℕ → ℕ → Option Fields → JobStore → Queued Job × JobStore
  unfolding enqueue_after ensure_refresh_interval_for_organization
  queue_refresh_for_integration p org i payload s =
      enqueue_after org i payload (ensure_refresh_interval_for_organization p org now s.jobs) s

  unfoldable pub queue_found : Policy → ℕ → Option IntegrationRow → JobStore → Queued Job × JobStore
  unfolding queue_refresh_for_integration
  queue_found p org none s = (not_found, s)
  queue_found p org (some x) s =
      if x.integration.is_active
      then queue_refresh_for_integration p org x.integration.id
          (some (field (codes "source") (text (codes "manual_integration_refresh")) end)) s
      else (inactive, s)

  unfoldable pub queue_integration_refresh :
      Policy → ℕ → ℕ → IntegrationDb → JobStore → Queued Job × JobStore
  unfolding queue_found get_integration
  queue_integration_refresh p org i d s = queue_found p org (get_integration org i d) s
