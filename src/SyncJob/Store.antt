-- ===== src/SyncJob/Store.antt =====
-- The rows of `sync_jobs` and the counters that the service increments.
use balance_tracker.Prelude.{
  ℕ, Bool, true, false, ◌&&◌, ◌||◌, Option, none, some, List, ltb, ◌==◌, ◌≡◌, is_some,
}
use balance_tracker.Prelude.Text.{Text, text_eq}
use balance_tracker.Json.{Json, Fields}

-- The values that the code writes into the column `status`.
pub data JobStatus : Type 0 where
  queued running completed success partial failed : JobStatus

pub record Job : Type 0 where
  pub id : ℕ
  pub organization_id : ℕ
  pub integration_id : Option ℕ
  pub job_type : Text
  pub status : JobStatus
  pub dedupe_key : Option Text
  pub payload : Fields
  pub result : Json
  pub error_message : Option Text
  pub queued_at : ℕ
  pub started_at : Option ℕ
  pub finished_at : Option ℕ

-- `enqueued`, `deduped` and `recovered` are the counters of `metrics_service`.
pub record JobStore : Type 0 where
  pub jobs : List Job
  pub next_id : ℕ
  pub enqueued : ℕ
  pub deduped : ℕ
  pub recovered : ℕ

pub record SyncSettings : Type 0 where
  pub enable_syncjob_dedupe : Bool
  pub running_timeout_seconds : ℕ
  -- in microseconds
  pub provider_timeout : ℕ

abbrev pub is_queued : JobStatus → Bool
is_queued JobStatus.queued = true
is_queued _ = false

abbrev pub is_running : JobStatus → Bool
is_running JobStatus.running = true
is_running _ = false

-- The statuses of the partial unique index `uq_sync_jobs_active_dedupe_key`.
abbrev pub is_active : JobStatus → Bool
is_active JobStatus.queued = true
is_active JobStatus.running = true
is_active _ = false

abbrev pub key_is : Text → Option Text → Bool
key_is k none = false
key_is k (some j) = text_eq k j

-- An active job under the key: what the unique index allows once.
abbrev pub holds_key : Text → Job → Bool
holds_key k j = is_active j.status && key_is k j.dedupe_key

-- `organization_id is None or row.organization_id == organization_id`
abbrev pub in_scope : Option ℕ → ℕ → Bool
in_scope none org = true
in_scope (some o) org = org == o

-- `order_by(queued_at.desc(), id.desc())`
abbrev pub newer : Job → Job → Bool
newer a b = ltb b.queued_at a.queued_at || (a.queued_at == b.queued_at && ltb b.id a.id)

-- `order_by(queued_at.asc(), id.asc())`
abbrev pub older : Job → Job → Bool
older a b = newer b a

abbrev pub has_id : ℕ → Job → Bool
has_id i j = j.id == i

-- `started_at` and `finished_at` as a status wants them. A job whose attempt was cancelled runs on
-- with the time at which the attempt finished.
abbrev pub DatedAs : JobStatus → Option ℕ → Option ℕ → Type 0
DatedAs JobStatus.queued started finished = (started ≡ none) × (finished ≡ none)
DatedAs JobStatus.running started finished = is_some started ≡ true
DatedAs _ started finished = is_some finished ≡ true

abbrev pub IsDated : Job → Type 0
IsDated j = DatedAs j.status j.started_at j.finished_at
