-- ===== src/SyncJob/Queue.antt =====
-- Enqueueing a job, and the recovery of jobs that a dead worker left running.
use balance_tracker.Prelude.{
  ℕ, ◌+◌, ◌-◌, ◌*◌, ◌/◌, min, max, Bool, false, ◌&&◌, Option, none, some, List, ◌∷◌, ltb,
  if◌then◌else◌, or_else,
}
use balance_tracker.Prelude.Lists.{keep, any, best, count_if, update_where}
use balance_tracker.Prelude.Text.{Text, codes}
use balance_tracker.Json.{Fields, end, field, obj, text}
use balance_tracker.Clock.{second}
use balance_tracker.SyncJob.Store.{
  Job, JobStatus, JobStore, SyncSettings, is_running, holds_key, in_scope, newer,
}
use balance_tracker.SyncJob.Key.{build_dedupe_key}

unfoldable pub stale_running_timeout_seconds : SyncSettings → Option ℕ → ℕ
stale_running_timeout_seconds cfg (some t) = max 60 t
stale_running_timeout_seconds cfg none =
    let configured = cfg.running_timeout_seconds in
    let ceiling = cfg.provider_timeout / second + 60 in
    max 60 (
      if ltb 0 cfg.provider_timeout
      then (if ltb 0 configured then min configured ceiling else ceiling)
      else configured)

abbrev pub started_before : ℕ → Option ℕ → Bool
started_before cutoff none = false
started_before cutoff (some t) = ltb t cutoff

abbrev pub is_stale : ℕ → Option ℕ → Job → Bool
is_stale cutoff org j =
    is_running j.status && started_before cutoff j.started_at && in_scope org j.organization_id

abbrev pub recovered_job : ℕ → Job → Job
recovered_job now j = record j {
  status = JobStatus.failed;
  finished_at = some now;
  error_message = some (codes "Recovered stale running job after worker restart");
  result = obj (
      field (codes "status") (text (codes "failed"))
        (field (codes "code") (text (codes "stale_running_job_recovered")) end));
}

-- The number of jobs recovered, and the store after the commit.
unfoldable pub recover_stale_running_jobs :
    SyncSettings → Option ℕ → Option ℕ → ℕ → JobStore → ℕ × JobStore
unfolding stale_running_timeout_seconds
recover_stale_running_jobs cfg timeout org now s =
    let cutoff = now - stale_running_timeout_seconds cfg timeout * second in
    let n = count_if (is_stale cutoff org) s.jobs in
    (
      n,
      record s {
        jobs = update_where (is_stale cutoff org) (recovered_job now) s.jobs;
        recovered = s.recovered + n;
      },
    )

unfoldable pub find_active_duplicate_job : Text → List Job → Option Job
find_active_duplicate_job key jobs = best newer (keep (holds_key key) jobs)

pub record JobRequest : Type 0 where
  pub organization_id : ℕ
  pub integration_id : Option ℕ
  pub job_type : Text
  pub payload : Option Fields

abbrev pub new_job : ℕ → Option Text → ℕ → JobRequest → Job
new_job id key now r = record {
  id = id;
  organization_id = r.organization_id;
  integration_id = r.integration_id;
  job_type = r.job_type;
  status = JobStatus.queued;
  dedupe_key = key;
  payload = or_else r.payload end;
  result = obj end;
  error_message = none;
  queued_at = now;
  started_at = none;
  finished_at = none;
}

-- Whether the unique index refuses a new active row.
abbrev pub key_taken : Option Text → List Job → Bool
key_taken none jobs = false
key_taken (some k) jobs = any (holds_key k) jobs

abbrev pub insert_job : Job → JobStore → JobStore
insert_job j s = record s { jobs = j ∷ s.jobs; next_id = s.next_id + 1 }

-- What `enqueue_job` does with a lookup's answer: hand the duplicate out, or go on.
abbrev pub deduplicated : Option Job → JobStore → Option Job × JobStore
deduplicated none s = (none, s)
deduplicated (some d) s = (some d, record s { deduped = s.deduped + 1 })

-- The handler of the IntegrityError; `none` re-raises it.
unfoldable pub after_conflict : Option Text → JobStore → Option Job × JobStore
unfolding find_active_duplicate_job
after_conflict none s = (none, s)
after_conflict (some k) s = deduplicated (find_active_duplicate_job k s.jobs) s

-- `others` is what other sessions commit between a refused commit and the second lookup.
unfoldable pub commit_job :
    Option Text → ℕ → JobRequest → (JobStore → JobStore) → JobStore → Option Job × JobStore
unfolding after_conflict
commit_job key now r others s =
    let j = new_job s.next_id key now r in
    if key_taken key s.jobs then after_conflict key (others s) else (some j, insert_job j s)

-- `before` is what other sessions commit between the first lookup and the commit, `others` what
-- they commit between a refused commit and the second lookup.
unfoldable pub enqueue_job :
    SyncSettings
    → (Fields → Text)
    → ℕ
    → JobRequest
    → (JobStore → JobStore)
    → (JobStore → JobStore)
    → JobStore
    → Option Job × JobStore
unfolding build_dedupe_key find_active_duplicate_job commit_job
enqueue_job cfg fingerprint now r before others s₀ =
    let s = record s₀ { enqueued = s₀.enqueued + 1 } in
    let key =
      build_dedupe_key fingerprint r.organization_id r.integration_id r.job_type r.payload in
    if cfg.enable_syncjob_dedupe
    then elim (find_active_duplicate_job key s.jobs) [
      | some d ↦ deduplicated (some d) s
      | none ↦ commit_job (some key) now r others (before s)
    ]
    else commit_job none now r others (before s)
