-- ===== src/SyncJob/Tests.antt =====
-- The queue's theorems on concrete tables.
use balance_tracker.Prelude.{
  ℕ, ◌+◌, ◌*◌, ◌-◌, ◌≤◌, ◌≡◌, ◌≢◌, refl, ap, Bool, true, false, none, some, [], ◌∷◌, Memᴰ, arith,
}
use balance_tracker.Prelude.Lists.{any, count_if, length, All}
use balance_tracker.Prelude.Text.{Text, codes}
use balance_tracker.Json.{Json, Fields, end, obj}
use balance_tracker.ServiceStatus.{ServiceStatus, get_status, update_status}
use balance_tracker.ServiceStatus.Laws.{get_status-update_status}
use balance_tracker.SyncJob.Store.{
  Job, JobStatus, JobStore, SyncSettings, holds_key, older, is_running,
}
use balance_tracker.SyncJob.Key.Distinct.{build_dedupe_key_injective}
use balance_tracker.SyncJob.Queue.{
  JobRequest, is_stale, recover_stale_running_jobs, stale_running_timeout_seconds, enqueue_job,
}
use balance_tracker.SyncJob.Claim.{
  is_claimable, select_next, start_where, get_job, claim_next_job, claim_next_job_fallback,
}
use balance_tracker.SyncJob.Settle.{timed_out, Session, run_claimed_job}
use balance_tracker.SyncJob.Worker.{Attempt}
use balance_tracker.SyncJob.Invariant.{
  IsValid, enqueue_job-IsValid, recover_stale_running_jobs-IsValid,
}
use balance_tracker.SyncJob.Dedupe.{alone, key_of, enqueue_job_again}
use balance_tracker.SyncJob.ClaimLaws.{select_next_lem, Taken}
use balance_tracker.SyncJob.ClaimOnce.{
  claim_next_job-IsValid, claim_next_job-Taken, claim_next_job_once,
}
use balance_tracker.SyncJob.Recovery.{
  stale_running_timeout_seconds_bounds, Accounted, recover_stale_running_jobs_complete,
}

abbrev settings : SyncSettings
settings = record {
  enable_syncjob_dedupe = true;
  running_timeout_seconds = 900;
  provider_timeout = 120_000_000;
}

abbrev waiting : Job
waiting = record {
  id = 7;
  organization_id = 3;
  integration_id = some 5;
  job_type = codes "refresh";
  status = JobStatus.queued;
  dedupe_key = some (codes "a");
  payload = end;
  result = obj end;
  error_message = none;
  queued_at = 100;
  started_at = none;
  finished_at = none;
}

abbrev busy : Job
busy = record waiting {
  id = 4;
  status = JobStatus.running;
  dedupe_key = none;
  started_at = some 120;
}

abbrev store : JobStore
store = record { jobs = waiting ∷ busy ∷ []; next_id = 8; enqueued = 0; deduped = 0; recovered = 0 }

abbrev nobody : ℕ → Bool
nobody i = false

store-IsValid : IsValid store
store-IsValid = record {
  one_active = λ k. ground arith;
  unique_id = λ i. ground arith;
  numbered = (omega arith, (omega arith, tt));
  dated = ((refl, refl), (refl, tt));
}

abbrev request : JobRequest
request = record {
  organization_id = 3;
  integration_id = some 5;
  job_type = codes "refresh";
  payload = none;
}

abbrev digest : Fields → Text
digest d = codes "0"

abbrev taken : Job
taken = record waiting { status = JobStatus.running; started_at = some 200 }

abbrev after : JobStore
after = record store { jobs = taken ∷ busy ∷ [] }

claimed : claim_next_job false nobody alone none 200 store ≡ (some taken, after)
unfolding claim_next_job claim_next_job_fallback select_next start_where get_job
claimed = refl

only_busy : (x : Job) → Memᴰ x store.jobs → x.id ≡ 4 → x.status ≡ JobStatus.running
only_busy x (Memᴰ.head e) q = absurd (ground (arith, ap (λ (j : Job). j.id) e))
only_busy x (Memᴰ.tail (Memᴰ.head e)) q = ap (λ (j : Job). j.status) e
only_busy x (Memᴰ.tail (Memᴰ.tail m)) q = elim m [ ]

claim_next_job_once_example : taken.id ≢ 4
claim_next_job_once_example =
    claim_next_job_once false nobody alone none 200 4 store after taken store-IsValid store-IsValid
      only_busy claimed

claim_next_job-Taken_example : Taken 200 store taken after
claim_next_job-Taken_example =
    claim_next_job-Taken nobody alone none 200 store store-IsValid store-IsValid false taken after
      claimed

claim_next_job-IsValid_example : IsValid (claim_next_job true nobody alone (some 3) 200 store).1
claim_next_job-IsValid_example =
    claim_next_job-IsValid nobody alone (some 3) 200 store store-IsValid store-IsValid true

select_next_lem_example :
    (c : Job) × (select_next nobody none store.jobs ≡ some c)
    × (is_claimable nobody none c ≡ true)
    × Memᴰ c store.jobs
    × (older waiting c ≡ false)
select_next_lem_example = select_next_lem nobody none store.jobs waiting (Memᴰ.head refl) refl

enqueue_job_again_example :
    let (o, s₁) = enqueue_job settings digest 300 request alone alone store in
    let (o', s₂) = enqueue_job settings digest 310 request alone alone s₁ in
    (j : Job) × (o ≡ some j)
    × (o' ≡ some j)
    × (holds_key (key_of digest request) j ≡ true)
    × (s₂.jobs ≡ s₁.jobs)
    × (length s₁.jobs ≤ length store.jobs + 1)
enqueue_job_again_example =
    enqueue_job_again settings digest request refl 300 310 store store-IsValid

enqueue_job-IsValid_example : IsValid (enqueue_job settings digest 300 request alone alone store).1
enqueue_job-IsValid_example =
    enqueue_job-IsValid settings digest 300 request alone alone store (λ t v. v) (λ t v. v)
      store-IsValid

recover_stale_running_jobs-IsValid_example :
    IsValid (recover_stale_running_jobs settings none none 999_000_000 store).1
recover_stale_running_jobs-IsValid_example =
    recover_stale_running_jobs-IsValid settings none none 999_000_000 store store-IsValid

recover_stale_running_jobs_complete_example :
    let cutoff = 999_000_000 - stale_running_timeout_seconds settings (some 60) * 1_000_000 in
    let (n, s') = recover_stale_running_jobs settings (some 60) none 999_000_000 store in
    (any (is_stale cutoff none) s'.jobs ≡ false)
    × (count_if (λ x. is_running x.status) s'.jobs + n
        ≡ count_if (λ x. is_running x.status) store.jobs)
    × All (Accounted cutoff none 999_000_000 s'.jobs) store.jobs
recover_stale_running_jobs_complete_example =
    recover_stale_running_jobs_complete settings (some 60) none 999_000_000 store

stale_running_timeout_seconds_bounds_example :
    (60 ≤ stale_running_timeout_seconds settings none)
    × (stale_running_timeout_seconds settings none ≤ 180)
stale_running_timeout_seconds_bounds_example =
    stale_running_timeout_seconds_bounds settings (omega arith)

build_dedupe_key_injective_example :
    (request.organization_id ≡ 3)
    × (request.integration_id ≡ some 5)
    × (request.job_type ≡ codes "refresh")
    × (digest end ≡ digest end)
build_dedupe_key_injective_example =
    build_dedupe_key_injective digest 3 3 (some 5) (some 5) (codes "refresh") (codes "refresh") none
      none (λ d e. refl) refl

abbrev render : Json → Text
render j = codes "x"

abbrev attempt : Job → Attempt
attempt j = record {
  provider = codes "bybit";
  service_key = some (codes "bybit");
  outcome = some timed_out;
}

abbrev session : Session
session = record { store = store; integrations = []; statuses = [] }

-- An attempt that is cancelled leaves its job running.
cancelled_attempt :
    let (o, w') =
      run_claimed_job settings render true
        (codes "bybit")
        none
        none
        250
        taken
        (record session { store = record store { jobs = taken ∷ [] } }) in
    (o ≡ none) × (w'.store.jobs ≡ record taken { finished_at = some 250 } ∷ [])
unfolding run_claimed_job
cancelled_attempt = (refl, refl)

get_status-update_status_example :
    (r : ServiceStatus) × (get_status 3
        (codes "okx")
        (update_status (codes "okx") false (some (codes "down")) 3 90 [])
      ≡ some r)
    × (r.is_healthy ≡ false)
    × (r.last_error ≡ some (codes "down"))
    × (r.last_check ≡ 90)
get_status-update_status_example =
    get_status-update_status (codes "okx") false (some (codes "down")) 3 90 []
