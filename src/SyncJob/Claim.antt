-- ===== src/SyncJob/Claim.antt =====
-- Taking the next queued job, on PostgreSQL and elsewhere, and taking a job by its number.
use balance_tracker.Prelude.{ℕ, Bool, false, ◌&&◌, not, Option, none, some, List, if◌then◌else◌}
use balance_tracker.Prelude.Lists.{keep, any, best, find?, update_where}
use balance_tracker.SyncJob.Store.{Job, JobStatus, JobStore, has_id, is_queued, in_scope, older}

-- `where status = 'queued' [and organization_id = org]`, less the rows that `skip_locked` skips
abbrev pub is_claimable : (ℕ → Bool) → Option ℕ → Job → Bool
is_claimable locked org j =
    is_queued j.status && in_scope org j.organization_id && not (locked j.id)

unfoldable pub select_next : (ℕ → Bool) → Option ℕ → List Job → Option Job
select_next locked org jobs = best older (keep (is_claimable locked org) jobs)

abbrev pub started : ℕ → Job → Job
started now j = record j { status = JobStatus.running; started_at = some now }

-- the guard `id = i and status = 'queued'` of the update
abbrev pub is_queued_id : ℕ → Job → Bool
is_queued_id i j = has_id i j && is_queued j.status

-- `session.get(SyncJob, id)`
unfoldable pub get_job : ℕ → List Job → Option Job
get_job i jobs = find? (has_id i) jobs

-- An update of the rows that pass, `returning(id)`: no row, and the transaction is rolled back.
unfoldable pub start_where : (Job → Bool) → ℕ → ℕ → JobStore → Option Job × JobStore
unfolding get_job
start_where p i now s =
    let jobs' = update_where p (started now) s.jobs in
    if any p s.jobs then (get_job i jobs', record s { jobs = jobs' }) else (none, s)

-- `locked` are the rows that other sessions hold; the chosen row is locked until the commit.
unfoldable pub claim_next_job_postgres :
    (ℕ → Bool) → Option ℕ → ℕ → JobStore → Option Job × JobStore
unfolding select_next start_where
claim_next_job_postgres locked org now s = elim (select_next locked org s.jobs) [
  | none ↦ (none, s)
  | some c ↦ start_where (has_id c.id) c.id now s
]

-- `others` is what other sessions commit between the choice and the update.
unfoldable pub claim_next_job_fallback :
    (JobStore → JobStore) → Option ℕ → ℕ → JobStore → Option Job × JobStore
unfolding select_next start_where
claim_next_job_fallback others org now s = elim (select_next (λ _. false) org s.jobs) [
  | none ↦ (none, s)
  | some c ↦ start_where (is_queued_id c.id) c.id now (others s)
]

unfoldable pub claim_next_job :
    Bool → (ℕ → Bool) → (JobStore → JobStore) → Option ℕ → ℕ → JobStore → Option Job × JobStore
unfolding claim_next_job_postgres claim_next_job_fallback
claim_next_job postgresql locked others org now s =
    if postgresql
    then claim_next_job_postgres locked org now s
    else claim_next_job_fallback others org now s
