-- ===== src/SyncJob/Settle.antt =====
-- How `run_claimed_job` ends a job, by what its attempt came to, and what it tells the status
-- table. The attempt itself (the entitlement check, the provider's answer and the saving of the
-- balance) enters as its outcome.
use balance_tracker.Prelude.{
  ℕ, ◌+◌, ◌/◌, ◌%◌, Bool, true, false, not, ◌||◌, Option, none, some, List, ◌∷◌, ◌++◌, leb, ◌==◌,
  if◌then◌else◌,
}
use balance_tracker.Prelude.Lists.{length, update_where, take}
use balance_tracker.Prelude.Text.{Text, codes, text_eq, is_empty}
use balance_tracker.Json.{Json, Fields, end, field, obj, text, get, truthy, lookup, update}
use balance_tracker.Integration.{Integration}
use balance_tracker.ServiceStatus.{ServiceStatus, update_status}
use balance_tracker.SyncJob.Store.{Job, JobStatus, JobStore, SyncSettings, has_id}
use balance_tracker.SyncJob.Key.{show_nat}

-- `refreshed` has the provider's status, message and data, after the balance was saved; `denied`
-- is an HTTPException with its detail, if that is a dictionary; `timed_out` is
-- `asyncio.TimeoutError`; `crashed` is any other Exception with its text. A CancelledError is no
-- Exception: it is the absence of an outcome.
pub data Outcome : Type 0 where
  refreshed : Text → Text → Json → Outcome
  denied : Option Fields → Outcome
  timed_out : Outcome
  crashed : Text → Outcome

unfoldable pub attach_retry_metadata : Option Fields → Fields
attach_retry_metadata detail =
    let payload =
      field (codes "code") (text (codes "refresh_rate_limited")) (
        field (codes "message") (text (codes "Refresh rate limit exceeded for current plan"))
          end) in
    elim detail [ none ↦ payload | some d ↦ update payload d ]

-- `d.get(k, default)`
abbrev get_default : Text → Json → Fields → Json
get_default k v d = elim (lookup k d) [ none ↦ v | some w ↦ w ]

-- `str(v or default)`; `render` is Python's `str` on a value that is no text.
abbrev text_or : (Json → Text) → Json → Text → Text
text_or render (text s) default = if is_empty s then default else s
text_or render v default = if truthy v then render v else default

rate_limited_result : Fields → Json
rate_limited_result d = obj (
    field (codes "status") (text (codes "rate_limited")) (
      field (codes "code") (get_default (codes "code") (text (codes "refresh_rate_limited")) d) (
        field (codes "message")
          (get_default (codes "message") (text (codes "Refresh rate limit exceeded")) d)
          (field (codes "retry_after_seconds") (get (codes "retry_after_seconds") d) (
            field (codes "min_refresh_interval_seconds")
              (get (codes "min_refresh_interval_seconds") d) end)))))

-- `f"{seconds:.1f}"`, rounded half up
tenths : ℕ → Text
tenths t = let n = (t + 50_000) / 100_000 in show_nat (n / 10) ++ (46 ∷ show_nat (n % 10))

unfoldable pub timeout_message : ℕ → Text
unfolding tenths
timeout_message t = codes "Refresh provider timeout after " ++ (tenths t ++ codes "s")

abbrev pub is_ok : Text → Bool
is_ok status = text_eq status (codes "ok") || text_eq status (codes "not_implemented")

-- `message or "Refresh failed"`
abbrev pub or_refresh_failed : Text → Text
or_refresh_failed s = if is_empty s then codes "Refresh failed" else s

-- The job's new status, result and message, and the error to report for its integration.
pub record Ending : Type 0 where
  pub status : JobStatus
  pub result : Json
  pub error_message : Option Text
  pub unhealthy : Option Text

unfoldable pub ending : SyncSettings → (Json → Text) → Text → Outcome → Ending
unfolding attach_retry_metadata rate_limited_result timeout_message
ending cfg render provider (refreshed status message content) =
    let ok = is_ok status in
    record {
      status = if ok then JobStatus.completed else JobStatus.failed;
      result = obj (
          field (codes "provider") (text provider) (
            field (codes "status") (text status)
              (field (codes "message") (text message) (field (codes "data") content end))));
      error_message = if ok then none else some message;
      unhealthy = if ok then none else some (or_refresh_failed message);
    }
ending cfg render provider (denied detail) =
    let d = attach_retry_metadata detail in
    record {
      status = JobStatus.failed;
      result = rate_limited_result d;
      error_message =
          some (text_or render (get (codes "message") d) (codes "Refresh rate limited"));
      unhealthy = none;
    }
ending cfg render provider timed_out = record {
  status = JobStatus.failed;
  result = obj (
      field (codes "status") (text (codes "failed"))
        (field (codes "code") (text (codes "refresh_provider_timeout")) end));
  error_message = some (timeout_message cfg.provider_timeout);
  unhealthy = some (timeout_message cfg.provider_timeout);
}
ending cfg render provider (crashed message) = record {
  status = JobStatus.failed;
  result = obj end;
  error_message = some message;
  unhealthy = some (or_refresh_failed message);
}

-- What a worker's session writes.
pub record Session : Type 0 where
  pub store : JobStore
  pub integrations : List Integration
  pub statuses : List ServiceStatus

-- `service_key` is that of the integration, `none` where the attempt loaded none.
unfoldable pub mark_integration_unhealthy :
    Option Text → ℕ → Option Text → ℕ → List ServiceStatus → List ServiceStatus
mark_integration_unhealthy none org error now rows = rows
mark_integration_unhealthy (some service_key) org none now rows = rows
mark_integration_unhealthy (some service_key) org (some error) now rows =
    if is_empty service_key
    then rows
    else update_status service_key false (some (take 500 error)) org now rows

abbrev pub synced : Outcome → ℕ → Option ℕ → List Integration → List Integration
synced (refreshed _ _ _) now (some i) rows =
    update_where (λ (r : Integration). r.id == i) (λ r. record r { last_synced_at = some now }) rows
synced _ now _ rows = rows

abbrev pub settled : Ending → ℕ → Job → Job
settled e now j = record j {
  status = e.status;
  result = e.result;
  error_message = e.error_message;
  finished_at = some now;
}

-- `error_message` is a String(1000), a bound that PostgreSQL enforces when the row is written.
unfoldable pub fits : Bool → Option Text → Bool
fits postgresql none = true
fits postgresql (some m) = not postgresql || leb (length m) 1_000

-- What is written of a job whose attempt was cancelled.
abbrev pub interrupted : ℕ → Job → Job
interrupted now j = record j { finished_at = some now }

-- `none` as a result is an exception that leaves the call: of the attempt, which was cancelled before
-- it wrote anything of an outcome (`none` as an outcome), or of the database, which refuses the
-- message; the session is then rolled back to the claim.
unfoldable pub run_claimed_job :
    SyncSettings
    → (Json → Text)
    → Bool
    → Text
    → Option Text
    → Option Outcome
    → ℕ
    → Job
    → Session
    → Option Job × Session
unfolding ending mark_integration_unhealthy fits
run_claimed_job cfg render postgresql provider service_key none now j w =
    let s = w.store in
    (
      none,
      record w { store = record s { jobs = update_where (has_id j.id) (interrupted now) s.jobs } },
    )
run_claimed_job cfg render postgresql provider service_key (some outcome) now j w =
    let e = ending cfg render provider outcome in
    let s = w.store in
    if fits postgresql e.error_message
    then (
      some (settled e now j),
      record w {
        store = record s { jobs = update_where (has_id j.id) (settled e now) s.jobs };
        integrations = synced outcome now j.integration_id w.integrations;
        statuses =
            mark_integration_unhealthy service_key j.organization_id e.unhealthy now w.statuses;
      },
    )
    else (none, w)
