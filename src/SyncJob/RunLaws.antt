-- ===== src/SyncJob/RunLaws.antt =====
-- A run ends the job, keeps the table valid, and reports a failure once.
use balance_tracker.Prelude.{ℕ, ◌≡◌, Bool, false, Option, none, some, Memᴰ}
use balance_tracker.Prelude.Text.{Text}
use balance_tracker.Json.{Json}
use balance_tracker.ServiceStatus.{ServiceStatus}
use balance_tracker.SyncJob.Store.{Job, JobStatus, JobStore, SyncSettings}
use balance_tracker.SyncJob.Settle.{Outcome, refreshed, denied, timed_out, crashed, is_ok, Session}
use balance_tracker.SyncJob.Worker.{Attempt, Round, round_of}
use balance_tracker.SyncJob.Ran.{Ran}

-- The attempts that are reported to the status table: all but a good answer and a rate refusal.
abbrev pub IsFailure : Outcome → Type 0
IsFailure (refreshed status _ _) = is_ok status ≡ false
IsFailure (denied _) = ⊥
IsFailure timed_out = Unit
IsFailure (crashed _) = Unit

-- What a round of the worker does, by what it claimed and the table after the claim: it found no job,
-- or the one that it claimed stands there running, and then runs.
abbrev pub RoundOf :
    SyncSettings
    → (Json → Text)
    → Bool
    → (Job → Attempt)
    → ℕ
    → Option Job
    → JobStore
    → Round
    → Session
    → Type 0
RoundOf cfg render postgresql attempt finish none s o w' = (o ≡ Round.idle) × (w'.store ≡ s)
RoundOf cfg render postgresql attempt finish (some j) s o w' =
    (x : Option Job) × (w : Session) × (w.store ≡ s)
    × (j.status ≡ JobStatus.running)
    × Memᴰ j s.jobs
    × (o ≡ round_of x)
    × Ran cfg render postgresql (attempt j) finish j x w w'
