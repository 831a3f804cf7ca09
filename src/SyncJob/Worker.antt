-- ===== src/SyncJob/Worker.antt =====
-- The worker's calls: take the next job and run it, or run a job by its number.
use balance_tracker.Prelude.{ℕ, Bool, Option, none, some, if◌then◌else◌}
use balance_tracker.Prelude.Text.{Text}
use balance_tracker.Json.{Json}
use balance_tracker.SyncJob.Store.{Job, JobStore, SyncSettings, is_queued}
use balance_tracker.SyncJob.Claim.{get_job, start_where, is_queued_id, claim_next_job}
use balance_tracker.SyncJob.Settle.{Outcome, Session, run_claimed_job}

-- What the attempt at a claimed job comes to: the integration's provider and service key, if it was
-- loaded, and the outcome, `none` where the attempt is cancelled.
pub record Attempt : Type 0 where
  pub provider : Text
  pub service_key : Option Text
  pub outcome : Option Outcome

-- A round of the worker finds no job, or hands one back, or an exception leaves it.
pub data Round : Type 0 where
  idle raised : Round
  handed : Job → Round

abbrev pub round_of : Option Job → Round
round_of none = raised
round_of (some j) = handed j

module _ (cfg : SyncSettings) (render : Json → Text) (attempt : Job → Attempt)
    (postgresql : Bool) where
  -- `finish` is the time at which the attempt ends.
  unfoldable pub run_attempt : ℕ → Job → Session → Option Job × Session
  run_attempt finish j w =
      let a = attempt j in
      run_claimed_job cfg render postgresql a.provider a.service_key a.outcome finish j w

  -- What follows a claim: nothing, or the run.
  unfoldable pub after_claim : ℕ → Option Job → Session → Round × Session
  unfolding run_attempt
  after_claim finish none w = (idle, w)
  after_claim finish (some j) w = let (o, w') = run_attempt finish j w in (round_of o, w')

  unfoldable pub run_next_job :
      (ℕ → Bool) → (JobStore → JobStore) → Option ℕ → ℕ → ℕ → Session → Round × Session
  unfolding after_claim
  run_next_job locked others org now finish w =
      let (claimed, s) = claim_next_job postgresql locked others org now w.store in
      after_claim finish claimed (record w { store = s })

  -- `none` is an exception: the NoResultFound of `scalar_one`, or one of the run. A job that is not
  -- queued is returned as it is, and one that another worker took in between is read again.
  unfoldable pub run_job : (JobStore → JobStore) → ℕ → ℕ → ℕ → Session → Option Job × Session
  unfolding run_attempt get_job start_where
  run_job others id now finish w = elim (get_job id w.store.jobs) [
    | none ↦ (none, w)
    | some j ↦
        if is_queued j.status
        then (let (claimed, s) = start_where (is_queued_id id) id now (others w.store) in
            elim claimed [
              | none ↦ (get_job id s.jobs, record w { store = s })
              | some c ↦ run_attempt finish c (record w { store = s })
            ])
        else (some j, w)
  ]
