-- ===== src/SyncJob/Ran.antt =====
-- How a run of a claimed job ends.
use balance_tracker.Prelude.{
  ℕ, ◌<◌, ◌≡◌, refl, sym, subst, inl, inr, ◌⊎◌, Bool, true, false, Option, none, some, Memᴰ, arith,
  ◌==◌, ==_refl, Bool-cases,
}
use balance_tracker.Prelude.Lists.{length, update_where}
use balance_tracker.Prelude.Rows.{count_if-update_where_le, All-update_where}
use balance_tracker.Prelude.UniqueRows.{unique_row, All-update_where_mem, mem-update_where}
use balance_tracker.Prelude.Text.{Text}
use balance_tracker.Json.{Json}
use balance_tracker.SyncJob.Store.{
  Job, JobStatus, JobStore, SyncSettings, holds_key, has_id, IsDated,
}
use balance_tracker.SyncJob.Settle.{
  Outcome, refreshed, denied, timed_out, crashed, Ending, ending, is_ok, settled, Session, fits,
  interrupted, run_claimed_job,
}
use balance_tracker.SyncJob.Worker.{Attempt}
use balance_tracker.SyncJob.Invariant.{IsValid}
use native.Mathlib.Nat.{le_trans}

-- A terminal status.
abbrev pub IsEnded : JobStatus → Type 0
IsEnded st = (st ≡ JobStatus.completed) ⊎ (st ≡ JobStatus.failed)

module _ (cfg : SyncSettings) (render : Json → Text) where
  ending-IsEnded : (provider : Text) (o : Outcome) → IsEnded (ending cfg render provider o).status
  unfolding ending
  ending-IsEnded provider (refreshed status message content) = elim (Bool-cases (is_ok status)) [
    | inl e ↦ rw e (inl refl)
    | inr e ↦ rw e (inr refl)
  ]
  ending-IsEnded provider (denied d) = inr refl
  ending-IsEnded provider timed_out = inr refl
  ending-IsEnded provider (crashed m) = inr refl

settled-IsDated : (e : Ending) (now : ℕ) (j : Job) → IsEnded e.status → IsDated (settled e now j)
settled-IsDated e now j h = ground arith

settled-holds_key :
    (e : Ending) (now : ℕ) (k : Text) (j : Job)
    → IsEnded e.status
    → holds_key k (settled e now j) ≡ false
settled-holds_key e now k j h = ground arith

interrupted-IsDated :
    (now : ℕ) (j : Job) → j.status ≡ JobStatus.running → IsDated j → IsDated (interrupted now j)
interrupted-IsDated now j r h = ground arith

-- A change of the row of a running job that gives up keys, or keeps its status and key.
changed-IsValid :
    (f : Job → Job) (j : Job) (s : JobStore)
    → ((x : Job) → (f x).id ≡ x.id)
    → ((k : Text) (x : Job) → holds_key k (f x) ≡ true → holds_key k x ≡ true)
    → ((x : Job) → x.status ≡ JobStatus.running → IsDated x → IsDated (f x))
    → Memᴰ j s.jobs
    → j.status ≡ JobStatus.running
    → IsValid s
    → IsValid (record s { jobs = update_where (has_id j.id) f s.jobs })
changed-IsValid f j s same keys dates m r v = record {
  one_active = λ k.
      le_trans (count_if-update_where_le (holds_key k) (has_id j.id) f s.jobs (λ x _ h. keys k x h))
        (v.one_active k);
  unique_id = λ i.
      le_trans
        (count_if-update_where_le (has_id i) (has_id j.id) f s.jobs
          (λ x _ h. subst (λ n. (n == i) ≡ true) (same x) h))
        (v.unique_id i);
  numbered =
      All-update_where (λ x. x.id < s.next_id) (has_id j.id) f s.jobs
        (λ x h. subst (λ n. n < s.next_id) (sym (same x)) h) v.numbered;
  dated =
      All-update_where_mem (has_id j.id) IsDated f s.jobs
        (λ x n t d.
          let q = unique_row (has_id j.id) x j s.jobs (v.unique_id j.id) n m t (==_refl j.id) in
          dates x (subst (λ y. y.status ≡ JobStatus.running) (sym q) r) d)
        v.dated;
}

-- How a run of the claimed job `j` can end. It hands back the job, ended at this time, which stands
-- in the table; or an exception leaves it and the job is left running: the attempt was cancelled, and
-- the row has this time, or the message of the error is too long for PostgreSQL, and nothing was
-- written.
pub data Ran (cfg : SyncSettings) (render : Json → Text) (postgresql : Bool) (a : Attempt) (now : ℕ)
    (j : Job) (o : Option Job) (w w' : Session) : Type 0 where
  ended :
      (x : Job)
      → o ≡ some x
      → x.id ≡ j.id
      → IsEnded x.status
      → x.finished_at ≡ some now
      → Memᴰ x w'.store.jobs
      → Ran cfg render postgresql a now j o w w'
  cancelled :
      o ≡ none
      → a.outcome ≡ none
      → Memᴰ (interrupted now j) w'.store.jobs
      → Ran cfg render postgresql a now j o w w'
  refused :
      (c : Outcome)
      → (m : Text) → o ≡ none
      → postgresql ≡ true
      → a.outcome ≡ some c
      → (ending cfg render a.provider c).error_message ≡ some m
      → 1_000 < length m
      → w' ≡ w
      → Ran cfg render postgresql a now j o w w'

long_message :
    (postgresql : Bool) (o : Option Text)
    → fits postgresql o ≡ false
    → (m : Text) × (o ≡ some m) × (postgresql ≡ true) × (1_000 < length m)
unfolding fits
long_message postgresql none h = cc
long_message postgresql (some m) h = (m, refl, ground arith, ground arith)

module _ (cfg : SyncSettings) (render : Json → Text) (postgresql : Bool) (a : Attempt) (now : ℕ)
    (j : Job) (w : Session) where
  pub run_claimed_job_lem :
      (o : Option Outcome)
      → a.outcome ≡ o
      → Memᴰ j w.store.jobs
      → j.status ≡ JobStatus.running
      → IsValid w.store
      → let (r, w') = run_claimed_job cfg render postgresql a.provider a.service_key o now j w in
        IsValid w'.store × Ran cfg render postgresql a now j r w w'
  unfolding run_claimed_job
  run_claimed_job_lem none e m r v = (
    changed-IsValid (interrupted now) j w.store (λ x. refl) (λ k x h. h)
        (λ x q h. interrupted-IsDated now x q h) m r v,
    cancelled refl e
        (mem-update_where (has_id j.id) (interrupted now) j w.store.jobs (==_refl j.id) m),
  )
  run_claimed_job_lem (some c) e m r v =
      let x = ending cfg render a.provider c in
      let over = ending-IsEnded cfg render a.provider c in
      elim (Bool-cases (fits postgresql x.error_message)) [
        | inl f ↦ rw f (
          changed-IsValid (settled x now) j w.store (λ y. refl)
              (λ k y h. cc (settled-holds_key x now k y over))
              (λ y q h. settled-IsDated x now y over) m r v,
          ended (settled x now j) refl refl over refl
              (mem-update_where (has_id j.id) (settled x now) j w.store.jobs (==_refl j.id) m),
        )
        | inr f ↦
            let (t, q, p, l) = long_message postgresql x.error_message f in
            rw f (v, refused c t refl p e q l refl)
      ]
