-- ===== src/SyncJob/ClaimOnce.antt =====
-- Every claim keeps the table valid and takes a queued job, and no job is handed out twice.
use balance_tracker.Prelude.{
  ℕ, ◌≡◌, ◌≢◌, sym, subst, ap, ◌∙◌, inl, inr, Bool, true, false, Option, none, some, arith,
  Option-cases, Memᴰ, if◌then◌else◌, ==_refl,
}
use balance_tracker.Prelude.UniqueRows.{unique_row}
use balance_tracker.SyncJob.Store.{Job, JobStatus, JobStore, has_id, is_queued}
use balance_tracker.SyncJob.Claim.{
  select_next, is_queued_id, start_where, claim_next_job_postgres, claim_next_job_fallback,
  claim_next_job,
}
use balance_tracker.SyncJob.Invariant.{IsValid}
use balance_tracker.SyncJob.ClaimLaws.{
  select_next_sound, start_where-IsValid, start_where-Taken, Taken,
}

-- The row with the chosen number is the chosen row, which is queued.
chosen_queued :
    (locked : ℕ → Bool) (org : Option ℕ) (s : JobStore) (c : Job)
    → IsValid s
    → select_next locked org s.jobs ≡ some c
    → (j : Job) → Memᴰ j s.jobs
    → has_id c.id j ≡ true
    → is_queued j.status ≡ true
chosen_queued locked org s c v e j m t =
    let (claimable, mc) = select_next_sound locked org s.jobs c e in
    let same : j ≡ c =
      unique_row (has_id c.id) j c s.jobs (v.unique_id c.id) m mc t (==_refl c.id) in
    let q : is_queued c.status ≡ true = ground arith in
    subst (λ (x : Job). is_queued x.status ≡ true) (sym same) q

queued_id-queued : (i : ℕ) (j : Job) → is_queued_id i j ≡ true → is_queued j.status ≡ true
queued_id-queued i j h = ground arith

queued_id-has_id : (i : ℕ) (j : Job) → is_queued_id i j ≡ true → has_id i j ≡ true
queued_id-has_id i j h = ground arith

module _ (others : JobStore → JobStore) (org : Option ℕ) (now : ℕ) (s : JobStore) where
  fallback_chosen :
      (c : Job)
      → select_next (λ _. false) org s.jobs ≡ some c
      → claim_next_job_fallback others org now s
        ≡ start_where (is_queued_id c.id) c.id now (others s)
  unfolding claim_next_job_fallback
  fallback_chosen c e = rw (e, claim_next_job_fallback)

  fallback_idle :
      select_next (λ _. false) org s.jobs ≡ none
      → claim_next_job_fallback others org now s ≡ (none, s)
  unfolding claim_next_job_fallback
  fallback_idle e = rw (e, claim_next_job_fallback)

module _ (locked : ℕ → Bool) (org : Option ℕ) (now : ℕ) (s : JobStore) where
  postgres_chosen :
      (c : Job)
      → select_next locked org s.jobs ≡ some c
      → claim_next_job_postgres locked org now s ≡ start_where (has_id c.id) c.id now s
  unfolding claim_next_job_postgres
  postgres_chosen c e = rw (e, claim_next_job_postgres)

  postgres_idle :
      select_next locked org s.jobs ≡ none → claim_next_job_postgres locked org now s ≡ (none, s)
  unfolding claim_next_job_postgres
  postgres_idle e = rw (e, claim_next_job_postgres)

-- What the claim's update runs on: nobody else writes a row that PostgreSQL has locked.
abbrev pub at_update : Bool → (JobStore → JobStore) → JobStore → JobStore
at_update postgresql others s = if postgresql then s else others s

module _ (locked : ℕ → Bool) (others : JobStore → JobStore) (org : Option ℕ) (now : ℕ)
    (s : JobStore) (valid : IsValid s) (keeps : IsValid (others s)) where
  -- If the table is valid before a claim and after what other sessions commit meanwhile, it is valid
  -- after the claim, on PostgreSQL and elsewhere.
  pub claim_next_job-IsValid :
      (postgresql : Bool) → IsValid (claim_next_job postgresql locked others org now s).1
  unfolding claim_next_job
  claim_next_job-IsValid true = elim (Option-cases (select_next locked org s.jobs)) [
    | inl e ↦ rw (postgres_idle locked org now s e) valid
    | inr (c, e) ↦
        rw (postgres_chosen locked org now s c e) (
          start_where-IsValid (has_id c.id) c.id now s valid (chosen_queued locked org s c valid e))
  ]
  claim_next_job-IsValid false = elim (Option-cases (select_next (λ _. false) org s.jobs)) [
    | inl e ↦ rw (fallback_idle others org now s e) valid
    | inr (c, e) ↦ rw (fallback_chosen others org now s c e) (
        start_where-IsValid (is_queued_id c.id) c.id now (others s) keeps
          (λ j _ t. queued_id-queued c.id j t))
  ]

  -- If the table is valid before a claim and after what other sessions commit meanwhile, and the claim
  -- hands out a job, then the job is a row that was queued when the update ran, now running and started
  -- now, and it stands in the table after the claim.
  pub claim_next_job-Taken :
      (postgresql : Bool) (j : Job) (s' : JobStore)
      → claim_next_job postgresql locked others org now s ≡ (some j, s')
      → Taken now (at_update postgresql others s) j s'
  unfolding claim_next_job
  claim_next_job-Taken true j s' h = elim (Option-cases (select_next locked org s.jobs)) [
    | inl e ↦ cc (postgres_idle locked org now s e)
    | inr (c, e) ↦
        start_where-Taken (has_id c.id) c.id now s valid (λ _ t. t)
          (chosen_queued locked org s c valid e) j s'
          (sym (postgres_chosen locked org now s c e) ∙ h)
  ]
  claim_next_job-Taken false j s' h = elim (Option-cases (select_next (λ _. false) org s.jobs)) [
    | inl e ↦ cc (fallback_idle others org now s e)
    | inr (c, e) ↦
        start_where-Taken (is_queued_id c.id) c.id now (others s) keeps (queued_id-has_id c.id)
          (λ x _ t. queued_id-queued c.id x t) j s' (sym (fallback_chosen others org now s c e) ∙ h)
  ]

-- If the table is valid before a claim and after what other sessions commit meanwhile, and the row of
-- a job is running when the claim's update runs, then what the claim hands out is not that job.
pub claim_next_job_once :
    (postgresql : Bool) (locked : ℕ → Bool) (others : JobStore → JobStore) (org : Option ℕ)
    (now i : ℕ) (s s' : JobStore) (j : Job)
    → IsValid s
    → IsValid (others s)
    → ((x : Job)
        → Memᴰ x (at_update postgresql others s).jobs
        → x.id ≡ i
        → x.status ≡ JobStatus.running)
    → claim_next_job postgresql locked others org now s ≡ (some j, s')
    → j.id ≢ i
claim_next_job_once postgresql locked others org now i s s' j v k busy h same =
    let (c, m, q, e, _) = claim_next_job-Taken locked others org now s v k postgresql j s' h in
    let at_c : c.id ≡ i = sym (ap (λ (x : Job). x.id) e) ∙ same in
    let r = busy c m at_c in ground arith
