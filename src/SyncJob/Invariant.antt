-- ===== src/SyncJob/Invariant.antt =====
-- What holds of the table `sync_jobs` between two commits.
use balance_tracker.Prelude.{
  ℕ, suc, ◌+◌, ◌-◌, ◌*◌, ◌≤◌, ◌<◌, ◌≡◌, refl, sym, subst, inl, inr, false, Option, none, some, List,
  [], ◌∷◌, arith, Bool-cases, Option-cases,
}
use balance_tracker.Prelude.Lists.{any, count_if, All}
use balance_tracker.Prelude.Rows.{
  count_if_zero, count_if-update_where_le, All-update_where, All-mono,
}
use balance_tracker.Prelude.Text.{Text, text_eq, text_eq_iff}
use balance_tracker.SyncJob.Store.{Job, JobStore, SyncSettings, holds_key, has_id, IsDated}
use balance_tracker.SyncJob.Queue.{
  is_stale, recovered_job, JobRequest, new_job, key_taken, insert_job, after_conflict, deduplicated,
  stale_running_timeout_seconds, commit_job, find_active_duplicate_job, enqueue_job,
  recover_stale_running_jobs,
}
use balance_tracker.Json.{Fields}
use balance_tracker.Clock.{second}
use balance_tracker.SyncJob.Key.{build_dedupe_key}
use native.Mathlib.Nat.{le_trans}

-- At most one active job under each key, each number once and below the next one, and the dates
-- that fit the status.
pub record IsValid (s : JobStore) : Type 0 where
  pub one_active : (k : Text) → count_if (holds_key k) s.jobs ≤ 1
  pub unique_id : (i : ℕ) → count_if (has_id i) s.jobs ≤ 1
  pub numbered : All (λ j. j.id < s.next_id) s.jobs
  pub dated : All IsDated s.jobs

-- The counters play no part.
pub same_table-IsValid :
    (s t : JobStore) → t.jobs ≡ s.jobs → t.next_id ≡ s.next_id → IsValid s → IsValid t
same_table-IsValid s t p q v = record {
  one_active = λ k. rw p (v.one_active k);
  unique_id = λ i. rw p (v.unique_id i);
  numbered = rw (p, q) v.numbered;
  dated = rw p v.dated;
}

pub insert_job-one_active :
    (key : Option Text) (now : ℕ) (r : JobRequest) (s : JobStore)
    → ((k : Text) → count_if (holds_key k) s.jobs ≤ 1)
    → key_taken key s.jobs ≡ false
    → (k : Text) → count_if (holds_key k) (new_job s.next_id key now r ∷ s.jobs) ≤ 1
insert_job-one_active none now r s h free k = h k
insert_job-one_active (some j) now r s h free k = elim (Bool-cases (text_eq k j)) [
  | inl e ↦
      let same : k ≡ j = (text_eq_iff k j).0 e in
      let zero_k : count_if (holds_key k) s.jobs ≡ 0 =
        count_if_zero (holds_key k) s.jobs
          (subst (λ t. any (holds_key t) s.jobs ≡ false) (sym same) free) in
      rw e (omega arith)
  | inr e ↦ rw e (h k)
]

fresh_id : (n : ℕ) (jobs : List Job) → All (λ j. j.id < n) jobs → count_if (has_id n) jobs ≡ 0
fresh_id n [] h = refl
fresh_id n (j ∷ jobs) h = ground (arith, fresh_id n jobs h.1)

insert_job-unique_id :
    (j : Job) (s : JobStore)
    → j.id ≡ s.next_id
    → IsValid s
    → (i : ℕ) → count_if (has_id i) (j ∷ s.jobs) ≤ 1
insert_job-unique_id j s e v i = elim (Bool-cases (has_id i j)) [
  | inl same ↦
      let q : s.next_id ≡ i = ground arith in
      rw same (
        subst (λ k. suc (count_if (has_id k) s.jobs) ≤ 1) q
          (rw (fresh_id s.next_id s.jobs v.numbered) (omega arith)))
  | inr other ↦ rw other (v.unique_id i)
]

insert_job-IsValid :
    (key : Option Text) (now : ℕ) (r : JobRequest) (s : JobStore)
    → IsValid s
    → key_taken key s.jobs ≡ false
    → IsValid (insert_job (new_job s.next_id key now r) s)
insert_job-IsValid key now r s v free = record {
  one_active = insert_job-one_active key now r s v.one_active free;
  unique_id = insert_job-unique_id (new_job s.next_id key now r) s refl v;
  numbered = (omega arith, All-mono (λ j h. omega arith) s.jobs v.numbered);
  dated = ((refl, refl), v.dated);
}

deduplicated-IsValid : (o : Option Job) (s : JobStore) → IsValid s → IsValid (deduplicated o s).1
deduplicated-IsValid none s v = v
deduplicated-IsValid (some d) s v = same_table-IsValid s _ refl refl v

after_conflict-IsValid :
    (key : Option Text) (s : JobStore) → IsValid s → IsValid (after_conflict key s).1
unfolding after_conflict
after_conflict-IsValid none s v = v
after_conflict-IsValid (some k) s v = deduplicated-IsValid (find_active_duplicate_job k s.jobs) s v

commit_job-IsValid :
    (key : Option Text) (now : ℕ) (r : JobRequest) (others : JobStore → JobStore) (s : JobStore)
    → ((t : JobStore) → IsValid t → IsValid (others t))
    → IsValid s
    → IsValid (commit_job key now r others s).1
unfolding commit_job
commit_job-IsValid key now r others s keeps v = elim (Bool-cases (key_taken key s.jobs)) [
  | inl e ↦ rw e (after_conflict-IsValid key (others s) (keeps s v))
  | inr e ↦ rw e (insert_job-IsValid key now r s v e)
]

-- If what other sessions commit in between keeps a valid table valid, so does `enqueue_job`: no key
-- has two active jobs.
pub enqueue_job-IsValid :
    (cfg : SyncSettings) (fingerprint : Fields → Text) (now : ℕ) (r : JobRequest)
    (before others : JobStore → JobStore) (s : JobStore)
    → ((t : JobStore) → IsValid t → IsValid (before t))
    → ((t : JobStore) → IsValid t → IsValid (others t))
    → IsValid s
    → IsValid (enqueue_job cfg fingerprint now r before others s).1
unfolding enqueue_job
enqueue_job-IsValid cfg fingerprint now r before others s₀ kb ko v =
    let s = record s₀ { enqueued = s₀.enqueued + 1 } in
    let vs : IsValid s = same_table-IsValid s₀ s refl refl v in
    let key =
      build_dedupe_key fingerprint r.organization_id r.integration_id r.job_type r.payload in
    elim (Bool-cases cfg.enable_syncjob_dedupe) [
      | inr off ↦ rw off (commit_job-IsValid none now r others (before s) ko (kb s vs))
      | inl on ↦ elim (Option-cases (find_active_duplicate_job key s.jobs)) [
        | inl e ↦ rw (on, e) (commit_job-IsValid (some key) now r others (before s) ko (kb s vs))
        | inr (d, e) ↦ rw (on, e) (deduplicated-IsValid (some d) s vs)
      ]
    ]

-- A recovery keeps a valid table valid.
pub recover_stale_running_jobs-IsValid :
    (cfg : SyncSettings) (timeout org : Option ℕ) (now : ℕ) (s : JobStore)
    → IsValid s
    → IsValid (recover_stale_running_jobs cfg timeout org now s).1
unfolding recover_stale_running_jobs
recover_stale_running_jobs-IsValid cfg timeout org now s v =
    let cutoff = now - stale_running_timeout_seconds cfg timeout * second in
    record {
      one_active = λ k.
          le_trans
            (count_if-update_where_le (holds_key k) (is_stale cutoff org) (recovered_job now) s.jobs
              (λ j _ h. cc))
            (v.one_active k);
      unique_id = λ i.
          le_trans
            (count_if-update_where_le (has_id i) (is_stale cutoff org) (recovered_job now) s.jobs
              (λ j _ h. h))
            (v.unique_id i);
      dated =
          All-update_where IsDated (is_stale cutoff org) (recovered_job now) s.jobs (λ j h. refl)
            v.dated;
      numbered =
          All-update_where (λ j. j.id < s.next_id) (is_stale cutoff org) (recovered_job now) s.jobs
            (λ j h. h) v.numbered;
    }
