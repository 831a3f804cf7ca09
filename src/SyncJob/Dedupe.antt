-- ===== src/SyncJob/Dedupe.antt =====
-- What a caller of `enqueue_job` gets.
use balance_tracker.Prelude.{
  ℕ, ◌+◌, ◌≤◌, ◌≡◌, refl, ap, ◌∙◌, inl, inr, true, false, none, some, List, ◌∷◌, arith,
  Option-cases, Memᴰ,
}
use balance_tracker.Prelude.Lists.{any, count_if, length}
use balance_tracker.Prelude.Rows.{best-keep-none, best-keep_sound, best-keep_total, any_of_mem}
use balance_tracker.Prelude.UniqueRows.{unique_row}
use balance_tracker.Prelude.Text.{Text, text_eq_refl}
use balance_tracker.Json.{Fields}
use balance_tracker.SyncJob.Store.{Job, JobStore, SyncSettings, holds_key, newer}
use balance_tracker.SyncJob.Key.{build_dedupe_key}
use balance_tracker.SyncJob.Queue.{
  JobRequest, new_job, insert_job, key_taken, find_active_duplicate_job, commit_job, enqueue_job,
}
use balance_tracker.SyncJob.Invariant.{IsValid, insert_job-one_active}

abbrev pub key_of : (Fields → Text) → JobRequest → Text
key_of fingerprint r =
    build_dedupe_key fingerprint r.organization_id r.integration_id r.job_type r.payload

-- No other session commits in between.
abbrev pub alone : JobStore → JobStore
alone s = s

find_active_duplicate_job_sound :
    (k : Text) (jobs : List Job) (d : Job)
    → find_active_duplicate_job k jobs ≡ some d
    → holds_key k d ≡ true
unfolding find_active_duplicate_job
find_active_duplicate_job_sound k jobs d e = (best-keep_sound newer (holds_key k) jobs d e).0

-- The job that was just inserted is the one that a lookup finds.
find_active_duplicate_job_new :
    (k : Text) (now : ℕ) (r : JobRequest) (s : JobStore)
    → IsValid s
    → find_active_duplicate_job k s.jobs ≡ none
    → let j = new_job s.next_id (some k) now r in find_active_duplicate_job k (j ∷ s.jobs) ≡ some j
unfolding find_active_duplicate_job
find_active_duplicate_job_new k now r s v e =
    let j = new_job s.next_id (some k) now r in
    let held : holds_key k j ≡ true = text_eq_refl k in
    let free = best-keep-none newer (holds_key k) s.jobs e in
    let one : count_if (holds_key k) (j ∷ s.jobs) ≤ 1 =
      insert_job-one_active (some k) now r s v.one_active free k in
    let (d, found) = best-keep_total newer (holds_key k) (j ∷ s.jobs) (rw held) in
    let (t, m) = best-keep_sound newer (holds_key k) (j ∷ s.jobs) d found in
    let same : d ≡ j = unique_row (holds_key k) d j (j ∷ s.jobs) one m (Memᴰ.head refl) t held in
    found ∙ ap some same

module _ (cfg : SyncSettings) (fingerprint : Fields → Text) (r : JobRequest)
    (on : cfg.enable_syncjob_dedupe ≡ true) where
  -- While a job with the key is active, that job is handed out and the table does not change.
  enqueue_job_found :
      (now : ℕ) (before others : JobStore → JobStore) (s : JobStore) (d : Job)
      → find_active_duplicate_job (key_of fingerprint r) s.jobs ≡ some d
      → enqueue_job cfg fingerprint now r before others s
        ≡ (some d, record s { enqueued = s.enqueued + 1; deduped = s.deduped + 1 })
  unfolding enqueue_job
  enqueue_job_found now before others s d e = rw (on, e)

  -- Otherwise a session that is alone inserts the job.
  enqueue_job_new :
      (now : ℕ) (s : JobStore)
      → find_active_duplicate_job (key_of fingerprint r) s.jobs ≡ none
      → let j = new_job s.next_id (some (key_of fingerprint r)) now r in
        enqueue_job cfg fingerprint now r alone alone s
        ≡ (some j, insert_job j (record s { enqueued = s.enqueued + 1 }))
  unfolding enqueue_job commit_job
  enqueue_job_new now s e =
      let free : key_taken (some (key_of fingerprint r)) s.jobs ≡ false =
        unfold find_active_duplicate_job in
        best-keep-none newer (holds_key (key_of fingerprint r)) s.jobs e in
      rw (on, e, free)

  -- A session that is alone always gets a job; the request's key is active afterwards, and so is each
  -- key that was before.
  pub enqueue_job_held :
      (now : ℕ) (s : JobStore)
      → (j : Job) × ((enqueue_job cfg fingerprint now r alone alone s).0 ≡ some j)
        × (any
              (holds_key (key_of fingerprint r))
              (enqueue_job cfg fingerprint now r alone alone s).1.jobs
            ≡ true)
        × ((k : Text)
            → any (holds_key k) s.jobs ≡ true
            → any (holds_key k) (enqueue_job cfg fingerprint now r alone alone s).1.jobs ≡ true)
  enqueue_job_held now s =
      let k = key_of fingerprint r in
      elim (Option-cases (find_active_duplicate_job k s.jobs)) [
        | inr (d, e) ↦
            let m : (holds_key k d ≡ true) × Memᴰ d s.jobs =
              unfold find_active_duplicate_job in best-keep_sound newer (holds_key k) s.jobs d e in
            rw (enqueue_job_found now alone alone s d e)
              (d, refl, any_of_mem (holds_key k) d s.jobs m.0 m.1, λ x h. h)
        | inl e ↦
            let held : holds_key k (new_job s.next_id (some k) now r) ≡ true = text_eq_refl k in
            rw (enqueue_job_new now s e)
              (new_job s.next_id (some k) now r, refl, rw held refl, λ x h. ground arith)
      ]

  -- With deduplication on, from a valid table and while nobody else writes, asking twice hands out the
  -- same job both times, which is active under the request's key; the second call adds no row, the
  -- first one at most.
  pub enqueue_job_again :
      (now later : ℕ) (s : JobStore)
      → IsValid s
      → let (o, s₁) = enqueue_job cfg fingerprint now r alone alone s in
        let (o', s₂) = enqueue_job cfg fingerprint later r alone alone s₁ in
        (j : Job) × (o ≡ some j)
        × (o' ≡ some j)
        × (holds_key (key_of fingerprint r) j ≡ true)
        × (s₂.jobs ≡ s₁.jobs)
        × (length s₁.jobs ≤ length s.jobs + 1)
  enqueue_job_again now later s v =
      let k = key_of fingerprint r in
      let j = new_job s.next_id (some k) now r in
      elim (Option-cases (find_active_duplicate_job k s.jobs)) [
        | inr (d, e) ↦
            let once = enqueue_job_found now alone alone s d e in
            let s₁ = record s { enqueued = s.enqueued + 1; deduped = s.deduped + 1 } in
            rw once (
              d,
              refl,
              rw (enqueue_job_found later alone alone s₁ d e) refl,
              find_active_duplicate_job_sound k s.jobs d e,
              rw (enqueue_job_found later alone alone s₁ d e) refl,
              omega arith,
            )
        | inl e ↦
            let s₁ = insert_job j (record s { enqueued = s.enqueued + 1 }) in
            let again = find_active_duplicate_job_new k now r s v e in
            rw (enqueue_job_new now s e) (
              j,
              refl,
              rw (enqueue_job_found later alone alone s₁ j again) refl,
              find_active_duplicate_job_sound k s₁.jobs j again,
              rw (enqueue_job_found later alone alone s₁ j again) refl,
              omega arith,
            )
      ]
