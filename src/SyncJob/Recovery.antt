-- ===== src/SyncJob/Recovery.antt =====
-- The recovery of stale jobs, and its timeout.
use balance_tracker.Prelude.{
  ℕ, ◌+◌, ◌-◌, ◌*◌, ◌/◌, ◌≤◌, ◌<◌, ◌≡◌, refl, sym, subst, inl, inr, ◌⊎◌, true, false, Option, none,
  List, [], ◌∷◌, arith, Memᴰ, Bool-cases,
}
use balance_tracker.Prelude.Lists.{any, count_if, update_where, All}
use balance_tracker.Prelude.Rows.{All-mono}
use balance_tracker.Clock.{second}
use balance_tracker.SyncJob.Store.{Job, JobStore, SyncSettings, is_running}
use balance_tracker.SyncJob.Queue.{
  stale_running_timeout_seconds, is_stale, recovered_job, recover_stale_running_jobs,
}

-- Unless the caller names a timeout, and where the provider has one, a job is not given up in its
-- first minute, nor later than a minute after the provider's own timeout.
pub stale_running_timeout_seconds_bounds :
    (cfg : SyncSettings)
    → 0 < cfg.provider_timeout
    → (60 ≤ stale_running_timeout_seconds cfg none)
      × (stale_running_timeout_seconds cfg none ≤ cfg.provider_timeout / second + 60)
unfolding stale_running_timeout_seconds
stale_running_timeout_seconds_bounds cfg h = ground arith

module _ (cutoff : ℕ) (org : Option ℕ) (now : ℕ) where
  none_stale :
      (jobs : List Job)
      → any (is_stale cutoff org) (update_where (is_stale cutoff org) (recovered_job now) jobs)
        ≡ false
  none_stale [] = refl
  none_stale (j ∷ jobs) = ground (arith, none_stale jobs)

  fewer_running :
      (jobs : List Job)
      → count_if
            (λ j. is_running j.status)
            (update_where (is_stale cutoff org) (recovered_job now) jobs)
          + count_if (is_stale cutoff org) jobs
        ≡ count_if (λ j. is_running j.status) jobs
  fewer_running [] = omega arith
  fewer_running (j ∷ jobs) = ground (arith, fewer_running jobs)

  -- Where a row of the table stands afterwards: recovered if it was stale, else as it was.
  abbrev pub Accounted : List Job → Job → Type 0
  Accounted after j =
      ((is_stale cutoff org j ≡ true) × Memᴰ (recovered_job now j) after)
      ⊎ ((is_stale cutoff org j ≡ false) × Memᴰ j after)

  Accounted-tail :
      (x : Job) (after : List Job) (j : Job) → Accounted after j → Accounted (x ∷ after) j
  Accounted-tail x after j (inl (e, m)) = inl (e, Memᴰ.tail m)
  Accounted-tail x after j (inr (e, m)) = inr (e, Memᴰ.tail m)

  recovered_rows :
      (jobs : List Job)
      → All (Accounted (update_where (is_stale cutoff org) (recovered_job now) jobs)) jobs
  recovered_rows [] = tt
  recovered_rows (x ∷ jobs) =
      let rest = update_where (is_stale cutoff org) (recovered_job now) jobs in
      elim (Bool-cases (is_stale cutoff org x)) [
        | inl e ↦
            let q : update_where (is_stale cutoff org) (recovered_job now) (x ∷ jobs)
                ≡ recovered_job now x ∷ rest =
              rw e refl in
            subst (λ l. All (Accounted l) (x ∷ jobs)) (sym q)
              (
                inl (e, Memᴰ.head refl),
                All-mono (Accounted-tail (recovered_job now x) rest) jobs (recovered_rows jobs),
              )
        | inr e ↦
            let q : update_where (is_stale cutoff org) (recovered_job now) (x ∷ jobs) ≡ x ∷ rest =
              rw e refl in
            subst (λ l. All (Accounted l) (x ∷ jobs)) (sym q)
              (inr (e, Memᴰ.head refl), All-mono (Accounted-tail x rest) jobs (recovered_rows jobs))
      ]

-- After a recovery no job is stale by the same cutoff, the running jobs are fewer by the number
-- that it reports, and each job of the table is in it still: recovered if it was stale, as it was if
-- not.
pub recover_stale_running_jobs_complete :
    (cfg : SyncSettings) (timeout org : Option ℕ) (now : ℕ) (s : JobStore)
    → let cutoff = now - stale_running_timeout_seconds cfg timeout * second in
      let (n, s') = recover_stale_running_jobs cfg timeout org now s in
      (any (is_stale cutoff org) s'.jobs ≡ false)
      × (count_if (λ x. is_running x.status) s'.jobs + n
          ≡ count_if (λ x. is_running x.status) s.jobs)
      × All (Accounted cutoff org now s'.jobs) s.jobs
unfolding recover_stale_running_jobs
recover_stale_running_jobs_complete cfg timeout org now s =
    let cutoff = now - stale_running_timeout_seconds cfg timeout * second in
    (
      none_stale cutoff org now s.jobs,
      fewer_running cutoff org now s.jobs,
      recovered_rows cutoff org now s.jobs,
    )
