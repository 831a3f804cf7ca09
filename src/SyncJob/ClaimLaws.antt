-- ===== src/SyncJob/ClaimLaws.antt =====
-- Claims: who gets a job, which one, and that the table stays valid.
use balance_tracker.Prelude.{
  ℕ, ◌≤◌, ◌<◌, ◌≡◌, sym, subst, ap, inl, inr, Bool, true, false, Option, some, List, arith,
  Bool-cases, Memᴰ,
}
use balance_tracker.Prelude.Lists.{any, keep, count_if, find?, find?_sound, update_where}
use balance_tracker.Prelude.Rows.{
  any_of_mem, best-keep_total, best-keep_sound, best-keep_total, best-maximal, any_of_mem,
  find?-mem, find?_total, count_if-update_where_le, All-update_where, mem_keep,
}
use balance_tracker.Prelude.UniqueRows.{
  unique_row, count_if-update_where_le_mem, All-update_where_mem, mem-update_where,
}
use balance_tracker.Prelude.Text.{Text}
use balance_tracker.SyncJob.Store.{
  Job, JobStore, holds_key, has_id, is_queued, older, newer, IsDated,
}
use balance_tracker.SyncJob.Claim.{is_claimable, select_next, started, get_job, start_where}
use balance_tracker.SyncJob.Invariant.{IsValid}
use native.Mathlib.Nat.{le_trans}

newer-asym : (a b : Job) → newer a b ≡ true → newer b a ≡ false
newer-asym a b h = ground arith

newer_negtrans : (a b c : Job) → newer a b ≡ false → newer b c ≡ false → newer a c ≡ false
newer_negtrans a b c h k = ground arith

pub select_next_sound :
    (locked : ℕ → Bool) (org : Option ℕ) (jobs : List Job) (c : Job)
    → select_next locked org jobs ≡ some c
    → (is_claimable locked org c ≡ true) × Memᴰ c jobs
unfolding select_next
select_next_sound locked org jobs c e = best-keep_sound older (is_claimable locked org) jobs c e

-- If some job is queued, in scope and not locked by another session, then a job of that kind is
-- chosen, and the first one is not older than it: jobs are taken in the order of their dates, then
-- of their numbers.
pub select_next_lem :
    (locked : ℕ → Bool) (org : Option ℕ) (jobs : List Job) (j : Job)
    → Memᴰ j jobs
    → is_claimable locked org j ≡ true
    → (c : Job) × (select_next locked org jobs ≡ some c)
      × (is_claimable locked org c ≡ true)
      × Memᴰ c jobs
      × (older j c ≡ false)
unfolding select_next
select_next_lem locked org jobs j n q =
    let (c, e) =
      best-keep_total older (is_claimable locked org) jobs
        (any_of_mem (is_claimable locked org) j jobs q n) in
    let (t, m) = best-keep_sound older (is_claimable locked org) jobs c e in
    (
      c,
      e,
      t,
      m,
      best-maximal older (λ a b. newer-asym b a) (λ a b d h k. newer_negtrans d b a k h)
          (keep (is_claimable locked org) jobs) c j e
          (mem_keep (is_claimable locked org) j jobs q n),
    )

-- A queued row that starts keeps the rest of the table's invariant.
module _ (p : Job → Bool) (i now : ℕ) (s : JobStore) (v : IsValid s)
    (queued : (j : Job) → Memᴰ j s.jobs → p j ≡ true → is_queued j.status ≡ true) where
  started-IsDated : (j : Job) → is_queued j.status ≡ true → IsDated j → IsDated (started now j)
  started-IsDated j q d = ground arith

  kept_key :
      (k : Text) (j : Job)
      → is_queued j.status ≡ true
      → holds_key k (started now j) ≡ true
      → holds_key k j ≡ true
  kept_key k j q h = ground arith

  pub start_where-IsValid : IsValid (start_where p i now s).1
  unfolding start_where
  start_where-IsValid = elim (Bool-cases (any p s.jobs)) [
    | inr e ↦ rw e v
    | inl e ↦ rw e (record {
      one_active = λ k.
          le_trans
            (count_if-update_where_le_mem p (holds_key k) (started now) s.jobs
              (λ j m t h. kept_key k j (queued j m t) h))
            (v.one_active k);
      unique_id = λ k.
          le_trans (count_if-update_where_le (has_id k) p (started now) s.jobs (λ j _ h. h))
            (v.unique_id k);
      numbered =
          All-update_where (λ j. j.id < s.next_id) p (started now) s.jobs (λ j h. h) v.numbered;
      dated =
          All-update_where_mem p IsDated (started now) s.jobs
            (λ j m t d. started-IsDated j (queued j m t) d) v.dated;
    })
  ]

-- What a claim hands out is a row that was queued when the update ran, now started.
abbrev pub Taken : ℕ → JobStore → Job → JobStore → Type 0
Taken now s j s' =
    (c : Job) × Memᴰ c s.jobs × (is_queued c.status ≡ true) × (j ≡ started now c) × Memᴰ j s'.jobs

module _ (p : Job → Bool) (i now : ℕ) (s : JobStore) (v : IsValid s)
    (at_id : (j : Job) → p j ≡ true → has_id i j ≡ true)
    (queued : (j : Job) → Memᴰ j s.jobs → p j ≡ true → is_queued j.status ≡ true) where
  pub start_where-Taken :
      (j : Job) (s' : JobStore) → start_where p i now s ≡ (some j, s') → Taken now s j s'
  unfolding start_where get_job
  start_where-Taken j s' e = elim (Bool-cases (any p s.jobs)) [
    | inr n ↦ cc (rw n at e)
    | inl t ↦
        let rows = update_where p (started now) s.jobs in
        let (c, found) = find?_total p s.jobs t in
        let pc = find?_sound p s.jobs c found in
        let m = find?-mem p s.jobs c found in
        let e' : (get_job i rows, record s { jobs = rows }) ≡ (some j, s') = rw t at e in
        let got : find? (has_id i) rows ≡ some j = ap (λ (x : Option Job × JobStore). x.0) e' in
        let here : s'.jobs ≡ rows = sym (ap (λ (x : Option Job × JobStore). x.1.jobs) e') in
        let one : count_if (has_id i) rows ≤ 1 =
          le_trans (count_if-update_where_le (has_id i) p (started now) s.jobs (λ x _ h. h))
            (v.unique_id i) in
        let mj = find?-mem (has_id i) rows j got in
        let mc = mem-update_where p (started now) c s.jobs pc m in
        let same : j ≡ started now c =
          unique_row (has_id i) j (started now c) rows one mj mc (find?_sound (has_id i) rows j got)
            (at_id c pc) in
        (c, m, queued c m pc, same, subst (Memᴰ j) (sym here) mj)
  ]
