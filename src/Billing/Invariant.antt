-- ===== src/Billing/Invariant.antt =====
-- What holds of the subscriptions and the ledger between two commits, and how the writes of the
-- services keep it.
use balance_tracker.Prelude.{
  ℕ, suc, ◌≤◌, ◌<◌, ◌≡◌, refl, subst, ap, ◌∙◌, inl, inr, true, false, Option, none, some, List, [],
  ◌∷◌, Memᴰ, arith, ◌==◌, ==_refl, Bool-cases,
}
use balance_tracker.Prelude.Lists.{count_if, All}
use balance_tracker.Prelude.Rows.{
  best-keep-none, best-keep_sound, best-keep_total, any_of_mem, count_if_zero,
  count_if-update_where_le, All-update_where, All-mono,
}
use balance_tracker.Prelude.UniqueRows.{unique_row, count_if-update_where_less}
use balance_tracker.Prelude.Int.{pos, ◌≤ℤ◌}
use balance_tracker.Clock.{Datetime}
use balance_tracker.Billing.Store.{
  Subscription, SubscriptionStatus, LedgerEntry, Db, is_current, active_of, later, has_id,
}
use balance_tracker.Billing.Plans.{
  get_active_subscription, add_subscription, update_subscription, set_status,
}
use native.Mathlib.Nat.{le_trans}

-- At most one active subscription for each organisation, each number once and below the next one,
-- and only positive amounts in the ledger.
pub record IsValid (d : Db) : Type 0 where
  pub one_active : (org : ℕ) → count_if (active_of org) d.subscriptions ≤ 1
  pub unique_id : (i : ℕ) → count_if (has_id i) d.subscriptions ≤ 1
  pub numbered : All (λ s. s.id < d.next_subscription) d.subscriptions
  pub amounts : All (λ (e : LedgerEntry). pos 1 ≤ℤ e.amount) d.ledger

pub same_tables-IsValid :
    (d e : Db)
    → e.subscriptions ≡ d.subscriptions
    → e.next_subscription ≡ d.next_subscription
    → All (λ (x : LedgerEntry). pos 1 ≤ℤ x.amount) e.ledger
    → IsValid d
    → IsValid e
same_tables-IsValid d e p q a v = record {
  one_active = λ org. rw p (v.one_active org);
  unique_id = λ i. rw p (v.unique_id i);
  numbered = rw (p, q) v.numbered;
  amounts = a;
}

-- The active subscription that a query finds.
pub get_active_subscription_sound :
    (org : ℕ) (d : Db) (s : Subscription)
    → get_active_subscription org d ≡ some s
    → (active_of org s ≡ true) × Memᴰ s d.subscriptions
unfolding get_active_subscription
get_active_subscription_sound org d s h = best-keep_sound later (active_of org) d.subscriptions s h

pub get_active_subscription-none :
    (org : ℕ) (d : Db)
    → get_active_subscription org d ≡ none
    → count_if (active_of org) d.subscriptions ≡ 0
unfolding get_active_subscription
get_active_subscription-none org d h =
    count_if_zero (active_of org) d.subscriptions
      (best-keep-none later (active_of org) d.subscriptions h)

-- An active subscription in the table is the one that the query finds.
pub get_active_subscription_unique :
    (org : ℕ) (d : Db) (s : Subscription)
    → IsValid d
    → active_of org s ≡ true
    → Memᴰ s d.subscriptions
    → get_active_subscription org d ≡ some s
unfolding get_active_subscription
get_active_subscription_unique org d s v t m =
    let (x, found) =
      best-keep_total later (active_of org) d.subscriptions
        (any_of_mem (active_of org) s d.subscriptions t m) in
    let (tx, mx) = best-keep_sound later (active_of org) d.subscriptions x found in
    found ∙ ap some (unique_row (active_of org) x s d.subscriptions (v.one_active org) mx m tx t)

fresh_id :
    (n : ℕ) (rows : List Subscription)
    → All (λ (s : Subscription). s.id < n) rows
    → count_if (has_id n) rows ≡ 0
fresh_id n [] h = refl
fresh_id n (s ∷ rows) h = ground (arith, fresh_id n rows h.1)

module _ (org plan : ℕ) (period_end : Option Datetime) (now : ℕ) (d : Db) (v : IsValid d) where
  added-unique_id :
      (i : ℕ) → count_if (has_id i) (add_subscription org plan period_end now d).subscriptions ≤ 1
  added-unique_id i = elim (Bool-cases (d.next_subscription == i)) [
    | inl e ↦
        let q : d.next_subscription ≡ i = ground arith in
        rw e (
          subst (λ k. suc (count_if (has_id k) d.subscriptions) ≤ 1) q
            (rw (fresh_id d.next_subscription d.subscriptions v.numbered) (omega arith)))
    | inr e ↦ rw e (v.unique_id i)
  ]

  -- A new active subscription for an organisation that has none.
  pub add_subscription-IsValid :
      count_if (active_of org) d.subscriptions ≡ 0
      → IsValid (add_subscription org plan period_end now d)
  add_subscription-IsValid zero_active = record {
    one_active = λ o. elim (Bool-cases (org == o)) [
      | inl e ↦
          let q : org ≡ o = ground arith in
          rw e (
            subst (λ k. suc (count_if (active_of k) d.subscriptions) ≤ 1) q
              (rw zero_active (omega arith)))
      | inr e ↦ rw e (v.one_active o)
    ];
    unique_id = added-unique_id;
    numbered =
        (omega arith, All-mono (λ (s : Subscription) h. omega arith) d.subscriptions v.numbered);
    amounts = v.amounts;
  }

module _ (i now : ℕ) (d : Db) (v : IsValid d) where
  -- An assignment that makes no subscription active, and keeps organisations and numbers.
  pub update_subscription-IsValid :
      (f : Subscription → Subscription)
      → ((org : ℕ) (s : Subscription) → active_of org (f s) ≡ true → active_of org s ≡ true)
      → ((s : Subscription) → (f s).id ≡ s.id)
      → IsValid (update_subscription i f now d)
  update_subscription-IsValid f keeps same = record {
    one_active = λ org.
        le_trans
          (count_if-update_where_le (active_of org) (has_id i) (stamped f) d.subscriptions
            (λ s _ h. keeps org s h))
          (v.one_active org);
    unique_id = λ k.
        le_trans
          (count_if-update_where_le (has_id k) (has_id i) (stamped f) d.subscriptions
            (λ s _ h. rw (← same s) h))
          (v.unique_id k);
    numbered =
        All-update_where (λ s. s.id < d.next_subscription) (has_id i) (stamped f) d.subscriptions
          (λ s h. rw (same s) h) v.numbered;
    amounts = v.amounts;
  }
    where
      stamped : (Subscription → Subscription) → Subscription → Subscription
      stamped f s = let t = f s in record t { updated_at = now }

-- Retiring the active subscription leaves the organisation without one.
pub retired_none_active :
    (org now : ℕ) (st : SubscriptionStatus) (d : Db) (c : Subscription)
    → IsValid d
    → is_current st ≡ false
    → get_active_subscription org d ≡ some c
    → count_if (active_of org) (update_subscription c.id (set_status st) now d).subscriptions ≡ 0
retired_none_active org now st d c v f h =
    let (t, m) = get_active_subscription_sound org d c h in
    let less =
      count_if-update_where_less (has_id c.id) (active_of org)
        (λ s. record s { status = st; updated_at = now }) c d.subscriptions (v.unique_id c.id)
        (==_refl c.id) t m (λ s. ground arith) in
    omega (arith, v.one_active org, less)
