-- ===== src/Transactions/NotifyLaws.antt =====
-- The pages of a query, and what marking transactions as notified does to the next query.
use balance_tracker.Prelude.{
  ℕ, ◌-◌, min, Bool, true, false, List, [], ◌∷◌, Memᴰ, ◌≡◌, ap, ◌∙◌, ◌↔◌, inl, inr, arith,
  Bool-cases,
}
use balance_tracker.Prelude.Lists.{keep, update_where, length, length-take}
use balance_tracker.Prelude.Rows.{length-keep_count, mem-keep, mem_keep}
use balance_tracker.Prelude.UniqueRows.{mem_untouched}
use balance_tracker.Prelude.Sort.{
  sort_by, length-sort_by, drop, length-drop, mem-sort_by, mem_sort_by,
}
use balance_tracker.Prelude.Text.{Text}
use balance_tracker.Transactions.Store.{Transaction, TxStore}
use balance_tracker.Transactions.Query.{
  TxFilter, matches, by_time, by_time_desc, get_transactions, get_transaction_count, is_unnotified,
  get_unnotified_transactions, notify, is_listed, mark_multiple_as_notified,
}

-- A page of transactions holds as many as the count of the same filter says lie after its offset,
-- up to its limit.
pub length-get_transactions :
    (nulls_first : Bool) (org : ℕ) (f : TxFilter) (limit offset : ℕ) (rows : List Transaction)
    → length (get_transactions nulls_first org f limit offset rows)
      ≡ min limit (get_transaction_count org f rows - offset)
unfolding get_transactions get_transaction_count
length-get_transactions nulls_first org f limit offset rows =
    let found = keep (matches org f) rows in
    let sorted = sort_by (by_time_desc nulls_first) found in
    omega (
      arith,
      length-take limit (drop offset sorted),
      length-drop offset sorted,
      length-sort_by (by_time_desc nulls_first) found,
      length-keep_count (matches org f) rows,
    )

-- The rows of an update that the query does not return afterwards, and the others.
module _ {ℓ} {A : Type ℓ} (p q : A → Bool) (f : A → A) (h : (x : A) → p (f x) ≡ false) where
  mem-updated :
      (a : A) (xs : List A) → p a ≡ true → Memᴰ a (update_where q f xs) → (q a ≡ false) × Memᴰ a xs
  mem-updated a [] t m = elim m [ ]
  mem-updated a (x ∷ xs) t m = elim (Bool-cases (q x)) [
    | inl e ↦ elim (rw e at m) [
      | Memᴰ.head r ↦ cc (h x, ap p r)
      | Memᴰ.tail k ↦ let (u, v) = mem-updated a xs t k in (u, Memᴰ.tail v)
    ]
    | inr e ↦ elim (rw e at m) [
      | Memᴰ.head r ↦ (ap q r ∙ e, Memᴰ.head r)
      | Memᴰ.tail k ↦ let (u, v) = mem-updated a xs t k in (u, Memᴰ.tail v)
    ]
  ]

  keep-updated :
      (a : A) (xs : List A)
      → Memᴰ a (keep p (update_where q f xs)) ↔ ((q a ≡ false) × Memᴰ a (keep p xs))
  keep-updated a xs = (
    λ m.
        let (t, k) = mem-keep p a (update_where q f xs) m in
        let (u, v) = mem-updated a xs t k in (u, mem_keep p a xs t v),
    λ r.
        let (t, k) = mem-keep p a xs r.1 in
        mem_keep p a (update_where q f xs) t (mem_untouched q f a xs r.0 k),
  )

notified-is_unnotified :
    (org : ℕ) (status : Text) (t : Transaction) → is_unnotified org status (notify t) ≡ false
unfolding is_unnotified
notified-is_unnotified org status t = ground arith

nothing_listed : (org : ℕ) (t : Transaction) → is_listed [] org t ≡ false
unfolding is_listed
nothing_listed org t = ground arith

-- After transactions of an organisation were marked by their numbers, its query of unnotified ones
-- returns the rows that it returned before, less those with these numbers.
pub get_unnotified-mark_multiple :
    (nulls_first : Bool) (ids : List ℕ) (org : ℕ) (status : Text) (s : TxStore) (t : Transaction)
    → Memᴰ t (
        get_unnotified_transactions nulls_first org status
          (mark_multiple_as_notified ids org s).1.rows)
      ↔ ((is_listed ids org t ≡ false)
          × Memᴰ t (get_unnotified_transactions nulls_first org status s.rows))
unfolding get_unnotified_transactions mark_multiple_as_notified
get_unnotified-mark_multiple nulls_first [] org status s t =
    (λ m. (nothing_listed org t, m), λ r. r.1)
get_unnotified-mark_multiple nulls_first (i ∷ ids) org status s t =
    let p = is_unnotified org status in
    let q = is_listed (i ∷ ids) org in
    let first = by_time nulls_first in
    let k = keep-updated p q notify (notified-is_unnotified org status) t s.rows in
    (
      λ m.
          let (u, v) = k.0 (mem-sort_by first t (keep p (update_where q notify s.rows)) m) in
          (u, mem_sort_by first t (keep p s.rows) v),
      λ r.
          mem_sort_by first t (keep p (update_where q notify s.rows))
            (k.1 (r.0, mem-sort_by first t (keep p s.rows) r.1)),
    )
