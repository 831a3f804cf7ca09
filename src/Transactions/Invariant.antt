-- ===== src/Transactions/Invariant.antt =====
-- The invariant of the table of transactions.
use balance_tracker.Prelude.{
  ℕ, ◌≤◌, ◌<◌, true, false, ◌&&◌, Option, none, some, List, [], ◌∷◌, Memᴰ, ◌≡◌, refl, sym, subst,
  inl, inr, arith, Bool-cases, ==_refl, ◌==◌,
}
use balance_tracker.Prelude.Lists.{count_if, update_where, All}
use balance_tracker.Prelude.Rows.{All-mem, count_if_zero, count_if-update_where_le, All-mono}
use balance_tracker.Prelude.UniqueRows.{
  unique_row, count_if-update_where_le_mem, All-update_where_mem, mem-update_where, mem_untouched,
}
use balance_tracker.Prelude.Text.{Text, text_eq, text_eq_iff}
use balance_tracker.Transactions.Store.{
  Transaction, TransactionSchema, TxStore, has_id, in_index, index_taken, column_is, insert_row,
}
use balance_tracker.Transactions.Save.{new_transaction, apply_transaction_updates, write_back}
use native.Mathlib.Nat.{le_trans}

-- Each number once and below the next one, and each transaction once in an integration.
pub record IsValid (s : TxStore) : Type 0 where
  pub unique_id : (i : ℕ) → count_if (has_id i) s.rows ≤ 1
  pub numbered : All (λ (t : Transaction). t.id < s.next_id) s.rows
  pub unique_tx : (org i : ℕ) (tx_id : Text) → count_if (in_index org i tx_id) s.rows ≤ 1

-- The columns that no later save touches.
pub record Keeps (old new : Transaction) : Type 0 where
  pub id : new.id ≡ old.id
  pub notified : new.notified ≡ old.notified
  pub amount : new.amount ≡ old.amount
  pub tx_timestamp : new.tx_timestamp ≡ old.tx_timestamp

-- Every row is still there, with those columns.
unfoldable pub KeepsRows : TxStore → TxStore → Type 0
KeepsRows s s' = (t : Transaction) → Memᴰ t s.rows → (u : Transaction) × Memᴰ u s'.rows × Keeps t u

fresh_count :
    (i : ℕ) (rows : List Transaction) → All (λ t. t.id < i) rows → count_if (has_id i) rows ≡ 0
fresh_count i [] h = refl
fresh_count i (t ∷ rows) h = ground (arith, fresh_count i rows h.1)

fresh_unique :
    (n i : ℕ) (rows : List Transaction)
    → All (λ t. t.id < n) rows
    → (n == i) ≡ true
    → count_if (has_id i) rows ≡ 0
fresh_unique n i rows h e = let q : n ≡ i = ground arith in rw (sym q) (fresh_count n rows h)

not_taken :
    (org o i : ℕ) (integration : Option ℕ) (x y : Text) (rows : List Transaction)
    → (org == o && column_is integration i && text_eq x y) ≡ true
    → index_taken org integration y rows ≡ false
    → count_if (in_index o i x) rows ≡ 0
unfolding index_taken
not_taken org o i none x y rows e h = ground arith
not_taken org o i (some j) x y rows e h =
    let p : org ≡ o = ground arith in
    let q : j ≡ i = ground arith in
    let r : x ≡ y = (text_eq_iff x y).0 (ground arith) in
    rw (r, sym p, sym q) (count_if_zero (in_index org j y) rows h)

pub insert-IsValid :
    (org : ℕ) (d : TransactionSchema) (s : TxStore)
    → index_taken org d.integration_id d.tx_id s.rows ≡ false
    → IsValid s
    → IsValid (insert_row (new_transaction s.next_id org d) s)
unfolding in_index new_transaction
insert-IsValid org d s h v = record {
  unique_id = λ i. ground (arith, fresh_unique s.next_id i s.rows v.numbered, v.unique_id i);
  numbered = (omega arith, All-mono (λ t l. omega arith) s.rows v.numbered);
  unique_tx = λ o i x.
      ground (arith, not_taken org o i d.integration_id x d.tx_id s.rows, v.unique_tx o i x);
}

replaced-IsValid :
    (t : Transaction) (d : TransactionSchema) (s : TxStore)
    → Memᴰ t s.rows
    → IsValid s
    → IsValid (record s {
      rows = update_where (has_id t.id) (λ _. (apply_transaction_updates t d).0) s.rows;
    })
unfolding apply_transaction_updates in_index
replaced-IsValid t d s m v =
    let same : (x : Transaction) → Memᴰ x s.rows → has_id t.id x ≡ true → x ≡ t =
      λ x k e. unique_row (has_id t.id) x t s.rows (v.unique_id t.id) k m e (==_refl t.id) in
    record {
      unique_id = λ i.
          le_trans
            (count_if-update_where_le (has_id i) (has_id t.id)
              (λ _. (apply_transaction_updates t d).0) s.rows (λ x p q. ground arith))
            (v.unique_id i);
      numbered =
          All-update_where_mem (has_id t.id) (λ (x : Transaction). x.id < s.next_id)
            (λ _. (apply_transaction_updates t d).0) s.rows
            (λ x k e l. All-mem (λ (x : Transaction). x.id < s.next_id) t s.rows v.numbered m)
            v.numbered;
      unique_tx = λ o i y.
          le_trans
            (count_if-update_where_le_mem (has_id t.id) (in_index o i y)
              (λ _. (apply_transaction_updates t d).0) s.rows
              (λ x k e q. subst (λ z. in_index o i y z ≡ true) (sym (same x k e)) q))
            (v.unique_tx o i y);
    }

pub write_back-IsValid :
    (t : Transaction) (d : TransactionSchema) (s : TxStore)
    → Memᴰ t s.rows
    → IsValid s
    → IsValid (write_back t.id (apply_transaction_updates t d) s)
unfolding write_back
write_back-IsValid t d s m v = elim (Bool-cases (apply_transaction_updates t d).1) [
  | inl e ↦ rw e (replaced-IsValid t d s m v)
  | inr e ↦ rw e v
]

pub Keeps-refl : (t : Transaction) → Keeps t t
Keeps-refl t = record { id = refl; notified = refl; amount = refl; tx_timestamp = refl }

apply-Keeps : (t : Transaction) (d : TransactionSchema) → Keeps t (apply_transaction_updates t d).0
unfolding apply_transaction_updates
apply-Keeps t d = record { id = refl; notified = refl; amount = refl; tx_timestamp = refl }

pub write_back-KeepsRows :
    (t : Transaction) (d : TransactionSchema) (s : TxStore)
    → Memᴰ t s.rows
    → IsValid s
    → KeepsRows s (write_back t.id (apply_transaction_updates t d) s)
unfolding write_back KeepsRows
write_back-KeepsRows t d s m v x k = elim (Bool-cases (apply_transaction_updates t d).1) [
  | inl e ↦ elim (Bool-cases (has_id t.id x)) [
    | inl f ↦
        let q : x ≡ t =
          unique_row (has_id t.id) x t s.rows (v.unique_id t.id) k m f (==_refl t.id) in
        let t' = (apply_transaction_updates t d).0 in
        rw e (
          t',
          mem-update_where (has_id t.id) (λ _. t') x s.rows f k,
          subst (λ z. Keeps z t') (sym q) (apply-Keeps t d),
        )
    | inr f ↦ rw e (
      x,
      mem_untouched (has_id t.id) (λ _. (apply_transaction_updates t d).0) x s.rows f k,
      Keeps-refl x,
    )
  ]
  | inr e ↦ rw e (x, k, Keeps-refl x)
]
