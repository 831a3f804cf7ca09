-- ===== src/Transactions/Safe.antt =====
-- The table of transactions across the ways of saving.
use balance_tracker.Prelude.{
  ℕ, Bool, none, some, List, [], ◌∷◌, Memᴰ, ◌≡◌, refl, sym, subst, ◌∙◌, ◌⊎◌, inl, inr, Bool-cases,
}
use balance_tracker.Prelude.Lists.{keep}
use balance_tracker.Prelude.Rows.{mem-keep}
use balance_tracker.Transactions.Store.{
  Transaction, TransactionSchema, TxStore, TxError, TxResult, done, raised, is_tx, index_taken,
  insert_row,
}
use balance_tracker.Transactions.Save.{
  Lookup, lookup_tx, Counts, count_saved, alone, save_each, Counts, count_saved, alone, save_each,
  one_or_none, get_by_tx_id, save_transaction, save_found, after_integrity_error, new_transaction,
}
use balance_tracker.Transactions.Batch.{save_transactions_batch, save_transactions_batch}
use balance_tracker.Transactions.SaveLaws.{one_found}
use balance_tracker.Transactions.BatchLaws.{batch_table}
use balance_tracker.Transactions.Invariant.{
  IsValid, Keeps, KeepsRows, Keeps-refl, insert-IsValid, write_back-IsValid, write_back-KeepsRows,
}

pub KeepsRows-refl : (s : TxStore) → KeepsRows s s
unfolding KeepsRows
KeepsRows-refl s x m = (x, m, Keeps-refl x)

Keeps-trans : (a b c : Transaction) → Keeps a b → Keeps b c → Keeps a c
Keeps-trans a b c h k = record {
  id = k.id ∙ h.id;
  notified = k.notified ∙ h.notified;
  amount = k.amount ∙ h.amount;
  tx_timestamp = k.tx_timestamp ∙ h.tx_timestamp;
}

pub KeepsRows-trans : (a b c : TxStore) → KeepsRows a b → KeepsRows b c → KeepsRows a c
unfolding KeepsRows
KeepsRows-trans a b c h k x m =
    let (y, n, p) = h x m in let (z, o, q) = k y n in (z, o, Keeps-trans x y z p q)

insert-KeepsRows : (t : Transaction) (s : TxStore) → KeepsRows s (insert_row t s)
unfolding KeepsRows
insert-KeepsRows t s x m = (x, Memᴰ.tail m, Keeps-refl x)

found_mem {ℓ} :
    {A : Type ℓ} (p : A → Bool) (a : A) (xs : List A)
    → one_or_none (keep p xs) ≡ done (some a)
    → Memᴰ a xs
found_mem p a xs h =
    (mem-keep p a xs (subst (Memᴰ a) (sym (one_found (keep p xs) a h)) (Memᴰ.head refl))).1

abbrev pub Safe : TxStore → TxStore → Type 0
Safe s s' = IsValid s' × KeepsRows s s'

conflict_Safe : (s s' : TxStore) (l : Lookup) → Safe s s' → Safe s (after_integrity_error l s').1
unfolding after_integrity_error
conflict_Safe s s' (raised e) h = h
conflict_Safe s s' (done none) h = h
conflict_Safe s s' (done (some t)) h = h

found_Safe :
    (org : ℕ) (others : TxStore → TxStore) (d : TransactionSchema) (s : TxStore) (l : Lookup)
    → lookup_tx org d s.rows ≡ l
    → IsValid s
    → Safe s (others s)
    → Safe s (save_found org d others l s).1
unfolding save_found get_by_tx_id
found_Safe org others d s (raised e) h v w = (v, KeepsRows-refl s)
found_Safe org others d s (done (some t)) h v w =
    let m = found_mem (is_tx org d.integration_id d.service d.tx_id) t s.rows h in
    (write_back-IsValid t d s m v, write_back-KeepsRows t d s m v)
found_Safe org others d s (done none) h v w =
    let s' = others s in
    let t = new_transaction s'.next_id org d in
    elim (Bool-cases (index_taken org d.integration_id d.tx_id s'.rows)) [
      | inl e ↦ rw e (conflict_Safe s s' (lookup_tx org d s'.rows) w)
      | inr e ↦ rw e (
        insert-IsValid org d s' e w.0,
        KeepsRows-trans s s' (insert_row t s') w.1 (insert-KeepsRows t s'),
      )
    ]

TxResult-cases {ℓ} :
    {A : Type ℓ} (o : TxResult A) → ((a : A) × (o ≡ done a)) ⊎ ((e : TxError) × (o ≡ raised e))
TxResult-cases (done a) = inl (a, refl)
TxResult-cases (raised e) = inr (e, refl)

-- Saving a transaction keeps the table valid on every branch and loses no row: each keeps its
-- number, amount and time and whether it was notified, if that holds of what other sessions commit
-- in between.
pub save_transaction-Safe :
    (org : ℕ) (others : TxStore → TxStore) (d : TransactionSchema) (s : TxStore)
    → IsValid s
    → Safe s (others s)
    → Safe s (save_transaction org others d s).1
unfolding save_transaction
save_transaction-Safe org others d s v w =
    found_Safe org others d s (lookup_tx org d s.rows) refl v w

save_each-Safe :
    (org : ℕ) (ds : List TransactionSchema) (c : Counts) (s : TxStore)
    → IsValid s
    → Safe s (save_each org ds c s).1
unfolding save_each
save_each-Safe org [] c s v = (v, KeepsRows-refl s)
save_each-Safe org (d ∷ ds) c s v =
    let (w, k) = save_transaction-Safe org alone d s v (v, KeepsRows-refl s) in
    elim (TxResult-cases (save_transaction org alone d s).0) [
      | inl (t, e) ↦
          let (x, y) =
            save_each-Safe org ds (count_saved t.1 c) (save_transaction org alone d s).1 w in
          rw (e, save_each) (x, KeepsRows-trans s _ _ k y)
      | inr (r, e) ↦ rw (e, save_each) (w, k)
    ]

-- Saving a batch keeps a valid table valid and loses no row on every branch: each keeps its number,
-- amount and time and whether it was notified.
pub save_transactions_batch-Safe :
    (org : ℕ) (ds : List TransactionSchema) (s : TxStore)
    → IsValid s
    → Safe s (save_transactions_batch org ds s).1
save_transactions_batch-Safe org ds s v = elim (batch_table org ds s) [
  | inl e ↦ rw e (v, KeepsRows-refl s)
  | inr e ↦ rw e (save_each-Safe org ds (0, 0) s v)
]
