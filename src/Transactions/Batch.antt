-- ===== src/Transactions/Batch.antt =====
-- Saving a batch of transactions.
use balance_tracker.Prelude.{ℕ, true, false, Option, none, some, List, [], ◌∷◌, if◌then◌else◌}
use balance_tracker.Transactions.Store.{
  TransactionSchema, TxStore, TxResult, done, raised, integrity, index_taken, insert_row,
}
use balance_tracker.Transactions.Save.{
  Counts, count_saved, Lookup, lookup_tx, get_by_tx_id, apply_transaction_updates, new_transaction,
  write_back, save_each,
}

-- The flush of a row that was added to the session; `none` is the IntegrityError.
unfoldable pub flush : ℕ → Option TransactionSchema → TxStore → Option TxStore
unfolding new_transaction
flush org none s = some s
flush org (some d) s =
    if index_taken org d.integration_id d.tx_id s.rows
    then none
    else some (insert_row (new_transaction s.next_id org d) s)

-- The counts, the row that is added but not flushed, and the table as the session sees it.
pub record Draft : Type 0 where
  pub counts : Counts
  pub pending : Option TransactionSchema
  pub table : TxStore

unfoldable pub batch_found : TransactionSchema → Counts → TxStore → Lookup → TxResult Draft
batch_found d counts s (raised e) = raised e
batch_found d counts s (done (some t)) = done (record {
  counts = count_saved false counts;
  pending = none;
  table = write_back t.id (apply_transaction_updates t d) s;
})
batch_found d counts s (done none) =
    done (record { counts = count_saved true counts; pending = some d; table = s })

-- The lookup_tx flushes the session first, outside the handler of the IntegrityError.
unfoldable pub batch_flushed : ℕ → TransactionSchema → Counts → Option TxStore → TxResult Draft
unfolding get_by_tx_id batch_found
batch_flushed org d counts none = raised integrity
batch_flushed org d counts (some s) = batch_found d counts s (lookup_tx org d s.rows)

unfoldable pub batch_loop : ℕ → List TransactionSchema → Draft → TxResult Draft
unfolding batch_flushed flush
batch_loop org [] b = done b
batch_loop org (d ∷ ds) b = elim (batch_flushed org d b.counts (flush org b.pending b.table)) [
  | raised e ↦ raised e
  | done b' ↦ batch_loop org ds b'
]

-- The commit flushes the last row; on an IntegrityError the batch is rolled back and saved one by
-- one.
unfoldable pub commit_flushed :
    ℕ → List TransactionSchema → TxStore → Counts → Option TxStore → TxResult Counts × TxStore
unfolding save_each
commit_flushed org ds s counts (some s') = (done counts, s')
commit_flushed org ds s counts none = save_each org ds (0, 0) s

-- An error of the loop leaves what was committed before.
unfoldable pub commit_batch :
    ℕ → List TransactionSchema → TxStore → TxResult Draft → TxResult Counts × TxStore
unfolding commit_flushed flush
commit_batch org ds s (raised e) = (raised e, s)
commit_batch org ds s (done b) = commit_flushed org ds s b.counts (flush org b.pending b.table)

unfoldable pub save_transactions_batch :
    ℕ → List TransactionSchema → TxStore → TxResult Counts × TxStore
unfolding commit_batch batch_loop
save_transactions_batch org ds s =
    commit_batch org ds s
      (batch_loop org ds (record { counts = (0, 0); pending = none; table = s }))
