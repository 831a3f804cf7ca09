-- ===== src/Transactions/Tests.antt =====
-- The theorems on transactions on concrete tables.
use balance_tracker.Prelude.{
  ℕ, ◌-◌, ◌≤◌, min, true, false, none, some, [], ◌∷◌, Memᴰ, ◌≡◌, refl, ◌↔◌, arith,
}
use balance_tracker.Prelude.Int.{pos}
use balance_tracker.Prelude.Lists.{length, count_if}
use balance_tracker.Prelude.Text.{text_eq, codes}
use balance_tracker.Transactions.Store.{
  Transaction, TransactionSchema, TxStore, done, has_id, is_tx, in_index, index_taken,
}
use balance_tracker.Transactions.Save.{
  alone, get_by_tx_id, save_transaction, save_found, new_transaction, save_each,
  apply_transaction_updates, update_text, update_amount, updated_status, write_back,
}
use balance_tracker.Transactions.Batch.{save_transactions_batch}
use balance_tracker.Transactions.Query.{
  TxFilter, get_transactions, get_transaction_count, get_unnotified_transactions, is_listed,
  mark_multiple_as_notified,
}
use balance_tracker.Transactions.Invariant.{IsValid}
use balance_tracker.Transactions.Safe.{Safe, save_transactions_batch-Safe}
use balance_tracker.Transactions.SaveLaws.{save_transaction_again}
use balance_tracker.Transactions.BatchLaws.{save_transactions_batch_refines}
use balance_tracker.Transactions.NotifyLaws.{length-get_transactions, get_unnotified-mark_multiple}

abbrev deposit : TransactionSchema
deposit = record {
  integration_id = some 5;
  tx_id = codes "d1";
  service = codes "bybit";
  tx_type = codes "deposit";
  currency = codes "BTC";
  amount = pos 100;
  fee = none;
  fee_currency = none;
  network = none;
  address = none;
  address_from = none;
  address_to = none;
  tag = none;
  status = codes "pending";
  txid = none;
  tx_timestamp = some 10;
}

abbrev settled_deposit : TransactionSchema
settled_deposit = record deposit { status = codes "ok"; txid = some (codes "0xab") }

abbrev no_rows : TxStore
no_rows = record { rows = []; next_id = 1 }

abbrev row : Transaction
row = record {
  id = 1;
  organization_id = 3;
  integration_id = some 5;
  tx_id = codes "d1";
  service = codes "bybit";
  tx_type = codes "deposit";
  currency = codes "BTC";
  amount = pos 100;
  fee = none;
  fee_currency = none;
  network = none;
  address = none;
  address_from = none;
  address_to = none;
  tag = none;
  status = codes "pending";
  txid = none;
  tx_timestamp = some 10;
  notified = false;
}

abbrev settled_row : Transaction
settled_row = record row { status = codes "ok"; txid = some (codes "0xab") }

abbrev settled_rows : TxStore
settled_rows = record { rows = settled_row ∷ []; next_id = 2 }

no_rows-IsValid : IsValid no_rows
no_rows-IsValid = record {
  unique_id = λ i. omega arith;
  numbered = tt;
  unique_tx = λ o i x. omega arith;
}

each_saved :
    save_each 3 (deposit ∷ settled_deposit ∷ []) (0, 0) no_rows ≡ (done (1, 1), settled_rows)
unfolding save_each save_transaction save_found get_by_tx_id is_tx index_taken new_transaction
    apply_transaction_updates update_text update_amount updated_status write_back text_eq
each_saved = refl

save_transactions_batch_refines_example :
    (save_transactions_batch 3 (deposit ∷ settled_deposit ∷ []) no_rows
      ≡ (done (1, 1), settled_rows))
    ↔ (save_each 3 (deposit ∷ settled_deposit ∷ []) (0, 0) no_rows ≡ (done (1, 1), settled_rows))
save_transactions_batch_refines_example =
    save_transactions_batch_refines 3 (deposit ∷ settled_deposit ∷ []) no_rows settled_rows (1, 1)

batch_saved :
    save_transactions_batch 3 (deposit ∷ settled_deposit ∷ []) no_rows ≡ (done (1, 1), settled_rows)
batch_saved = save_transactions_batch_refines_example.1 each_saved

abbrev rows : TxStore
rows = record { rows = row ∷ []; next_id = 2 }

saved : save_transaction 3 alone settled_deposit rows ≡ (done (settled_row, false), settled_rows)
unfolding save_transaction save_found get_by_tx_id is_tx apply_transaction_updates update_text
    update_amount updated_status write_back text_eq
saved = refl

one_row : (i : ℕ) → count_if (has_id i) rows.rows ≤ 1
one_row i = ground arith

save_transaction_again_example :
    save_transaction 3 alone settled_deposit settled_rows
    ≡ (done (settled_row, false), settled_rows)
save_transaction_again_example =
    save_transaction_again 3 settled_deposit rows settled_rows settled_row false one_row saved

rows-IsValid : IsValid rows
unfolding in_index
rows-IsValid = record {
  unique_id = one_row;
  numbered = (omega arith, tt);
  unique_tx = λ o i x. ground arith;
}

save_transactions_batch-Safe_example :
    Safe rows (save_transactions_batch 3 (settled_deposit ∷ deposit ∷ []) rows).1
save_transactions_batch-Safe_example =
    save_transactions_batch-Safe 3 (settled_deposit ∷ deposit ∷ []) rows rows-IsValid

get_unnotified-mark_multiple_example :
    Memᴰ settled_row (
      get_unnotified_transactions true 3
        (codes "ok")
        (mark_multiple_as_notified (1 ∷ 2 ∷ []) 3 settled_rows).1.rows)
    ↔ ((is_listed (1 ∷ 2 ∷ []) 3 settled_row ≡ false)
        × Memᴰ settled_row (get_unnotified_transactions true 3 (codes "ok") settled_rows.rows))
get_unnotified-mark_multiple_example =
    get_unnotified-mark_multiple true (1 ∷ 2 ∷ []) 3 (codes "ok") settled_rows settled_row

abbrev every_deposit : TxFilter
every_deposit = record {
  service = some (codes "bybit");
  integration_id = none;
  tx_type = some (codes "deposit");
  status = some [];
  start_date = none;
  end_date = some 20;
}

length-get_transactions_example :
    length (get_transactions true 3 every_deposit 100 0 settled_rows.rows)
    ≡ min 100 (get_transaction_count 3 every_deposit settled_rows.rows - 0)
length-get_transactions_example =
    length-get_transactions true 3 every_deposit 100 0 settled_rows.rows
