-- ===== src/Transactions/Save.antt =====
-- Saving transactions, one by one.
use balance_tracker.Prelude.{
  ℕ, suc, Bool, true, false, ◌&&◌, ◌||◌, not, Option, none, some, List, [], ◌∷◌, if◌then◌else◌,
}
use balance_tracker.Prelude.Lists.{keep, update_where}
use balance_tracker.Prelude.Int.{ℤ, leb_ℤ}
use balance_tracker.Prelude.Text.{Text, text_eq, is_empty}
use balance_tracker.Transactions.Store.{
  Transaction, TransactionSchema, TxStore, TxResult, done, raised, multiple_results, integrity,
  has_id, is_tx, index_taken, insert_row,
}

-- `scalar_one_or_none()`
abbrev pub one_or_none {ℓ} : {A : Type ℓ} → List A → TxResult (Option A)
one_or_none [] = done none
one_or_none (t ∷ []) = done (some t)
one_or_none (t ∷ u ∷ ts) = raised multiple_results

unfoldable pub get_by_tx_id :
    ℕ → Option ℕ → Text → Text → List Transaction → TxResult (Option Transaction)
get_by_tx_id org integration service tx_id rows =
    one_or_none (keep (is_tx org integration service tx_id) rows)

abbrev pub same_text : Option Text → Text → Bool
same_text none b = false
same_text (some a) b = text_eq a b

abbrev pub same_amount : Option ℤ → ℤ → Bool
same_amount none b = false
same_amount (some a) b = leb_ℤ a b && leb_ℤ b a

-- A column that is assigned if the new value is truthy and differs, and whether it was.
unfoldable pub update_text : Option Text → Option Text → Option Text × Bool
update_text old none = (old, false)
update_text old (some new) =
    if not (is_empty new) && not (same_text old new) then (some new, true) else (old, false)

-- A column that is assigned if the new value is not None and differs, and whether it was.
unfoldable pub update_amount : Option ℤ → Option ℤ → Option ℤ × Bool
update_amount old none = (old, false)
update_amount old (some new) = if same_amount old new then (old, false) else (some new, true)

-- `status` is never empty in the column, and is assigned whenever it differs.
unfoldable pub updated_status : Text → Text → Text × Bool
updated_status old new = if text_eq old new then (old, false) else (new, true)

-- The row after the updates, and whether it changed.
unfoldable pub apply_transaction_updates : Transaction → TransactionSchema → Transaction × Bool
apply_transaction_updates t d =
    let status = updated_status t.status d.status in
    let txid = update_text t.txid d.txid in
    let fee = update_amount t.fee d.fee in
    let fee_currency = update_text t.fee_currency d.fee_currency in
    let network = update_text t.network d.network in
    let address = update_text t.address d.address in
    let address_from = update_text t.address_from d.address_from in
    let address_to = update_text t.address_to d.address_to in
    (
      record t {
        status = status.0;
        txid = txid.0;
        fee = fee.0;
        fee_currency = fee_currency.0;
        network = network.0;
        address = address.0;
        address_from = address_from.0;
        address_to = address_to.0;
      },
      status.1 || txid.1 || fee.1 || fee_currency.1 || network.1 || address.1 || address_from.1
          || address_to.1,
    )

unfoldable pub new_transaction : ℕ → ℕ → TransactionSchema → Transaction
new_transaction id org d = record {
  id = id;
  organization_id = org;
  integration_id = d.integration_id;
  tx_id = d.tx_id;
  service = d.service;
  tx_type = d.tx_type;
  currency = d.currency;
  amount = d.amount;
  fee = d.fee;
  fee_currency = d.fee_currency;
  network = d.network;
  address = d.address;
  address_from = d.address_from;
  address_to = d.address_to;
  tag = d.tag;
  status = d.status;
  txid = d.txid;
  tx_timestamp = d.tx_timestamp;
  notified = false;
}

abbrev pub Lookup : Type 0
Lookup = TxResult (Option Transaction)

-- `self.get_by_tx_id` for the keys of a schema.
abbrev pub lookup_tx : ℕ → TransactionSchema → List Transaction → Lookup
lookup_tx org d rows = get_by_tx_id org d.integration_id d.service d.tx_id rows

-- The writes of the changed columns of a loaded row.
unfoldable pub write_back : ℕ → Transaction × Bool → TxStore → TxStore
write_back i (t, changed) s =
    if changed then record s { rows = update_where (has_id i) (λ _. t) s.rows } else s

abbrev pub Saving : Type 0
Saving = TxResult (Transaction × Bool) × TxStore

-- The handler of the IntegrityError looks the row up again and hands it out as it is.
unfoldable pub after_integrity_error : Lookup → TxStore → Saving
after_integrity_error (raised e) s = (raised e, s)
after_integrity_error (done none) s = (raised integrity, s)
after_integrity_error (done (some t)) s = (done (t, false), s)

-- `others` is what other sessions commit between the lookup_tx and the commit of a new row.
unfoldable pub save_found : ℕ → TransactionSchema → (TxStore → TxStore) → Lookup → TxStore → Saving
unfolding get_by_tx_id
save_found org d others (raised e) s = (raised e, s)
save_found org d others (done (some t)) s =
    let updated = apply_transaction_updates t d in
    (done (updated.0, false), write_back t.id updated s)
save_found org d others (done none) s =
    let s' = others s in
    let t = new_transaction s'.next_id org d in
    if index_taken org d.integration_id d.tx_id s'.rows
    then after_integrity_error (lookup_tx org d s'.rows) s'
    else (done (t, true), insert_row t s')

unfoldable pub save_transaction : ℕ → (TxStore → TxStore) → TransactionSchema → TxStore → Saving
unfolding get_by_tx_id
save_transaction org others d s = save_found org d others (lookup_tx org d s.rows) s

-- New rows and updated rows.
abbrev pub Counts : Type 0
Counts = ℕ × ℕ

abbrev pub count_saved : Bool → Counts → Counts
count_saved true (new, updated) = (suc new, updated)
count_saved false (new, updated) = (new, suc updated)

abbrev pub alone : TxStore → TxStore
alone s = s

-- The loop of the fallback: each transaction is committed on its own.
unfoldable pub save_each : ℕ → List TransactionSchema → Counts → TxStore → TxResult Counts × TxStore
unfolding save_transaction
save_each org [] counts s = (done counts, s)
save_each org (d ∷ ds) counts s =
    let (saved, s') = save_transaction org alone d s in
    elim saved [ raised e ↦ (raised e, s') | done t ↦ save_each org ds (count_saved t.1 counts) s' ]
