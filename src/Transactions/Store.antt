-- ===== src/Transactions/Store.antt =====
-- The rows of `transactions` and what the schema `TransactionSchema` carries. Amounts and fees are
-- floats in the source; here they are integers in the smallest unit that is used.
use balance_tracker.Prelude.{ℕ, ◌+◌, Bool, true, false, ◌&&◌, Option, none, some, List, ◌∷◌, ◌==◌}
use balance_tracker.Prelude.Lists.{any}
use balance_tracker.Prelude.Int.{ℤ}
use balance_tracker.Prelude.Text.{Text, text_eq}

pub record Transaction : Type 0 where
  pub id : ℕ
  pub organization_id : ℕ
  pub integration_id : Option ℕ
  pub tx_id : Text
  pub service : Text
  pub tx_type : Text
  pub currency : Text
  pub amount : ℤ
  pub fee : Option ℤ
  pub fee_currency : Option Text
  pub network : Option Text
  pub address : Option Text
  pub address_from : Option Text
  pub address_to : Option Text
  pub tag : Option Text
  pub status : Text
  pub txid : Option Text
  pub tx_timestamp : Option ℕ
  pub notified : Bool

pub record TransactionSchema : Type 0 where
  pub integration_id : Option ℕ
  pub tx_id : Text
  pub service : Text
  pub tx_type : Text
  pub currency : Text
  pub amount : ℤ
  pub fee : Option ℤ
  pub fee_currency : Option Text
  pub network : Option Text
  pub address : Option Text
  pub address_from : Option Text
  pub address_to : Option Text
  pub tag : Option Text
  pub status : Text
  pub txid : Option Text
  pub tx_timestamp : Option ℕ

pub record TxStore : Type 0 where
  pub rows : List Transaction
  pub next_id : ℕ

-- MultipleResultsFound of a lookup_tx, and the IntegrityError of the unique index.
pub data TxError : Type 0 where
  multiple_results integrity : TxError

pub data TxResult {ℓ} (A : Type ℓ) : Type ℓ where
  done : A → TxResult A
  raised : TxError → TxResult A

abbrev pub has_id : ℕ → Transaction → Bool
has_id i t = t.id == i

-- `Transaction.integration_id == integration_id`, where NULL equals nothing.
abbrev pub column_is : Option ℕ → ℕ → Bool
column_is none i = false
column_is (some j) i = j == i

-- The predicate that a query adds when `integration_id is not None`.
abbrev pub of_integration : Option ℕ → Transaction → Bool
of_integration none t = true
of_integration (some i) t = column_is t.integration_id i

-- The predicates of `get_by_tx_id`.
unfoldable pub is_tx : ℕ → Option ℕ → Text → Text → Transaction → Bool
is_tx org integration service tx_id t =
    t.organization_id == org
    && text_eq service t.service
    && text_eq tx_id t.tx_id
    && of_integration integration t

-- The columns of the unique index `ix_transactions_org_integration_tx_id`.
unfoldable pub in_index : ℕ → ℕ → Text → Transaction → Bool
in_index org i tx_id t =
    t.organization_id == org && column_is t.integration_id i && text_eq tx_id t.tx_id

-- Whether the index refuses a row; rows without an integration are all distinct to it.
unfoldable pub index_taken : ℕ → Option ℕ → Text → List Transaction → Bool
unfolding in_index
index_taken org none tx_id rows = false
index_taken org (some i) tx_id rows = any (in_index org i tx_id) rows

abbrev pub insert_row : Transaction → TxStore → TxStore
insert_row t s = record s { rows = t ∷ s.rows; next_id = s.next_id + 1 }
