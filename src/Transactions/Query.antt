-- ===== src/Transactions/Query.antt =====
-- Reading transactions, and the flag that a notification was sent.
use balance_tracker.Prelude.{
  ℕ, Bool, true, false, ◌&&◌, not, Option, none, some, List, [], ◌∷◌, leb, ltb, ◌==◌, if◌then◌else◌,
}
use balance_tracker.Prelude.Lists.{keep, any, count_if, take, update_where}
use balance_tracker.Prelude.Sort.{sort_by, drop}
use balance_tracker.Prelude.Text.{Text, text_eq, is_empty, codes}
use balance_tracker.Transactions.Store.{Transaction, TxStore, has_id, of_integration}

-- A time that may be missing goes before another one; `nulls_first` is the database's choice for an
-- ascending order (SQLite puts NULL first, PostgreSQL last).
abbrev pub goes_before : Bool → Option ℕ → Option ℕ → Bool
goes_before nulls_first none none = false
goes_before nulls_first none (some b) = nulls_first
goes_before nulls_first (some a) none = not nulls_first
goes_before nulls_first (some a) (some b) = ltb a b

abbrev pub by_time : Bool → Transaction → Transaction → Bool
by_time nulls_first a b = goes_before nulls_first a.tx_timestamp b.tx_timestamp

-- `order_by(desc(tx_timestamp))`
abbrev pub by_time_desc : Bool → Transaction → Transaction → Bool
by_time_desc nulls_first a b = goes_before nulls_first b.tx_timestamp a.tx_timestamp

pub record TxFilter : Type 0 where
  pub service : Option Text
  pub integration_id : Option ℕ
  pub tx_type : Option Text
  pub status : Option Text
  pub start_date : Option ℕ
  pub end_date : Option ℕ

-- `if value: query.where(column == value)`
abbrev pub text_filter : Option Text → Text → Bool
text_filter none column = true
text_filter (some v) column = if is_empty v then true else text_eq v column

abbrev pub from_filter : Option ℕ → Option ℕ → Bool
from_filter none column = true
from_filter (some v) none = false
from_filter (some v) (some t) = leb v t

abbrev pub until_filter : Option ℕ → Option ℕ → Bool
until_filter none column = true
until_filter (some v) none = false
until_filter (some v) (some t) = leb t v

unfoldable pub matches : ℕ → TxFilter → Transaction → Bool
matches org f t =
    t.organization_id == org
    && text_filter f.service t.service
    && of_integration f.integration_id t
    && text_filter f.tx_type t.tx_type
    && text_filter f.status t.status
    && from_filter f.start_date t.tx_timestamp
    && until_filter f.end_date t.tx_timestamp

unfoldable pub get_transactions : Bool → ℕ → TxFilter → ℕ → ℕ → List Transaction → List Transaction
unfolding matches
get_transactions nulls_first org f limit offset rows =
    take limit (drop offset (sort_by (by_time_desc nulls_first) (keep (matches org f) rows)))

unfoldable pub get_transaction_count : ℕ → TxFilter → List Transaction → ℕ
unfolding matches
get_transaction_count org f rows = count_if (matches org f) rows

-- The predicate of `get_unnotified_transactions`.
unfoldable pub is_unnotified : ℕ → Text → Transaction → Bool
is_unnotified org status t = t.organization_id == org && not t.notified && text_eq status t.status

unfoldable pub get_unnotified_transactions : Bool → ℕ → Text → List Transaction → List Transaction
unfolding is_unnotified
get_unnotified_transactions nulls_first org status rows =
    sort_by (by_time nulls_first) (keep (is_unnotified org status) rows)

abbrev pub notify : Transaction → Transaction
notify t = record t { notified = true }

-- The row of an organisation with a number.
abbrev pub org_row : ℕ → ℕ → Transaction → Bool
org_row org i t = t.organization_id == org && has_id i t

unfoldable pub mark_as_notified : ℕ → ℕ → TxStore → Bool × TxStore
mark_as_notified i org s =
    if any (org_row org i) s.rows
    then (true, record s { rows = update_where (org_row org i) notify s.rows })
    else (false, s)

unfoldable pub is_listed : List ℕ → ℕ → Transaction → Bool
is_listed ids org t = t.organization_id == org && any (λ i. has_id i t) ids

-- The number of rows that the update matched, and the table.
unfoldable pub mark_multiple_as_notified : List ℕ → ℕ → TxStore → ℕ × TxStore
unfolding is_listed
mark_multiple_as_notified [] org s = (0, s)
mark_multiple_as_notified (i ∷ ids) org s =
    let p = is_listed (i ∷ ids) org in
    (count_if p s.rows, record s { rows = update_where p notify s.rows })

abbrev pub of_type : ℕ → Option ℕ → Text → Text → Transaction → Bool
of_type org integration service tx_type t =
    t.organization_id == org
    && text_eq service t.service
    && text_eq tx_type t.tx_type
    && of_integration integration t

-- The first value of a column of optional values.
abbrev pub first_time : List Transaction → Option ℕ
first_time [] = none
first_time (t ∷ ts) = t.tx_timestamp

unfoldable pub get_last_transaction_timestamp :
    Bool → Text → Text → ℕ → Option ℕ → List Transaction → Option ℕ
get_last_transaction_timestamp nulls_first service tx_type org integration rows =
    first_time
      (sort_by (by_time_desc nulls_first) (keep (of_type org integration service tx_type) rows))

-- `TransactionService.get_service_summary`
pub record TransactionsSummary : Type 0 where
  pub total_deposits : ℕ
  pub total_withdrawals : ℕ
  pub pending_deposits : ℕ
  pub pending_withdrawals : ℕ
  pub last_deposit : Option ℕ
  pub last_withdrawal : Option ℕ

abbrev pub of_kind : Text → Text → Option Text → TxFilter
of_kind service tx_type status = record {
  service = some service;
  integration_id = none;
  tx_type = some tx_type;
  status = status;
  start_date = none;
  end_date = none;
}

unfoldable pub get_service_summary : Bool → ℕ → Text → List Transaction → TransactionsSummary
unfolding get_transaction_count get_last_transaction_timestamp
get_service_summary nulls_first org service rows =
    let deposit = codes "deposit" in
    let withdrawal = codes "withdrawal" in
    let pending = some (codes "pending") in
    record {
      total_deposits = get_transaction_count org (of_kind service deposit none) rows;
      total_withdrawals = get_transaction_count org (of_kind service withdrawal none) rows;
      pending_deposits = get_transaction_count org (of_kind service deposit pending) rows;
      pending_withdrawals = get_transaction_count org (of_kind service withdrawal pending) rows;
      last_deposit = get_last_transaction_timestamp nulls_first service deposit org none rows;
      last_withdrawal = get_last_transaction_timestamp nulls_first service withdrawal org none rows;
    }
