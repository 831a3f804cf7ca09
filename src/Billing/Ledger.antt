-- ===== src/Billing/Ledger.antt =====
-- `LedgerService`, for amounts that are finite numbers.
use balance_tracker.Prelude.{
  ℕ, min, max, Bool, true, false, ◌&&◌, Option, none, some, List, [], ◌∷◌, ◌==◌, if◌then◌else◌,
}
use balance_tracker.Prelude.Lists.{any, keep, take}
use balance_tracker.Prelude.Int.{ℤ, pos, ◌+ℤ◌, ◌-ℤ◌, leb_ℤ}
use balance_tracker.Prelude.Text.{Text, codes, text_eq, strip, lower, upper, is_empty}
use balance_tracker.Json.{Fields}
use balance_tracker.Billing.Store.{
  EntryType, credit, release, debit, hold, LedgerEntry, Db, Action, Error, pure, raise, ◌>>◌,
  raise_if, modify,
}

-- The entry types that `add_entry` accepts, by their normalised text.
unfoldable pub entry_type_of : Text → Option EntryType
entry_type_of raw =
    let t = lower (strip raw) in
    if text_eq t (codes "credit")
    then some credit
    else if text_eq t (codes "release")
    then some release
    else if text_eq t (codes "debit")
    then some debit
    else if text_eq t (codes "hold")
    then some hold
    else none

-- `(currency or "USD").upper()`
abbrev pub currency_of : Text → Text
currency_of c = upper (if is_empty c then codes "USD" else c)

-- `(source_type or "manual").strip().lower()`
abbrev pub source_of : Text → Text
source_of s = lower (strip (if is_empty s then codes "manual" else s))

pub record NewEntry : Type 0 where
  pub organization_id : ℕ
  pub entry_type : Text
  pub amount : ℤ
  pub source_type : Text
  pub source_id : Option Text
  pub currency : Text
  pub created_by_user_id : Option ℕ
  pub note : Option Text
  pub metadata : Fields

abbrev pub entry_of : EntryType → NewEntry → LedgerEntry
entry_of t n = record {
  organization_id = n.organization_id;
  created_by_user_id = n.created_by_user_id;
  entry_type = t;
  amount = n.amount;
  currency = currency_of n.currency;
  source_type = source_of n.source_type;
  source_id = n.source_id;
  note = n.note;
  metadata = n.metadata;
}

-- The new entry; `flush` makes it visible to later queries of the session.
unfoldable pub add_typed : Option EntryType → NewEntry → Action LedgerEntry
add_typed none n = raise Error.unsupported_entry_type
add_typed (some t) n = do
  raise_if (leb_ℤ n.amount (pos 0)) Error.amount_not_positive
  modify (λ d. record d { ledger = entry_of t n ∷ d.ledger })
  pure (entry_of t n)

unfoldable pub add_entry : NewEntry → Action LedgerEntry
unfolding entry_type_of add_typed
add_entry n = add_typed (entry_type_of n.entry_type) n

abbrev pub source_is : Text → Option Text → Bool
source_is s none = false
source_is s (some t) = text_eq s t

unfoldable pub has_source_entry : ℕ → Text → Text → Db → Bool
has_source_entry org source_type source_id d =
    any
      (λ (e : LedgerEntry).
        e.organization_id == org
        && text_eq source_type e.source_type
        && source_is source_id e.source_id)
      d.ledger

abbrev pub is_positive : EntryType → Bool
is_positive credit = true
is_positive release = true
is_positive debit = false
is_positive hold = false

-- `case when entry_type in (credit, release) then amount else -amount`
abbrev pub signed_amount : LedgerEntry → ℤ
signed_amount e = if is_positive e.entry_type then e.amount else pos 0 -ℤ e.amount

abbrev pub counted : ℕ → Text → LedgerEntry → Bool
counted org currency e = e.organization_id == org && text_eq (currency_of currency) e.currency

unfoldable pub total : ℕ → Text → List LedgerEntry → ℤ
total org currency [] = pos 0
total org currency (e ∷ es) =
    let rest = total org currency es in
    if counted org currency e then signed_amount e +ℤ rest else rest

-- `coalesce(sum(...), 0)` over the organisation's entries in the currency
unfoldable pub get_balance : ℕ → Text → Db → ℤ
unfolding total
get_balance org currency d = total org currency d.ledger

-- The newest entries stand first in the table.
unfoldable pub list_entries : ℕ → ℕ → Db → List LedgerEntry
list_entries org limit d =
    take (max 1 (min limit 100)) (keep (λ (e : LedgerEntry). e.organization_id == org) d.ledger)
