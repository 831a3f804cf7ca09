-- ===== src/Balances/Repository.antt =====
-- `BalanceRepository`: the latest balances and their history. A stored amount is an integer in units
-- of 10 ^ -8, to which the code rounds before it compares.
use balance_tracker.Prelude.{
  ℕ, ◌+◌, max, Bool, true, false, ◌&&◌, ◌||◌, not, Option, none, some, List, [], ◌∷◌, map, ltb,
  ◌==◌, if◌then◌else◌,
}
use balance_tracker.Prelude.Lists.{keep, any, best, take, update_where}
use balance_tracker.Prelude.Sort.{sort_by}
use balance_tracker.Prelude.Int.{ℤ, pos_part, neg_part}
use balance_tracker.Prelude.Text.{Text, codes, text_eq, is_empty}
use balance_tracker.Balances.Store.{distance}
use balance_tracker.Balances.Integrity.{is_nil}

pub record StoredAsset : Type 0 where
  pub coin : Text
  pub amount : ℤ
  pub value_usd : ℤ

pub record StoredAccount : Type 0 where
  pub account_type : Text
  pub mirror_of : Option Text
  pub error : Option Text
  pub total_usd : ℤ
  pub assets : List StoredAsset

pub record Balance : Type 0 where
  pub id : ℕ
  pub organization_id : ℕ
  pub integration_id : Option ℕ
  pub service : Text
  pub assets : List StoredAsset
  pub accounts : List StoredAccount
  pub total_usd : ℤ
  pub actual : Bool
  pub updated_at : ℕ

pub record BalanceHistory : Type 0 where
  pub id : ℕ
  pub organization_id : ℕ
  pub integration_id : Option ℕ
  pub service : Text
  pub assets : List StoredAsset
  pub accounts : List StoredAccount
  pub total_usd : ℤ
  pub actual : Bool
  pub created_at : ℕ

pub record BalanceDb : Type 0 where
  pub balances : List Balance
  pub next_balance : ℕ
  pub history : List BalanceHistory
  pub next_history : ℕ

abbrev integration_is : Option ℕ → Option ℕ → Bool
integration_is none column = true
integration_is (some i) none = false
integration_is (some i) (some j) = j == i

abbrev pub balance_of : ℕ → Text → Option ℕ → Balance → Bool
balance_of org service integration b =
    b.organization_id == org
    && text_eq service b.service
    && integration_is integration b.integration_id

-- `order_by(desc(updated_at), desc(id))`
abbrev pub newer_balance : Balance → Balance → Bool
newer_balance a b = ltb b.updated_at a.updated_at || (a.updated_at == b.updated_at && ltb b.id a.id)

unfoldable pub get_latest_balance : Text → ℕ → Option ℕ → BalanceDb → Option Balance
get_latest_balance service org integration d =
    best newer_balance (keep (balance_of org service integration) d.balances)

abbrev pub history_of : ℕ → Text → Option ℕ → BalanceHistory → Bool
history_of org service integration h =
    h.organization_id == org
    && text_eq service h.service
    && integration_is integration h.integration_id

-- `order_by(desc(created_at), desc(id))`
abbrev pub newer_history : BalanceHistory → BalanceHistory → Bool
newer_history a b = ltb b.created_at a.created_at || (a.created_at == b.created_at && ltb b.id a.id)

unfoldable pub get_recent_history_totals : Text → ℕ → Option ℕ → ℕ → BalanceDb → List ℤ
get_recent_history_totals service org integration limit d =
    map (λ (h : BalanceHistory). h.total_usd)
      (take (max 1 limit)
        (sort_by newer_history (keep (history_of org service integration) d.history)))

-- `abs(a - b)`
abbrev pub gap : ℤ → ℤ → ℕ
gap a b = distance (pos_part a + neg_part b) (pos_part b + neg_part a)

abbrev pub same_number : ℤ → ℤ → Bool
same_number a b = gap a b == 0

abbrev pub same_holding : StoredAsset → StoredAsset → Bool
same_holding a b = text_eq a.coin b.coin && same_number a.amount b.amount

-- `set(xs) <= set(ys)`
abbrev pub covers : List StoredAsset → List StoredAsset → Bool
covers [] ys = true
covers (x ∷ xs) ys = any (same_holding x) ys && covers xs ys

-- The comparison of the sets of coins and amounts.
unfoldable pub same_assets : List StoredAsset → List StoredAsset → Bool
same_assets xs ys = covers xs ys && covers ys xs

module _ {ℓ} {A : Type ℓ} (same : A → A → Bool) where
  -- The list without the first element that is the same; `none` if there is none.
  abbrev pub without : A → List A → Option (List A)
  without a [] = none
  without a (x ∷ xs) = elim (same a x) [
    | true ↦ some xs
    | false ↦ elim (without a xs) [ none ↦ none | some r ↦ some (x ∷ r) ]
  ]

  -- Equality of the sorted lists.
  abbrev pub same_sorted : List A → List A → Bool
  same_sorted [] ys = is_nil ys
  same_sorted (x ∷ xs) ys = elim (without x ys) [ none ↦ false | some r ↦ same_sorted xs r ]

abbrev pub text_or_default : Text → Option Text → Text
text_or_default d none = d
text_or_default d (some s) = if is_empty s then d else s

abbrev pub same_asset : StoredAsset → StoredAsset → Bool
same_asset a b = same_holding a b && same_number a.value_usd b.value_usd

-- The comparison of two normalised rows.
unfoldable pub same_account : StoredAccount → StoredAccount → Bool
same_account a b =
    text_eq (text_or_default (codes "spot") (some a.account_type))
      (text_or_default (codes "spot") (some b.account_type))
    && text_eq (text_or_default [] a.mirror_of) (text_or_default [] b.mirror_of)
    && text_eq (text_or_default [] a.error) (text_or_default [] b.error)
    && same_number a.total_usd b.total_usd
    && same_sorted same_asset a.assets b.assets

unfoldable pub same_accounts : List StoredAccount → List StoredAccount → Bool
unfolding same_account
same_accounts xs ys = same_sorted same_account xs ys

-- 0.01
abbrev pub cent : ℕ
cent = 1_000_000

pub record NewBalance : Type 0 where
  pub service : Text
  pub assets : List StoredAsset
  pub total_usd : ℤ
  pub actual : Bool
  pub accounts : List StoredAccount
  pub organization_id : ℕ
  pub integration_id : Option ℕ

unfoldable pub has_changed : NewBalance → Balance → Bool
unfolding same_assets same_accounts
has_changed r b =
    ltb cent (gap b.total_usd r.total_usd)
    || (not (is_nil b.assets) && not (same_assets b.assets r.assets))
    || not (same_accounts b.accounts r.accounts)

unfoldable pub new_history : ℕ → ℕ → NewBalance → BalanceHistory
new_history id now r = record {
  id = id;
  organization_id = r.organization_id;
  integration_id = r.integration_id;
  service = r.service;
  assets = r.assets;
  accounts = r.accounts;
  total_usd = r.total_usd;
  actual = r.actual;
  created_at = now;
}

unfoldable pub new_balance : ℕ → ℕ → NewBalance → Balance
new_balance id now r = record {
  id = id;
  organization_id = r.organization_id;
  integration_id = r.integration_id;
  service = r.service;
  assets = r.assets;
  accounts = r.accounts;
  total_usd = r.total_usd;
  actual = r.actual;
  updated_at = now;
}

abbrev pub balance_numbered : ℕ → Balance → Bool
balance_numbered i b = b.id == i

abbrev pub changed_balance : ℕ → NewBalance → Balance → Balance
changed_balance now r b = record b {
  assets = r.assets;
  accounts = r.accounts;
  total_usd = r.total_usd;
  actual = r.actual;
  updated_at = now;
}

abbrev pub confirmed_balance : ℕ → NewBalance → Balance → Balance
confirmed_balance now r b = record b { accounts = r.accounts; actual = r.actual; updated_at = now }

abbrev pub write_balance : Balance → BalanceDb → BalanceDb
write_balance b d = record d { balances = update_where (balance_numbered b.id) (λ _. b) d.balances }

abbrev pub add_history : BalanceHistory → BalanceDb → BalanceDb
add_history h d = record d { history = h ∷ d.history; next_history = d.next_history + 1 }

unfoldable pub save_over : ℕ → NewBalance → Option Balance → BalanceDb → Balance × BalanceDb
unfolding has_changed new_history new_balance
save_over now r none d =
    let b = new_balance d.next_balance now r in
    (
      b,
      add_history (new_history d.next_history now r)
          (record d { balances = b ∷ d.balances; next_balance = d.next_balance + 1 }),
    )
save_over now r (some b) d =
    if has_changed r b
    then (
      changed_balance now r b,
      write_balance (changed_balance now r b) (add_history (new_history d.next_history now r) d),
    )
    else (confirmed_balance now r b, write_balance (confirmed_balance now r b) d)

unfoldable pub save_balance : ℕ → NewBalance → BalanceDb → Balance × BalanceDb
unfolding save_over get_latest_balance
save_balance now r d =
    save_over now r (get_latest_balance r.service r.organization_id r.integration_id d) d

abbrev pub stale_balance : ℕ → Balance → Balance
stale_balance now b = record b { actual = false; updated_at = now }

unfoldable pub stale_over : ℕ → Option Balance → BalanceDb → Option Balance × BalanceDb
stale_over now none d = (none, d)
stale_over now (some b) d = (some (stale_balance now b), write_balance (stale_balance now b) d)

unfoldable pub mark_as_stale : ℕ → Text → ℕ → Option ℕ → BalanceDb → Option Balance × BalanceDb
unfolding stale_over get_latest_balance
mark_as_stale now service org integration d =
    stale_over now (get_latest_balance service org integration d) d
