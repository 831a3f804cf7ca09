-- ===== src/Balances/Tests.antt =====
-- The checks of a balance on a concrete one.
use balance_tracker.Prelude.{true, false, some, [], ◌∷◌, ◌≡◌, ◌↔◌, refl}
use balance_tracker.Prelude.Int.{pos}
use balance_tracker.Prelude.Text.{codes, strip, lower, starts_with}
use balance_tracker.Balances.Store.{finite, ServiceBalance, IntegritySettings}
use balance_tracker.Balances.Integrity.{
  checked_float, has_recent_history_support, checked_value, asset_value, plus, assets_sum,
  accounts_sum, make_snapshot, balance_snapshot, allows_portfolio_total_mismatch, is_mismatch,
  reference_sum, is_shaped, shape_of, validate_balance_shape, suspicious_large_change,
  suspicious_wallet, is_suspicious, accepts_change, accepts_after, is_wallet_portfolio_service,
  validate_balance_for_persistence,
}
use balance_tracker.Balances.Repository.{StoredAsset, Balance, BalanceDb, NewBalance}
use balance_tracker.Balances.IntegrityLaws.{Accepted, validate_balance_for_persistence_iff}

abbrev settings : IntegritySettings
settings = record {
  enabled = true;
  total_mismatch_abs_usd = 500_000_000;
  total_mismatch_rel = 5_000_000;
  outlier_min_previous_usd = 10_000_000_000;
  outlier_min_abs_usd = 100_000_000_000;
  outlier_max_relative_change = 100_000_000;
}

abbrev balance : ServiceBalance
balance = record {
  service = codes "bybit";
  total_usd = finite (pos 200_000_000_000);
  assets =
      record {
        coin = codes "BTC";
        amount = finite (pos 4_000_000);
        value_usd = finite (pos 199_900_000_000);
      }
      ∷ [];
  accounts = [];
}

validate_balance_for_persistence_iff_example :
    (validate_balance_for_persistence settings
        (codes "bybit")
        balance
        (some (pos 150_000_000_000))
        []
      ≡ true)
    ↔ Accepted settings (codes "bybit") balance (some (pos 150_000_000_000)) []
validate_balance_for_persistence_iff_example =
    validate_balance_for_persistence_iff settings (codes "bybit") balance
      (some (pos 150_000_000_000)) [] refl

accepted_now :
    validate_balance_for_persistence settings
      (codes "bybit")
      balance
      (some (pos 150_000_000_000))
      []
    ≡ true
unfolding validate_balance_for_persistence validate_balance_shape shape_of balance_snapshot
    make_snapshot checked_float assets_sum accounts_sum asset_value checked_value plus is_shaped
    allows_portfolio_total_mismatch is_mismatch reference_sum accepts_after accepts_change
    is_suspicious suspicious_large_change suspicious_wallet is_wallet_portfolio_service
    has_recent_history_support strip lower starts_with
accepted_now = refl

-- A wallet that lost more than a half is refused without a history that supports it.
refused_drop :
    validate_balance_for_persistence settings
      (codes "evm_main")
      (record balance { service = codes "evm_main" })
      (some (pos 500_000_000_000))
      (200_000_000_000 ∷ 200_000_000_000 ∷ [])
    ≡ false
unfolding validate_balance_for_persistence validate_balance_shape shape_of balance_snapshot
    make_snapshot checked_float assets_sum accounts_sum asset_value checked_value plus is_shaped
    allows_portfolio_total_mismatch is_mismatch reference_sum accepts_after accepts_change
    is_suspicious suspicious_large_change suspicious_wallet is_wallet_portfolio_service
    has_recent_history_support strip lower starts_with
refused_drop = refl

supported_drop :
    validate_balance_for_persistence settings
      (codes "evm_main")
      (record balance { service = codes "evm_main" })
      (some (pos 500_000_000_000))
      (200_000_000_000 ∷ 200_000_000_000 ∷ 200_000_000_000 ∷ [])
    ≡ true
unfolding validate_balance_for_persistence validate_balance_shape shape_of balance_snapshot
    make_snapshot checked_float assets_sum accounts_sum asset_value checked_value plus is_shaped
    allows_portfolio_total_mismatch is_mismatch reference_sum accepts_after accepts_change
    is_suspicious suspicious_large_change suspicious_wallet is_wallet_portfolio_service
    has_recent_history_support strip lower starts_with
supported_drop = refl

abbrev held : StoredAsset
held = record { coin = codes "BTC"; amount = pos 4_000_000; value_usd = pos 199_900_000_000 }

abbrev stored_balance : Balance
stored_balance = record {
  id = 1;
  organization_id = 3;
  integration_id = some 5;
  service = codes "bybit";
  assets = held ∷ [];
  accounts = [];
  total_usd = pos 199_900_000_000;
  actual = false;
  updated_at = 10;
}

abbrev tables : BalanceDb
tables = record { balances = stored_balance ∷ []; next_balance = 2; history = []; next_history = 1 }

abbrev report : NewBalance
report = record {
  service = codes "bybit";
  assets = held ∷ [];
  total_usd = pos 200_000_000_000;
  actual = true;
  accounts = [];
  organization_id = 3;
  integration_id = some 5;
}
