-- ===== src/Balances/Integrity.antt =====
-- Whether a balance may be stored. A comparison of a float with a product is multiplied out.
use balance_tracker.Prelude.{
  ℕ, ◌+◌, ◌*◌, max, Bool, true, false, ◌&&◌, ◌||◌, not, Option, none, some, List, [], ◌∷◌, ltb, leb,
  ◌==◌, if◌then◌else◌,
}
use balance_tracker.Prelude.Lists.{any, count_if}
use balance_tracker.Prelude.Int.{ℤ, pos, negsuc}
use balance_tracker.Prelude.Text.{Text, codes, strip, lower, starts_with}
use balance_tracker.Balances.Store.{
  Float, finite, not_finite, unit, distance, Asset, AccountBalance, ServiceBalance,
  IntegritySettings,
}

-- `_safe_float` and the test for a negative value: `none` raises a BalanceIntegrityError.
unfoldable pub checked_float : Float → Option ℕ
checked_float (finite (pos n)) = some n
checked_float (finite (negsuc n)) = none
checked_float not_finite = none

unfoldable pub checked_value : Option ℕ → Option ℕ → Option ℕ
checked_value (some amount) (some value) = some value
checked_value _ _ = none

-- The value of an asset in dollars.
unfoldable pub asset_value : Asset → Option ℕ
unfolding checked_float checked_value
asset_value a = checked_value (checked_float a.amount) (checked_float a.value_usd)

unfoldable pub plus : Option ℕ → Option ℕ → Option ℕ
plus (some a) (some b) = some (a + b)
plus _ _ = none

unfoldable pub assets_sum : List Asset → Option ℕ
unfolding asset_value plus
assets_sum [] = some 0
assets_sum (a ∷ as') = plus (asset_value a) (assets_sum as')

-- The total of an account, whose assets are checked too.
unfoldable pub account_value : AccountBalance → Option ℕ
unfolding checked_float assets_sum checked_value
account_value a = checked_value (assets_sum a.assets) (checked_float a.total_usd)

unfoldable pub accounts_sum : List AccountBalance → Option ℕ
unfolding account_value plus
accounts_sum [] = some 0
accounts_sum (a ∷ as') = plus (account_value a) (accounts_sum as')

pub record Snapshot : Type 0 where
  pub assets_sum : ℕ
  pub accounts_sum : ℕ
  pub total_usd : ℕ

unfoldable pub make_snapshot : Option ℕ → Option ℕ → Option ℕ → Option Snapshot
make_snapshot (some t) (some a) (some c) =
    some (record { assets_sum = a; accounts_sum = c; total_usd = t })
make_snapshot _ _ _ = none

unfoldable pub balance_snapshot : ServiceBalance → Option Snapshot
unfolding make_snapshot checked_float assets_sum accounts_sum
balance_snapshot b =
    make_snapshot (checked_float b.total_usd) (assets_sum b.assets) (accounts_sum b.accounts)

abbrev pub has_prefix : List Text → Text → Bool
has_prefix prefixes service = any (starts_with (lower (strip service))) prefixes

unfoldable pub allows_portfolio_total_mismatch : Text → Bool
allows_portfolio_total_mismatch service =
    has_prefix (codes "debank_sdk_" ∷ codes "evm_" ∷ []) service

unfoldable pub is_wallet_portfolio_service : Text → Bool
is_wallet_portfolio_service service =
    has_prefix
      (codes "debank_sdk_"
        ∷ codes "evm_"
        ∷ codes "sol_"
        ∷ codes "tron_"
        ∷ codes "ton_"
        ∷ codes "sui_"
        ∷ [])
      service

abbrev pub is_nil {ℓ} : {A : Type ℓ} → List A → Bool
is_nil [] = true
is_nil (_ ∷ _) = false

unfoldable pub reference_sum : ServiceBalance → Snapshot → ℕ
reference_sum b s = if is_nil b.assets then s.accounts_sum else s.assets_sum

-- `mismatch > tolerance`
unfoldable pub is_mismatch : IntegritySettings → ℕ → ℕ → Bool
is_mismatch cfg total reference =
    ltb (max (cfg.total_mismatch_abs_usd * unit) (max total reference * cfg.total_mismatch_rel))
      (distance total reference * unit)

-- The three refusals of `validate_balance_shape`; `true` accepts.
unfoldable pub is_shaped : IntegritySettings → ServiceBalance → Snapshot → Bool
unfolding allows_portfolio_total_mismatch is_mismatch reference_sum
is_shaped cfg b s =
    let empty = is_nil b.assets && is_nil b.accounts in
    let portfolio = allows_portfolio_total_mismatch b.service in
    let reference = reference_sum b s in
    if ltb 0 s.total_usd && empty
    then portfolio
    else not (not empty && not portfolio && is_mismatch cfg s.total_usd reference)
      && not (s.total_usd == 0 && ltb cfg.total_mismatch_abs_usd reference)

unfoldable pub shape_of : IntegritySettings → ServiceBalance → Option Snapshot → Bool
unfolding is_shaped
shape_of cfg b none = false
shape_of cfg b (some s) = is_shaped cfg b s

-- `true` where no BalanceIntegrityError is raised.
unfoldable pub validate_balance_shape : IntegritySettings → ServiceBalance → Bool
unfolding shape_of balance_snapshot
validate_balance_shape cfg b = if cfg.enabled then shape_of cfg b (balance_snapshot b) else true

-- A recent total that lies within a hundred dollars or a tenth of the current one.
abbrev pub supports : ℕ → ℕ → Bool
supports current v = ltb 0 v && leb (10 * distance v current) (max (1_000 * unit) current)

unfoldable pub has_recent_history_support : ℕ → List ℕ → Bool
has_recent_history_support current recent =
    ltb 0 current && not (is_nil recent) && leb 3 (count_if (supports current) recent)

-- `delta / max(previous_total, 1.0) > outlier_max_relative_change`
unfoldable pub suspicious_large_change : IntegritySettings → ℕ → ℕ → Bool
suspicious_large_change cfg previous current =
    ltb (cfg.outlier_max_relative_change * max previous unit) (distance current previous * unit)

-- A wallet of a thousand dollars that lost more than a half, or gained more than a half.
unfoldable pub suspicious_wallet : ℕ → ℕ → Bool
suspicious_wallet previous current =
    leb (1_000 * unit) previous && (ltb (2 * current) previous || ltb (3 * previous) (2 * current))

unfoldable pub is_suspicious : IntegritySettings → Bool → ℕ → ℕ → Bool
unfolding suspicious_large_change suspicious_wallet
is_suspicious cfg wallet previous current =
    suspicious_large_change cfg previous current || (wallet && suspicious_wallet previous current)

-- The comparison with the previous total.
unfoldable pub accepts_change : IntegritySettings → Bool → List ℕ → ℕ → ℕ → Bool
unfolding is_suspicious has_recent_history_support
accepts_change cfg wallet recent previous current =
    if ltb previous cfg.outlier_min_previous_usd
    then true
    else if ltb (distance current previous) cfg.outlier_min_abs_usd
    then true
    else if is_suspicious cfg wallet previous current
    then wallet && has_recent_history_support current recent
    else true

-- A stored total that is negative lies below the threshold of the comparison.
unfoldable pub accepts_after : IntegritySettings → Bool → List ℕ → Option ℤ → Option ℕ → Bool
unfolding accepts_change
accepts_after cfg wallet recent previous none = false
accepts_after cfg wallet recent none (some current) = true
accepts_after cfg wallet recent (some (negsuc n)) (some current) = true
accepts_after cfg wallet recent (some (pos n)) (some current) =
    accepts_change cfg wallet recent n current

-- `previous` is the total of the latest stored balance, `recent` the latest totals of the history.
unfoldable pub validate_balance_for_persistence :
    IntegritySettings → Text → ServiceBalance → Option ℤ → List ℕ → Bool
unfolding validate_balance_shape accepts_after checked_float is_wallet_portfolio_service
validate_balance_for_persistence cfg service b previous recent =
    if cfg.enabled
    then validate_balance_shape cfg b
      && accepts_after cfg (is_wallet_portfolio_service service) recent previous
          (checked_float b.total_usd)
    else true
