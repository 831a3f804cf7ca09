-- ===== src/Balances/Store.antt =====
-- Balances as providers report them. A float is an integer in units of 10 ^ -8, the precision to
-- which the code rounds amounts before it compares them, or is not finite.
use balance_tracker.Prelude.{ℕ, ◌+◌, ◌-◌, Bool, List}
use balance_tracker.Prelude.Int.{ℤ}
use balance_tracker.Prelude.Text.{Text}

pub data Float : Type 0 where
  finite : ℤ → Float
  not_finite : Float

-- 1.0
abbrev pub unit : ℕ
unit = 100_000_000

-- `abs(a - b)` of two numbers that are not negative
abbrev pub distance : ℕ → ℕ → ℕ
distance a b = (a - b) + (b - a)

pub record Asset : Type 0 where
  pub coin : Text
  pub amount : Float
  pub value_usd : Float

pub record AccountBalance : Type 0 where
  pub account_type : Text
  pub total_usd : Float
  pub assets : List Asset

pub record ServiceBalance : Type 0 where
  pub service : Text
  pub total_usd : Float
  pub assets : List Asset
  pub accounts : List AccountBalance

-- The settings of the checks; the relative ones are in units of 10 ^ -8 too.
pub record IntegritySettings : Type 0 where
  pub enabled : Bool
  pub total_mismatch_abs_usd : ℕ
  pub total_mismatch_rel : ℕ
  pub outlier_min_previous_usd : ℕ
  pub outlier_min_abs_usd : ℕ
  pub outlier_max_relative_change : ℕ
