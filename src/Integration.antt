-- ===== src/Integration.antt =====
-- The columns of `integrations` (app/models/balance.py) that the services read or write.
use balance_tracker.Prelude.{ℕ, Bool, Option}
use balance_tracker.Prelude.Text.{Text}

pub record Integration : Type 0 where
  pub id : ℕ
  pub organization_id : ℕ
  pub provider : Text
  pub kind : Text
  pub exchange_code : Option Text
  pub wallet_address : Option Text
  pub chain : Option Text
  pub is_active : Bool
  pub last_synced_at : Option ℕ
