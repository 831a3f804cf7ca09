-- ===== src/ServiceStatus.antt =====
-- The table `service_status` and `ServiceStatusRepository` of app/repositories/balance.py.
pub mod Laws
use balance_tracker.Prelude.{ℕ, Bool, ◌&&◌, Option, none, some, List, ◌∷◌, ◌==◌}
use balance_tracker.Prelude.Lists.{find?, update_where}
use balance_tracker.Prelude.Text.{Text, text_eq}

pub record ServiceStatus : Type 0 where
  pub organization_id : ℕ
  pub service : Text
  pub is_healthy : Bool
  pub last_error : Option Text
  pub last_check : ℕ

abbrev pub status_of : ℕ → Text → ServiceStatus → Bool
status_of org service r = r.organization_id == org && text_eq service r.service

unfoldable pub get_status : ℕ → Text → List ServiceStatus → Option ServiceStatus
get_status org service rows = find? (status_of org service) rows

abbrev pub checked : Bool → Option Text → ℕ → ServiceStatus → ServiceStatus
checked is_healthy last_error now r = record r {
  is_healthy = is_healthy;
  last_error = last_error;
  last_check = now;
}

-- The unique index on organisation and service allows one row.
unfoldable pub update_status :
    Text → Bool → Option Text → ℕ → ℕ → List ServiceStatus → List ServiceStatus
unfolding get_status
update_status service is_healthy last_error org now rows = elim (get_status org service rows) [
  | some r ↦ update_where (status_of org service) (checked is_healthy last_error now) rows
  | none ↦
      record {
        organization_id = org;
        service = service;
        is_healthy = is_healthy;
        last_error = last_error;
        last_check = now;
      }
      ∷ rows
]
