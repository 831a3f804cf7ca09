-- ===== src/ServiceStatus/Laws.antt =====
-- A status that was written can be read, and the others are as they were.
use balance_tracker.Prelude.{
  ℕ, ◌≡◌, refl, inl, inr, Bool, Option, none, some, List, [], ◌∷◌, ==_refl, Bool-cases,
  Option-cases,
}
use balance_tracker.Prelude.Lists.{find?, update_where}
use balance_tracker.Prelude.Text.{Text, text_eq_refl}
use balance_tracker.ServiceStatus.{ServiceStatus, status_of, get_status, checked, update_status}

module _ (service : Text) (is_healthy : Bool) (last_error : Option Text) (org now : ℕ) where
  find?-update :
      (rows : List ServiceStatus) (r : ServiceStatus)
      → find? (status_of org service) rows ≡ some r
      → find?
          (status_of org service)
          (update_where (status_of org service) (checked is_healthy last_error now) rows)
        ≡ some (checked is_healthy last_error now r)
  find?-update [] r h = cc
  find?-update (x ∷ rows) r h = elim (Bool-cases (status_of org service x)) [
    | inl e ↦ let q : x ≡ r = cc (rw e at h) in rw (e, e) (cc q)
    | inr e ↦ rw (e, e) (find?-update rows r (rw e at h))
  ]

  abbrev new_status : ServiceStatus
  new_status = record {
    organization_id = org;
    service = service;
    is_healthy = is_healthy;
    last_error = last_error;
    last_check = now;
  }

  update_status_new :
      (rows : List ServiceStatus)
      → get_status org service rows ≡ none
      → update_status service is_healthy last_error org now rows ≡ new_status ∷ rows
  unfolding update_status
  update_status_new rows e = rw (e, update_status)

  update_status_old :
      (rows : List ServiceStatus) (r : ServiceStatus)
      → get_status org service rows ≡ some r
      → update_status service is_healthy last_error org now rows
        ≡ update_where (status_of org service) (checked is_healthy last_error now) rows
  unfolding update_status
  update_status_old rows r e = rw (e, update_status)

  get_status-new :
      (rows : List ServiceStatus) → get_status org service (new_status ∷ rows) ≡ some new_status
  unfolding get_status
  get_status-new rows = rw (==_refl org, text_eq_refl service)

  get_status-old :
      (rows : List ServiceStatus) (r : ServiceStatus)
      → get_status org service rows ≡ some r
      → get_status org service
          (update_where (status_of org service) (checked is_healthy last_error now) rows)
        ≡ some (checked is_healthy last_error now r)
  unfolding get_status
  get_status-old rows r e = find?-update rows r e

  -- After an update of a service's status, a lookup finds a row with the health, the error and the
  -- time that were written.
  pub get_status-update_status :
      (rows : List ServiceStatus)
      → (r : ServiceStatus) × (get_status org service
            (update_status service is_healthy last_error org now rows)
          ≡ some r)
        × (r.is_healthy ≡ is_healthy)
        × (r.last_error ≡ last_error)
        × (r.last_check ≡ now)
  get_status-update_status rows = elim (Option-cases (get_status org service rows)) [
    | inl e ↦ (new_status, rw (update_status_new rows e) (get_status-new rows), refl, refl, refl)
    | inr (x, e) ↦ (
      checked is_healthy last_error now x,
      rw (update_status_old rows x e) (get_status-old rows x e),
      refl,
      refl,
      refl,
    )
  ]
