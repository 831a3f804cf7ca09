-- ===== src/Entitlements/Refresh.antt =====
-- The interval between two refreshes. An HTTPException 429 is the seconds of its "Retry-After".
use balance_tracker.Prelude.{
  ℕ, ◌-◌, ◌/◌, max, Bool, true, false, ◌&&◌, Option, none, some, ◌==◌, ltb, leb, if◌then◌else◌,
}
use balance_tracker.Prelude.Int.{ℤ, pos, sub_ℕ, ◌-ℤ◌, ltb_ℤ, pos_part}
use balance_tracker.Clock.{Datetime, normalize, second}
use balance_tracker.Entitlements.Policy.{Policy}

-- `int((now - last).total_seconds())`, truncated toward zero
abbrev pub elapsed_seconds : ℕ → ℕ → ℤ
elapsed_seconds now last =
    if leb last now then pos ((now - last) / second) else sub_ℕ 0 ((last - now) / second)

-- `max(interval - elapsed, 1)`
abbrev pub retry_after : ℕ → ℤ → ℕ
retry_after interval elapsed = max (pos_part (pos interval -ℤ elapsed)) 1

unfoldable pub wait_since : ℕ → Option ℕ → ℕ → Option ℕ
wait_since interval none now = none
wait_since interval (some last) now =
    if ltb_ℤ (elapsed_seconds now last) (pos interval)
    then some (retry_after interval (elapsed_seconds now last))
    else none

-- `ensure_refresh_interval`, for a policy that is resolved
unfoldable pub ensure_refresh_interval : Policy → Option Datetime → ℕ → Option ℕ
ensure_refresh_interval policy last_refresh_at now =
    if policy.background_refresh == 0
    then none
    else wait_since policy.background_refresh (normalize last_refresh_at) now

pub record RefreshState : Type 0 where
  pub last_refresh_at : Option ℕ
  pub can_refresh : Bool
  pub retry_after_seconds : ℕ
  pub min_refresh_interval_seconds : ℕ

abbrev pub state_of : Option ℕ → ℕ → Bool → ℕ → RefreshState
state_of last interval can retry = record {
  last_refresh_at = last;
  can_refresh = can;
  retry_after_seconds = retry;
  min_refresh_interval_seconds = interval;
}

unfoldable pub state_since : Option ℕ → ℕ → ℕ → RefreshState
state_since none interval now = state_of none interval true 0
state_since (some last) interval now =
    if ltb 0 interval && ltb_ℤ (elapsed_seconds now last) (pos interval)
    then state_of (some last) interval false (retry_after interval (elapsed_seconds now last))
    else state_of (some last) interval true 0

-- `_build_refresh_state`
unfoldable pub build_refresh_state : Option Datetime → ℕ → ℕ → RefreshState
build_refresh_state last_refresh_at interval now =
    state_since (normalize last_refresh_at) interval now
