-- ===== src/Entitlements/RefreshLaws.antt =====
-- The refusal of a refresh, and the state that a client is shown.
use balance_tracker.Prelude.{
  ℕ, ◌+◌, ◌-◌, ◌*◌, ◌/◌, ◌≤◌, ◌≡◌, refl, inl, inr, true, false, not, Option, none, some, is_some,
  or_else, arith, ◌==◌, ltb, leb, Bool-cases, if◌then◌else◌,
}
use balance_tracker.Prelude.Int.{pos, ◌-ℤ◌, ltb_ℤ}
use balance_tracker.Clock.{Datetime, normalize, second}
use balance_tracker.Entitlements.Policy.{Policy}
use balance_tracker.Entitlements.Refresh.{
  elapsed_seconds, retry_after, wait_since, ensure_refresh_interval, state_since,
  build_refresh_state,
}

since_agrees :
    (policy : Policy) (o : Option ℕ) (now : ℕ)
    → let r =
        if policy.background_refresh == 0
        then none
        else wait_since policy.background_refresh o now in
      let s = state_since o policy.background_refresh now in
      (s.can_refresh ≡ not (is_some r)) × (s.retry_after_seconds ≡ or_else r 0)
unfolding wait_since state_since
since_agrees policy none now = ground arith
since_agrees policy (some last) now = elim (Bool-cases (policy.background_refresh == 0)) [
  | inl e ↦ let z : ltb 0 policy.background_refresh ≡ false = ground arith in rw (e, z) (refl, refl)
  | inr e ↦
      let z : ltb 0 policy.background_refresh ≡ true = ground arith in
      elim (Bool-cases (ltb_ℤ (elapsed_seconds now last) (pos policy.background_refresh))) [
        | inl f ↦ rw (e, z, f) (refl, refl)
        | inr f ↦ rw (e, z, f) (refl, refl)
      ]
]

-- The state that is shown for the policy's background interval says that a refresh is allowed exactly
-- when `ensure_refresh_interval` does not refuse one, and shows the seconds of the refusal.
pub build_refresh_state_agrees :
    (policy : Policy) (last : Option Datetime) (now : ℕ)
    → let r = ensure_refresh_interval policy last now in
      let s = build_refresh_state last policy.background_refresh now in
      (s.can_refresh ≡ not (is_some r)) × (s.retry_after_seconds ≡ or_else r 0)
unfolding ensure_refresh_interval build_refresh_state
build_refresh_state_agrees policy last now = since_agrees policy (normalize last) now

elapsed_grows : (x r k : ℕ) → x / second + r ≤ (x + r * second + k) / second
elapsed_grows x r k = omega arith

elapsed_past : (last now : ℕ) → last ≤ now → elapsed_seconds now last ≡ pos ((now - last) / second)
elapsed_past last now past = let e : leb last now ≡ true = ground arith in rw e refl

retry_bounds :
    (interval e : ℕ)
    → ltb_ℤ (pos e) (pos interval) ≡ true
    → retry_after interval (pos e) ≡ interval - e
unfolding ◌-ℤ◌
retry_bounds interval e h = ground arith

wait_lem :
    (interval last now r k : ℕ)
    → last ≤ now
    → wait_since interval (some last) now ≡ some r
    → (1 ≤ r) × (r ≤ interval) × (wait_since interval (some last) (now + r * second + k) ≡ none)
unfolding wait_since
wait_lem interval last now r k past h =
    let e = (now - last) / second in
    let later = now + r * second + k in
    let e₁ = (later - last) / second in
    let past₁ : last ≤ later = omega (arith, past) in
    let shift : later - last ≡ (now - last) + r * second + k = omega (arith, past) in
    let grows : e + r ≤ e₁ = rw shift (elapsed_grows (now - last) r k) in
    elim (Bool-cases (ltb_ℤ (pos e) (pos interval))) [
      | inl f ↦
          let q : r ≡ interval - e =
            cc ((rw (elapsed_past last now past, f) at h), retry_bounds interval e f) in
          let g : ltb_ℤ (pos e₁) (pos interval) ≡ false = ground arith in
          (ground arith, omega arith, rw (elapsed_past last later past₁, g) refl)
      | inr f ↦ cc (rw (elapsed_past last now past, f) at h)
    ]

-- If the last refresh is not in the future and a refresh is refused, the refusal names at least one
-- second and at most the interval, and at any time from these seconds on a refresh is not refused.
pub ensure_refresh_interval_retry :
    (policy : Policy) (last_at : Datetime) (last now r k : ℕ)
    → normalize (some last_at) ≡ some last
    → last ≤ now
    → ensure_refresh_interval policy (some last_at) now ≡ some r
    → (1 ≤ r)
      × (r ≤ policy.background_refresh)
      × (ensure_refresh_interval policy (some last_at) (now + r * second + k) ≡ none)
unfolding ensure_refresh_interval
ensure_refresh_interval_retry policy last_at last now r k at' past h =
    elim (Bool-cases (policy.background_refresh == 0)) [
      | inl e ↦ cc (rw e at h)
      | inr e ↦
          let w = wait_lem policy.background_refresh last now r k past (rw (e, at') at h) in
          rw (e, at') w
    ]
