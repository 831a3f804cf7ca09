-- ===== src/Entitlements/EffectiveLaws.antt =====
-- What a client sees of its plan, against what the service refuses.
use balance_tracker.Prelude.{
  ℕ, ◌≤◌, ◌<◌, true, false, ◌&&◌, not, Option, none, some, is_some, or_else, List, ◌≡◌, ◌↔◌, ◌⊎◌,
  refl, ap, ◌∙◌, inl, inr, arith, Bool-cases,
}
use balance_tracker.Prelude.Lists.{count_if}
use balance_tracker.Prelude.Text.{Text, codes, text_eq, lower, is_empty}
use balance_tracker.Clock.{Datetime}
use balance_tracker.Integration.{Integration}
use balance_tracker.Billing.Store.{Plan}
use balance_tracker.Entitlements.Policy.{Policy}
use balance_tracker.Entitlements.Resolve.{explicit, raw_policy, resolve_policy}
use balance_tracker.Entitlements.Refresh.{build_refresh_state, ensure_refresh_interval}
use balance_tracker.Entitlements.Limits.{
  Denial, dex_not_allowed, wallet_limit_reached, get_active_usage, is_full, active_kind,
  on_exchange, lowered, check_exchange, check_kind, check_lowered, ensure_can_create_integration,
}
use balance_tracker.Entitlements.Effective.{get_effective_entitlements}
use balance_tracker.Entitlements.LimitLaws.{get_active_usage_wallets}
use balance_tracker.Entitlements.PolicyLaws.{resolve_policy_intervals}
use balance_tracker.Entitlements.RefreshLaws.{build_refresh_state_agrees}

refresh_agrees :
    (code name : Text) (p : Policy) (org : ℕ) (rows : List Integration) (last : Option Datetime)
    (now : ℕ)
    → p.throttle_refresh ≡ p.background_refresh
    → let r = ensure_refresh_interval p last now in
      let e = get_effective_entitlements code name p org rows last now in
      (e.capabilities.can_refresh ≡ not (is_some r))
      × (e.refresh.can_refresh ≡ not (is_some r))
      × (e.refresh.retry_after_seconds ≡ or_else r 0)
unfolding get_effective_entitlements
refresh_agrees code name p org rows last now h =
    let (a, b) = build_refresh_state_agrees p last now in
    let same = ap (λ n. build_refresh_state last n now) h in
    (
      ap (λ s. s.can_refresh) same ∙ a,
      ap (λ s. s.can_refresh) same ∙ a,
      ap (λ s. s.retry_after_seconds) same ∙ b,
    )

-- For a plan whose policy does not set both intervals, the state of the refresh that clients see says
-- that a refresh is allowed exactly when `ensure_refresh_interval` does not refuse one, and shows the
-- seconds of the refusal.
pub get_effective_entitlements_refresh :
    (code name : Text) (plan : Plan) (org : ℕ) (rows : List Integration) (last : Option Datetime)
    (now : ℕ)
    → ((explicit (raw_policy plan)).background_refresh
        && (explicit (raw_policy plan)).throttling_refresh)
      ≡ false
    → let p = resolve_policy plan in
      let r = ensure_refresh_interval p last now in
      let e = get_effective_entitlements code name p org rows last now in
      (e.capabilities.can_refresh ≡ not (is_some r))
      × (e.refresh.can_refresh ≡ not (is_some r))
      × (e.refresh.retry_after_seconds ≡ or_else r 0)
get_effective_entitlements_refresh code name plan org rows last now h =
    refresh_agrees code name (resolve_policy plan) org rows last now
      (resolve_policy_intervals plan h)

-- The organisation has room for one more account on the exchange.
abbrev pub HasRoom : Policy → ℕ → Text → List Integration → Type 0
HasRoom p org exchange rows =
    (p.max_accounts_per_exchange ≡ 0)
    ⊎ (count_if (on_exchange org (lower exchange)) rows < p.max_accounts_per_exchange)

full_or_room : (limit n : ℕ) → is_full limit n ≡ false ↔ ((limit ≡ 0) ⊎ (n < limit))
full_or_room limit n = ground arith

cex_check :
    (p : Policy) (org : ℕ) (exchange : Text) (rows : List Integration)
    → is_empty exchange ≡ false
    → ensure_can_create_integration p org (some (codes "cex")) (some exchange) rows
      ≡ check_kind p org (codes "cex") (some (lower exchange)) rows
unfolding ensure_can_create_integration check_lowered lowered lower
cex_check p org exchange rows h = rw h refl

cex_agrees :
    (p : Policy) (org : ℕ) (exchange : Text) (rows : List Integration)
    → is_empty exchange ≡ false
    → (ensure_can_create_integration p org (some (codes "cex")) (some exchange) rows ≡ none) ↔ (
        (is_full p.max_cex_accounts (count_if (active_kind org (codes "cex")) rows) ≡ false)
        × HasRoom p org exchange rows)
unfolding check_kind check_exchange text_eq
cex_agrees p org exchange rows h =
    let n = count_if (on_exchange org (lower exchange)) rows in
    let room = full_or_room p.max_accounts_per_exchange n in
    elim (Bool-cases (is_full p.max_cex_accounts (count_if (active_kind org (codes "cex")) rows))) [
      | inl e ↦ rw (cex_check p org exchange rows h, e) (λ x. cc, λ x. cc)
      | inr e ↦ elim (Bool-cases (is_full p.max_accounts_per_exchange n)) [
        | inl f ↦ rw (cex_check p org exchange rows h, e, f) (λ x. cc, λ x. cc (room.1 x.1))
        | inr f ↦ rw (cex_check p org exchange rows h, e, f) (λ x. (refl, room.0 f), λ x. refl)
      ]
    ]

fewer_not_full : (limit m n : ℕ) → m ≤ n → is_full limit n ≡ false → is_full limit m ≡ false
fewer_not_full limit m n h k = ground arith

dex_check :
    (p : Policy) (org : ℕ) (exchange : Option Text) (rows : List Integration)
    → ensure_can_create_integration p org (some (codes "dex")) exchange rows
      ≡ check_kind p org (codes "dex") (lowered exchange) rows
unfolding ensure_can_create_integration check_lowered lowered lower
dex_check p org exchange rows = refl

dex_agrees :
    (p : Policy) (org : ℕ) (exchange : Option Text) (rows : List Integration)
    → ((p.allow_dex && not (is_full p.max_wallets (get_active_usage org rows).wallets)) ≡ true)
      ⊎ ((d : Denial) × (ensure_can_create_integration p org (some (codes "dex")) exchange rows
            ≡ some d))
unfolding check_kind text_eq
dex_agrees p org exchange rows =
    let n = count_if (active_kind org (codes "dex")) rows in
    elim (Bool-cases p.allow_dex) [
      | inr e ↦ inr (dex_not_allowed, rw (dex_check p org exchange rows, e) refl)
      | inl e ↦ elim (Bool-cases (is_full p.max_wallets n)) [
        | inl f ↦
            inr (wallet_limit_reached p.max_wallets, rw (dex_check p org exchange rows, e, f) refl)
        | inr f ↦
            let g = fewer_not_full p.max_wallets _ n (get_active_usage_wallets org rows) f in
            inl (rw (e, g) refl)
      ]
    ]

-- The check lets an account of a named exchange through exactly when clients see that an account can
-- be added and the exchange has room for one more. Where clients do not see that a wallet can be
-- added, the check refuses one.
pub get_effective_entitlements_agrees :
    (code name : Text) (p : Policy) (org : ℕ) (rows : List Integration) (last : Option Datetime)
    (now : ℕ) (exchange : Text)
    → is_empty exchange ≡ false
    → let shown = (get_effective_entitlements code name p org rows last now).capabilities in
      ((ensure_can_create_integration p org (some (codes "cex")) (some exchange) rows ≡ none)
        ↔ ((shown.can_add_cex ≡ true) × HasRoom p org exchange rows))
      × ((shown.can_add_wallet ≡ true)
          ⊎ ((d : Denial) × (ensure_can_create_integration p org (some (codes "dex")) none rows
                ≡ some d)))
unfolding get_effective_entitlements get_active_usage
get_effective_entitlements_agrees code name p org rows last now exchange h =
    let k = cex_agrees p org exchange rows h in
    (
      (λ x. (rw (k.0 x).0 refl, (k.0 x).1), λ x. k.1 (ground (arith, x.0), x.1)),
      dex_agrees p org none rows,
    )
