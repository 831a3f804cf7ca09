-- ===== src/Balances/IntegrityLaws.antt =====
-- Which balances are accepted.
use balance_tracker.Prelude.{
  ℕ, ◌≡◌, ◌↔◌, refl, ◌∙◌, sym, subst, Bool, true, ◌&&◌, Option, none, some, List, arith,
  if◌then◌else◌,
}
use balance_tracker.Prelude.Int.{ℤ}
use balance_tracker.Prelude.Text.{Text}
use balance_tracker.Balances.Store.{ServiceBalance, IntegritySettings}
use balance_tracker.Balances.Integrity.{
  checked_float, Snapshot, make_snapshot, balance_snapshot, assets_sum, accounts_sum,
  is_wallet_portfolio_service, is_shaped, shape_of, validate_balance_shape, accepts_after,
  validate_balance_for_persistence,
}
use balance_tracker.Balances.ShapeLaws.{Consistent, shaped}
use balance_tracker.Balances.ChangeLaws.{SteadyAfter, accepts_after_iff}

both : (a b : Bool) → ((a && b) ≡ true) ↔ ((a ≡ true) × (b ≡ true))
both a b = ground arith

made : (t a c : Option ℕ) (s : Snapshot) → make_snapshot t a c ≡ some s → t ≡ some s.total_usd
unfolding make_snapshot
made (some t) (some a) (some c) s h = cc
made none a c s h = cc
made (some t) none c s h = cc
made (some t) (some a) none s h = cc

snapshot_total :
    (b : ServiceBalance) (s : Snapshot)
    → balance_snapshot b ≡ some s
    → checked_float b.total_usd ≡ some s.total_usd
unfolding balance_snapshot
snapshot_total b s h =
    made (checked_float b.total_usd) (assets_sum b.assets) (accounts_sum b.accounts) s h

-- What a balance that is accepted has: readable numbers, and both conditions.
abbrev pub Accepted : IntegritySettings → Text → ServiceBalance → Option ℤ → List ℕ → Type 0
Accepted cfg service b previous recent =
    (s : Snapshot) × (balance_snapshot b ≡ some s)
    × Consistent cfg b s
    × SteadyAfter cfg (is_wallet_portfolio_service service) recent previous s.total_usd

accepted :
    (cfg : IntegritySettings) (service : Text) (b : ServiceBalance) (previous : Option ℤ)
    (recent : List ℕ) (o : Option Snapshot)
    → balance_snapshot b ≡ o
    → ((shape_of cfg b o
          && accepts_after cfg
              (is_wallet_portfolio_service service)
              recent
              previous
              (checked_float b.total_usd))
        ≡ true)
      ↔ Accepted cfg service b previous recent
unfolding shape_of
accepted cfg service b previous recent none e = (λ h. cc, λ (s, q, _, _). cc (sym e ∙ q))
accepted cfg service b previous recent (some s) e =
    let w = is_wallet_portfolio_service service in
    let total = snapshot_total b s e in
    let after = accepts_after_iff cfg w recent previous s.total_usd in
    let ands =
      both (is_shaped cfg b s) (accepts_after cfg w recent previous (checked_float b.total_usd)) in
    (
      λ h. let (x, y) = ands.0 h in (s, e, (shaped cfg b s).0 x, after.0 (rw total at y)),
      λ (s', q, c, t).
          let same : s' ≡ s = cc (sym q ∙ e) in
          ands.1 (
            (shaped cfg b s).1 (subst (Consistent cfg b) same c),
            rw total (after.1 (subst (λ x. SteadyAfter cfg w recent previous x.total_usd) same t)),
          ),
    )

switched_on :
    (on x y : Bool) → on ≡ true → (if on then ((if on then x else true) && y) else true) ≡ (x && y)
switched_on on x y h = ground arith

-- Where the checks are on, a balance is accepted exactly when three conditions hold. Its total and its
-- parts are finite and not negative. The total is consistent with the parts: a positive one has parts
-- and is within the tolerance of their sum, except for a portfolio service, and a zero one is within the
-- absolute tolerance of their sum, for every service. And the change from the previous total, if there is
-- one that is not negative, starts from a small total; or is small; or is within the relative limit and,
-- for a wallet of at least a thousand dollars, neither a loss nor a gain of more than a half; or belongs
-- to a wallet with a positive total that at least three of the recent totals support.
pub validate_balance_for_persistence_iff :
    (cfg : IntegritySettings) (service : Text) (b : ServiceBalance) (previous : Option ℤ)
    (recent : List ℕ)
    → cfg.enabled ≡ true
    → (validate_balance_for_persistence cfg service b previous recent ≡ true)
      ↔ Accepted cfg service b previous recent
unfolding validate_balance_for_persistence validate_balance_shape
validate_balance_for_persistence_iff cfg service b previous recent on =
    let shape = shape_of cfg b (balance_snapshot b) in
    let change =
      accepts_after cfg (is_wallet_portfolio_service service) recent previous
        (checked_float b.total_usd) in
    subst (λ x. (x ≡ true) ↔ Accepted cfg service b previous recent)
      (sym (switched_on cfg.enabled shape change on))
      (accepted cfg service b previous recent (balance_snapshot b) refl)
