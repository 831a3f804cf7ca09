-- ===== src/Balances/ShapeLaws.antt =====
-- Which totals agree with their parts.
use balance_tracker.Prelude.{
  ℕ, ◌*◌, ◌≤◌, ◌<◌, max, ◌≡◌, ◌↔◌, ◌⊎◌, inl, inr, Bool, true, false, ◌&&◌, not, arith, ltb, ◌==◌,
  if◌then◌else◌,
}
use balance_tracker.Balances.Store.{unit, distance, ServiceBalance, IntegritySettings}
use balance_tracker.Balances.Integrity.{
  Snapshot, allows_portfolio_total_mismatch, is_nil, reference_sum, is_mismatch, is_shaped,
}

abbrev pub IsEmpty : ServiceBalance → Type 0
IsEmpty b = (is_nil b.assets && is_nil b.accounts) ≡ true

-- A portfolio service, whose total need not agree with the parts.
abbrev pub IsPortfolio : ServiceBalance → Type 0
IsPortfolio b = allows_portfolio_total_mismatch b.service ≡ true

-- The total against the parts. A positive total has parts, except for a portfolio service; a total
-- that has parts differs from their sum by at most the absolute or the relative tolerance, except for
-- a portfolio service; and where the total is zero, the sum is within the absolute tolerance, for
-- every service.
pub record Consistent (cfg : IntegritySettings) (b : ServiceBalance) (s : Snapshot) : Type 0 where
  pub has_parts :
      (s.total_usd ≡ 0) ⊎ ((is_nil b.assets && is_nil b.accounts) ≡ false) ⊎ IsPortfolio b
  pub agrees :
      IsEmpty b
      ⊎ IsPortfolio b
      ⊎ (distance s.total_usd (reference_sum b s) * unit
          ≤ max
              (cfg.total_mismatch_abs_usd * unit)
              (max s.total_usd (reference_sum b s) * cfg.total_mismatch_rel))
  pub zero_agrees : (0 < s.total_usd) ⊎ (reference_sum b s ≤ cfg.total_mismatch_abs_usd)

pub le_of_ltb : (a b : ℕ) → (ltb a b ≡ false) ↔ (b ≤ a)
le_of_ltb a b = ground arith

pub lt_of_ltb : (a b : ℕ) → (ltb a b ≡ true) ↔ (a < b)
lt_of_ltb a b = ground arith

-- The tests of the shape, as truth values.
shape_tests :
    (positive empty portfolio mismatch conflict : Bool)
    → ((if positive && empty
          then portfolio
          else not (not empty && not portfolio && mismatch) && not (not positive && conflict))
        ≡ true)
      ↔ (((positive ≡ false) ⊎ (empty ≡ false) ⊎ (portfolio ≡ true))
          × ((empty ≡ true) ⊎ (portfolio ≡ true) ⊎ (mismatch ≡ false))
          × ((positive ≡ true) ⊎ (conflict ≡ false)))
shape_tests positive empty portfolio mismatch conflict = ground arith

zero_test : (n : ℕ) → (n == 0) ≡ not (ltb 0 n)
zero_test n = ground arith

not_positive : (n : ℕ) → (ltb 0 n ≡ false) ↔ (n ≡ 0)
not_positive n = ground arith

pub shaped :
    (cfg : IntegritySettings) (b : ServiceBalance) (s : Snapshot)
    → (is_shaped cfg b s ≡ true) ↔ Consistent cfg b s
unfolding is_shaped is_mismatch
shaped cfg b s =
    let n = s.total_usd in
    let r = reference_sum b s in
    let bound = max (cfg.total_mismatch_abs_usd * unit) (max n r * cfg.total_mismatch_rel) in
    let near = le_of_ltb bound (distance n r * unit) in
    let over = le_of_ltb cfg.total_mismatch_abs_usd r in
    let positive = lt_of_ltb 0 n in
    let zero_total = not_positive n in
    let tests =
      shape_tests (ltb 0 n) (is_nil b.assets && is_nil b.accounts)
        (allows_portfolio_total_mismatch b.service) (ltb bound (distance n r * unit))
        (ltb cfg.total_mismatch_abs_usd r) in
    (
      λ h.
          let (x, y, z) = tests.0 (rw (zero_test n) at h) in
          record {
            has_parts = elim x [ inl e ↦ inl (zero_total.0 e) | inr e ↦ inr e ];
            agrees = elim y [
              | inl e ↦ inl e
              | inr (inl e) ↦ inr (inl e)
              | inr (inr e) ↦ inr (inr (near.0 e))
            ];
            zero_agrees = elim z [ inl e ↦ inl (positive.0 e) | inr e ↦ inr (over.0 e) ];
          },
      λ c. rw (zero_test n) (
          tests.1 (
            elim c.has_parts [ inl e ↦ inl (zero_total.1 e) | inr e ↦ inr e ],
            elim c.agrees [
              | inl e ↦ inl e
              | inr (inl e) ↦ inr (inl e)
              | inr (inr e) ↦ inr (inr (near.1 e))
            ],
            elim c.zero_agrees [ inl e ↦ inl (positive.1 e) | inr e ↦ inr (over.1 e) ],
          )),
    )
