-- ===== src/Balances/ChangeLaws.antt =====
-- Which changes of a total are accepted.
use balance_tracker.Prelude.{
  ℕ, ◌*◌, ◌≤◌, ◌<◌, max, ◌≡◌, ◌↔◌, refl, ◌⊎◌, inl, inr, Bool, true, false, ◌&&◌, ◌||◌, Option, none,
  some, List, [], ◌∷◌, arith, Bool-cases, ltb, leb, if◌then◌else◌,
}
use balance_tracker.Prelude.Lists.{count_if}
use balance_tracker.Prelude.Int.{ℤ, pos, negsuc}
use balance_tracker.Balances.Store.{unit, distance, IntegritySettings}
use balance_tracker.Balances.Integrity.{
  is_nil, supports, has_recent_history_support, suspicious_large_change, suspicious_wallet,
  is_suspicious, accepts_change, accepts_after,
}
use balance_tracker.Balances.ShapeLaws.{le_of_ltb, lt_of_ltb}

-- A change within the limits: the relative one for every service, and for a wallet of a thousand
-- dollars neither a loss of more than a half nor a gain of more than a half.
pub record Ordinary (cfg : IntegritySettings) (wallet : Bool) (previous current : ℕ) : Type 0 where
  pub relative :
      distance current previous * unit ≤ cfg.outlier_max_relative_change * max previous unit
  pub halves :
      (wallet ≡ false)
      ⊎ (previous < 1_000 * unit)
      ⊎ ((previous ≤ 2 * current) × (2 * current ≤ 3 * previous))

-- The change from the previous total: it starts from a small total, or is small, or is within the
-- limits, or the service is a wallet, the new total is positive, and at least three of the recent
-- totals lie close to it.
abbrev pub Steady : IntegritySettings → Bool → List ℕ → ℕ → ℕ → Type 0
Steady cfg wallet recent previous current =
    (previous < cfg.outlier_min_previous_usd)
    ⊎ (distance current previous < cfg.outlier_min_abs_usd)
    ⊎ Ordinary cfg wallet previous current
    ⊎ ((wallet ≡ true) × (0 < current) × (3 ≤ count_if (supports current) recent))

-- There is nothing to compare with where no balance was stored, or one with a negative total.
abbrev pub SteadyAfter : IntegritySettings → Bool → List ℕ → Option ℤ → ℕ → Type 0
SteadyAfter cfg wallet recent none current = Unit
SteadyAfter cfg wallet recent (some (negsuc n)) current = Unit
SteadyAfter cfg wallet recent (some (pos n)) current = Steady cfg wallet recent n current

nil_count :
    (current : ℕ) (recent : List ℕ) → is_nil recent ≡ true → count_if (supports current) recent ≡ 0
nil_count current [] h = refl
nil_count current (x ∷ xs) h = cc

supported :
    (current : ℕ) (recent : List ℕ)
    → (has_recent_history_support current recent ≡ true)
      ↔ ((0 < current) × (3 ≤ count_if (supports current) recent))
unfolding has_recent_history_support
supported current recent = elim (Bool-cases (is_nil recent)) [
  | inl e ↦
      let z = nil_count current recent e in
      rw (e, z) (λ h. absurd (ground arith), λ h. absurd (omega (arith, h.1)))
  | inr e ↦ rw e (λ h. ground arith, λ h. ground arith)
]

-- The tests of the change, as truth values.
change_tests :
    (little tiny large wallet rich drop spike support : Bool)
    → ((if little
          then true
          else if tiny
          then true
          else if large || (wallet && (rich && (drop || spike)))
          then wallet && support
          else true)
        ≡ true)
      ↔ ((little ≡ true)
          ⊎ (tiny ≡ true)
          ⊎ ((large ≡ false)
              × ((wallet ≡ false) ⊎ (rich ≡ false) ⊎ ((drop ≡ false) × (spike ≡ false))))
          ⊎ ((wallet ≡ true) × (support ≡ true)))
change_tests little tiny large wallet rich drop spike support = ground arith

gt_of_leb : (a b : ℕ) → (leb a b ≡ false) ↔ (b < a)
gt_of_leb a b = ground arith

accepts_change_iff :
    (cfg : IntegritySettings) (wallet : Bool) (recent : List ℕ) (previous current : ℕ)
    → (accepts_change cfg wallet recent previous current ≡ true)
      ↔ Steady cfg wallet recent previous current
unfolding accepts_change is_suspicious suspicious_large_change suspicious_wallet
accepts_change_iff cfg wallet recent previous current =
    let delta = distance current previous in
    let limit = cfg.outlier_max_relative_change * max previous unit in
    let support = supported current recent in
    let little = lt_of_ltb previous cfg.outlier_min_previous_usd in
    let tiny = lt_of_ltb delta cfg.outlier_min_abs_usd in
    let calm = le_of_ltb limit (delta * unit) in
    let poor = gt_of_leb (1_000 * unit) previous in
    let no_drop = le_of_ltb (2 * current) previous in
    let no_spike = le_of_ltb (3 * previous) (2 * current) in
    let tests =
      change_tests (ltb previous cfg.outlier_min_previous_usd) (ltb delta cfg.outlier_min_abs_usd)
        (ltb limit (delta * unit)) wallet (leb (1_000 * unit) previous) (ltb (2 * current) previous)
        (ltb (3 * previous) (2 * current)) (has_recent_history_support current recent) in
    (
      λ h. elim (tests.0 h) [
        | inl e ↦ inl (little.0 e)
        | inr (inl e) ↦ inr (inl (tiny.0 e))
        | inr (inr (inl (e, k))) ↦ inr (
            inr (
              inl (record {
                relative = calm.0 e;
                halves = elim k [
                  | inl w ↦ inl w
                  | inr (inl p) ↦ inr (inl (poor.0 p))
                  | inr (inr (d, u)) ↦ inr (inr (no_drop.0 d, no_spike.0 u))
                ];
              })))
        | inr (inr (inr (w, e))) ↦ inr (inr (inr (w, (support.0 e).0, (support.0 e).1)))
      ],
      λ c. tests.1 (elim c [
        | inl e ↦ inl (little.1 e)
        | inr (inl e) ↦ inr (inl (tiny.1 e))
        | inr (inr (inl o)) ↦ inr (
            inr (
              inl (
                calm.1 o.relative,
                elim o.halves [
                  | inl w ↦ inl w
                  | inr (inl p) ↦ inr (inl (poor.1 p))
                  | inr (inr (d, u)) ↦ inr (inr (no_drop.1 d, no_spike.1 u))
                ],
              )))
        | inr (inr (inr (w, k, n))) ↦ inr (inr (inr (w, support.1 (k, n))))
      ]),
    )

pub accepts_after_iff :
    (cfg : IntegritySettings) (wallet : Bool) (recent : List ℕ) (previous : Option ℤ) (current : ℕ)
    → (accepts_after cfg wallet recent previous (some current) ≡ true)
      ↔ SteadyAfter cfg wallet recent previous current
unfolding accepts_after
accepts_after_iff cfg wallet recent none current = (λ h. tt, λ h. refl)
accepts_after_iff cfg wallet recent (some (negsuc n)) current = (λ h. tt, λ h. refl)
accepts_after_iff cfg wallet recent (some (pos n)) current =
    accepts_change_iff cfg wallet recent n current
