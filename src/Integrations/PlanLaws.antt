-- ===== src/Integrations/PlanLaws.antt =====
-- The limits of a plan against the table of integrations.
use balance_tracker.Prelude.{
  ℕ, ◌≤◌, ◌<◌, ◌≡◌, refl, sym, subst, ap, ◌∙◌, inl, inr, Bool, true, false, Option, none, some,
  List, [], ◌∷◌, map, Memᴰ, arith, Bool-cases,
}
use balance_tracker.Prelude.Lists.{count_if, update_where, All}
use balance_tracker.Prelude.Rows.{any_of_count_if, All-mem, count_if-update_where_le}
use balance_tracker.Prelude.UniqueRows.{
  unique_row, update_where_none, All-update_where_mem, count_if-update_where_le_mem,
}
use balance_tracker.Prelude.Text.{Text, codes, lower, lower_code, is_empty}
use balance_tracker.Integration.{Integration}
use balance_tracker.Entitlements.Policy.{Policy}
use balance_tracker.Entitlements.Limits.{lowered, active_kind, on_exchange}
use balance_tracker.Entitlements.LimitLaws.{Holds, WithinPlan}
use balance_tracker.Integrations.Store.{
  IntegrationRow, IntegrationDb, integrations, row_numbered, breaks_constraint,
}
use balance_tracker.Integrations.Service.{commit_row}
use native.Mathlib.Nat.{le_trans}

lower_code_again : (c : ℕ) → lower_code (lower_code c) ≡ lower_code c
lower_code_again c = ground arith

pub lower_again : (s : Text) → lower (lower s) ≡ lower s
unfolding lower
lower_again [] = refl
lower_again (c ∷ s) =
    ap (λ a. a ∷ map lower_code (map lower_code s)) (lower_code_again c)
    ∙ ap (λ b. lower_code c ∷ b) (lower_again s)

pub lowered_again : (o : Option Text) → lowered (lowered o) ≡ lowered o
unfolding lowered lower
lowered_again none = refl
lowered_again (some []) = refl
lowered_again (some (c ∷ s)) = ap some (lower_again (c ∷ s))

pub lowered_kind : (s : Text) → is_empty s ≡ false → lowered (some (lower s)) ≡ some (lower s)
unfolding lowered lower
lowered_kind [] h = cc
lowered_kind (c ∷ s) h = ap some (lower_again (c ∷ s))

-- Kind and exchange code stand in lower case.
unfoldable pub IsLower : Integration → Type 0
IsLower i = (lowered (some i.kind) ≡ some i.kind) × (lowered i.exchange_code ≡ i.exchange_code)

-- The organisation is within the enforced limits of its plan, and each row has a number of its own.
pub record IsPlanned (p : Policy) (org : ℕ) (d : IntegrationDb) : Type 0 where
  pub within : WithinPlan p org (integrations d)
  pub lower_case : All (λ (r : IntegrationRow). IsLower r.integration) d.rows
  pub unique_id : (i : ℕ) → count_if (row_numbered i) d.rows ≤ 1
  pub numbered : All (λ (r : IntegrationRow). r.integration.id < d.next_id) d.rows

Holds-fewer : (limit m n : ℕ) → m ≤ n → Holds limit n → Holds limit m
Holds-fewer limit m n h k = ground (arith, k)

-- A query of active integrations.
abbrev pub WantsActive : (Integration → Bool) → Type 0
WantsActive q = (i : Integration) → i.is_active ≡ false → q i ≡ false

pub WithinPlan-fewer :
    (p : Policy) (org : ℕ) (xs ys : List Integration)
    → ((q : Integration → Bool) → WantsActive q → count_if q xs ≤ count_if q ys)
    → WithinPlan p org ys
    → WithinPlan p org xs
WithinPlan-fewer p org xs ys h w = record {
  cex =
      Holds-fewer p.max_cex_accounts _ _ (h (active_kind org (codes "cex")) (λ i e. ground arith))
        w.cex;
  wallets =
      Holds-fewer p.max_wallets _ _ (h (active_kind org (codes "dex")) (λ i e. ground arith))
        w.wallets;
  exchange = λ c cs.
      Holds-fewer p.max_accounts_per_exchange _ _
        (h (on_exchange org (c ∷ cs)) (λ i e. ground arith)) (w.exchange c cs);
}

pub count_if-map {ℓ κ} :
    {A : Type ℓ} {B : Type κ} (q : B → Bool) (f : A → B) (xs : List A)
    → count_if q (map f xs) ≡ count_if (λ x. q (f x)) xs
count_if-map q f [] = refl
count_if-map q f (x ∷ xs) = ground (arith, count_if-map q f xs)

-- A row that takes another's place counts at most as one more.
pub replaced_count :
    (q : Integration → Bool) (i : ℕ) (x : IntegrationRow) (rows : List IntegrationRow)
    → count_if (row_numbered i) rows ≤ 1
    → count_if q
        (map (λ (r : IntegrationRow). r.integration) (update_where (row_numbered i) (λ _. x) rows))
      ≤ count_if q (x.integration ∷ map (λ (r : IntegrationRow). r.integration) rows)
replaced_count q i x [] u = omega arith
replaced_count q i x (y ∷ rows) u = elim (Bool-cases (row_numbered i y)) [
  | inl e ↦
      let n =
        update_where_none (row_numbered i) (λ _. x) rows
          (any_of_count_if (row_numbered i) rows (ground arith)) in
      rw (e, n) (ground arith)
  | inr e ↦ rw e (ground (arith, replaced_count q i x rows (ground arith)))
]

-- The tables after one row took another's place.
unfoldable pub replaced : IntegrationRow → IntegrationDb → IntegrationDb
replaced x d = record d { rows = update_where (row_numbered x.integration.id) (λ _. x) d.rows }

pub replaced-IsPlanned :
    (p : Policy) (org : ℕ) (x x' : IntegrationRow) (d : IntegrationDb)
    → Memᴰ x d.rows
    → x'.integration.id ≡ x.integration.id
    → IsLower x'.integration
    → WithinPlan p org (integrations (replaced x' d))
    → IsPlanned p org d
    → IsPlanned p org (replaced x' d)
unfolding replaced
replaced-IsPlanned p org x x' d m e l w v = record {
  within = w;
  lower_case =
      All-update_where_mem (row_numbered x'.integration.id)
        (λ (r : IntegrationRow). IsLower r.integration) (λ _. x') d.rows (λ _ _ _ _. l)
        v.lower_case;
  unique_id = λ i.
      le_trans
        (count_if-update_where_le (row_numbered i) (row_numbered x'.integration.id) (λ _. x') d.rows
          (λ y a b. ground arith))
        (v.unique_id i);
  numbered =
      All-update_where_mem (row_numbered x'.integration.id)
        (λ (r : IntegrationRow). r.integration.id < d.next_id) (λ _. x') d.rows
        (λ _ _ _ _.
          let k =
            All-mem (λ (r : IntegrationRow). r.integration.id < d.next_id) x d.rows v.numbered m in
          omega arith)
        v.numbered;
}

-- A row that passes no query that the old one did not pass.
pub replaced_fewer :
    (p : Policy) (org : ℕ) (x x' : IntegrationRow) (d : IntegrationDb)
    → Memᴰ x d.rows
    → x'.integration.id ≡ x.integration.id
    → ((q : Integration → Bool) → WantsActive q → q x'.integration ≡ true → q x.integration ≡ true)
    → IsPlanned p org d
    → WithinPlan p org (integrations (replaced x' d))
unfolding replaced
replaced_fewer p org x x' d m e h v =
    WithinPlan-fewer p org (integrations (replaced x' d)) (integrations d)
      (λ q a.
        let f : IntegrationRow → Integration = λ r. r.integration in
        let n = row_numbered x'.integration.id in
        let y = count_if-map q f (update_where n (λ _. x') d.rows) in
        let z = count_if-map q f d.rows in
        let k =
          count_if-update_where_le_mem n (λ r. q (f r)) (λ _. x') d.rows
            (λ r i b t.
              let same : r ≡ x =
                unique_row n r x d.rows (v.unique_id x'.integration.id) i m b (ground arith) in
              subst (λ r. q r.integration ≡ true) (sym same) (h q a t)) in
        omega (arith, y, z, k))
      v.within

pub commit_row-IsPlanned :
    (p : Policy) (org : ℕ) (x : IntegrationRow) (d : IntegrationDb)
    → IsPlanned p org d
    → IsPlanned p org (replaced x d)
    → IsPlanned p org (commit_row x d).1
unfolding commit_row replaced
commit_row-IsPlanned p org x d v w = elim (Bool-cases (breaks_constraint x d.rows)) [
  | inl e ↦ rw e v
  | inr e ↦ rw e w
]
