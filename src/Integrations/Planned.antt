-- ===== src/Integrations/Planned.antt =====
-- The limits of a plan across the operations on the table.
use balance_tracker.Prelude.{
  ℕ, suc, ◌≤◌, ◌<◌, ◌≡◌, refl, sym, subst, ap, ◌∙◌, inl, inr, ◌⊎◌, Bool, true, false, Option, none,
  some, List, [], ◌∷◌, map, Memᴰ, arith, Bool-cases, if◌then◌else◌, ◌==◌,
}
use balance_tracker.Prelude.Lists.{keep, count_if, All, find?_sound}
use balance_tracker.Prelude.Rows.{find?-mem, All-mem, All-mono}
use balance_tracker.Prelude.Text.{Text, lower, is_empty}
use balance_tracker.Integration.{Integration}
use balance_tracker.Entitlements.Policy.{Policy}
use balance_tracker.Entitlements.Limits.{Denial, lowered, ensure_can_create_integration}
use balance_tracker.Entitlements.LimitLaws.{ensure_can_create_integration-WithinPlan}
use balance_tracker.Integrations.Store.{
  IntegrationRow, IntegrationDb, IntegrationSecret, integrations, row_numbered, breaks_constraint,
}
use balance_tracker.Integrations.Service.{
  NewIntegration, create_integration, create_checked, new_secrets, insert_integration, new_row,
  is_duplicate, get_integration, own_row, switched,
}
use native.Mathlib.Nat.{le_trans}
use balance_tracker.Integrations.PlanLaws.{
  lowered_again, lowered_kind, IsLower, IsPlanned, WantsActive, WithinPlan-fewer, replaced_count,
  replaced, replaced-IsPlanned, replaced_fewer,
}

fresh :
    (n i : ℕ) (rows : List IntegrationRow)
    → All (λ (r : IntegrationRow). r.integration.id < n) rows
    → n ≡ i
    → count_if (row_numbered i) rows ≡ 0
fresh n i [] h e = refl
fresh n i (r ∷ rows) h e = ground (arith, fresh n i rows h.1 e)

fresh_number :
    (n i : ℕ) (rows : List IntegrationRow)
    → All (λ (r : IntegrationRow). r.integration.id < n) rows
    → count_if (row_numbered i) rows ≤ 1
    → (if (n == i) then suc (count_if (row_numbered i) rows) else count_if (row_numbered i) rows)
      ≤ 1
fresh_number n i rows h u = elim (Bool-cases (n == i)) [
  | inl e ↦ rw e (omega (arith, fresh n i rows h (ground arith)))
  | inr e ↦ rw e u
]

insert_integration-IsPlanned :
    (p : Policy) (org now : ℕ) (r : NewIntegration) (secrets : List IntegrationSecret)
    (d : IntegrationDb)
    → is_empty r.kind ≡ false
    → ensure_can_create_integration p org
        (some (lower r.kind))
        (lowered r.exchange_code)
        (integrations d)
      ≡ none
    → IsPlanned p org d
    → IsPlanned p org (insert_integration (new_row d.next_id org now r) secrets d).1
unfolding insert_integration new_row IsLower
insert_integration-IsPlanned p org now r secrets d k h v =
    let x = new_row d.next_id org now r in
    elim (Bool-cases (breaks_constraint x d.rows)) [
      | inl e ↦ rw e v
      | inr e ↦ rw e (record {
        within =
            ensure_can_create_integration-WithinPlan p org x.integration (integrations d)
              (some (lower r.kind)) (lowered r.exchange_code) v.within (lowered_kind r.kind k)
              (lowered_again r.exchange_code) h;
        lower_case = ((lowered_kind r.kind k, lowered_again r.exchange_code), v.lower_case);
        unique_id = λ i. fresh_number d.next_id i d.rows v.numbered (v.unique_id i);
        numbered = (omega arith, All-mono (λ r l. omega arith) d.rows v.numbered);
      })
    ]

create_checked-IsPlanned :
    (p : Policy) (org now : ℕ) (r : NewIntegration) (o : Option Denial) (same : List IntegrationRow)
    (d : IntegrationDb)
    → is_empty r.kind ≡ false
    → ensure_can_create_integration p org
        (some (lower r.kind))
        (lowered r.exchange_code)
        (integrations d)
      ≡ o
    → IsPlanned p org d
    → IsPlanned p org (create_checked org now r o same d).1
unfolding create_checked
create_checked-IsPlanned p org now r (some e) same d k h v = v
create_checked-IsPlanned p org now r none [] d k h v =
    insert_integration-IsPlanned p org now r (new_secrets d.next_id r) d k h v
create_checked-IsPlanned p org now r none (x ∷ []) d k h v = v
create_checked-IsPlanned p org now r none (x ∷ y ∷ xs) d k h v = v

pub create_integration-IsPlanned :
    (p : Policy) (org now : ℕ) (r : NewIntegration) (d : IntegrationDb)
    → is_empty r.kind ≡ false
    → IsPlanned p org d
    → IsPlanned p org (create_integration p org now r d).1
unfolding create_integration
create_integration-IsPlanned p org now r d k v =
    create_checked-IsPlanned p org now r _ (keep (is_duplicate org r) d.rows) d k refl v

-- A row that was looked up stands in the table.
pub found_row :
    (org i : ℕ) (x : IntegrationRow) (d : IntegrationDb)
    → get_integration org i d ≡ some x
    → Memᴰ x d.rows × (x.integration.id ≡ i)
unfolding get_integration
found_row org i x d h = (
  find?-mem (own_row org i) d.rows x h,
  let k = find?_sound (own_row org i) d.rows x h in ground arith,
)

same_flag_kept : (i : Integration) (b : Bool) → i.is_active ≡ b → record i { is_active = b } ≡ i
same_flag_kept i b e = subst (λ c. record i { is_active = c } ≡ i) e refl

passes_before :
    (q : Integration → Bool) (i : Integration) (b : Bool)
    → WantsActive q
    → (b ≡ false) ⊎ (i.is_active ≡ true)
    → q (record i { is_active = b }) ≡ true
    → q i ≡ true
passes_before q i false a h t = cc (a (record i { is_active = false }) refl)
passes_before q i true a (inl e) t = cc
passes_before q i true a (inr e) t = ap q (sym (same_flag_kept i true e)) ∙ t

pub switched-IsPlanned :
    (p : Policy) (org : ℕ) (b : Bool) (status : Text) (x : IntegrationRow) (d : IntegrationDb)
    → Memᴰ x d.rows
    → (b ≡ false) ⊎ (x.integration.is_active ≡ true)
    → IsPlanned p org d
    → IsPlanned p org (replaced (switched b status x) d)
unfolding IsLower
switched-IsPlanned p org b status x d m h v =
    let l = All-mem (λ (r : IntegrationRow). IsLower r.integration) x d.rows v.lower_case m in
    let x' = switched b status x in
    replaced-IsPlanned p org x x' d m refl l
      (replaced_fewer p org x x' d m refl (λ q a t. passes_before q x.integration b a h t) v) v

pub activated-IsPlanned :
    (p : Policy) (org : ℕ) (status : Text) (x : IntegrationRow) (d : IntegrationDb)
    → Memᴰ x d.rows
    → ensure_can_create_integration p org
        (some x.integration.kind)
        x.integration.exchange_code
        (integrations d)
      ≡ none
    → IsPlanned p org d
    → IsPlanned p org (replaced (switched true status x) d)
unfolding IsLower replaced
activated-IsPlanned p org status x d m h v =
    let l = All-mem (λ (r : IntegrationRow). IsLower r.integration) x d.rows v.lower_case m in
    let x' = switched true status x in
    let w =
      ensure_can_create_integration-WithinPlan p org x'.integration (integrations d)
        (some x.integration.kind) x.integration.exchange_code v.within l.0 l.1 h in
    replaced-IsPlanned p org x x' d m refl l
      (WithinPlan-fewer p org (integrations (replaced x' d)) (x'.integration ∷ integrations d)
        (λ q a. replaced_count q x.integration.id x' d.rows (v.unique_id x.integration.id)) w)
      v

kept_count :
    (q : Integration → Bool) (g : IntegrationRow → Bool) (rows : List IntegrationRow)
    → count_if q (map (λ (r : IntegrationRow). r.integration) (keep g rows))
      ≤ count_if q (map (λ (r : IntegrationRow). r.integration) rows)
kept_count q g [] = omega arith
kept_count q g (r ∷ rows) = ground (arith, kept_count q g rows)

count_if-keep {ℓ} :
    {A : Type ℓ} (q g : A → Bool) (xs : List A) → count_if q (keep g xs) ≤ count_if q xs
count_if-keep q g [] = omega arith
count_if-keep q g (x ∷ xs) = ground (arith, count_if-keep q g xs)

All-keep {ℓ κ} :
    {A : Type ℓ} (P : A → Type κ) (g : A → Bool) (xs : List A) → All P xs → All P (keep g xs)
All-keep P g [] h = h
All-keep P g (x ∷ xs) h = elim (Bool-cases (g x)) [
  | inl e ↦ rw e (h.0, All-keep P g xs h.1)
  | inr e ↦ rw e (All-keep P g xs h.1)
]

pub kept-IsPlanned :
    (p : Policy) (org : ℕ) (g : IntegrationRow → Bool) (secrets : List IntegrationSecret)
    (d : IntegrationDb)
    → IsPlanned p org d
    → IsPlanned p org (record d { rows = keep g d.rows; secrets = secrets })
kept-IsPlanned p org g secrets d v = record {
  within =
      WithinPlan-fewer p org (map (λ (r : IntegrationRow). r.integration) (keep g d.rows))
        (integrations d) (λ q a. kept_count q g d.rows) v.within;
  lower_case = All-keep (λ (r : IntegrationRow). IsLower r.integration) g d.rows v.lower_case;
  unique_id = λ i. le_trans (count_if-keep (row_numbered i) g d.rows) (v.unique_id i);
  numbered = All-keep (λ (r : IntegrationRow). r.integration.id < d.next_id) g d.rows v.numbered;
}
