-- ===== src/Integrations/Requests.antt =====
-- The enforced limits of a plan over sequences of requests.
use balance_tracker.Prelude.{
  ℕ, ◌+◌, ◌≤◌, ◌≡◌, ◌⊎◌, refl, sym, inl, inr, arith, true, false, not, Option, none, some, List, [],
  ◌∷◌, Memᴰ, Bool-cases, Option-cases,
}
use balance_tracker.Prelude.Lists.{keep, count_if, All}
use balance_tracker.Prelude.Rows.{All-mem}
use balance_tracker.Prelude.Text.{Text, codes, is_empty, strip}
use balance_tracker.Entitlements.Policy.{Policy}
use balance_tracker.Entitlements.Limits.{Denial, active_kind}
use balance_tracker.Entitlements.LimitLaws.{Holds}
use balance_tracker.Integrations.Store.{IntegrationRow, IntegrationDb, integrations, row_numbered}
use balance_tracker.Integrations.Service.{
  NewIntegration, create_integration, get_integration, with_row, switched, deactivate_integration,
  activate_integration, activate_checked, activation_check, update_integration, delete_integration,
  secret_of,
}
use balance_tracker.Integrations.PlanLaws.{
  IsLower, IsPlanned, replaced, replaced-IsPlanned, replaced_fewer, commit_row-IsPlanned,
}
use balance_tracker.Integrations.Planned.{
  create_integration-IsPlanned, found_row, switched-IsPlanned, activated-IsPlanned, kept-IsPlanned,
}

deactivate_integration-IsPlanned :
    (p : Policy) (org org' i : ℕ) (d : IntegrationDb)
    → IsPlanned p org d
    → IsPlanned p org (deactivate_integration org' i d).1
unfolding deactivate_integration with_row
deactivate_integration-IsPlanned p org org' i d v = elim (Option-cases (get_integration org' i d)) [
  | inl e ↦ rw e v
  | inr (x, e) ↦ rw e (
      commit_row-IsPlanned p org (switched false (codes "inactive") x) d v (
        switched-IsPlanned p org false (codes "inactive") x d (found_row org' i x d e).0 (inl refl)
          v))
]

activate_checked-IsPlanned :
    (p : Policy) (org : ℕ) (x : IntegrationRow) (o : Option Denial) (d : IntegrationDb)
    → Memᴰ x d.rows
    → activation_check p org x d ≡ o
    → IsPlanned p org d
    → IsPlanned p org (activate_checked o x d).1
unfolding activate_checked activation_check
activate_checked-IsPlanned p org x (some e) d m h v = v
activate_checked-IsPlanned p org x none d m h v =
    commit_row-IsPlanned p org (switched true (codes "active") x) d v
      (elim (Bool-cases x.integration.is_active) [
        | inl a ↦ switched-IsPlanned p org true (codes "active") x d m (inr a) v
        | inr a ↦ activated-IsPlanned p org (codes "active") x d m (rw a at h) v
      ])

activate_integration-IsPlanned :
    (p : Policy) (org i : ℕ) (d : IntegrationDb)
    → IsPlanned p org d
    → IsPlanned p org (activate_integration p org i d).1
unfolding activate_integration with_row
activate_integration-IsPlanned p org i d v = elim (Option-cases (get_integration org i d)) [
  | inl e ↦ rw e v
  | inr (x, e) ↦ rw e (
      activate_checked-IsPlanned p org x (activation_check p org x d) d (found_row org i x d e).0
        refl v)
]

delete_integration-IsPlanned :
    (p : Policy) (org i : ℕ) (d : IntegrationDb)
    → IsPlanned p org d
    → IsPlanned p org (delete_integration org i d).1
unfolding delete_integration with_row
delete_integration-IsPlanned p org i d v = elim (Option-cases (get_integration org i d)) [
  | inl e ↦ rw e v
  | inr (x, e) ↦ rw e (
      kept-IsPlanned p org (λ r. not (row_numbered x.integration.id r))
        (keep (λ s. not (secret_of x.integration.id s)) d.secrets) d v)
]

update_integration-IsPlanned :
    (p : Policy) (org i : ℕ) (name : Text) (d : IntegrationDb)
    → IsPlanned p org d
    → IsPlanned p org (update_integration org i name d).1
unfolding update_integration with_row IsLower replaced
update_integration-IsPlanned p org i name d v = elim (Bool-cases (is_empty (strip name))) [
  | inl b ↦ rw b v
  | inr b ↦ elim (Option-cases (get_integration org i d)) [
    | inl e ↦ rw (b, e) v
    | inr (x, e) ↦
        let (m, q) = found_row org i x d e in
        let x' : IntegrationRow = record x { name = strip name } in
        let l = All-mem (λ (r : IntegrationRow). IsLower r.integration) x d.rows v.lower_case m in
        rw (b, e, sym q)
          (replaced-IsPlanned p org x x' d m refl l
            (replaced_fewer p org x x' d m refl (λ q a t. t) v) v)
  ]
]

-- A request to the service.
pub data Op : Type 0 where
  create : ℕ → NewIntegration → Op
  rename : ℕ → Text → Op
  deactivate activate delete : ℕ → Op

abbrev pub run : Policy → ℕ → Op → IntegrationDb → IntegrationDb
run p org (create now r) d = (create_integration p org now r d).1
run p org (rename i name) d = (update_integration org i name d).1
run p org (deactivate i) d = (deactivate_integration org i d).1
run p org (activate i) d = (activate_integration p org i d).1
run p org (delete i) d = (delete_integration org i d).1

abbrev pub run_all : Policy → ℕ → List Op → IntegrationDb → IntegrationDb
run_all p org [] d = d
run_all p org (o ∷ os) d = run_all p org os (run p org o d)

-- A request to create names a kind.
abbrev pub HasKind : Op → Type 0
HasKind (create now r) = is_empty r.kind ≡ false
HasKind _ = Unit

run-IsPlanned :
    (p : Policy) (org : ℕ) (o : Op) (d : IntegrationDb)
    → HasKind o
    → IsPlanned p org d
    → IsPlanned p org (run p org o d)
run-IsPlanned p org (create now r) d k v = create_integration-IsPlanned p org now r d k v
run-IsPlanned p org (rename i name) d k v = update_integration-IsPlanned p org i name d v
run-IsPlanned p org (deactivate i) d k v = deactivate_integration-IsPlanned p org org i d v
run-IsPlanned p org (activate i) d k v = activate_integration-IsPlanned p org i d v
run-IsPlanned p org (delete i) d k v = delete_integration-IsPlanned p org i d v

run_all_kept :
    (p : Policy) (org : ℕ) (os : List Op) (d : IntegrationDb)
    → All HasKind os
    → IsPlanned p org d
    → IsPlanned p org (run_all p org os d)
run_all_kept p org [] d k v = v
run_all_kept p org (o ∷ os) d k v =
    run_all_kept p org os (run p org o d) k.1 (run-IsPlanned p org o d k.0 v)

-- The active accounts and wallets together are within max_integrations, or the policy leaves one of
-- the two groups without a limit.
abbrev pub IsWithinTotal : Policy → ℕ → IntegrationDb → Type 0
IsWithinTotal p org d =
    (p.max_cex_accounts ≡ 0)
    ⊎ (p.max_wallets ≡ 0)
    ⊎ (count_if (active_kind org (codes "cex")) (integrations d)
          + count_if (active_kind org (codes "dex")) (integrations d)
        ≤ p.max_integrations)

total_within : (a b m x y : ℕ) → a + b ≤ m → Holds a x → Holds b y → (a ≡ 0) ⊎ (b ≡ 0) ⊎ (x + y ≤ m)
total_within a b m x y h (inl e) k = inl e
total_within a b m x y h (inr l) (inl e) = inr (inl e)
total_within a b m x y h (inr l) (inr k) = inr (inr (omega arith))

-- Whatever sequence of requests an organisation makes that name a kind where they create, the three
-- limits that the service enforces hold or are absent: on accounts, on wallets and on the accounts of
-- one exchange; if they do at the start, the stored kinds and codes are in lower case, and the rows
-- have distinct numbers below the next one. If max_integrations is at least the sum of the limits on
-- accounts and on wallets, as in a resolved policy, then the accounts and wallets together are within
-- it too, unless one of these two limits is absent.
pub run_all-IsPlanned :
    (p : Policy) (org : ℕ) (os : List Op) (d : IntegrationDb)
    → All HasKind os
    → p.max_cex_accounts + p.max_wallets ≤ p.max_integrations
    → IsPlanned p org d
    → IsPlanned p org (run_all p org os d) × IsWithinTotal p org (run_all p org os d)
run_all-IsPlanned p org os d k h v =
    let w = run_all_kept p org os d k v in
    (
      w,
      total_within p.max_cex_accounts p.max_wallets p.max_integrations _ _ h w.within.cex
          w.within.wallets,
    )
