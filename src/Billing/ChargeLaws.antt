-- ===== src/Billing/ChargeLaws.antt =====
-- What a renewal writes to the tables.
use balance_tracker.Prelude.{
  ℕ, ◌+◌, ◌*◌, ◌≤◌, ◌<◌, ◌≡◌, refl, ap, inl, inr, Bool, true, false, Option, none, some, ◌∷◌, arith,
  Bool-cases, if◌then◌else◌,
}
use balance_tracker.Prelude.Int.{ℤ, pos, ◌+ℤ◌, ◌-ℤ◌, ◌≤ℤ◌, leb_ℤ, int_laws}
use balance_tracker.Prelude.Text.{Text, codes, text_eq, strip, lower}
use balance_tracker.Clock.{Datetime, normalize, day}
use balance_tracker.Billing.Store.{
  Action, raise, ◌>>=◌, Plan, Subscription, debit, LedgerEntry, BillingEvent, Db, Result, ok, err,
}
use balance_tracker.Billing.Ledger.{
  entry_type_of, entry_of, add_typed, add_entry, has_source_entry, signed_amount, counted,
  get_balance,
}
use balance_tracker.Billing.Plans.{
  get_active_subscription, add_billing_event, add_subscription, update_subscription,
  next_period_end, period_start,
}
use balance_tracker.Billing.Renewal.{renewal_source, renewal_debit, charge}
use balance_tracker.Billing.Invariant.{IsValid, same_tables-IsValid}

pub bind_ok :
    {A B : Type 0} (m : Action A) (f : A → Action B) (d d' : Db) (a : A)
    → m d ≡ (ok a, d')
    → (m >>= f) d ≡ f a d'
bind_ok {A} {B} m f d d' a h =
    ap
      (λ (x : Result A × Db). elim x.0 as (λ r. Result B × Db) [
        | ok b ↦ f b x.1
        | err w ↦ raise w x.1
      ])
      h

debit_text : entry_type_of (codes "debit") ≡ some debit
unfolding entry_type_of text_eq strip lower
debit_text = refl

module _ (isoformat : ℕ → Text) (org : ℕ) (plan : Plan) (c : Subscription) (period_end : ℕ) where
  abbrev pub charged_entry : LedgerEntry
  charged_entry = entry_of debit (renewal_debit isoformat org plan c period_end)

  -- What a charge does, for a plan that costs something.
  pub charge_lem :
      (d : Db)
      → leb_ℤ plan.price_monthly (pos 0) ≡ false
      → charge isoformat org plan c period_end d ≡ (
        ok tt,
        (if has_source_entry org
              (codes "subscription_renewal")
              (renewal_source isoformat c.id period_end)
              d
            then d
            else record d { ledger = charged_entry ∷ d.ledger }),
      )
  unfolding charge add_entry
  charge_lem d price =
      elim (Bool-cases (
        has_source_entry org (codes "subscription_renewal")
          (renewal_source isoformat c.id period_end) d)) [
            | inl e ↦ rw e
            | inr e ↦ rw e (rw debit_text (unfold add_typed in rw price))
          ]

period_start_le : (base : Option ℕ) (now : ℕ) → now ≤ period_start base now
period_start_le none now = omega arith
period_start_le (some b) now = ground arith

-- A renewed period ends after now.
pub renewed_end_later :
    (base : Option Datetime) (now : ℕ)
    → (t : ℕ) × (normalize (some (next_period_end base now none)) ≡ some t) × (now < t)
unfolding next_period_end
renewed_end_later base now = (
  period_start (normalize base) now + 30 * day,
  refl,
  omega (arith, period_start_le (normalize base) now),
)

pub debited_solvent :
    (k : Bool) (a b : ℤ) → a ≤ℤ b → pos 0 ≤ℤ b → pos 0 ≤ℤ (if k then pos 0 -ℤ a +ℤ b else b)
debited_solvent true a b h n = omega int_laws
debited_solvent false a b h n = n

pub get_balance-posted :
    (org : ℕ) (currency : Text) (e : LedgerEntry) (d : Db)
    → get_balance org currency (record d { ledger = e ∷ d.ledger }) ≡ (
        if counted org currency e
        then signed_amount e +ℤ get_balance org currency d
        else get_balance org currency d)
unfolding get_balance
get_balance-posted org currency e d = refl

pub event-IsValid : (e : BillingEvent) (d : Db) → IsValid d → IsValid (add_billing_event e d)
event-IsValid e d v = same_tables-IsValid d _ refl refl v.amounts v

pub event_active :
    (org : ℕ) (e : BillingEvent) (d : Db)
    → get_active_subscription org (add_billing_event e d) ≡ get_active_subscription org d
unfolding get_active_subscription
event_active org e d = refl

module _ (org : ℕ) (currency : Text) where
  pub event_balance :
      (e : BillingEvent) (d : Db)
      → get_balance org currency (add_billing_event e d) ≡ get_balance org currency d
  unfolding get_balance
  event_balance e d = refl

  pub update_balance :
      (i now : ℕ) (f : Subscription → Subscription) (d : Db)
      → get_balance org currency (update_subscription i f now d) ≡ get_balance org currency d
  unfolding get_balance
  update_balance i now f d = refl

  pub added_balance :
      (o plan now : ℕ) (p : Option Datetime) (d : Db)
      → get_balance org currency (add_subscription o plan p now d) ≡ get_balance org currency d
  unfolding get_balance
  added_balance o plan now p d = refl
