-- ===== src/Billing/LedgerLaws.antt =====
-- What an entry does to the balances.
use balance_tracker.Prelude.{
  ℕ, ◌≡◌, refl, subst, ap, ◌∙◌, inl, inr, ◌⊎◌, false, Option, none, some, List, ◌∷◌, arith, ◌==◌,
  ==_refl, Bool-cases,
}
use balance_tracker.Prelude.Int.{ℤ, pos, ◌+ℤ◌, ◌-ℤ◌, ◌≤ℤ◌, leb_ℤ, int_laws}
use balance_tracker.Prelude.Text.{Text, codes, text_eq, text_eq_iff, text_eq_refl, strip, lower}
use balance_tracker.Billing.Store.{
  EntryType, credit, release, debit, hold, LedgerEntry, Db, Result, ok, err, Error,
}
use balance_tracker.Billing.Ledger.{
  entry_type_of, currency_of, NewEntry, entry_of, add_typed, add_entry, signed_amount, total,
  get_balance,
}

-- The normalised text of the entry's type.
abbrev pub type_text : NewEntry → Text
type_text n = lower (strip n.entry_type)

abbrev pub IsCredit : Text → Type 0
IsCredit t = (t ≡ codes "credit") ⊎ (t ≡ codes "release")

abbrev pub IsDebit : Text → Type 0
IsDebit t = (t ≡ codes "debit") ⊎ (t ≡ codes "hold")

-- A credit or a release raises a balance by the amount, a debit or a hold lowers it by the amount.
abbrev pub Moved : Text → ℤ → ℤ → ℤ → Type 0
Moved t amount before after =
    (IsCredit t × (after ≡ before +ℤ amount)) ⊎ (IsDebit t × (after ≡ before -ℤ amount))

-- One entry heads the ledger, with the amount. It moves the balance of its organisation in its
-- currency, and no other balance: one of another organisation or in another currency.
abbrev pub Posted : NewEntry → Db → Result LedgerEntry → Db → Type 0
Posted n d r d' =
    (e : LedgerEntry) × (r ≡ ok e)
    × (d' ≡ record d { ledger = e ∷ d.ledger })
    × (e.amount ≡ n.amount)
    × (pos 1 ≤ℤ n.amount)
    × Moved (type_text n) n.amount (get_balance n.organization_id n.currency d)
        (get_balance n.organization_id n.currency d')
    × ((org : ℕ) (currency : Text)
        → (org ≡ n.organization_id) × (currency_of currency ≡ currency_of n.currency)
          ⊎ (get_balance org currency d' ≡ get_balance org currency d))

-- The type is none of the four, or the amount is not positive.
abbrev pub IsRefused : NewEntry → Type 0
IsRefused n =
    ((text_eq (type_text n) (codes "credit") ≡ false)
      × (text_eq (type_text n) (codes "release") ≡ false)
      × (text_eq (type_text n) (codes "debit") ≡ false)
      × (text_eq (type_text n) (codes "hold") ≡ false))
    ⊎ (n.amount ≤ℤ pos 0)

-- The type that was read says which text it was read from.
abbrev Reads : Text → Option EntryType → Type 0
Reads t none =
    (text_eq t (codes "credit") ≡ false)
    × (text_eq t (codes "release") ≡ false)
    × (text_eq t (codes "debit") ≡ false)
    × (text_eq t (codes "hold") ≡ false)
Reads t (some credit) = t ≡ codes "credit"
Reads t (some release) = t ≡ codes "release"
Reads t (some debit) = t ≡ codes "debit"
Reads t (some hold) = t ≡ codes "hold"

entry_type_of-Reads : (raw : Text) → Reads (lower (strip raw)) (entry_type_of raw)
unfolding entry_type_of
entry_type_of-Reads raw =
    let t = lower (strip raw) in
    elim (Bool-cases (text_eq t (codes "credit"))) [
      | inl e ↦ rw e ((text_eq_iff t (codes "credit")).0 e)
      | inr e ↦ elim (Bool-cases (text_eq t (codes "release"))) [
        | inl f ↦ rw (e, f) ((text_eq_iff t (codes "release")).0 f)
        | inr f ↦ elim (Bool-cases (text_eq t (codes "debit"))) [
          | inl g ↦ rw (e, f, g) ((text_eq_iff t (codes "debit")).0 g)
          | inr g ↦ elim (Bool-cases (text_eq t (codes "hold"))) [
            | inl h ↦ rw (e, f, g, h) ((text_eq_iff t (codes "hold")).0 h)
            | inr h ↦ rw (e, f, g, h) (e, f, g, h)
          ]
        ]
      ]
    ]

-- What `add_entry` does, by the entry type that was read.
abbrev pub Headed : NewEntry → Db → Result LedgerEntry → Db → Type 0
Headed n d r d' =
    (t : EntryType) × (r ≡ ok (entry_of t n))
    × (d' ≡ record d { ledger = entry_of t n ∷ d.ledger })
    × (entry_type_of n.entry_type ≡ some t)
    × (pos 1 ≤ℤ n.amount)

add_typed_cases :
    (o : Option EntryType) (n : NewEntry) (d : Db)
    → entry_type_of n.entry_type ≡ o
    → let (r, d') = add_typed o n d in
      Headed n d r d' ⊎ ((x : Error) × (r ≡ err x) × (d' ≡ d) × ((o ≡ none) ⊎ (n.amount ≤ℤ pos 0)))
unfolding add_typed
add_typed_cases none n d h = inr (Error.unsupported_entry_type, refl, refl, inl refl)
add_typed_cases (some t) n d h = elim (Bool-cases (leb_ℤ n.amount (pos 0))) [
  | inl e ↦ rw e (inr (Error.amount_not_positive, refl, refl, inr (ground arith)))
  | inr e ↦ rw e (inl (t, refl, refl, h, ground arith))
]

pub add_entry_cases :
    (n : NewEntry) (d : Db)
    → let (r, d') = add_entry n d in
      Headed n d r d'
      ⊎ ((x : Error) × (r ≡ err x)
          × (d' ≡ d)
          × ((entry_type_of n.entry_type ≡ none) ⊎ (n.amount ≤ℤ pos 0)))
unfolding add_entry
add_entry_cases n d = add_typed_cases (entry_type_of n.entry_type) n d refl

-- The balance of the organisation in the currency of a new entry.
pub total_own :
    (n : NewEntry) (t : EntryType) (rows : List LedgerEntry)
    → total n.organization_id n.currency (entry_of t n ∷ rows)
      ≡ signed_amount (entry_of t n) +ℤ total n.organization_id n.currency rows
unfolding total
total_own n t rows = rw (==_refl n.organization_id, text_eq_refl (currency_of n.currency)) refl

plus_comm : (a b : ℤ) → a +ℤ b ≡ b +ℤ a
unfolding ◌+ℤ◌
plus_comm a b = ground arith

plus_minus : (a b : ℤ) → (pos 0 -ℤ a) +ℤ b ≡ b -ℤ a
plus_minus a b = grind int_laws

moved :
    (n : NewEntry) (t : EntryType) (rows : List LedgerEntry)
    → Reads (type_text n) (some t)
    → Moved
        (type_text n)
        n.amount
        (total n.organization_id n.currency rows)
        (total n.organization_id n.currency (entry_of t n ∷ rows))
moved n credit rows h = inl (inl h, total_own n credit rows ∙ plus_comm _ _)
moved n release rows h = inl (inr h, total_own n release rows ∙ plus_comm _ _)
moved n debit rows h = inr (inl h, total_own n debit rows ∙ plus_minus _ _)
moved n hold rows h = inr (inr h, total_own n hold rows ∙ plus_minus _ _)

total_others :
    (n : NewEntry) (t : EntryType) (rows : List LedgerEntry) (org : ℕ) (currency : Text)
    → (org ≡ n.organization_id) × (currency_of currency ≡ currency_of n.currency)
      ⊎ (total org currency (entry_of t n ∷ rows) ≡ total org currency rows)
unfolding total
total_others n t rows org currency =
    let same = text_eq_iff (currency_of currency) (currency_of n.currency) in
    elim (Bool-cases (n.organization_id == org)) [
      | inr e ↦ inr (rw e refl)
      | inl e ↦ elim (Bool-cases (text_eq (currency_of currency) (currency_of n.currency))) [
        | inl f ↦ inl (ground arith, same.0 f)
        | inr f ↦ inr (rw (e, f) refl)
      ]
    ]

-- Every call of `add_entry` either posts one entry at the head of the ledger, with the amount, which
-- is positive, or raises and changes nothing, and the type is none of the four or the amount is not
-- positive. A posted credit or release raises the balance of its organisation in its currency by the
-- amount, a debit or hold lowers it by the amount, and no other balance moves.
pub add_entry_lem :
    (n : NewEntry) (d : Db)
    → let (r, d') = add_entry n d in
      Posted n d r d' ⊎ ((x : Error) × (r ≡ err x) × (d' ≡ d) × IsRefused n)
unfolding get_balance
add_entry_lem n d =
    let reads = entry_type_of-Reads n.entry_type in
    elim (add_entry_cases n d) [
      | inr (x, r, s, inr a) ↦ inr (x, r, s, inr a)
      | inr (x, r, s, inl a) ↦ inr (x, r, s, inl (subst (Reads (type_text n)) a reads))
      | inl (t, r, s, a, p) ↦
          let read = subst (Reads (type_text n)) a reads in
          let l : (add_entry n d).1.ledger ≡ entry_of t n ∷ d.ledger = ap (λ x. x.ledger) s in
          inl (
            entry_of t n,
            r,
            s,
            refl,
            p,
            rw l (moved n t d.ledger read),
            rw l (total_others n t d.ledger),
          )
    ]
