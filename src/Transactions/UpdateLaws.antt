-- ===== src/Transactions/UpdateLaws.antt =====
-- What updating a row does when it is repeated, and when nothing differs.
use balance_tracker.Prelude.{ℕ, Bool, false, ◌||◌, Option, none, some, ◌≡◌, refl, arith}
use balance_tracker.Prelude.Int.{ℤ}
use balance_tracker.Prelude.Text.{Text, text_eq_refl}
use balance_tracker.Transactions.Store.{Transaction, TransactionSchema}
use balance_tracker.Transactions.Save.{
  new_transaction, update_text, update_amount, updated_status, apply_transaction_updates,
}

update_text_same : (o : Option Text) → update_text o o ≡ (o, false)
unfolding update_text
update_text_same none = refl
update_text_same (some t) = ground (arith, text_eq_refl t)

update_text_again :
    (o n : Option Text) → update_text (update_text o n).0 n ≡ ((update_text o n).0, false)
unfolding update_text
update_text_again o none = refl
update_text_again o (some t) = ground (arith, text_eq_refl t)

update_amount_same : (o : Option ℤ) → update_amount o o ≡ (o, false)
unfolding update_amount
update_amount_same none = refl
update_amount_same (some a) = ground arith

update_amount_again :
    (o n : Option ℤ) → update_amount (update_amount o n).0 n ≡ ((update_amount o n).0, false)
unfolding update_amount
update_amount_again o none = refl
update_amount_again o (some t) = ground arith

updated_status_again :
    (o n : Text) → updated_status (updated_status o n).0 n ≡ ((updated_status o n).0, false)
unfolding updated_status
updated_status_again o n = ground (arith, text_eq_refl n)

updated_status_same : (o : Text) → updated_status o o ≡ (o, false)
unfolding updated_status
updated_status_same o = ground (arith, text_eq_refl o)

ruleset settled = (
  update_text_same, update_text_again, update_amount_same, update_amount_again,
  updated_status_again, updated_status_same,
)

pub apply_again :
    (t : Transaction) (d : TransactionSchema)
    → apply_transaction_updates (apply_transaction_updates t d).0 d
      ≡ ((apply_transaction_updates t d).0, false)
unfolding apply_transaction_updates
apply_again t d = simp settled

pub apply_new :
    (i org : ℕ) (d : TransactionSchema)
    → apply_transaction_updates (new_transaction i org d) d ≡ (new_transaction i org d, false)
unfolding apply_transaction_updates new_transaction
apply_new i org d = simp settled

unchanged_text : (o n : Option Text) → (update_text o n).1 ≡ false → (update_text o n).0 ≡ o
unfolding update_text
unchanged_text o none h = refl
unchanged_text o (some t) h = ground arith

unchanged_amount : (o n : Option ℤ) → (update_amount o n).1 ≡ false → (update_amount o n).0 ≡ o
unfolding update_amount
unchanged_amount o none h = refl
unchanged_amount o (some t) h = ground arith

unchanged_status : (o n : Text) → (updated_status o n).1 ≡ false → (updated_status o n).0 ≡ o
unfolding updated_status
unchanged_status o n h = ground arith

all_false :
    (a b c d e f g i : Bool)
    → (a || b || c || d || e || f || g || i) ≡ false
    → (a ≡ false)
      × (b ≡ false)
      × (c ≡ false)
      × (d ≡ false)
      × (e ≡ false)
      × (f ≡ false)
      × (g ≡ false)
      × (i ≡ false)
all_false a b c d e f g i h = ground arith

-- A row that is reported as unchanged is.
pub apply_unchanged :
    (t : Transaction) (d : TransactionSchema)
    → (apply_transaction_updates t d).1 ≡ false
    → (apply_transaction_updates t d).0 ≡ t
unfolding apply_transaction_updates
apply_unchanged t d h =
    let (h₁, h₂, h₃, h₄, h₅, h₆, h₇, h₈) =
      all_false (updated_status t.status d.status).1 (update_text t.txid d.txid).1
        (update_amount t.fee d.fee).1 (update_text t.fee_currency d.fee_currency).1
        (update_text t.network d.network).1 (update_text t.address d.address).1
        (update_text t.address_from d.address_from).1 (update_text t.address_to d.address_to).1 h in
    rw
      (
        unchanged_status t.status d.status h₁,
        unchanged_text t.txid d.txid h₂,
        unchanged_amount t.fee d.fee h₃,
        unchanged_text t.fee_currency d.fee_currency h₄,
        unchanged_text t.network d.network h₅,
        unchanged_text t.address d.address h₆,
        unchanged_text t.address_from d.address_from h₇,
        unchanged_text t.address_to d.address_to h₈,
      )
      refl
