-- ===== src/Transactions/SaveLaws.antt =====
-- Saving the same transaction again.
use balance_tracker.Prelude.{
  ℕ, ◌≤◌, Bool, true, false, Option, none, some, List, [], ◌∷◌, ◌≡◌, refl, sym, ◌∙◌, ap, inl, inr,
  arith, Bool-cases, Memᴰ, ==_refl, subst,
}
use balance_tracker.Prelude.Lists.{keep, update_where, count_if}
use balance_tracker.Prelude.Rows.{any_of_count_if, count_if_pos, mem-keep}
use balance_tracker.Prelude.UniqueRows.{update_where_none}
use balance_tracker.Prelude.Text.{text_eq_refl}
use balance_tracker.Transactions.Store.{
  Transaction, TransactionSchema, TxStore, done, raised, index_taken, has_id, is_tx, column_is,
  of_integration, insert_row,
}
use balance_tracker.Transactions.Save.{
  Lookup, lookup_tx, alone, one_or_none, save_transaction, save_found, after_integrity_error,
  get_by_tx_id, new_transaction, apply_transaction_updates, write_back,
}
use balance_tracker.Transactions.UpdateLaws.{apply_again, apply_new, apply_unchanged}

module _ {ℓ} {A : Type ℓ} (p q : A → Bool) where
  -- The one row that passes is still the one after it was replaced.
  keep-replaced :
      (u t : A) (xs : List A)
      → count_if q xs ≤ 1
      → q u ≡ true
      → p t ≡ true
      → keep p xs ≡ u ∷ []
      → keep p (update_where q (λ _. t) xs) ≡ t ∷ []
  keep-replaced u t [] n g h k = cc
  keep-replaced u t (x ∷ xs) n g h k = elim (Bool-cases (p x)) [
    | inl e ↦
        let w : x ≡ u = cc (rw e at k) in
        let v : keep p xs ≡ [] = cc (rw e at k) in
        let g' : q x ≡ true = subst (λ y. q y ≡ true) (sym w) g in
        ground (arith, update_where_none q (λ _. t) xs (any_of_count_if q xs (ground arith)))
    | inr e ↦
        let m = mem-keep p u xs (subst (Memᴰ u) (sym (rw e at k)) (Memᴰ.head refl)) in
        ground (arith, keep-replaced u t xs, count_if_pos q u xs g m.1)
  ]

of_own : (o : Option ℕ) → (t : Transaction) → t.integration_id ≡ o → of_integration o t ≡ true
of_own none t h = refl
of_own (some i) t h = ground (arith, ap (λ x. column_is x i) h)

is_tx_new :
    (i org : ℕ) (d : TransactionSchema)
    → is_tx org d.integration_id d.service d.tx_id (new_transaction i org d) ≡ true
unfolding is_tx new_transaction
is_tx_new i org d = ground (
  arith,
  text_eq_refl d.service,
  text_eq_refl d.tx_id,
  of_own d.integration_id (new_transaction i org d) refl,
)

pub one_found {ℓ} :
    {A : Type ℓ} (xs : List A) (a : A) → one_or_none xs ≡ done (some a) → xs ≡ a ∷ []
one_found [] a h = cc
one_found (x ∷ []) a h = cc
one_found (x ∷ y ∷ xs) a h = cc

none_found {ℓ} : {A : Type ℓ} (xs : List A) → one_or_none xs ≡ done none → xs ≡ []
none_found [] h = refl
none_found (x ∷ []) h = cc
none_found (x ∷ y ∷ xs) h = cc

-- The row that was saved is found again, and has nothing left to update.
IsSaved : ℕ → TransactionSchema → Transaction → TxStore → Type 0
IsSaved org d t s =
    (keep (is_tx org d.integration_id d.service d.tx_id) s.rows ≡ t ∷ [])
    × (apply_transaction_updates t d ≡ (t, false))

of_integration_apply :
    (o : Option ℕ) (d : TransactionSchema) (u : Transaction)
    → of_integration o (apply_transaction_updates u d).0 ≡ of_integration o u
unfolding apply_transaction_updates
of_integration_apply none d u = refl
of_integration_apply (some i) d u = refl

is_tx_apply :
    (org : ℕ) (d : TransactionSchema) (u : Transaction)
    → is_tx org d.integration_id d.service d.tx_id (apply_transaction_updates u d).0
      ≡ is_tx org d.integration_id d.service d.tx_id u
unfolding is_tx apply_transaction_updates
is_tx_apply org d u = rw (of_integration_apply d.integration_id d u) refl

written_IsSaved :
    (org : ℕ) (d : TransactionSchema) (s : TxStore) (u t : Transaction) (b : Bool)
    → count_if (has_id u.id) s.rows ≤ 1
    → keep (is_tx org d.integration_id d.service d.tx_id) s.rows ≡ u ∷ []
    → apply_transaction_updates u d ≡ (t, b)
    → IsSaved org d t (write_back u.id (t, b) s)
unfolding IsSaved write_back
written_IsSaved org d s u t true v k e =
    let p = is_tx org d.integration_id d.service d.tx_id in
    let q : (apply_transaction_updates u d).0 ≡ t = ap (λ x. x.0) e in
    let m = mem-keep p u s.rows (subst (Memᴰ u) (sym k) (Memᴰ.head refl)) in
    let pt : p t ≡ true = subst (λ x. p x ≡ true) q (is_tx_apply org d u ∙ m.0) in
    (
      keep-replaced p (has_id u.id) u t s.rows v (==_refl u.id) pt k,
      subst (λ x. apply_transaction_updates x d ≡ (x, false)) q (apply_again u d),
    )
written_IsSaved org d s u t false v k e =
    let q : (apply_transaction_updates u d).0 ≡ t = ap (λ x. x.0) e in
    let r : t ≡ u = sym q ∙ apply_unchanged u d (ap (λ x. x.1) e) in
    (rw r k, subst (λ x. apply_transaction_updates x d ≡ (x, false)) q (apply_again u d))

found_again :
    (org : ℕ) (d : TransactionSchema) (s s' : TxStore) (t : Transaction) (new : Bool) (l : Lookup)
    → ((i : ℕ) → count_if (has_id i) s.rows ≤ 1)
    → lookup_tx org d s.rows ≡ l
    → save_found org d alone l s ≡ (done (t, new), s')
    → IsSaved org d t s'
unfolding save_found after_integrity_error get_by_tx_id IsSaved
found_again org d s s' t new (raised e) v h q = cc
found_again org d s s' t new (done (some u)) v h q =
    let w =
      written_IsSaved org d s u (apply_transaction_updates u d).0 (apply_transaction_updates u d).1
        (v u.id) (one_found _ u h) refl in
    let e : (apply_transaction_updates u d).0 ≡ t = cc in
    let r : write_back u.id (apply_transaction_updates u d) s ≡ s' = cc in rw (sym e, sym r) w
found_again org d s s' t new (done none) v h q =
    elim (Bool-cases (index_taken org d.integration_id d.tx_id s.rows)) [
      | inl e ↦ cc (rw (e, h) at q)
      | inr e ↦
          let w : new_transaction s.next_id org d ≡ t = cc (rw e at q) in
          let r : insert_row (new_transaction s.next_id org d) s ≡ s' = cc (rw e at q) in
          rw (sym w, sym r)
            (rw (is_tx_new s.next_id org d, none_found _ h) refl, apply_new s.next_id org d)
    ]

-- Saving a transaction that has been saved hands out the same row as not new and changes nothing,
-- if no two rows had the same number and no other session writes.
pub save_transaction_again :
    (org : ℕ) (d : TransactionSchema) (s s' : TxStore) (t : Transaction) (new : Bool)
    → ((i : ℕ) → count_if (has_id i) s.rows ≤ 1)
    → save_transaction org alone d s ≡ (done (t, new), s')
    → save_transaction org alone d s' ≡ (done (t, false), s')
unfolding save_transaction get_by_tx_id save_found write_back IsSaved
save_transaction_again org d s s' t new v h =
    let (k, e) = found_again org d s s' t new (lookup_tx org d s.rows) v refl h in
    rw (k, e, save_found, write_back) refl
