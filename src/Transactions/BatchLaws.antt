-- ===== src/Transactions/BatchLaws.antt =====
-- A batch of transactions against the same transactions saved one by one.
use balance_tracker.Prelude.{
  ℕ, Bool, true, none, some, List, [], ◌∷◌, ◌≡◌, refl, ◌⊎◌, inl, inr, ◌↔◌, sym, ◌∙◌, Bool-cases,
  Option-cases,
}
use balance_tracker.Transactions.Store.{
  Transaction, TransactionSchema, TxStore, TxError, TxResult, done, raised, index_taken, integrity,
  insert_row,
}
use balance_tracker.Transactions.Save.{
  Saving, Counts, Lookup, lookup_tx, alone, count_saved, save_transaction, save_found, save_each,
  after_integrity_error, new_transaction,
}
use balance_tracker.Transactions.Batch.{
  Draft, batch_found, batch_flushed, batch_loop, flush, commit_flushed, commit_batch,
  save_transactions_batch,
}

-- How a step of the loop and the saving of the same transaction end.
data Agree (org : ℕ) (counts : Counts) (saved : Saving) (step : TxResult Draft) : Type 0 where
  fails : (e : TxError) → step ≡ raised e → saved.0 ≡ raised e → Agree org counts saved step
  saves :
      (b : Draft) (t : Transaction × Bool) (s : TxStore)
      → step ≡ done b
      → saved.0 ≡ done t
      → saved.1 ≡ s
      → b.counts ≡ count_saved t.1 counts
      → flush org b.pending b.table ≡ some s
      → Agree org counts saved step
  clashes :
      (b : Draft)
      → step ≡ done b
      → saved.0 ≡ raised integrity
      → flush org b.pending b.table ≡ none
      → Agree org counts saved step

found_Agree :
    (org : ℕ) (d : TransactionSchema) (counts : Counts) (s : TxStore) (l : Lookup)
    → lookup_tx org d s.rows ≡ l
    → Agree org counts (save_found org d alone l s) (batch_found d counts s l)
unfolding save_found batch_found flush after_integrity_error
found_Agree org d counts s (raised e) h = fails e refl refl
found_Agree org d counts s (done (some t)) h = saves _ _ _ refl refl refl refl refl
found_Agree org d counts s (done none) h =
    elim (Bool-cases (index_taken org d.integration_id d.tx_id s.rows)) [
      | inl e ↦ clashes _ refl (rw (e, h) refl) (rw e refl)
      | inr e ↦
          saves _ (new_transaction s.next_id org d, true)
            (insert_row (new_transaction s.next_id org d) s) refl (rw e refl) (rw e refl) refl
            (rw e refl)
    ]

step_Agree :
    (org : ℕ) (d : TransactionSchema) (counts : Counts) (s : TxStore)
    → Agree org counts (save_transaction org alone d s) (batch_flushed org d counts (some s))
unfolding save_transaction batch_flushed
step_Agree org d counts s = found_Agree org d counts s (lookup_tx org d s.rows) refl

loop-none :
    (org : ℕ) (ds : List TransactionSchema) (b c : Draft)
    → flush org b.pending b.table ≡ none
    → batch_loop org ds b ≡ done c
    → flush org c.pending c.table ≡ none
unfolding batch_loop batch_flushed
loop-none org [] b c h q = let e : b ≡ c = cc in rw (sym e) h
loop-none org (d ∷ ds) b c h q = cc (rw (h, batch_loop) at q)

loop_of_each :
    (org : ℕ) (ds : List TransactionSchema) (b : Draft) (s s' : TxStore) (c : Counts)
    → flush org b.pending b.table ≡ some s
    → save_each org ds b.counts s ≡ (done c, s')
    → (b' : Draft) × (batch_loop org ds b ≡ done b')
      × (b'.counts ≡ c)
      × (flush org b'.pending b'.table ≡ some s')
unfolding batch_loop save_each
loop_of_each org [] b s s' c f h = (b, refl, cc, f ∙ cc)
loop_of_each org (d ∷ ds) b s s' c f h = elim (step_Agree org d b.counts s) [
  | fails e p q ↦ cc (rw (q, save_each) at h)
  | saves b₁ t s₁ p q w k g ↦
      let (b', r, u, v) = loop_of_each org ds b₁ s₁ s' c g (rw k (rw (q, w, save_each) at h)) in
      (b', rw (f, p, batch_loop) r, u, v)
  | clashes b₁ p q g ↦ cc (rw (q, save_each) at h)
]

each_of_loop :
    (org : ℕ) (ds : List TransactionSchema) (b b' : Draft) (s s' : TxStore)
    → flush org b.pending b.table ≡ some s
    → batch_loop org ds b ≡ done b'
    → flush org b'.pending b'.table ≡ some s'
    → save_each org ds b.counts s ≡ (done b'.counts, s')
unfolding batch_loop save_each
each_of_loop org [] b b' s s' f h g =
    let e : b ≡ b' = cc in let q : s ≡ s' = cc (rw (sym e) at g) in rw (e, q) refl
each_of_loop org (d ∷ ds) b b' s s' f h g = elim (step_Agree org d b.counts s) [
  | fails e p q ↦ cc (rw (f, p, batch_loop) at h)
  | saves b₁ t s₁ p q w k u ↦
      let r = each_of_loop org ds b₁ b' s₁ s' u (rw (f, p, batch_loop) at h) g in
      rw (q, w, save_each) (rw k at r)
  | clashes b₁ p q u ↦ cc (loop-none org ds b₁ b' u (rw (f, p, batch_loop) at h))
]

abbrev start : TxStore → Draft
start s = record { counts = (0, 0); pending = none; table = s }

commit_each :
    (org : ℕ) (ds : List TransactionSchema) (s s' : TxStore) (c : Counts) (l : TxResult Draft)
    → batch_loop org ds (start s) ≡ l
    → commit_batch org ds s l ≡ (done c, s')
    → save_each org ds (0, 0) s ≡ (done c, s')
unfolding commit_batch commit_flushed
commit_each org ds s s' c (raised e) h q = cc
commit_each org ds s s' c (done b) h q = elim (Option-cases (flush org b.pending b.table)) [
  | inl e ↦ rw e at q
  | inr (t, e) ↦ each_of_loop org ds (start s) b s t refl h e ∙ (rw e at q)
]

commit_table :
    (org : ℕ) (ds : List TransactionSchema) (s : TxStore) (l : TxResult Draft)
    → batch_loop org ds (start s) ≡ l
    → ((commit_batch org ds s l).1 ≡ s)
      ⊎ ((commit_batch org ds s l).1 ≡ (save_each org ds (0, 0) s).1)
unfolding commit_batch commit_flushed
commit_table org ds s (raised e) h = inl refl
commit_table org ds s (done b) h = elim (Option-cases (flush org b.pending b.table)) [
  | inl e ↦ inr (rw e refl)
  | inr (t, e) ↦ inr (rw (e, each_of_loop org ds (start s) b s t refl h e) refl)
]

-- The table after a batch.
pub batch_table :
    (org : ℕ) (ds : List TransactionSchema) (s : TxStore)
    → ((save_transactions_batch org ds s).1 ≡ s)
      ⊎ ((save_transactions_batch org ds s).1 ≡ (save_each org ds (0, 0) s).1)
unfolding save_transactions_batch
batch_table org ds s = commit_table org ds s (batch_loop org ds (start s)) refl

-- A batch gives what its transactions give that are saved one by one: when either of them
-- succeeds, so does the other, with the same counts and the same table.
pub save_transactions_batch_refines :
    (org : ℕ) (ds : List TransactionSchema) (s s' : TxStore) (c : Counts)
    → (save_transactions_batch org ds s ≡ (done c, s')) ↔ (save_each org ds (0, 0) s ≡ (done c, s'))
unfolding save_transactions_batch commit_batch commit_flushed flush
save_transactions_batch_refines org ds s s' c = (
  commit_each org ds s s' c (batch_loop org ds (start s)) refl,
  λ h. let (b, r, u, v) = loop_of_each org ds (start s) s s' c refl h in rw (r, v, u) refl,
)
