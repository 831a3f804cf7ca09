-- ===== src/ResponseCache/PutGet.antt =====
-- What was just put is what a key gives.
use balance_tracker.Prelude.{
  ℕ, ◌+◌, ◌≤◌, ◌<◌, ◌≡◌, refl, inl, inr, true, false, some, List, [], ◌∷◌, ◌++◌, arith, ltb, leb,
  Bool-cases,
}
use balance_tracker.Prelude.Lists.{length, find?, any}
use balance_tracker.Prelude.Text.{Text, text_eq_refl}
use balance_tracker.ResponseCache.{Entry, Cache, at_key, remove, evict, get, put}

module _ {A : Type 0} (k : Text) where
  pub absent_removed : (es : List (Entry A)) → any (at_key k) (remove k es) ≡ false
  absent_removed [] = refl
  absent_removed (e ∷ es) = elim (Bool-cases (at_key k e)) [
    | inl t ↦ rw t (absent_removed es)
    | inr f ↦ rw (f, f) (absent_removed es)
  ]

  find?-last :
      (es : List (Entry A)) (e : Entry A)
      → any (at_key k) es ≡ false
      → at_key k e ≡ true
      → find? (at_key k) (es ++ (e ∷ [])) ≡ some e
  find?-last [] e h t = rw t refl
  find?-last (x ∷ es) e h t = ground (arith, find?-last es e)

  -- The newest entry is never evicted.
  find?-evict :
      (m : ℕ) (es : List (Entry A)) (e : Entry A)
      → 1 ≤ m
      → any (at_key k) es ≡ false
      → at_key k e ≡ true
      → find? (at_key k) (evict m (es ++ (e ∷ []))) ≡ some e
  find?-evict m [] e room h t = let fits : ltb m 1 ≡ false = ground arith in rw (fits, t) refl
  find?-evict m (x ∷ es) e room h t = elim (Bool-cases (ltb m (length (x ∷ (es ++ (e ∷ [])))))) [
    | inl more ↦ rw more (find?-evict m es e room (ground arith) t)
    | inr fits ↦ rw fits (find?-last (x ∷ es) e h t)
  ]

-- In a cache with room for an entry, a value that was put under a key is what the key gives in the next
-- call, if the time to live has not passed by then, also where the call that put it evicted entries.
pub get-put :
    {A : Type 0} (k : Text) (v : A) (ttl at' now : ℕ) (c : Cache A)
    → 1 ≤ c.max_entries
    → now < at' + ttl
    → (get k ttl now (put k v at' c)).0 ≡ some v
unfolding get put
get-put {A} k v ttl at' now c room young =
    let e : Entry A = record { key = k; cached_at = at'; value = v } in
    let f =
      find?-evict k c.max_entries (remove k c.entries) e room (absent_removed k c.entries)
        (text_eq_refl k) in
    let new : leb (at' + ttl) now ≡ false = ground arith in rw (f, new, get) refl
