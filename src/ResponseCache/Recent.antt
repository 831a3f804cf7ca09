-- ===== src/ResponseCache/Recent.antt =====
-- The entry that was used last is the last to be evicted.
use balance_tracker.Prelude.{
  ℕ, ◌+◌, ◌≤◌, ◌<◌, ◌≡◌, refl, sym, subst, inl, inr, true, false, not, some, List, [], ◌∷◌, ◌++◌,
  arith, ltb, leb, Bool-cases, Option-cases,
}
use balance_tracker.Prelude.Lists.{length, length-append, length-keep, find?, any, All}
use balance_tracker.Prelude.Text.{Text, text_eq, text_eq_refl}
use balance_tracker.ResponseCache.{Entry, Cache, at_key, remove, evict, get, put}
use balance_tracker.ResponseCache.PutGet.{absent_removed}

-- What other tasks do with another key.
pub data Access (A : Type 0) : Type 0 where
  puts : Text → A → ℕ → Access A
  gets : Text → ℕ → ℕ → Access A

module _ {A : Type 0} where
  abbrev pub key_of : Access A → Text
  key_of (puts k v at') = k
  key_of (gets k ttl now) = k

  abbrev pub access : Access A → Cache A → Cache A
  access (puts k v at') c = put k v at' c
  access (gets k ttl now) c = (get k ttl now c).1

  abbrev pub access_all : List (Access A) → Cache A → Cache A
  access_all [] c = c
  access_all (a ∷ as') c = access_all as' (access a c)

  -- `e` is the first entry under `k`, and at most `n` entries stand behind it.
  abbrev Near : Text → Entry A → ℕ → List (Entry A) → Type 0
  Near k e n es =
      (pre : List (Entry A)) × (post : List (Entry A)) × (es ≡ pre ++ (e ∷ post))
      × (any (at_key k) pre ≡ false)
      × (length post ≤ n)

  module _ (k : Text) (e : Entry A) where
    find?-middle :
        (pre post : List (Entry A))
        → any (at_key k) pre ≡ false
        → at_key k e ≡ true
        → find? (at_key k) (pre ++ (e ∷ post)) ≡ some e
    find?-middle [] post h t = rw t refl
    find?-middle (x ∷ pre) post h t = ground (arith, find?-middle pre post)

    Near-found :
        (n : ℕ) (es : List (Entry A))
        → at_key k e ≡ true
        → Near k e n es
        → find? (at_key k) es ≡ some e
    Near-found n es t (pre, post, q, h, _) = rw q (find?-middle pre post h t)

    remove-middle :
        (k' : Text) (pre post : List (Entry A))
        → at_key k' e ≡ false
        → remove k' (pre ++ (e ∷ post)) ≡ remove k' pre ++ (e ∷ remove k' post)
    remove-middle k' [] post f = rw f refl
    remove-middle k' (x ∷ pre) post f = ground (arith, remove-middle k' pre post)

    absent-remove :
        (k' : Text) (pre : List (Entry A))
        → any (at_key k) pre ≡ false
        → any (at_key k) (remove k' pre) ≡ false
    absent-remove k' [] h = refl
    absent-remove k' (x ∷ pre) h = ground (arith, absent-remove k' pre)

    Near-remove :
        (k' : Text) (n : ℕ) (es : List (Entry A))
        → at_key k' e ≡ false
        → Near k e n es
        → Near k e n (remove k' es)
    Near-remove k' n es f (pre, post, q, h, l) = (
      remove k' pre,
      remove k' post,
      rw q (remove-middle k' pre post f),
      absent-remove k' pre h,
      omega (arith, l, length-keep {0} (λ x. not (at_key k' x)) post),
    )

    append-middle :
        (pre post : List (Entry A)) (x : Entry A)
        → (pre ++ (e ∷ post)) ++ (x ∷ []) ≡ pre ++ (e ∷ (post ++ (x ∷ [])))
    append-middle [] post x = refl
    append-middle (y ∷ pre) post x = rw (append-middle pre post x) refl

    Near-append :
        (x : Entry A) (n : ℕ) (es : List (Entry A))
        → Near k e n es
        → Near k e (n + 1) (es ++ (x ∷ []))
    Near-append x n es (pre, post, q, h, l) = (
      pre,
      post ++ (x ∷ []),
      rw q (append-middle pre post x),
      h,
      omega (arith, l, length-append post (x ∷ [])),
    )

    evict-middle :
        (m n : ℕ) (pre post : List (Entry A))
        → any (at_key k) pre ≡ false
        → length post ≤ n
        → n + 1 ≤ m
        → Near k e n (evict m (pre ++ (e ∷ post)))
    evict-middle m n [] post h l room =
        let fits : ltb m (length (e ∷ post)) ≡ false = ground arith in
        rw fits ([], post, refl, refl, l)
    evict-middle m n (x ∷ pre) post h l room =
        elim (Bool-cases (ltb m (length (x ∷ (pre ++ (e ∷ post)))))) [
          | inl more ↦ rw more (evict-middle m n pre post (ground arith) l room)
          | inr fits ↦ rw fits (x ∷ pre, post, refl, h, l)
        ]

    Near-evict :
        (m n : ℕ) (es : List (Entry A)) → n + 1 ≤ m → Near k e n es → Near k e n (evict m es)
    Near-evict m n es room (pre, post, q, h, l) =
        subst (λ x. Near k e n (evict m x)) (sym q) (evict-middle m n pre post h l room)

    put-Near :
        (k' : Text) (v : A) (at' n : ℕ) (c : Cache A)
        → at_key k' e ≡ false
        → n + 2 ≤ c.max_entries
        → Near k e n c.entries
        → Near k e (n + 1) (put k' v at' c).entries
    unfolding put
    put-Near k' v at' n c f room h =
        let x : Entry A = record { key = k'; cached_at = at'; value = v } in
        Near-evict c.max_entries (n + 1) (remove k' c.entries ++ (x ∷ [])) (omega arith)
          (Near-append x n (remove k' c.entries) (Near-remove k' n c.entries f h))

    Near-more : (n : ℕ) (es : List (Entry A)) → Near k e n es → Near k e (n + 1) es
    Near-more n es (pre, post, q, h, l) = (pre, post, q, h, omega (arith, l))

    get-Near :
        (k' : Text) (ttl now n : ℕ) (c : Cache A)
        → at_key k' e ≡ false
        → Near k e n c.entries
        → Near k e (n + 1) (get k' ttl now c).1.entries
    unfolding get
    get-Near k' ttl now n c f h =
        let kept = Near-remove k' n c.entries f h in
        elim (Option-cases (find? (at_key k') c.entries)) [
          | inl q ↦ rw (q, get) (Near-more n c.entries h)
          | inr (x, q) ↦ elim (Bool-cases (leb (x.cached_at + ttl) now)) [
            | inl old ↦ rw (q, old, get) (Near-more n (remove k' c.entries) kept)
            | inr new ↦ rw (q, new, get) (Near-append x n (remove k' c.entries) kept)
          ]
        ]

    access-Near :
        (a : Access A) (n : ℕ) (c : Cache A)
        → at_key (key_of a) e ≡ false
        → n + 2 ≤ c.max_entries
        → Near k e n c.entries
        → Near k e (n + 1) (access a c).entries
    access-Near (puts k' v at') n c f room h = put-Near k' v at' n c f room h
    access-Near (gets k' ttl now) n c f room h = get-Near k' ttl now n c f h

    get-room :
        (k' : Text) (ttl now : ℕ) (c : Cache A) → (get k' ttl now c).1.max_entries ≡ c.max_entries
    unfolding get
    get-room k' ttl now c = elim (Option-cases (find? (at_key k') c.entries)) [
      | inl q ↦ rw (q, get) refl
      | inr (x, q) ↦ elim (Bool-cases (leb (x.cached_at + ttl) now)) [
        | inl old ↦ rw (q, old, get) refl
        | inr new ↦ rw (q, new, get) refl
      ]
    ]

    same_room : (a : Access A) (c : Cache A) → (access a c).max_entries ≡ c.max_entries
    unfolding put
    same_room (puts k' v at') c = refl
    same_room (gets k' ttl now) c = get-room k' ttl now c

    access_all-Near :
        (accesses : List (Access A)) (n : ℕ) (c : Cache A)
        → All (λ a. at_key (key_of a) e ≡ false) accesses
        → n + length accesses + 1 ≤ c.max_entries
        → Near k e n c.entries
        → Near k e (n + length accesses) (access_all accesses c).entries
    access_all-Near [] n c f room h = subst (λ m. Near k e m c.entries) (omega arith) h
    access_all-Near (a ∷ accesses) n c f room h =
        subst (λ m. Near k e m (access_all accesses (access a c)).entries) (omega arith)
          (access_all-Near accesses (n + 1) (access a c) f.1 (omega (arith, same_room a c, room))
            (access-Near a n c f.0 (omega (arith, room)) h))

-- A value that was put under a key is what the key gives while the time to live has not passed,
-- whatever gets and puts of other keys come in between, if they are fewer than the cache has room for
-- entries.
pub get-access_all-put :
    {A : Type 0} (k : Text) (v : A) (ttl at' now : ℕ) (accesses : List (Access A)) (c : Cache A)
    → All (λ a. text_eq (key_of a) k ≡ false) accesses
    → length accesses < c.max_entries
    → now < at' + ttl
    → (get k ttl now (access_all accesses (put k v at' c))).0 ≡ some v
unfolding get put
get-access_all-put {A} k v ttl at' now accesses c others room young =
    let e : Entry A = record { key = k; cached_at = at'; value = v } in
    let first : Near k e 0 (put k v at' c).entries =
      Near-evict k e c.max_entries 0 (remove k c.entries ++ (e ∷ [])) (omega (arith, room))
        (remove k c.entries, [], refl, absent_removed k c.entries, omega arith) in
    let last = access_all-Near k e accesses 0 (put k v at' c) others (omega (arith, room)) first in
    let f =
      Near-found k e (0 + length accesses) (access_all accesses (put k v at' c)).entries
        (text_eq_refl k) last in
    let new : leb (at' + ttl) now ≡ false = ground arith in rw (f, new, get) refl
