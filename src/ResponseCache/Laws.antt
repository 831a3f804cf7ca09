-- ===== src/ResponseCache/Laws.antt =====
-- The cache is bounded, returns what was put, and nothing that is too old.
use balance_tracker.Prelude.{
  ℕ, ◌+◌, ◌≤◌, ◌<◌, ◌≡◌, refl, sym, inl, inr, ◌⊎◌, not, Option, none, some, List, [], ◌∷◌, Memᴰ,
  arith, ◌==◌, leb, Bool-cases, Option-cases,
}
use balance_tracker.Prelude.Lists.{length, find?, length-append, length-keep, find?_sound}
use balance_tracker.Prelude.Rows.{find?-mem}
use balance_tracker.Prelude.Text.{Text, text_eq_iff}
use balance_tracker.ResponseCache.{
  Entry, Cache, at_key, remove, evict, get, put, load_locked, load, get_or_set,
}

module _ {A : Type 0} where
  -- The entries are no more than the cache may hold, and it may hold one.
  pub record IsBounded (c : Cache A) : Type 0 where
    pub some_room : 1 ≤ c.max_entries
    pub bounded : length c.entries ≤ c.max_entries

  length-evict : (m : ℕ) (es : List (Entry A)) → length (evict m es) ≤ m
  length-evict m [] = omega arith
  length-evict m (e ∷ es) = ground (arith, length-evict m es)

  length-remove_found :
      (k : Text) (es : List (Entry A)) (e : Entry A)
      → find? (at_key k) es ≡ some e
      → length (remove k es) + 1 ≤ length es
  length-remove_found k [] e h = cc
  length-remove_found k (x ∷ es) e h = elim (Bool-cases (at_key k x)) [
    | inl t ↦ rw t (omega (arith, length-keep {0} (λ y. not (at_key k y)) es))
    | inr f ↦ rw f (omega (arith, length-remove_found k es e (rw f at h)))
  ]

  get-IsBounded :
      (k : Text) (ttl now : ℕ) (c : Cache A) → IsBounded c → IsBounded (get k ttl now c).1
  unfolding get
  get-IsBounded k ttl now c b = elim (Option-cases (find? (at_key k) c.entries)) [
    | inl e ↦ rw (e, get) b
    | inr (x, e) ↦
        let less = length-remove_found k c.entries x e in
        elim (Bool-cases (leb (x.cached_at + ttl) now)) [
          | inl old ↦
              rw (e, old, get)
                (record { some_room = b.some_room; bounded = omega (arith, b.bounded, less) })
          | inr new ↦
              rw (e, new, get)
                (record {
                  some_room = b.some_room;
                  bounded =
                      omega (arith, b.bounded, less, length-append (remove k c.entries) (x ∷ []));
                })
        ]
  ]

  put-IsBounded :
      (k : Text) (v : A) (now : ℕ) (c : Cache A) → IsBounded c → IsBounded (put k v now c)
  unfolding put
  put-IsBounded k v now c b = record {
    some_room = b.some_room;
    bounded = length-evict c.max_entries _;
  }

  locked-IsBounded :
      (k : Text) (ttl : ℕ) (v : A) (done : ℕ) (others : Cache A → Cache A) (o : Option A)
      (c : Cache A)
      → ((d : Cache A) → IsBounded d → IsBounded (others d))
      → IsBounded c
      → IsBounded (load_locked k ttl v done others o c).1
  unfolding load_locked
  locked-IsBounded k ttl v done others (some w) c keeps b = b
  locked-IsBounded k ttl v done others none c keeps b =
      put-IsBounded k v done (others c) (keeps c b)

  load-IsBounded :
      (k : Text) (ttl : ℕ) (v : A) (locked done : ℕ) (before others : Cache A → Cache A)
      (o : Option A) (c : Cache A)
      → ((d : Cache A) → IsBounded d → IsBounded (before d))
      → ((d : Cache A) → IsBounded d → IsBounded (others d))
      → IsBounded c
      → IsBounded (load k ttl v locked done before others o c).1
  unfolding load
  load-IsBounded k ttl v locked done before others (some w) c kb ko b = b
  load-IsBounded k ttl v locked done before others none c kb ko b =
      let x = get k ttl locked (before c) in
      locked-IsBounded k ttl v done others x.0 x.1 ko
        (get-IsBounded k ttl locked (before c) (kb c b))

  -- If what other tasks do meanwhile keeps the cache within its bound, so does `get_or_set`.
  pub get_or_set-IsBounded :
      (k : Text) (ttl : ℕ) (v : A) (now locked done : ℕ) (before others : Cache A → Cache A)
      (c : Cache A)
      → ((d : Cache A) → IsBounded d → IsBounded (before d))
      → ((d : Cache A) → IsBounded d → IsBounded (others d))
      → IsBounded c
      → IsBounded (get_or_set k ttl v now locked done before others c).1
  unfolding get_or_set
  get_or_set-IsBounded k ttl v now locked done before others c kb ko b =
      elim (Bool-cases (ttl == 0)) [
        | inl z ↦ rw z b
        | inr p ↦
            let x = get k ttl now c in
            rw p (
              load-IsBounded k ttl v locked done before others x.0 x.1 kb ko
                (get-IsBounded k ttl now c b))
      ]

  -- A value that stands in the cache under the key, and is younger than the time to live.
  abbrev pub Fresh : Text → ℕ → ℕ → Cache A → A → Type 0
  Fresh k ttl now c v =
      (e : Entry A) × Memᴰ e c.entries × (e.key ≡ k) × (e.value ≡ v) × (now < e.cached_at + ttl)

  get_sound :
      (k : Text) (ttl now : ℕ) (c : Cache A) (v : A)
      → (get k ttl now c).0 ≡ some v
      → Fresh k ttl now c v
  unfolding get
  get_sound k ttl now c v h = elim (Option-cases (find? (at_key k) c.entries)) [
    | inl e ↦ cc (rw (e, get) at h)
    | inr (x, e) ↦
        let q : x.key ≡ k = sym ((text_eq_iff k x.key).0 (find?_sound (at_key k) c.entries x e)) in
        elim (Bool-cases (leb (x.cached_at + ttl) now)) [
          | inl old ↦ cc (rw (e, old, get) at h)
          | inr new ↦
              let w : x.value ≡ v = cc (rw (e, new, get) at h) in
              (x, find?-mem (at_key k) c.entries x e, q, w, ground arith)
        ]
  ]

  locked-Fresh :
      (k : Text) (ttl : ℕ) (v : A) (locked done : ℕ) (others : Cache A → Cache A) (o : Option A)
      (c d : Cache A)
      → ((w : A) → o ≡ some w → Fresh k ttl locked c w)
      → let r = (load_locked k ttl v done others o d).0 in (r ≡ v) ⊎ Fresh k ttl locked c r
  unfolding load_locked
  locked-Fresh k ttl v locked done others (some w) c d h = inr (h w refl)
  locked-Fresh k ttl v locked done others none c d h = inl refl

  load-Fresh :
      (k : Text) (ttl : ℕ) (v : A) (now locked done : ℕ) (before others : Cache A → Cache A)
      (o : Option A) (c d : Cache A)
      → ((w : A) → o ≡ some w → Fresh k ttl now c w)
      → let r = (load k ttl v locked done before others o d).0 in
        (r ≡ v) ⊎ Fresh k ttl now c r ⊎ Fresh k ttl locked (before d) r
  unfolding load
  load-Fresh k ttl v now locked done before others (some w) c d h = inr (inl (h w refl))
  load-Fresh k ttl v now locked done before others none c d h =
      let x = get k ttl locked (before d) in
      elim (locked-Fresh k ttl v locked done others x.0 (before d) x.1
        (λ w e. get_sound k ttl locked (before d) w e)) [ inl e ↦ inl e | inr f ↦ inr (inr f) ]

  -- What `get_or_set` returns is what was loaded, or a value under the key that is younger than the
  -- time to live: one of the cache at the first look, or one of it at the second look.
  pub get_or_set-Fresh :
      (k : Text) (ttl : ℕ) (v : A) (now locked done : ℕ) (before others : Cache A → Cache A)
      (c : Cache A)
      → let r = (get_or_set k ttl v now locked done before others c).0 in
        (r ≡ v) ⊎ Fresh k ttl now c r ⊎ Fresh k ttl locked (before (get k ttl now c).1) r
  unfolding get_or_set
  get_or_set-Fresh k ttl v now locked done before others c = elim (Bool-cases (ttl == 0)) [
    | inl z ↦ rw z (inl refl)
    | inr p ↦
        let x = get k ttl now c in
        let f =
          load-Fresh k ttl v now locked done before others x.0 c x.1
            (λ w e. get_sound k ttl now c w e) in
        rw p f
  ]
