-- ===== src/ResponseCache/Tests.antt =====
-- The cache's theorems on a small cache.
use balance_tracker.Prelude.{ℕ, ◌≡◌, refl, ◌⊎◌, some, [], ◌∷◌, arith}
use balance_tracker.Prelude.Text.{codes, text_eq}
use balance_tracker.ResponseCache.{Cache, get, put, get_or_set}
use balance_tracker.ResponseCache.Laws.{IsBounded, Fresh, get_or_set-IsBounded, get_or_set-Fresh}
use balance_tracker.ResponseCache.Recent.{Access, access_all, get-access_all-put}

abbrev cache : Cache ℕ
cache = record {
  max_entries = 2;
  entries =
      record { key = codes "a"; cached_at = 5; value = 1 }
      ∷ record { key = codes "b"; cached_at = 6; value = 2 }
      ∷ [];
}

abbrev alone : Cache ℕ → Cache ℕ
alone c = c

cache-IsBounded : IsBounded cache
cache-IsBounded = record { some_room = omega arith; bounded = omega arith }

get_or_set-IsBounded_example : IsBounded (get_or_set (codes "c") 10 3 8 8 9 alone alone cache).1
get_or_set-IsBounded_example =
    get_or_set-IsBounded (codes "c") 10 3 8 8 9 alone alone cache (λ d b. b) (λ d b. b)
      cache-IsBounded

get_or_set-Fresh_example :
    let r = (get_or_set (codes "a") 10 3 8 8 9 alone alone cache).0 in
    (r ≡ 3)
    ⊎ Fresh (codes "a") 10 8 cache r
    ⊎ Fresh (codes "a") 10 8 (alone (get (codes "a") 10 8 cache).1) r
get_or_set-Fresh_example = get_or_set-Fresh (codes "a") 10 3 8 8 9 alone alone cache

get-access_all-put_example :
    (get
      (codes "c")
      10
      12
      (access_all (Access.gets (codes "b") 10 10 ∷ []) (put (codes "c") 3 9 cache))).0
    ≡ some 3
unfolding text_eq
get-access_all-put_example =
    get-access_all-put (codes "c") 3 10 9 12 (Access.gets (codes "b") 10 10 ∷ []) cache (refl, tt)
      (omega arith) (omega arith)
