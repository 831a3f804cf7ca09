-- ===== src/ResponseCache.antt =====
-- `HotResponseCache` of app/services/response_cache.py. The entries stand in the order of the
-- OrderedDict, the first to go first; times are those of `time.monotonic`. Values are never changed,
-- so that a copy is the value itself, and a loader returns no None; the counters and the locks that
-- only keep two loads of one key apart are left out.
use balance_tracker.Prelude.{
  ℕ, zero, suc, ◌+◌, max, Bool, true, false, not, Option, none, some, List, [], ◌∷◌, ◌++◌, ◌==◌,
  ltb, leb, if◌then◌else◌,
}
use balance_tracker.Prelude.Lists.{length, keep, find?, count_if}
use balance_tracker.Prelude.Text.{Text, text_eq, starts_with}
pub mod Laws
pub mod PutGet
pub mod Recent
mod Tests

pub record Entry (A : Type 0) : Type 0 where
  pub key : Text
  pub cached_at : ℕ
  pub value : A

pub record Cache (A : Type 0) : Type 0 where
  pub max_entries : ℕ
  pub entries : List (Entry A)

module _ {A : Type 0} where
  -- `__init__`
  abbrev pub new_cache : ℕ → Cache A
  new_cache max_entries = record { max_entries = max 1 max_entries; entries = [] }

  abbrev pub at_key : Text → Entry A → Bool
  at_key k e = text_eq k e.key

  -- `pop(key, None)`
  abbrev pub remove : Text → List (Entry A) → List (Entry A)
  remove k es = keep (λ e. not (at_key k e)) es

  -- `while len(values) > max_entries: values.popitem(last=False)`
  abbrev pub evict : ℕ → List (Entry A) → List (Entry A)
  evict m [] = []
  evict m (e ∷ es) = let rest = evict m es in if ltb m (length (e ∷ es)) then rest else e ∷ es

  -- `_get`
  unfoldable pub get : Text → ℕ → ℕ → Cache A → Option A × Cache A
  get k ttl now c = elim (find? (at_key k) c.entries) [
    | none ↦ (none, c)
    | some e ↦
        if leb (e.cached_at + ttl) now
        then (none, record c { entries = remove k c.entries })
        else (some e.value, record c { entries = remove k c.entries ++ (e ∷ []) })
  ]

  -- `_put`
  unfoldable pub put : Text → A → ℕ → Cache A → Cache A
  put k v now c = record c {
    entries =
        evict c.max_entries
          (remove k c.entries ++ (record { key = k; cached_at = now; value = v } ∷ []));
  }

  -- With the lock of the key: look again, then load. `others` is what other tasks do during the load.
  unfoldable pub load_locked :
      Text → ℕ → A → ℕ → (Cache A → Cache A) → Option A → Cache A → A × Cache A
  load_locked k ttl loaded done others (some v) c = (v, c)
  load_locked k ttl loaded done others none c = (loaded, put k loaded done (others c))

  -- After the first look. `before` is what other tasks do until the lock is taken.
  unfoldable pub load :
      Text
      → ℕ
      → A
      → ℕ
      → ℕ
      → (Cache A → Cache A)
      → (Cache A → Cache A)
      → Option A
      → Cache A
      → A × Cache A
  load k ttl loaded locked done before others (some v) c = (v, c)
  load k ttl loaded locked done before others none c =
      let (o, d) = get k ttl locked (before c) in load_locked k ttl loaded done others o d

  -- `now`, `locked` and `done` are the times of the two looks and of the write.
  unfoldable pub get_or_set :
      Text → ℕ → A → ℕ → ℕ → ℕ → (Cache A → Cache A) → (Cache A → Cache A) → Cache A → A × Cache A
  get_or_set k ttl loaded now locked done before others c =
      let (o, d) = get k ttl now c in
      if ttl == 0 then (loaded, c) else load k ttl loaded locked done before others o d

  -- `invalidate_prefix`
  unfoldable pub invalidate_prefix : Text → Cache A → ℕ × Cache A
  invalidate_prefix prefix c = (
    count_if (λ (e : Entry A). starts_with e.key prefix) c.entries,
    record c { entries = keep (λ (e : Entry A). not (starts_with e.key prefix)) c.entries },
  )
