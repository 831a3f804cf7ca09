-- ===== src/RefreshQueue/Laws.antt =====
-- The jobs of an organisation's integrations.
use balance_tracker.Prelude.{ℕ, ◌≡◌, true, Option, some, List, Memᴰ}
use balance_tracker.Prelude.Lists.{any, length}
use balance_tracker.Prelude.Text.{Text}
use balance_tracker.Json.{Fields}
use balance_tracker.Integration.{Integration}
use balance_tracker.Entitlements.Policy.{Policy}
use balance_tracker.SyncJob.Store.{Job, JobStore, SyncSettings, holds_key}
use balance_tracker.SyncJob.Dedupe.{key_of}
use balance_tracker.SyncJob.Invariant.{IsValid}
use balance_tracker.RefreshQueue.{refresh_request}

-- An active job for the refresh of an integration.
pub IsRequested : (Fields → Text) → ℕ → Option Fields → Integration → JobStore → Type 0
IsRequested fingerprint org payload i s =
    any (holds_key (key_of fingerprint (refresh_request org i.id payload))) s.jobs ≡ true

module _ (cfg : SyncSettings) (fingerprint : Fields → Text) (now org : ℕ) (payload : Option Fields)
    (on : cfg.enable_syncjob_dedupe ≡ true) where
  -- What a run over integrations leaves behind.
  record Run (is : List Integration) (s : JobStore) (r : Option (List Job) × JobStore)
      (js : List Job) : Type 0 where
    result : r.0 ≡ some js
    counts : length js ≡ length is
    requested : (i : Integration) → Memᴰ i is → IsRequested fingerprint org payload i r.1
    keeps : (k : Text) → any (holds_key k) s.jobs ≡ true → any (holds_key k) r.1.jobs ≡ true
    valid : IsValid s → IsValid r.1
