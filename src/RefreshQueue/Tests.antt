-- ===== src/RefreshQueue/Tests.antt =====
-- The queueing of refreshes on a concrete table.
use balance_tracker.Prelude.{true, none, some, []}
use balance_tracker.Prelude.Int.{pos}
use balance_tracker.Prelude.Text.{Text, codes}
use balance_tracker.Json.{Fields}
use balance_tracker.Integration.{Integration}
use balance_tracker.Entitlements.Policy.{Policy, make_policy}
use balance_tracker.SyncJob.Store.{JobStore, SyncSettings}

abbrev settings : SyncSettings
settings = record {
  enable_syncjob_dedupe = true;
  running_timeout_seconds = 900;
  provider_timeout = 120_000_000;
}

abbrev policy : Policy
policy = make_policy (pos 1) (pos 1) (pos 60) true

abbrev digest : Fields → Text
digest d = codes "0"

abbrev bybit : Integration
bybit = record {
  id = 1;
  organization_id = 3;
  provider = codes "ccxt";
  kind = codes "cex";
  exchange_code = some (codes "bybit");
  wallet_address = none;
  chain = none;
  is_active = true;
  last_synced_at = none;
}

abbrev no_jobs : JobStore
no_jobs = record { jobs = []; next_id = 1; enqueued = 0; deduped = 0; recovered = 0 }
