-- ===== src/Integrations/Tests.antt =====
-- The theorems on integrations on concrete tables.
use balance_tracker.Prelude.{
  true, false, none, some, List, [], ◌∷◌, Memᴰ, ◌≡◌, refl, inr, arith, ltb,
}
use balance_tracker.Prelude.Lists.{any, keep}
use balance_tracker.Prelude.Int.{pos}
use balance_tracker.Prelude.Text.{codes}
use balance_tracker.Entitlements.Policy.{Policy, make_policy}
use balance_tracker.Integrations.Store.{
  IntegrationRow, IntegrationSecret, IntegrationDb, row_numbered,
}
use balance_tracker.Integrations.Service.{NewIntegration, get_integration_secrets_bulk, allowed_ids}
use balance_tracker.Integrations.PlanLaws.{IsPlanned}
use balance_tracker.Integrations.Requests.{Op, run_all, IsWithinTotal, run_all-IsPlanned}
use balance_tracker.Integrations.SecretLaws.{get_integration_secrets_bulk_sound}

abbrev policy : Policy
policy = make_policy (pos 1) (pos 1) (pos 60) true

abbrev account : NewIntegration
account = record {
  provider = codes "ccxt";
  name = codes "main";
  kind = codes "CEX";
  exchange_code = some (codes "Bybit");
  account_ref = some (codes "a");
  wallet_address = none;
  chain = none;
  user_id = some 8;
  api_key = some (codes "k");
  api_secret = some (codes "s");
  api_password = none;
  api_uid = none;
  api_token = none;
}

abbrev no_tables : IntegrationDb
no_tables = record { rows = []; next_id = 1; secrets = [] }

no_tables-IsPlanned : IsPlanned policy 3 no_tables
no_tables-IsPlanned = record {
  within = record {
    cex = inr (omega arith);
    wallets = inr (omega arith);
    exchange = λ c cs. inr (omega arith);
  };
  lower_case = tt;
  unique_id = λ i. omega arith;
  numbered = tt;
}

abbrev requests : List Op
requests =
    Op.create 10 account
    ∷ Op.deactivate 1
    ∷ Op.create 20 account
    ∷ Op.activate 1
    ∷ Op.rename 2 (codes "second")
    ∷ Op.delete 1
    ∷ []

run_all-IsPlanned_example :
    IsPlanned policy 3 (run_all policy 3 requests no_tables)
    × IsWithinTotal policy 3 (run_all policy 3 requests no_tables)
unfolding make_policy
run_all-IsPlanned_example =
    run_all-IsPlanned policy 3 requests no_tables (refl, (tt, (refl, (tt, (tt, (tt, tt))))))
      (omega arith) no_tables-IsPlanned

abbrev row : IntegrationRow
row = record {
  integration = record {
    id = 1;
    organization_id = 3;
    provider = codes "ccxt";
    kind = codes "cex";
    exchange_code = some (codes "bybit");
    wallet_address = none;
    chain = none;
    is_active = true;
    last_synced_at = none;
  };
  name = codes "main";
  account_ref = some (codes "a");
  status = codes "active";
  created_by_user_id = some 8;
  created_at = 10;
}

abbrev key : IntegrationSecret
key = record {
  integration_id = 1;
  key_name = codes "api_key";
  secret_value = codes "k";
  is_encrypted = false;
}

abbrev tables : IntegrationDb
tables = record { rows = row ∷ []; next_id = 2; secrets = key ∷ [] }

handed_out : Memᴰ key (get_integration_secrets_bulk 3 (1 ∷ []) tables)
unfolding get_integration_secrets_bulk allowed_ids
handed_out = Memᴰ.head refl

get_integration_secrets_bulk_sound_example :
    Memᴰ key tables.secrets
    × ((r : IntegrationRow) × Memᴰ r tables.rows
        × (r.integration.id ≡ key.integration_id)
        × (r.integration.organization_id ≡ 3)
        × (any (λ i. row_numbered i r) (keep (ltb 0) (1 ∷ [])) ≡ true))
get_integration_secrets_bulk_sound_example =
    get_integration_secrets_bulk_sound 3 (1 ∷ []) tables key handed_out
