-- ===== src/Integrations/Service.antt =====
-- The operations of the service, for a policy that is resolved.
use balance_tracker.Prelude.{
  ℕ, ◌+◌, Bool, true, false, ◌&&◌, not, Option, none, some, List, [], ◌∷◌, ◌++◌, map, ltb, ◌==◌,
  if◌then◌else◌,
}
use balance_tracker.Prelude.Lists.{keep, any, find?, update_where}
use balance_tracker.Prelude.Sort.{sort_by}
use balance_tracker.Prelude.Text.{Text, codes, text_eq, strip, lower, is_empty}
use balance_tracker.Entitlements.Policy.{Policy}
use balance_tracker.Entitlements.Limits.{Denial, lowered, ensure_can_create_integration}
use balance_tracker.Integrations.Store.{
  IntegrationRow, IntegrationSecret, IntegrationDb, integrations, row_numbered, breaks_constraint,
}

-- What a request raises: an HTTPException, or the IntegrityError of a constraint.
pub data Refusal : Type 0 where
  denied : Denial → Refusal
  already_exists not_found invalid_name integrity multiple_results : Refusal

pub data Reply (A : Type 0) : Type 0 where
  ok : A → Reply A
  raised : Refusal → Reply A

pub record NewIntegration : Type 0 where
  pub provider : Text
  pub name : Text
  pub kind : Text
  pub exchange_code : Option Text
  pub account_ref : Option Text
  pub wallet_address : Option Text
  pub chain : Option Text
  pub user_id : Option ℕ
  pub api_key : Option Text
  pub api_secret : Option Text
  pub api_password : Option Text
  pub api_uid : Option Text
  pub api_token : Option Text

-- `column == value`, where a value of None asks for NULL.
abbrev pub column_equals : Option Text → Option Text → Bool
column_equals none none = true
column_equals none (some v) = false
column_equals (some c) none = false
column_equals (some c) (some v) = text_eq v c

-- The predicates of the duplicate query.
unfoldable pub is_duplicate : ℕ → NewIntegration → IntegrationRow → Bool
is_duplicate org r x =
    let i = x.integration in
    i.organization_id == org
    && i.is_active
    && text_eq (lower r.kind) i.kind
    && (if text_eq (lower r.kind) (codes "cex")
        then column_equals i.exchange_code (lowered r.exchange_code)
          && column_equals x.account_ref r.account_ref
        else column_equals i.wallet_address r.wallet_address
          && column_equals i.chain (lowered r.chain))

unfoldable pub new_row : ℕ → ℕ → ℕ → NewIntegration → IntegrationRow
new_row id org now r = record {
  integration = record {
    id = id;
    organization_id = org;
    provider = strip (lower r.provider);
    kind = lower r.kind;
    exchange_code = lowered r.exchange_code;
    wallet_address = r.wallet_address;
    chain = lowered r.chain;
    is_active = true;
    last_synced_at = none;
  };
  name = r.name;
  account_ref = r.account_ref;
  status = codes "active";
  created_by_user_id = r.user_id;
  created_at = now;
}

abbrev pub text_or_empty : Option Text → Text
text_or_empty none = []
text_or_empty (some s) = s

-- One turn of the loop over `secret_pairs`.
unfoldable pub secret : ℕ → Text → Option Text → List IntegrationSecret
secret id key value =
    let v = strip (text_or_empty value) in
    if is_empty v
    then []
    else record { integration_id = id; key_name = key; secret_value = v; is_encrypted = false } ∷ []

unfoldable pub new_secrets : ℕ → NewIntegration → List IntegrationSecret
unfolding secret
new_secrets id r =
    secret id (codes "api_key") r.api_key
    ++ (secret id (codes "api_secret") r.api_secret
        ++ (secret id (codes "api_password") r.api_password
            ++ (secret id (codes "api_uid") r.api_uid
                ++ secret id (codes "api_token") r.api_token)))

abbrev pub Answer : Type 0
Answer = Reply IntegrationRow × IntegrationDb

-- The flush of the new row, its secrets and the commit.
unfoldable pub insert_integration : IntegrationRow → List IntegrationSecret → IntegrationDb → Answer
insert_integration x secrets d = if breaks_constraint x d.rows then (raised integrity, d) else (
  ok x,
  record { rows = x ∷ d.rows; next_id = d.next_id + 1; secrets = secrets ++ d.secrets },
)

unfoldable pub create_checked :
    ℕ → ℕ → NewIntegration → Option Denial → List IntegrationRow → IntegrationDb → Answer
unfolding insert_integration new_row new_secrets
create_checked org now r (some e) same d = (raised (denied e), d)
create_checked org now r none [] d =
    insert_integration (new_row d.next_id org now r) (new_secrets d.next_id r) d
create_checked org now r none (x ∷ []) d = (raised already_exists, d)
create_checked org now r none (x ∷ y ∷ xs) d = (raised multiple_results, d)

unfoldable pub create_integration : Policy → ℕ → ℕ → NewIntegration → IntegrationDb → Answer
unfolding create_checked is_duplicate ensure_can_create_integration
create_integration p org now r d =
    create_checked org now r
      (ensure_can_create_integration p org (some (lower r.kind)) (lowered r.exchange_code)
        (integrations d))
      (keep (is_duplicate org r) d.rows) d

abbrev pub own_row : ℕ → ℕ → IntegrationRow → Bool
own_row org i r = row_numbered i r && r.integration.organization_id == org

unfoldable pub get_integration : ℕ → ℕ → IntegrationDb → Option IntegrationRow
get_integration org i d = find? (own_row org i) d.rows

abbrev pub is_listed_row : ℕ → Bool → IntegrationRow → Bool
is_listed_row org include_inactive r =
    r.integration.organization_id == org
    && (if include_inactive then true else r.integration.is_active)

unfoldable pub list_integrations : ℕ → Bool → IntegrationDb → List IntegrationRow
list_integrations org include_inactive d =
    sort_by (λ (a b : IntegrationRow). ltb b.created_at a.created_at)
      (keep (is_listed_row org include_inactive) d.rows)

-- The commit of a changed row.
unfoldable pub commit_row : IntegrationRow → IntegrationDb → Answer
commit_row x d =
    if breaks_constraint x d.rows
    then (raised integrity, d)
    else (ok x, record d { rows = update_where (row_numbered x.integration.id) (λ _. x) d.rows })

-- A row that was looked up goes on; a missing one is a 404.
unfoldable pub with_row :
    Option IntegrationRow → (IntegrationRow → IntegrationDb → Answer) → IntegrationDb → Answer
with_row none k d = (raised not_found, d)
with_row (some x) k d = k x d

unfoldable pub update_integration : ℕ → ℕ → Text → IntegrationDb → Answer
unfolding get_integration with_row
update_integration org i name d =
    if is_empty (strip name)
    then (raised invalid_name, d)
    else with_row (get_integration org i d)
        (λ x d. (
          ok (record x { name = strip name }),
          record d {
            rows = update_where (row_numbered i) (λ _. record x { name = strip name }) d.rows;
          },
        ))
        d

abbrev pub switched : Bool → Text → IntegrationRow → IntegrationRow
switched active status x = record x {
  integration = record x.integration { is_active = active };
  status = status;
}

unfoldable pub deactivate_integration : ℕ → ℕ → IntegrationDb → Answer
unfolding get_integration with_row commit_row
deactivate_integration org i d =
    with_row (get_integration org i d) (λ x. commit_row (switched false (codes "inactive") x)) d

unfoldable pub activate_checked : Option Denial → IntegrationRow → IntegrationDb → Answer
unfolding commit_row
activate_checked (some e) x d = (raised (denied e), d)
activate_checked none x d = commit_row (switched true (codes "active") x) d

-- An integration that is active already is not checked against the plan.
unfoldable pub activation_check : Policy → ℕ → IntegrationRow → IntegrationDb → Option Denial
unfolding ensure_can_create_integration
activation_check p org x d =
    if x.integration.is_active
    then none
    else ensure_can_create_integration p org (some x.integration.kind) x.integration.exchange_code
        (integrations d)

unfoldable pub activate_integration : Policy → ℕ → ℕ → IntegrationDb → Answer
unfolding get_integration with_row activate_checked activation_check
activate_integration p org i d =
    with_row (get_integration org i d) (λ x d. activate_checked (activation_check p org x d) x d) d

abbrev pub secret_of : ℕ → IntegrationSecret → Bool
secret_of i s = s.integration_id == i

unfoldable pub delete_integration : ℕ → ℕ → IntegrationDb → Answer
unfolding get_integration with_row
delete_integration org i d =
    with_row (get_integration org i d)
      (λ x d. (
        ok x,
        record d {
          rows = keep (λ r. not (row_numbered x.integration.id r)) d.rows;
          secrets = keep (λ s. not (secret_of x.integration.id s)) d.secrets;
        },
      ))
      d

-- The integrations among `ids` that belong to the organisation.
unfoldable pub allowed_ids : ℕ → List ℕ → IntegrationDb → List ℕ
allowed_ids org ids d =
    map (λ (r : IntegrationRow). r.integration.id)
      (keep (λ r. r.integration.organization_id == org && any (λ i. row_numbered i r) ids) d.rows)

-- The rows that `get_integration_secrets_bulk` groups by integration; ids start at 1.
unfoldable pub get_integration_secrets_bulk : ℕ → List ℕ → IntegrationDb → List IntegrationSecret
unfolding allowed_ids
get_integration_secrets_bulk org ids d =
    keep (λ s. any (λ i. secret_of i s) (allowed_ids org (keep (ltb 0) ids) d)) d.secrets

unfoldable pub get_integration_secrets : ℕ → ℕ → IntegrationDb → List IntegrationSecret
unfolding get_integration_secrets_bulk
get_integration_secrets org i d = get_integration_secrets_bulk org (i ∷ []) d
