-- ===== src/Integrations/Store.antt =====
-- The rows of `integrations` and `integration_secrets`, and the unique constraints.
use balance_tracker.Prelude.{
  ℕ, Bool, true, false, ◌&&◌, ◌||◌, not, Option, none, some, List, map, ◌==◌,
}
use balance_tracker.Prelude.Lists.{any}
use balance_tracker.Prelude.Text.{Text, text_eq}
use balance_tracker.Integration.{Integration}

-- `integration` holds the columns that the other components read.
pub record IntegrationRow : Type 0 where
  pub integration : Integration
  pub name : Text
  pub account_ref : Option Text
  pub status : Text
  pub created_by_user_id : Option ℕ
  pub created_at : ℕ

pub record IntegrationSecret : Type 0 where
  pub integration_id : ℕ
  pub key_name : Text
  pub secret_value : Text
  pub is_encrypted : Bool

pub record IntegrationDb : Type 0 where
  pub rows : List IntegrationRow
  pub next_id : ℕ
  pub secrets : List IntegrationSecret

abbrev pub integrations : IntegrationDb → List Integration
integrations d = map (λ (r : IntegrationRow). r.integration) d.rows

-- Equality in a unique constraint, or of a column with a parameter: NULL equals nothing.
abbrev pub same_column : Option Text → Option Text → Bool
same_column none b = false
same_column (some a) none = false
same_column (some a) (some b) = text_eq a b

abbrev pub same_flag : Bool → Bool → Bool
same_flag true b = b
same_flag false b = not b

-- The two unique constraints; both hold for active and for inactive rows.
unfoldable pub collides : IntegrationRow → IntegrationRow → Bool
collides r x =
    x.integration.organization_id == r.integration.organization_id
    && text_eq r.integration.kind x.integration.kind
    && same_flag r.integration.is_active x.integration.is_active
    && ((same_column r.integration.exchange_code x.integration.exchange_code
          && same_column r.account_ref x.account_ref)
        || (same_column r.integration.wallet_address x.integration.wallet_address
            && same_column r.integration.chain x.integration.chain))

abbrev pub row_numbered : ℕ → IntegrationRow → Bool
row_numbered i r = r.integration.id == i

-- Whether another row stands in the way of a new or changed one.
unfoldable pub breaks_constraint : IntegrationRow → List IntegrationRow → Bool
unfolding collides
breaks_constraint r rows = any (λ x. not (row_numbered r.integration.id x) && collides r x) rows
