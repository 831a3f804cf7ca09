-- ===== src/Entitlements/Policy.antt =====
-- A plan's policy: the dictionary that `_make_policy` builds and `_resolve_policy` returns, as a
-- record, and the conversions `_safe_int` and `_safe_bool`. Every number of it is at least 0.
use balance_tracker.Prelude.{
  ℕ, ◌+◌, max, Bool, true, false, Option, none, some, ◌||◌, if◌then◌else◌,
}
use balance_tracker.Prelude.Int.{ℤ, pos, negsuc, pos_part}
use balance_tracker.Prelude.Text.{Text, codes, text_eq, strip, lower}
use balance_tracker.Json.{
  Json, null, bool, int, decimal, text, arr, obj, Fields, lookup, truthy, int_of,
}

-- `limit_*` are the entries of "limits", `background_*` and `throttle_*` of "background" and
-- "throttling"; `max_wallets` is also the value of the alias "max_evm_wallets".
pub record Policy : Type 0 where
  pub version : ℕ
  pub allow_dex : Bool
  pub max_integrations : ℕ
  pub max_accounts_per_exchange : ℕ
  pub max_cex_accounts : ℕ
  pub max_wallets : ℕ
  pub limit_refresh : ℕ
  pub background_enabled : Bool
  pub background_refresh : ℕ
  pub throttle_refresh : ℕ
  pub throttle_background : ℕ

-- `_make_policy`; `pos_part z` is `max(0, z)`.
unfoldable pub make_policy : ℤ → ℤ → ℤ → Bool → Policy
make_policy max_cex_accounts max_evm_wallets refresh_interval_seconds allow_dex = record {
  version = 1;
  allow_dex = allow_dex;
  max_integrations = pos_part max_cex_accounts + pos_part max_evm_wallets;
  max_accounts_per_exchange = 0;
  max_cex_accounts = pos_part max_cex_accounts;
  max_wallets = pos_part max_evm_wallets;
  limit_refresh = pos_part refresh_interval_seconds;
  background_enabled = true;
  background_refresh = pos_part refresh_interval_seconds;
  throttle_refresh = pos_part refresh_interval_seconds;
  throttle_background = max 1 (pos_part refresh_interval_seconds);
}

abbrev pub default_policy : Policy
default_policy = make_policy (pos 5) (pos 1) (pos 600) true

-- `_safe_int`
abbrev natural : Option ℤ → ℕ → ℕ
natural (some (pos n)) fallback = n
natural (some (negsuc _)) fallback = fallback
natural none fallback = fallback

unfoldable pub safe_int : Json → ℕ → ℕ
safe_int v fallback = natural (int_of v) fallback

is_yes : Text → Bool
is_yes s =
    text_eq s (codes "1")
    || text_eq s (codes "true")
    || text_eq s (codes "yes")
    || text_eq s (codes "on")

is_no : Text → Bool
is_no s =
    text_eq s (codes "0")
    || text_eq s (codes "false")
    || text_eq s (codes "no")
    || text_eq s (codes "off")

-- `_safe_bool`
unfoldable pub safe_bool : Json → Bool → Bool
unfolding is_yes is_no
safe_bool (bool b) fallback = b
safe_bool (int i) fallback = truthy (int i)
safe_bool (decimal m e) fallback = truthy (decimal m e)
safe_bool (text s) fallback =
    let n = lower (strip s) in if is_yes n then true else if is_no n then false else fallback
safe_bool null fallback = fallback
safe_bool (arr _) fallback = fallback
safe_bool (obj _) fallback = fallback

abbrev int_or : Option Json → ℕ → ℕ
int_or none old = old
int_or (some v) old = safe_int v old

abbrev bool_or : Option Json → Bool → Bool
bool_or none old = old
bool_or (some v) old = safe_bool v old

-- `if k in d: x = safe_int(d.get(k), x)`
unfoldable pub set_int : Text → Fields → ℕ → ℕ
set_int k d old = int_or (lookup k d) old

-- `if k in d: x = safe_bool(d.get(k), x)`
unfoldable pub set_bool : Text → Fields → Bool → Bool
set_bool k d old = bool_or (lookup k d) old
