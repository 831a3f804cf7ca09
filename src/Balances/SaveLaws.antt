-- ===== src/Balances/SaveLaws.antt =====
-- What saving a balance leaves behind.
use balance_tracker.Prelude.{
  ℕ, ◌≤◌, ◌<◌, true, false, Option, none, some, List, [], ◌∷◌, Memᴰ, ◌≡◌, ◌⊎◌,
}
use balance_tracker.Prelude.Lists.{any, All}
use balance_tracker.Balances.Integrity.{is_nil}
use balance_tracker.Balances.Repository.{
  StoredAsset, Balance, BalanceHistory, BalanceDb, NewBalance, get_latest_balance, gap, cent,
  same_holding, same_assets, same_accounts,
}

-- Each holding of the first list is one of the second, by coin and amount.
abbrev pub Held : List StoredAsset → List StoredAsset → Type 0
Held xs ys = All (λ x. any (same_holding x) ys ≡ true) xs

-- The report says what the stored balance says: a total within a cent, the same holdings unless none
-- were stored, the same accounts.
abbrev pub Confirms : NewBalance → Balance → Type 0
Confirms r b =
    (gap b.total_usd r.total_usd ≤ cent)
    × ((b.assets ≡ []) ⊎ (Held b.assets r.assets × Held r.assets b.assets))
    × (same_accounts b.accounts r.accounts ≡ true)

-- The report differs: in the total by more than a cent, in the holdings, or in the accounts.
abbrev pub Differs : NewBalance → Balance → Type 0
Differs r b =
    (cent < gap b.total_usd r.total_usd)
    ⊎ ((is_nil b.assets ≡ false) × (same_assets b.assets r.assets ≡ false))
    ⊎ (same_accounts b.accounts r.accounts ≡ false)

-- One entry was added to the history, for this service and integration, with all that was reported.
abbrev pub Logged : ℕ → NewBalance → BalanceDb → BalanceDb → Type 0
Logged now r d d' =
    (h : BalanceHistory) × (d'.history ≡ h ∷ d.history)
    × (h.organization_id ≡ r.organization_id)
    × (h.integration_id ≡ r.integration_id)
    × (h.service ≡ r.service)
    × (h.assets ≡ r.assets)
    × (h.accounts ≡ r.accounts)
    × (h.total_usd ≡ r.total_usd)
    × (h.created_at ≡ now)

-- What became of the latest balance `o` that stood in the table: there was none, or the report
-- differs, and then the balance has the reported total and assets, and the history an entry; or the
-- report confirms it, and then total, assets and history are as before.
abbrev pub Followed : ℕ → NewBalance → Option Balance → BalanceDb → Balance → BalanceDb → Type 0
Followed now r none d b d' =
    (b.id ≡ d.next_balance)
    × (b.organization_id ≡ r.organization_id)
    × (b.integration_id ≡ r.integration_id)
    × (b.service ≡ r.service)
    × (b.total_usd ≡ r.total_usd)
    × (b.assets ≡ r.assets)
    × Logged now r d d'
Followed now r (some old) d b d' =
    (b.id ≡ old.id)
    × ((Differs r old × (b.total_usd ≡ r.total_usd) × (b.assets ≡ r.assets) × Logged now r d d')
        ⊎ (Confirms r old
            × (b.total_usd ≡ old.total_usd)
            × (b.assets ≡ old.assets)
            × (d'.history ≡ d.history)))

-- The balance that is handed out stands in the table, with the reported accounts and flag and the
-- time, and follows the latest balance that stood there.
pub record Saved (now : ℕ) (r : NewBalance) (d : BalanceDb) (b : Balance) (d' : BalanceDb)
    : Type 0 where
  pub stored : Memᴰ b d'.balances
  pub accounts : b.accounts ≡ r.accounts
  pub actual : b.actual ≡ r.actual
  pub updated_at : b.updated_at ≡ now
  pub followed :
      Followed now r (get_latest_balance r.service r.organization_id r.integration_id d) d b d'
