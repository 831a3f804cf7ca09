-- ===== src/Integrations/SecretLaws.antt =====
-- Whose secrets are handed out.
use balance_tracker.Prelude.{
  ℕ, Bool, true, ◌&&◌, List, [], ◌∷◌, map, Memᴰ, ◌≡◌, refl, inl, inr, arith, Bool-cases, ltb, ◌==◌,
}
use balance_tracker.Prelude.Lists.{keep, any}
use balance_tracker.Prelude.Rows.{mem-keep}
use balance_tracker.Integrations.Store.{
  IntegrationRow, IntegrationSecret, IntegrationDb, row_numbered,
}
use balance_tracker.Integrations.Service.{secret_of, allowed_ids, get_integration_secrets_bulk}

id_in :
    (s : IntegrationSecret) (rows : List IntegrationRow)
    → any (λ i. secret_of i s) (map (λ (r : IntegrationRow). r.integration.id) rows) ≡ true
    → (r : IntegrationRow) × Memᴰ r rows × (r.integration.id ≡ s.integration_id)
id_in s [] h = cc
id_in s (r ∷ rows) h = elim (Bool-cases (secret_of r.integration.id s)) [
  | inl e ↦ (r, Memᴰ.head refl, ground arith)
  | inr e ↦ let (x, m, q) = id_in s rows (rw e at h) in (x, Memᴰ.tail m, q)
]

-- A secret that is handed out is one of the table, and belongs to an integration of the
-- organisation that asked, among those that were asked for.
pub get_integration_secrets_bulk_sound :
    (org : ℕ) (ids : List ℕ) (d : IntegrationDb) (s : IntegrationSecret)
    → Memᴰ s (get_integration_secrets_bulk org ids d)
    → Memᴰ s d.secrets
      × ((r : IntegrationRow) × Memᴰ r d.rows
          × (r.integration.id ≡ s.integration_id)
          × (r.integration.organization_id ≡ org)
          × (any (λ i. row_numbered i r) (keep (ltb 0) ids) ≡ true))
unfolding get_integration_secrets_bulk allowed_ids
get_integration_secrets_bulk_sound org ids d s m =
    let mine : IntegrationRow → Bool =
      λ r. r.integration.organization_id == org && any (λ i. row_numbered i r) (keep (ltb 0) ids) in
    let asked : IntegrationSecret → Bool = λ s.
      any (λ i. secret_of i s)
        (map (λ (r : IntegrationRow). r.integration.id) (keep mine d.rows)) in
    let (a, k) = mem-keep asked s d.secrets m in
    let (r, i, q) = id_in s (keep mine d.rows) a in
    let (b, j) = mem-keep mine r d.rows i in (k, (r, j, q, ground arith, ground arith))
