-- ===== src/Notifications/BaselineLaws.antt =====
-- Switching the notifications of transactions on.
use balance_tracker.Prelude.{
  ℕ, ◌<◌, max, Bool, true, false, ◌&&◌, some, List, Memᴰ, ◌≡◌, sym, ap, ◌∙◌, arith, ◌==◌, ltb,
}
use balance_tracker.Prelude.Lists.{keep}
use balance_tracker.Prelude.Rows.{mem-keep, mem_keep}
use balance_tracker.Prelude.Sort.{sort_by, mem-sort_by, mem-take}
use balance_tracker.Prelude.Text.{Text, codes, text_eq}
use balance_tracker.Json.{end, field, text}
use balance_tracker.SyncJob.Key.{show_nat}
use balance_tracker.Transactions.Store.{Transaction}
use balance_tracker.Notifications.Store.{NotificationCursor, NotifyDb}
use balance_tracker.Notifications.Settings.{
  SettingsUpdate, get_or_create_settings, write_settings, get_cursor, read_cursor, max_id,
  transaction_ids, seed_transaction_baseline, update_settings,
}
use balance_tracker.Notifications.Generate.{settled_since}
use balance_tracker.Notifications.CursorLaws.{
  read_cursor-show_nat, upsert_cursor-Holds, upsert_cursor-transactions, max_id_bound,
}

-- A transaction that a run would take up lies after the cursor, and belongs to the organisation.
pub settled_since_sound :
    (limit org last : ℕ) (ts : List Transaction) (t : Transaction)
    → Memᴰ t (settled_since limit org last ts)
    → (last < t.id) × Memᴰ t (keep (λ (t : Transaction). t.organization_id == org) ts)
unfolding settled_since
settled_since_sound limit org last ts t m =
    let p : Transaction → Bool =
      λ t. t.organization_id == org && ltb last t.id && text_eq (codes "ok") t.status in
    let first : Transaction → Transaction → Bool = λ a b. ltb a.id b.id in
    let (k, i) =
      mem-keep p t ts (
        mem-sort_by first t (keep p ts) (mem-take (max 1 limit) t (sort_by first (keep p ts)) m)) in
    (
      ground (arith, k),
      mem_keep (λ (t : Transaction). t.organization_id == org) t ts (ground (arith, k)) i,
    )

seeded_past :
    (isoformat : ℕ → Text) (now org user limit : ℕ) (d : NotifyDb) (c : NotificationCursor)
    (t : Transaction)
    → get_cursor org user
        (codes "transactions")
        (codes "all")
        (seed_transaction_baseline isoformat now org user d).1
      ≡ some c
    → ¬ Memᴰ t (
        settled_since limit org
          (read_cursor c.cursor_value)
          (seed_transaction_baseline isoformat now org user d).1.transactions)
unfolding seed_transaction_baseline
seeded_past isoformat now org user limit d c t h m =
    let top = max_id (transaction_ids org d.transactions) in
    let payload = some (field (codes "seeded_at") (text (isoformat now)) end) in
    let kind = codes "transactions" in
    let value = some (show_nat top) in
    let (c₁, q, v) = upsert_cursor-Holds org user kind (codes "all") value payload d in
    let e : c₁ ≡ c = cc (q, h) in
    let r : read_cursor c.cursor_value ≡ top =
      ap (λ (z : NotificationCursor). read_cursor z.cursor_value) (sym e)
      ∙ ap read_cursor v
      ∙ read_cursor-show_nat top in
    let same = (upsert_cursor-transactions org user kind (codes "all") value payload d).0 in
    let (l, k) =
      settled_since_sound limit org (read_cursor c.cursor_value) d.transactions t (rw same at m) in
    omega (arith, l, r, max_id_bound (λ (t : Transaction). t.id) t _ k)

-- When a user whose notifications of transactions are off switches them on, a run from the cursor
-- that is stored then takes up none of the transactions that are there.
pub update_settings_baseline :
    (isoformat : ℕ → Text) (now org user limit : ℕ) (u : SettingsUpdate) (d : NotifyDb)
    (c : NotificationCursor) (t : Transaction)
    → (get_or_create_settings org user d).0.transaction_enabled ≡ false
    → (update_settings isoformat now org user u d).0.transaction_enabled ≡ true
    → get_cursor org user
        (codes "transactions")
        (codes "all")
        (update_settings isoformat now org user u d).1
      ≡ some c
    → ¬ Memᴰ t (
        settled_since limit org
          (read_cursor c.cursor_value)
          (update_settings isoformat now org user u d).1.transactions)
unfolding update_settings
update_settings_baseline isoformat now org user limit u d c t off on h m =
    seeded_past isoformat now org user limit
      (write_settings u (get_or_create_settings org user d).0 (get_or_create_settings org user d).1)
      c t (rw (on, off) at h) (rw (on, off) at m)
