-- ===== src/Notifications/CursorLaws.antt =====
-- Writing and reading cursors.
use balance_tracker.Prelude.{
  ℕ, ◌≤◌, Option, none, some, List, [], ◌∷◌, map, Memᴰ, ◌≡◌, refl, ap, ◌∙◌, arith, ==_refl,
  if◌then◌else◌, or_else,
}
use balance_tracker.Prelude.Lists.{find?_sound}
use balance_tracker.Prelude.Rows.{find?-update_where}
use balance_tracker.Prelude.Text.{Text, text_eq_refl}
use balance_tracker.Json.{Fields, end}
use balance_tracker.Json.Digits.{parse_int_digits}
use balance_tracker.SyncJob.Key.{show_nat}
use balance_tracker.SyncJob.Key.Distinct.{read-show_nat, show_nat-IsDigit, show_nat_nonempty}
use balance_tracker.Notifications.Store.{NotificationCursor, NotifyDb, cursor_at}
use balance_tracker.Notifications.Settings.{
  get_cursor, upsert_cursor, upsert_found, moved, read_cursor, max_id,
}

-- The number that a cursor holds is the one that was written to it.
pub read_cursor-show_nat : (n : ℕ) → read_cursor (some (show_nat n)) ≡ n
unfolding read_cursor
read_cursor-show_nat n =
    rw
      (
        show_nat_nonempty n,
        parse_int_digits (show_nat n) (show_nat-IsDigit n) (show_nat_nonempty n),
      )
      (read-show_nat n)

module _ (org user : ℕ) (kind source : Text) (value : Option Text) (payload : Option Fields) where
  -- A cursor with that value, found under its key.
  abbrev pub Holds : NotifyDb → Type 0
  Holds d =
      (c : NotificationCursor) × (get_cursor org user kind source d ≡ some c)
      × (c.cursor_value ≡ value)

  moved_at :
      (c : NotificationCursor)
      → cursor_at org user kind source (moved value payload c) ≡ cursor_at org user kind source c
  moved_at c = refl

  upsert_found-Holds :
      (o : Option NotificationCursor) (d : NotifyDb)
      → get_cursor org user kind source d ≡ o
      → Holds (upsert_found org user kind source value payload o d)
  unfolding upsert_found get_cursor
  upsert_found-Holds none d h = (
    record {
      organization_id = org;
      user_id = user;
      cursor_type = kind;
      source_key = source;
      cursor_value = value;
      payload = or_else payload end;
    },
    rw (==_refl org, ==_refl user, text_eq_refl kind, text_eq_refl source) refl,
    refl,
  )
  upsert_found-Holds (some c) d h =
      let p = cursor_at org user kind source in
      let e = find?_sound p d.cursors c h in
      (
        moved value payload c,
        find?-update_where p p (moved value payload) d.cursors c moved_at h
            ∙ ap (λ b. some (if b then moved value payload c else c)) e,
        refl,
      )

  pub upsert_cursor-Holds :
      (d : NotifyDb) → Holds (upsert_cursor org user kind source value payload d)
  unfolding upsert_cursor
  upsert_cursor-Holds d = upsert_found-Holds (get_cursor org user kind source d) d refl

  pub upsert_cursor-transactions :
      (d : NotifyDb)
      → ((upsert_cursor org user kind source value payload d).transactions ≡ d.transactions)
        × ((upsert_cursor org user kind source value payload d).events ≡ d.events)
  unfolding upsert_cursor
  upsert_cursor-transactions d = found (get_cursor org user kind source d)
    where
      found :
          (o : Option NotificationCursor)
          → ((upsert_found org user kind source value payload o d).transactions ≡ d.transactions)
            × ((upsert_found org user kind source value payload o d).events ≡ d.events)
      found none = (refl, refl)
      found (some c) = (refl, refl)

-- The largest number is none of those that are missing.
pub max_id_bound {ℓ} :
    {A : Type ℓ} (f : A → ℕ) (a : A) (xs : List A) → Memᴰ a xs → f a ≤ max_id (map f xs)
max_id_bound f a [] m = elim m [ ]
max_id_bound f a (x ∷ xs) (Memᴰ.head q) = omega (arith, ap f q)
max_id_bound f a (x ∷ xs) (Memᴰ.tail m) = omega (arith, max_id_bound f a xs m)
