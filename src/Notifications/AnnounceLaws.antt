-- ===== src/Notifications/AnnounceLaws.antt =====
-- The events of transactions over one run and the next.
use balance_tracker.Prelude.{
  ℕ, ◌+◌, max, Bool, true, false, some, List, [], ◌∷◌, Memᴰ, ◌≡◌, refl, sym, ap, ◌∙◌, subst, inl,
  inr, arith, Bool-cases, ◌==◌,
}
use balance_tracker.Prelude.Lists.{any, length}
use balance_tracker.Prelude.Text.{Text, codes}
use balance_tracker.Json.{end, field, text}
use balance_tracker.SyncJob.Key.{show_nat}
use balance_tracker.Transactions.Store.{Transaction}
use balance_tracker.Notifications.Store.{
  NotificationSetting, NotificationCursor, NotifyDb, event_keyed,
}
use balance_tracker.Notifications.Events.{enqueue_event}
use balance_tracker.Notifications.Settings.{get_cursor, read_cursor, max_id}
use balance_tracker.Notifications.Generate.{
  Format, alone, count_created, transaction_key, transaction_request, is_announced, announce_each,
  settled_since, seen_ids, move_cursor, announce_since, transaction_events_at,
  transaction_events_for,
}
use balance_tracker.Notifications.EnqueueLaws.{
  Frame, Frame-refl, Frame-trans, IsKept, Added, enqueue_event-Added,
}
use balance_tracker.Notifications.BaselineLaws.{settled_since_sound}
use balance_tracker.Notifications.CursorLaws.{
  read_cursor-show_nat, upsert_cursor-Holds, upsert_cursor-transactions, max_id_bound,
}

-- The user has an event about the transaction.
pub IsTold : NotificationSetting → Transaction → NotifyDb → Type 0
IsTold s t d = any (event_keyed s.organization_id s.user_id (transaction_key t)) d.events ≡ true

-- What a run over transactions leaves behind: every one that is to be announced has its event, and
-- the result counts the new events.
pub record Announced (s : NotificationSetting) (ts : List Transaction) (n m : ℕ) (d d' : NotifyDb)
    : Type 0 where
  pub frame : Frame d d'
  pub told : (t : Transaction) → Memᴰ t ts → is_announced s d.statuses t ≡ true → IsTold s t d'
  pub grown : length d'.events + n ≡ length d.events + m

request-IsTold :
    (fmt : Format) (s : NotificationSetting) (t : Transaction) (d : NotifyDb)
    → IsKept (transaction_request fmt s t) d
    → IsTold s t d
unfolding transaction_request IsTold
request-IsTold fmt s t d h = h

grown_by :
    (x y z n m : ℕ) (b : Bool)
    → y ≡ count_created b x
    → z + count_created b n ≡ y + m
    → z + n ≡ x + m
grown_by x y z n m true p q = omega arith
grown_by x y z n m false p q = omega arith

after_skip :
    (s : NotificationSetting) (t : Transaction) (ts : List Transaction) (n m : ℕ) (d d' : NotifyDb)
    → is_announced s d.statuses t ≡ false
    → Announced s ts n m d d'
    → Announced s (t ∷ ts) n m d d'
after_skip s t ts n m d d' a h = record {
  frame = h.frame;
  told = λ u k w. elim k [
    | Memᴰ.head q ↦ cc (a, w, ap (is_announced s d.statuses) q)
    | Memᴰ.tail r ↦ h.told u r w
  ];
  grown = h.grown;
}

after_turn :
    (fmt : Format) (s : NotificationSetting) (t : Transaction) (ts : List Transaction) (b : Bool)
    (n m : ℕ) (d d₁ d' : NotifyDb)
    → Added (transaction_request fmt s t) d d₁ b
    → Announced s ts (count_created b n) m d₁ d'
    → Announced s (t ∷ ts) n m d d'
unfolding IsTold
after_turn fmt s t ts b n m d d₁ d' h k = record {
  frame = Frame-trans d d₁ d' h.frame k.frame;
  told = λ u i w. elim i [
    | Memᴰ.head q ↦
        subst (λ v. IsTold s v d') (sym q)
          (k.frame.keyed s.organization_id s.user_id (transaction_key t)
            (request-IsTold fmt s t d₁ h.kept))
    | Memᴰ.tail r ↦ k.told u r (subst (λ z. is_announced s z u ≡ true) (sym h.frame.statuses) w)
  ];
  grown = grown_by (length d.events) (length d₁.events) (length d'.events) n m b h.grown k.grown;
}

announce_each-Announced :
    (fmt : Format) (now : ℕ) (s : NotificationSetting) (ts : List Transaction) (n : ℕ)
    (d : NotifyDb)
    → (m : ℕ) × ((announce_each fmt now s ts n d).0 ≡ some m)
      × Announced s ts n m d (announce_each fmt now s ts n d).1
unfolding announce_each IsTold
announce_each-Announced fmt now s [] n d =
    (n, refl, record { frame = Frame-refl d; told = λ t m. elim m [ ]; grown = refl })
announce_each-Announced fmt now s (t ∷ ts) n d = elim (Bool-cases (is_announced s d.statuses t)) [
  | inl a ↦
      let (e, q, added) = enqueue_event-Added now (transaction_request fmt s t) d in
      let d₁ = (enqueue_event now alone (transaction_request fmt s t) d).1 in
      let (m, r, rest) = announce_each-Announced fmt now s ts (count_created e.1 n) d₁ in
      (
        m,
        rw (a, q, announce_each) r,
        rw (a, q, announce_each) (after_turn fmt s t ts e.1 n m d d₁ _ added rest),
      )
  | inr a ↦
      let (m, r, rest) = announce_each-Announced fmt now s ts n d in
      (m, rw (a, announce_each) r, rw (a, announce_each) (after_skip s t ts n m d _ a rest))
]

move_cursor_lem :
    (fmt : Format) (now : ℕ) (s : NotificationSetting) (kind source : Text) (seen : ℕ)
    (d : NotifyDb) (c : NotificationCursor)
    → get_cursor s.organization_id s.user_id kind source d ≡ some c
    → (c' : NotificationCursor) × (get_cursor s.organization_id s.user_id kind source
          (move_cursor fmt now s kind source (read_cursor c.cursor_value) seen d)
        ≡ some c')
      × (read_cursor c'.cursor_value ≡ seen)
unfolding move_cursor
move_cursor_lem fmt now s kind source seen d c h =
    elim (Bool-cases (seen == read_cursor c.cursor_value)) [
      | inl e ↦ (c, rw e h, ground arith)
      | inr e ↦
          let (c', q, v) =
            upsert_cursor-Holds s.organization_id s.user_id kind source (some (show_nat seen))
              (some (field (codes "updated_at") (text (fmt.isoformat now)) end)) d in
          (c', rw e q, ap read_cursor v ∙ read_cursor-show_nat seen)
    ]

-- What a run for a user leaves behind: each settled transaction that it took up and that is to be
-- announced has its event, the result counts the new events, and the cursor stands at the last
-- transaction that was taken up.
pub record Told (s : NotificationSetting) (limit last n m : ℕ) (d d' : NotifyDb)
    (c' : NotificationCursor) : Type 0 where
  pub told :
      (t : Transaction)
      → Memᴰ t (settled_since limit s.organization_id last d.transactions)
      → is_announced s d.statuses t ≡ true
      → IsTold s t d'
  pub grown : length d'.events + n ≡ length d.events + m
  pub cursor :
      get_cursor s.organization_id s.user_id (codes "transactions") (codes "all") d' ≡ some c'
  pub position :
      read_cursor c'.cursor_value
      ≡ max last (max_id (seen_ids (settled_since limit s.organization_id last d.transactions)))

move_cursor-events :
    (fmt : Format) (now : ℕ) (s : NotificationSetting) (kind source : Text) (last seen : ℕ)
    (d : NotifyDb)
    → (move_cursor fmt now s kind source last seen d).events ≡ d.events
unfolding move_cursor
move_cursor-events fmt now s kind source last seen d = elim (Bool-cases (seen == last)) [
  | inl e ↦ rw e refl
  | inr e ↦
      rw e
        (upsert_cursor-transactions s.organization_id s.user_id kind source (some (show_nat seen))
          (some (field (codes "updated_at") (text (fmt.isoformat now)) end)) d).1
]

announce_since_lem :
    (fmt : Format) (limit now : ℕ) (s : NotificationSetting) (n : ℕ) (d : NotifyDb)
    (c : NotificationCursor)
    → get_cursor s.organization_id s.user_id (codes "transactions") (codes "all") d ≡ some c
    → (m : ℕ) × (c' : NotificationCursor) × ((announce_since fmt limit now s
          (read_cursor c.cursor_value)
          n
          d).0
        ≡ some m)
      × Told s limit
          (read_cursor c.cursor_value)
          n
          m
          d
          (announce_since fmt limit now s (read_cursor c.cursor_value) n d).1
          c'
unfolding announce_since get_cursor IsTold
announce_since_lem fmt limit now s n d c h =
    let last = read_cursor c.cursor_value in
    let ts = settled_since limit s.organization_id last d.transactions in
    let seen = max last (max_id (seen_ids ts)) in
    let (m, q, a) = announce_each-Announced fmt now s ts n d in
    let d' = (announce_each fmt now s ts n d).1 in
    let (c', g, v) =
      move_cursor_lem fmt now s (codes "transactions") (codes "all") seen d' c
        (rw a.frame.cursors h) in
    let e = move_cursor-events fmt now s (codes "transactions") (codes "all") last seen d' in
    (
      m,
      c',
      rw (q, announce_since) refl,
      rw (q, announce_since)
          (record {
            told = λ t i w. rw e (a.told t i w);
            grown = rw e a.grown;
            cursor = g;
            position = v;
          }),
    )

-- For a user with a cursor the run returns; each settled transaction that it takes up and that is
-- to be announced then has its event, the result counts the new events, and the cursor stands at
-- the last transaction taken up.
pub transaction_events_for_lem :
    (fmt : Format) (limit now : ℕ) (s : NotificationSetting) (n : ℕ) (d : NotifyDb)
    (c : NotificationCursor)
    → get_cursor s.organization_id s.user_id (codes "transactions") (codes "all") d ≡ some c
    → (m : ℕ) × (c' : NotificationCursor) × ((transaction_events_for fmt limit now s n d).0
        ≡ some m)
      × Told s limit
          (read_cursor c.cursor_value)
          n
          m
          d
          (transaction_events_for fmt limit now s n d).1
          c'
unfolding transaction_events_for transaction_events_at
transaction_events_for_lem fmt limit now s n d c h =
    rw h (announce_since_lem fmt limit now s n d c h)

-- A transaction that a run for a user took up is not taken up by the next run, which starts from
-- the cursor that the first one left.
pub transaction_events_for_once :
    (fmt : Format) (limit limit' now : ℕ) (s : NotificationSetting) (n : ℕ) (d : NotifyDb)
    (c c' : NotificationCursor) (t : Transaction)
    → get_cursor s.organization_id s.user_id (codes "transactions") (codes "all") d ≡ some c
    → get_cursor s.organization_id s.user_id
        (codes "transactions")
        (codes "all")
        (transaction_events_for fmt limit now s n d).1
      ≡ some c'
    → Memᴰ t (settled_since limit s.organization_id (read_cursor c.cursor_value) d.transactions)
    → ¬ Memᴰ t (
        settled_since limit' s.organization_id
          (read_cursor c'.cursor_value)
          (transaction_events_for fmt limit now s n d).1.transactions)
transaction_events_for_once fmt limit limit' now s n d c c' t h h' m k =
    let (x, c₁, q, told) = transaction_events_for_lem fmt limit now s n d c h in
    let e : c₁ ≡ c' = cc (told.cursor, h') in
    let b = max_id_bound (λ (t : Transaction). t.id) t _ m in
    let l = (settled_since_sound limit' s.organization_id (read_cursor c'.cursor_value) _ t k).0 in
    omega
      (arith, told.position, ap (λ (z : NotificationCursor). read_cursor z.cursor_value) e, b, l)
