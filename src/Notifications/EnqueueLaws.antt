-- ===== src/Notifications/EnqueueLaws.antt =====
-- What adding an event does to the tables when no other session interferes.
use balance_tracker.Prelude.{ℕ, Bool, true, false, Option, none, some, ◌≡◌, refl, ◌∙◌, arith}
use balance_tracker.Prelude.Lists.{any, length, find?-none-any, find?_sound}
use balance_tracker.Prelude.Rows.{any_of_mem, find?-mem}
use balance_tracker.Prelude.Text.{Text, text_eq_refl}
use balance_tracker.Notifications.Store.{NotificationEvent, NotifyDb, event_keyed}
use balance_tracker.Notifications.Events.{
  EventRequest, new_event, insert_event, enqueue_found, enqueue_event, get_event_by_dedupe_key,
}
use balance_tracker.Notifications.Generate.{alone, count_created}

-- The tables beside the events stay, and so do the events.
pub record Frame (d d' : NotifyDb) : Type 0 where
  pub cursors : d'.cursors ≡ d.cursors
  pub transactions : d'.transactions ≡ d.transactions
  pub statuses : d'.statuses ≡ d.statuses
  pub keyed :
      (org user : ℕ) (key : Text)
      → any (event_keyed org user key) d.events ≡ true
      → any (event_keyed org user key) d'.events ≡ true

pub Frame-refl : (d : NotifyDb) → Frame d d
Frame-refl d = record {
  cursors = refl;
  transactions = refl;
  statuses = refl;
  keyed = λ org user key h. h;
}

pub Frame-trans : (a b c : NotifyDb) → Frame a b → Frame b c → Frame a c
Frame-trans a b c h k = record {
  cursors = k.cursors ∙ h.cursors;
  transactions = k.transactions ∙ h.transactions;
  statuses = k.statuses ∙ h.statuses;
  keyed = λ org user key x. k.keyed org user key (h.keyed org user key x);
}

-- An event under the request's key.
abbrev pub IsKept : EventRequest → NotifyDb → Type 0
IsKept r d = any (event_keyed r.organization_id r.user_id r.dedupe_key) d.events ≡ true

pub record Added (r : EventRequest) (d d' : NotifyDb) (created : Bool) : Type 0 where
  pub frame : Frame d d'
  pub kept : IsKept r d'
  pub grown : length d'.events ≡ count_created created (length d.events)

new_event_keyed :
    (i now : ℕ) (r : EventRequest)
    → event_keyed r.organization_id r.user_id r.dedupe_key (new_event i now r) ≡ true
unfolding new_event
new_event_keyed i now r = ground (arith, text_eq_refl r.dedupe_key)

insert_event-Added :
    (now : ℕ) (r : EventRequest) (d : NotifyDb)
    → Added r d (insert_event (new_event d.next_event now r) d) true
insert_event-Added now r d = record {
  frame = record {
    cursors = refl;
    transactions = refl;
    statuses = refl;
    keyed = λ org user key h. ground arith;
  };
  kept = rw (new_event_keyed d.next_event now r) refl;
  grown = refl;
}

enqueue_found-Added :
    (now : ℕ) (r : EventRequest) (o : Option NotificationEvent) (d : NotifyDb)
    → get_event_by_dedupe_key r.organization_id r.user_id r.dedupe_key d ≡ o
    → (e : NotificationEvent × Bool) × ((enqueue_found now alone r o d).0 ≡ some e)
      × Added r d (enqueue_found now alone r o d).1 e.1
unfolding enqueue_found get_event_by_dedupe_key
enqueue_found-Added now r (some e) d h = (
  (e, false),
  refl,
  record {
    frame = Frame-refl d;
    kept =
        let p = event_keyed r.organization_id r.user_id r.dedupe_key in
        any_of_mem p e d.events (find?_sound p d.events e h) (find?-mem p d.events e h);
    grown = refl;
  },
)
enqueue_found-Added now r none d h =
    let e = find?-none-any (event_keyed r.organization_id r.user_id r.dedupe_key) d.events h in
    ((new_event d.next_event now r, true), rw e refl, rw e (insert_event-Added now r d))

-- An event is always handed out, and it is in the table.
pub enqueue_event-Added :
    (now : ℕ) (r : EventRequest) (d : NotifyDb)
    → (e : NotificationEvent × Bool) × ((enqueue_event now alone r d).0 ≡ some e)
      × Added r d (enqueue_event now alone r d).1 e.1
unfolding enqueue_event
enqueue_event-Added now r d =
    enqueue_found-Added now r (get_event_by_dedupe_key r.organization_id r.user_id r.dedupe_key d) d
      refl
