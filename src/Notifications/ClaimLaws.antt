-- ===== src/Notifications/ClaimLaws.antt =====
-- Handing events out to the dispatcher, over any sequence of calls.
use balance_tracker.Prelude.{
  ℕ, ◌<◌, Bool, true, false, ◌&&◌, Option, none, some, List, [], ◌∷◌, Memᴰ, ◌≡◌, ◌≢◌, refl, ap, ◌∙◌,
  inl, inr, arith, Bool-cases, ◌==◌,
}
use balance_tracker.Prelude.Lists.{keep, any, update_where, All}
use balance_tracker.Prelude.Rows.{mem-keep, All-mem, any-mem}
use balance_tracker.Prelude.Sort.{sort_by, mem-sort_by, mem-take}
use balance_tracker.Prelude.Text.{Text}
use balance_tracker.Notifications.Store.{
  NotificationEvent, NotifyDb, is_pending, event_keyed, event_numbered,
}
use balance_tracker.Notifications.Events.{
  EventRequest, enqueue_event, enqueue_found, event_after_conflict, new_event, insert_event,
  select_due, event_ids, is_due, oldest_first, is_among, is_claimed, hand_out, claim_ids,
  claim_pending_events, event_sent, event_failed, mark_sent, mark_failed, mark_event_sent,
  mark_event_failed, event_of,
}

abbrev pub alone : NotifyDb → NotifyDb
alone d = d

-- The calls that write events, each as one step.
pub data Step (d : NotifyDb) : NotifyDb → Type 0 where
  enqueues : (now : ℕ) (r : EventRequest) → Step d (enqueue_event now alone r d).1
  claims : (limit now : ℕ) → Step d (claim_pending_events alone limit now d).1
  sends : (org user i now : ℕ) → Step d (mark_event_sent org user i now d).1
  fails : (org user i : ℕ) (error : Text) → Step d (mark_event_failed org user i error d).1

pub data Reach (d : NotifyDb) : NotifyDb → Type 0 where
  here : Reach d d
  next : {e f : NotifyDb} → Reach d e → Step e f → Reach d f

abbrev pub Numbered : NotifyDb → Type 0
Numbered d = All (λ (e : NotificationEvent). e.id < d.next_event) d.events

abbrev waits : ℕ → NotificationEvent → Bool
waits i e = event_numbered i e && is_pending e.status

-- The number is given out, and no event with it is pending.
IsOut : ℕ → NotifyDb → Type 0
IsOut i d = (i < d.next_event) × (any (waits i) d.events ≡ false)

any-update_where-false :
    (q p : NotificationEvent → Bool) (f : NotificationEvent → NotificationEvent)
    (es : List NotificationEvent)
    → ((e : NotificationEvent) → q (f e) ≡ true → q e ≡ true)
    → any q es ≡ false
    → any q (update_where p f es) ≡ false
any-update_where-false q p f [] h n = refl
any-update_where-false q p f (e ∷ es) h n = ground (arith, h e, any-update_where-false q p f es h)

updated-IsOut :
    (i : ℕ) (p : NotificationEvent → Bool) (f : NotificationEvent → NotificationEvent)
    (d : NotifyDb)
    → ((e : NotificationEvent) → waits i (f e) ≡ true → waits i e ≡ true)
    → IsOut i d
    → IsOut i (record d { events = update_where p f d.events })
unfolding IsOut
updated-IsOut i p f d h (l, n) = (l, any-update_where-false (waits i) p f d.events h n)

insert-IsOut :
    (i now : ℕ) (r : EventRequest) (d : NotifyDb)
    → IsOut i d
    → IsOut i (insert_event (new_event d.next_event now r) d)
unfolding IsOut new_event
insert-IsOut i now r d (l, n) = (omega arith, ground arith)

conflict_table : (o : Option NotificationEvent) (d : NotifyDb) → (event_after_conflict o d).1 ≡ d
unfolding event_after_conflict
conflict_table none d = refl
conflict_table (some e) d = refl

enqueue_found-IsOut :
    (i now : ℕ) (r : EventRequest) (o : Option NotificationEvent) (d : NotifyDb)
    → IsOut i d
    → IsOut i (enqueue_found now alone r o d).1
unfolding enqueue_found
enqueue_found-IsOut i now r (some e) d h = h
enqueue_found-IsOut i now r none d h =
    elim (Bool-cases (any (event_keyed r.organization_id r.user_id r.dedupe_key) d.events)) [
      | inl e ↦ rw (e, conflict_table _ d) h
      | inr e ↦ rw e (insert-IsOut i now r d h)
    ]

claim_ids-IsOut :
    (i : ℕ) (ids : List ℕ) (d : NotifyDb) → IsOut i d → IsOut i (claim_ids alone ids d).1
unfolding claim_ids
claim_ids-IsOut i [] d h = h
claim_ids-IsOut i (j ∷ ids) d h =
    updated-IsOut i (is_claimed (j ∷ ids)) hand_out d (λ e w. ground arith) h

mark_event_sent-IsOut :
    (i org user j now : ℕ) (d : NotifyDb) → IsOut i d → IsOut i (mark_event_sent org user j now d).1
unfolding mark_event_sent mark_sent
mark_event_sent-IsOut i org user j now d h =
    elim (Bool-cases (any (event_of org user j) d.events)) [
      | inl e ↦ rw e (updated-IsOut i (event_numbered j) (event_sent now) d (λ e w. ground arith) h)
      | inr e ↦ rw e h
    ]

mark_event_failed-IsOut :
    (i org user j : ℕ) (error : Text) (d : NotifyDb)
    → IsOut i d
    → IsOut i (mark_event_failed org user j error d).1
unfolding mark_event_failed mark_failed
mark_event_failed-IsOut i org user j error d h =
    elim (Bool-cases (any (event_of org user j) d.events)) [
      | inl e ↦
          rw e (updated-IsOut i (event_numbered j) (event_failed error) d (λ e w. ground arith) h)
      | inr e ↦ rw e h
    ]

Step-IsOut : {d e : NotifyDb} (i : ℕ) → Step d e → IsOut i d → IsOut i e
unfolding enqueue_event claim_pending_events
Step-IsOut i (enqueues now r) h = enqueue_found-IsOut i now r _ _ h
Step-IsOut i (claims limit now) h = claim_ids-IsOut i _ _ h
Step-IsOut i (sends org user j now) h = mark_event_sent-IsOut i org user j now _ h
Step-IsOut i (fails org user j error) h = mark_event_failed-IsOut i org user j error _ h

Reach-IsOut : {d e : NotifyDb} (i : ℕ) → Reach d e → IsOut i d → IsOut i e
Reach-IsOut i here h = h
Reach-IsOut i (next r s) h = Step-IsOut i s (Reach-IsOut i r h)

mem-event_ids :
    (i : ℕ) (es : List NotificationEvent)
    → any (λ j. i == j) (event_ids es) ≡ true
    → (e : NotificationEvent) × Memᴰ e es × (e.id ≡ i)
mem-event_ids i [] h = cc
mem-event_ids i (e ∷ es) h = elim (Bool-cases (i == e.id)) [
  | inl q ↦ (e, Memᴰ.head refl, ground arith)
  | inr q ↦ let (x, m, k) = mem-event_ids i es (rw q at h) in (x, Memᴰ.tail m, k)
]

-- What is handed out was chosen.
claimed_chosen :
    (ids : List ℕ) (d : NotifyDb) (e : NotificationEvent)
    → Memᴰ e (claim_ids alone ids d).0
    → is_among ids e ≡ true
unfolding claim_ids
claimed_chosen [] d e m = elim m [ ]
claimed_chosen (i ∷ ids) d e m =
    (mem-keep (is_among (i ∷ ids)) e (update_where (is_claimed (i ∷ ids)) hand_out d.events) m).0

chosen_due :
    (limit now : ℕ) (es : List NotificationEvent) (e : NotificationEvent)
    → Memᴰ e (select_due limit now es)
    → (is_due now e ≡ true) × Memᴰ e es
unfolding select_due
chosen_due limit now es e m = mem-keep (is_due now) e es (
    mem-sort_by oldest_first e (keep (is_due now) es)
      (mem-take limit e (sort_by oldest_first (keep (is_due now) es)) m))

among_row :
    (e : NotificationEvent) (es : List NotificationEvent)
    → is_among (event_ids es) e ≡ true
    → (r : NotificationEvent) × Memᴰ r es × (r.id ≡ e.id)
unfolding is_among
among_row e es h = mem-event_ids e.id es h

among_same :
    (ids : List ℕ) (x e : NotificationEvent) → x.id ≡ e.id → is_among ids x ≡ is_among ids e
unfolding is_among
among_same ids x e q = ap (λ k. any (λ i. k == i) ids) q

-- After the update no event with a chosen number is pending.
none_waits :
    (ids : List ℕ) (e : NotificationEvent) (es : List NotificationEvent)
    → is_among ids e ≡ true
    → any (waits e.id) (update_where (is_claimed ids) hand_out es) ≡ false
none_waits ids e [] h = refl
none_waits ids e (x ∷ es) h = elim (Bool-cases (x.id == e.id)) [
  | inl q ↦
      let a : is_among ids x ≡ true = among_same ids x e (ground arith) ∙ h in
      ground (arith, none_waits ids e es h)
  | inr q ↦ ground (arith, none_waits ids e es h)
]

claimed-IsOut :
    (ids : List ℕ) (d : NotifyDb) (e : NotificationEvent)
    → e.id < d.next_event
    → is_among ids e ≡ true
    → IsOut e.id (claim_ids alone ids d).1
unfolding claim_ids IsOut is_among
claimed-IsOut [] d e l h = cc
claimed-IsOut (i ∷ ids) d e l h = (l, none_waits (i ∷ ids) e d.events h)

-- An event that was handed out is never handed out again, whatever sequence of calls follows, if
-- no other session commits between the choice and the update of a call and the numbers of events
-- were below the next one.
pub claim_pending_events_once :
    (limit now limit' now' : ℕ) (d d' : NotifyDb) (e e' : NotificationEvent)
    → Numbered d
    → Memᴰ e (claim_pending_events alone limit now d).0
    → Reach (claim_pending_events alone limit now d).1 d'
    → Memᴰ e' (claim_pending_events alone limit' now' d').0
    → e'.id ≢ e.id
unfolding claim_pending_events IsOut
claim_pending_events_once limit now limit' now' d d' e e' v m r m' q =
    let a = claimed_chosen _ d e m in
    let (x, k, p) = among_row e (select_due limit now d.events) a in
    let l =
      All-mem (λ (y : NotificationEvent). y.id < d.next_event) x d.events v
        (chosen_due limit now d.events x k).1 in
    let out = Reach-IsOut e.id r (claimed-IsOut _ d e (rw p at l) a) in
    let (y, k', p') = among_row e' (select_due limit' now' d'.events) (claimed_chosen _ d' e' m') in
    let (due, n) = chosen_due limit' now' d'.events y k' in
    let w = any-mem (waits e.id) y d'.events out.1 n in ground arith
