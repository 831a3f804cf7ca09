-- ===== src/Billing/WebhookLaws.antt =====
-- A webhook that is delivered twice.
use balance_tracker.Prelude.{
  ℕ, ◌≡◌, refl, Bool, true, false, inl, inr, Option, none, some, Bool-cases,
}
use balance_tracker.Prelude.Lists.{any}
use balance_tracker.Prelude.Int.{ℤ}
use balance_tracker.Prelude.Text.{Text, text_eq_refl}
use balance_tracker.Json.{Json, Fields}
use balance_tracker.Billing.Store.{Db, ok}
use balance_tracker.Billing.Plans.{
  same_webhook, webhook_amount, webhook_type, record_webhook, process_webhook_event,
}

module _ (str : Json → Text) (float_of : Json → Option ℤ) (provider i : Text) where
  recorded :
      (payload : Fields) (org : ℕ) (o : Option ℤ) (t : Option Text) (d : Db) (b : Bool)
      → (record_webhook str provider i payload org o t d).0 ≡ ok b
      → any (same_webhook provider i) (record_webhook str provider i payload org o t d).1.webhooks
        ≡ true
  unfolding record_webhook
  recorded payload org none t d b h = cc
  recorded payload org (some a) none d b h = cc
  recorded payload org (some a) (some t) d b h = rw (text_eq_refl provider, text_eq_refl i) refl

  -- After a call for a webhook has returned, a call for a webhook of the same provider with the same
  -- number, whatever its payload and organisation, says that it is not new and changes nothing.
  pub process_webhook_event_again :
      (payload payload' : Fields) (org org' : ℕ) (d : Db) (b : Bool)
      → (process_webhook_event str float_of provider i payload org d).0 ≡ ok b
      → let d' = (process_webhook_event str float_of provider i payload org d).1 in
        process_webhook_event str float_of provider i payload' org' d' ≡ (ok false, d')
  unfolding process_webhook_event
  process_webhook_event_again payload payload' org org' d b h =
      elim (Bool-cases (any (same_webhook provider i) d.webhooks)) [
        | inl e ↦ rw (e, e) refl
        | inr e ↦
            let r =
              recorded payload org (webhook_amount float_of payload) (webhook_type payload) d b
                (rw e at h) in
            rw (e, r) refl
      ]
