-- ===== src/Webhook/Once.antt =====
-- A webhook event takes effect once.
use payment_microservice.Prelude.{
  ℕ, String, true, Option, some, none, List, [], ◌∷◌, find_first, update_where, ◌≡◌, refl, arith,
  ==_refl, inl, inr, Bool-cases,
}
use payment_microservice.Store.{
  WebhookLog, Provider, Db, ok, Env, Outcome-cases, catch, modify, ◌>>◌,
}
use payment_microservice.Webhook.{
  Incoming, has_event_id, has_id, handle_webhook, is_processed, processed, update_log, note_failure,
  log_and_process, upsert, upsert_webhook_log, new_log, verified,
}
use payment_microservice.Webhook.Stripe.{StripeObject, process_stripe_event, handle_stripe_webhook}
use payment_microservice.Webhook.Delivery.{
  logged_id, update_where-logged_id, process_stripe_event-logged_id,
}

-- Marking the row with the id as processed marks the row that logs the event.
processed-find_first :
    (event_id id : String) (now : ℕ) (logs : List WebhookLog)
    → logged_id event_id logs ≡ some id
    → is_processed
        (find_first (has_event_id event_id) (update_where (has_id id) (processed now) logs))
      ≡ true
unfolding find_first update_where
processed-find_first event_id id now [] h = absurd (ground arith)
processed-find_first event_id id now (w ∷ logs) h =
    ground (arith, ==_refl id, processed-find_first event_id id now logs)

-- The part of the handler that follows the writing of the log row
processing-is_processed :
    (env : Env) (event_id event_type id : String) (object : StripeObject) (db : Db)
    → logged_id event_id db.webhook_logs ≡ some id
    → let (r, after) =
        catch
          (process_stripe_event env event_type object id
            >> modify (update_log id (processed env.now)))
          (note_failure id)
          db in
      r ≡ ok tt → is_processed (find_first (has_event_id event_id) after.webhook_logs) ≡ true
processing-is_processed env event_id event_type id object db logged =
    let kept = process_stripe_event-logged_id event_id env event_type object id db in
    let db' = (process_stripe_event env event_type object id db).1 in
    elim (Outcome-cases (process_stripe_event env event_type object id db).0) [
      | inl (u, done) ↦
          rw done (λ h. processed-find_first event_id id env.now db'.webhook_logs (rw kept logged))
      | inr (e, thrown) ↦ rw thrown (λ h. ground arith)
    ]

upsert-logged_id :
    (env : Env) (event : Incoming) (db : Db) (existing : Option WebhookLog)
    → find_first (has_event_id event.event_id) db.webhook_logs ≡ existing
    → (w : WebhookLog) × ((upsert env event existing db).0 ≡ ok w)
      × (logged_id event.event_id (upsert env event existing db).1.webhook_logs ≡ some w.id)
unfolding find_first
upsert-logged_id env event db none absent =
    (new_log env event db, refl, ground (arith, ==_refl event.event_id))
upsert-logged_id env event db (some w) found =
    let kept =
      update_where-logged_id event.event_id (has_id w.id) verified db.webhook_logs (λ w. refl)
        (λ w. refl) in
    (verified w, refl, rw (kept, found) refl)

handled-is_processed :
    (env : Env) (event_id event_type signature : String) (object : StripeObject) (db : Db)
    → (handle_stripe_webhook env true event_id event_type signature object db).0 ≡ ok tt
    → is_processed (
        find_first
          (has_event_id event_id)
          (handle_stripe_webhook env true event_id event_type signature object db).1.webhook_logs)
      ≡ true
unfolding handle_stripe_webhook handle_webhook log_and_process upsert_webhook_log find_first
handled-is_processed env event_id event_type signature object db =
    let event : Incoming = record {
      provider = Provider.stripe;
      event_type = event_type;
      event_id = event_id;
      signature = signature;
    } in
    let existing = find_first (has_event_id event_id) db.webhook_logs in
    let (w, made, logged) = upsert-logged_id env event db existing refl in
    elim (Bool-cases (is_processed existing)) [
      | inl done ↦ rw done (λ h. done)
      | inr fresh ↦
          rw (fresh, made)
            (processing-is_processed env event_id event_type w.id object
              (upsert env event existing db).1 logged)
    ]

-- A Stripe event takes effect at most once: when a delivery with a valid signature has been answered
-- with success, any later delivery of the same event id with a valid signature, whatever it says, is
-- answered with success and writes nothing.
pub handle_stripe_webhook-handle_stripe_webhook :
    (env later : Env) (event_id event_type other_type signature other_signature : String)
    (object other : StripeObject) (db : Db)
    → (handle_stripe_webhook env true event_id event_type signature object db).0 ≡ ok tt
    → let after = (handle_stripe_webhook env true event_id event_type signature object db).1 in
      handle_stripe_webhook later true event_id other_type other_signature other after
      ≡ (ok tt, after)
unfolding handle_stripe_webhook handle_webhook
handle_stripe_webhook-handle_stripe_webhook env later event_id event_type other_type signature
      other_signature object other db done =
    rw (handled-is_processed env event_id event_type signature object db done) refl
