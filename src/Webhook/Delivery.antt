-- ===== src/Webhook/Delivery.antt =====
-- What the processing of a Stripe event does to the log of events.
use payment_microservice.Prelude.{
  String, Bool, Option, none, List, [], ◌∷◌, ◌≡◌, refl, arith, find_first, update_where,
  Option-cases, inl, inr, ap, or_default,
}
use payment_microservice.Store.{WebhookLog, Db, Env}
use payment_microservice.Attempt
use payment_microservice.Transaction
use payment_microservice.Ledger.{record_payment}
use payment_microservice.Subscription.{create_subscription, sync_external_subscription}
use payment_microservice.Orchestrator.Recurring.{SyncInput, sync_recurring_subscription_on_success}
use payment_microservice.Orchestrator.Verify.{
  VerifyPaymentDto, verify_payment, settle_success, cancel_others,
}
use payment_microservice.Webhook.{verify_order, fail_order, has_event_id, has_id, for_attempt}
use payment_microservice.Webhook.Stripe.{
  StripeObject, process_stripe_event, sync_stripe_subscription,
}
use mathlib.Core.Option

sync-logs :
    (env : Env) (input : SyncInput) (db : Db)
    → (sync_recurring_subscription_on_success env input db).1.webhook_logs ≡ db.webhook_logs
unfolding sync_recurring_subscription_on_success create_subscription sync_external_subscription
sync-logs env input db = grind arith

mark_failed-logs :
    (id reason : String) (db : Db)
    → (Attempt.mark_failed id reason db).1.webhook_logs ≡ db.webhook_logs
unfolding Attempt.mark_failed
mark_failed-logs id reason db = ground arith

verify_payment-logs :
    (env : Env) (dto : VerifyPaymentDto) (db : Db)
    → (verify_payment env dto db).1.webhook_logs ≡ db.webhook_logs
unfolding verify_payment settle_success Attempt.mark_success cancel_others record_payment
    Transaction.update_status Attempt.find_by_id Transaction.find_by_id
verify_payment-logs env dto db = grind (arith, sync-logs, mark_failed-logs)

-- The id of the row that logs an event
abbrev pub logged_id : String → List WebhookLog → Option String
logged_id event_id logs = Option.map (λ w. w.id) (find_first (has_event_id event_id) logs)

pub update_where-logged_id :
    (event_id : String) (q : WebhookLog → Bool) (f : WebhookLog → WebhookLog)
    (logs : List WebhookLog)
    → ((w : WebhookLog) → (f w).event_id ≡ w.event_id)
    → ((w : WebhookLog) → (f w).id ≡ w.id)
    → logged_id event_id (update_where q f logs) ≡ logged_id event_id logs
unfolding find_first update_where
update_where-logged_id event_id q f [] same_event same_id = refl
update_where-logged_id event_id q f (w ∷ logs) same_event same_id =
    ground
      (arith, same_event w, same_id w, update_where-logged_id event_id q f logs same_event same_id)

verify_order-logged_id :
    (event_id : String) (env : Env) (order_id : String) (payment_id : Option String)
    (actor log_id : String) (db : Db)
    → logged_id event_id (verify_order env order_id payment_id actor log_id db).1.webhook_logs
      ≡ logged_id event_id db.webhook_logs
unfolding verify_order Attempt.find_by_provider_order_id
verify_order-logged_id event_id env order_id payment_id actor log_id db =
    elim (Option-cases
      (find_first (λ a. Attempt.is_order order_id a.provider_order_id) db.attempts)) [
        | inl absent ↦ rw absent refl
        | inr (a, found) ↦
            let linked =
              update_where-logged_id event_id (has_id log_id) (for_attempt a.id) db.webhook_logs
                (λ w. refl) (λ w. refl) in
            rw found (grind (arith, verify_payment-logs, linked))
      ]

fail_order-logs :
    (order_id reason : String) (db : Db)
    → (fail_order order_id reason db).1.webhook_logs ≡ db.webhook_logs
unfolding fail_order Attempt.find_by_provider_order_id
fail_order-logs order_id reason db = grind (arith, mark_failed-logs)

sync_stripe-logs :
    (env : Env) (event_type : String) (object : StripeObject) (db : Db)
    → (sync_stripe_subscription env event_type object db).1.webhook_logs ≡ db.webhook_logs
unfolding sync_stripe_subscription sync_external_subscription
sync_stripe-logs env event_type object db = grind arith

pub process_stripe_event-logged_id :
    (event_id : String) (env : Env) (event_type : String) (object : StripeObject) (log_id : String)
    (db : Db)
    → logged_id event_id (process_stripe_event env event_type object log_id db).1.webhook_logs
      ≡ logged_id event_id db.webhook_logs
unfolding process_stripe_event
process_stripe_event-logged_id event_id env event_type object log_id db = grind (
  arith,
  verify_order-logged_id event_id env object.id none "stripe-webhook" log_id db,
  ap (logged_id event_id)
      (fail_order-logs object.id (or_default object.error_message "PaymentIntent failed") db),
  ap (logged_id event_id) (sync_stripe-logs env event_type object db),
)
