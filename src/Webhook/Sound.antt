-- ===== src/Webhook/Sound.antt =====
-- The handlers of both providers keep the invariant of the attempts.
use payment_microservice.Prelude.{
  String, Bool, Option, none, some, refl, arith, if◌then◌else◌, find_first,
}
use payment_microservice.Store.{Env, WebhookLog, PaymentAttempt, Action, modify, pure}
use payment_microservice.Store.Keeps.{
  Keeps, keeps_rules, Keeps-pure, Keeps-throw, Keeps-if, Keeps-bind, Keeps-gets,
}
use payment_microservice.Attempt.Sound.{IsSound, modify-IsSound, mark_failed-IsSound}
use payment_microservice.Orchestrator.Sound.{
  verify_payment-IsSound, sync_external_subscription-IsSound,
}
use payment_microservice.Webhook.{
  Incoming, update_log, add_log, upsert, upsert_webhook_log, log_and_process, handle_webhook,
  has_event_id, is_processed, order_found, if_found, fail_attempt, verify_order, fail_order,
}
use payment_microservice.Webhook.Stripe
use payment_microservice.Webhook.Razorpay

module _ (env : Env) where
  update_log-IsSound :
      (id : String) (f : WebhookLog → WebhookLog) → Keeps (IsSound env) (modify (update_log id f))
  update_log-IsSound id f = modify-IsSound env _ (λ db. refl) (λ db. omega arith)

  add_log-IsSound : (w : WebhookLog) → Keeps (IsSound env) (modify (add_log w))
  add_log-IsSound w = modify-IsSound env _ (λ db. refl) (λ db. omega arith)

  upsert-IsSound :
      (event : Incoming) (found : Option WebhookLog) → Keeps (IsSound env) (upsert env event found)
  upsert-IsSound event (some w) = search (keeps_rules, update_log-IsSound)
  upsert-IsSound event none = search (keeps_rules, add_log-IsSound)

  upsert_webhook_log-IsSound :
      (event : Incoming) → Keeps (IsSound env) (upsert_webhook_log env event)
  unfolding upsert_webhook_log
  upsert_webhook_log-IsSound event = search (keeps_rules, upsert-IsSound)

  log_and_process-IsSound :
      (event : Incoming) (process : String → Action (Unit {0}))
      → ((id : String) → Keeps (IsSound env) (process id))
      → Keeps (IsSound env) (log_and_process env event process)
  unfolding log_and_process
  log_and_process-IsSound event process kept =
      search (keeps_rules, kept, upsert_webhook_log-IsSound, update_log-IsSound) depth 8

  unless_processed-IsSound :
      (event : Incoming) (process : String → Action (Unit {0})) (found : Option WebhookLog)
      → ((id : String) → Keeps (IsSound env) (process id))
      → Keeps
          (IsSound env)
          (if is_processed found then pure tt else log_and_process env event process)
  unless_processed-IsSound event process found kept =
      Keeps-if (is_processed found) _ _ (Keeps-pure tt) (log_and_process-IsSound event process kept)

  handle_webhook-IsSound :
      (is_valid : Bool) (event : Incoming) (process : String → Action (Unit {0}))
      → ((id : String) → Keeps (IsSound env) (process id))
      → Keeps (IsSound env) (handle_webhook env is_valid event process)
  unfolding handle_webhook
  handle_webhook-IsSound is_valid event process kept =
      Keeps-if is_valid _ _
        (Keeps-bind _ _
          (Keeps-gets (λ db. find_first (has_event_id event.event_id) db.webhook_logs))
          (λ found. unless_processed-IsSound event process found kept))
        (Keeps-throw _)

  order_found-IsSound :
      (payment_id : Option String) (actor log_id : String) (found : Option PaymentAttempt)
      → Keeps (IsSound env) (if_found (order_found env payment_id actor log_id) found)
  order_found-IsSound payment_id actor log_id none = Keeps-pure tt
  order_found-IsSound payment_id actor log_id (some a) =
      search (keeps_rules, update_log-IsSound, verify_payment-IsSound env) depth 8

  verify_order-IsSound :
      (order_id : String) (payment_id : Option String) (actor log_id : String)
      → Keeps (IsSound env) (verify_order env order_id payment_id actor log_id)
  unfolding verify_order
  verify_order-IsSound order_id payment_id actor log_id = search (keeps_rules, order_found-IsSound)

  attempt_failed-IsSound :
      (reason : String) (found : Option PaymentAttempt)
      → Keeps (IsSound env) (if_found (fail_attempt reason) found)
  attempt_failed-IsSound reason none = Keeps-pure tt
  attempt_failed-IsSound reason (some a) = search (keeps_rules, mark_failed-IsSound env)

  fail_order-IsSound : (order_id reason : String) → Keeps (IsSound env) (fail_order order_id reason)
  unfolding fail_order
  fail_order-IsSound order_id reason = search (keeps_rules, attempt_failed-IsSound)

  stripe_reported-IsSound :
      (object : Stripe.StripeObject) (reported : Option Stripe.Reported)
      → Keeps (IsSound env) (Stripe.sync_reported env object reported)
  stripe_reported-IsSound object none = Keeps-pure tt
  stripe_reported-IsSound object (some r) =
      search (keeps_rules, sync_external_subscription-IsSound env)

  stripe_subscription-IsSound :
      (event_type : String) (object : Stripe.StripeObject)
      → Keeps (IsSound env) (Stripe.sync_stripe_subscription env event_type object)
  unfolding Stripe.sync_stripe_subscription
  stripe_subscription-IsSound event_type object = stripe_reported-IsSound object _

  intent_succeeded-IsSound :
      (object : Stripe.StripeObject) (transaction_id : Option String) (log_id : String)
      → Keeps (IsSound env) (Stripe.payment_intent_succeeded env object transaction_id log_id)
  intent_succeeded-IsSound object none log_id = Keeps-pure tt
  intent_succeeded-IsSound object (some id) log_id = verify_order-IsSound _ _ _ log_id

  process_stripe_event-IsSound :
      (event_type : String) (object : Stripe.StripeObject) (log_id : String)
      → Keeps (IsSound env) (Stripe.process_stripe_event env event_type object log_id)
  unfolding Stripe.process_stripe_event
  process_stripe_event-IsSound event_type object log_id =
      search
        (
          keeps_rules, verify_order-IsSound, intent_succeeded-IsSound, fail_order-IsSound,
          stripe_subscription-IsSound,
        )
        depth 8

  pub handle_stripe_webhook-IsSound :
      (is_valid : Bool) (event_id event_type signature : String) (object : Stripe.StripeObject)
      → Keeps
          (IsSound env)
          (Stripe.handle_stripe_webhook env is_valid event_id event_type signature object)
  unfolding Stripe.handle_stripe_webhook
  handle_stripe_webhook-IsSound is_valid event_id event_type signature object =
      handle_webhook-IsSound is_valid _ _ (process_stripe_event-IsSound event_type object)

  razorpay_reported-IsSound :
      (entity : Razorpay.SubscriptionEntity) (reported : Option Stripe.Reported)
      → Keeps (IsSound env) (Razorpay.sync_reported env entity reported)
  razorpay_reported-IsSound entity none = Keeps-pure tt
  razorpay_reported-IsSound entity (some r) =
      search (keeps_rules, sync_external_subscription-IsSound env)

  razorpay_subscription-IsSound :
      (event : String) (entity : Option Razorpay.SubscriptionEntity)
      → Keeps (IsSound env) (Razorpay.sync_if_present env event entity)
  unfolding Razorpay.sync_razorpay_subscription
  razorpay_subscription-IsSound event none = Keeps-pure tt
  razorpay_subscription-IsSound event (some entity) = razorpay_reported-IsSound entity _

  captured-IsSound :
      (payment : Option Razorpay.PaymentEntity) (log_id : String)
      → Keeps (IsSound env) (Razorpay.captured env payment log_id)
  captured-IsSound none log_id = Keeps-pure tt
  captured-IsSound (some p) log_id = verify_order-IsSound _ _ _ log_id

  payment_failed-IsSound :
      (payment : Option Razorpay.PaymentEntity)
      → Keeps (IsSound env) (Razorpay.payment_failed payment)
  payment_failed-IsSound none = Keeps-pure tt
  payment_failed-IsSound (some p) = fail_order-IsSound _ _

  process_razorpay_event-IsSound :
      (body : Razorpay.RazorpayBody) (log_id : String)
      → Keeps (IsSound env) (Razorpay.process_razorpay_event env body log_id)
  unfolding Razorpay.process_razorpay_event
  process_razorpay_event-IsSound body log_id =
      search (keeps_rules, razorpay_subscription-IsSound, captured-IsSound, payment_failed-IsSound)
        depth 8

  pub handle_razorpay_webhook-IsSound :
      (is_valid : Bool) (event_id signature : String) (body : Razorpay.RazorpayBody)
      → Keeps (IsSound env) (Razorpay.handle_razorpay_webhook env is_valid event_id signature body)
  unfolding Razorpay.handle_razorpay_webhook
  handle_razorpay_webhook-IsSound is_valid event_id signature body =
      handle_webhook-IsSound is_valid _ _ (process_razorpay_event-IsSound body)
