-- ===== src/Webhook.antt =====
-- `WebhookService` (src/modules/payment/webhook/webhook.service.ts): how an event is logged, kept
-- from being processed twice, and dispatched. The events of each provider are in Stripe.antt and
-- Razorpay.antt. `verifyWebhookSignature` and the parser are parameters.
pub mod Stripe
pub mod Razorpay
pub mod Once
pub mod Delivery
pub mod Sound
use payment_microservice.Prelude.{
  ℕ, suc, String, Bool, true, false, Option, none, some, ◌∷◌, ◌==◌, if◌then◌else◌, find_first,
  update_where,
}
use payment_microservice.Store.{
  PaymentAttempt, WebhookLog, Transaction, Provider, ErrorCode, Db, Fault, unauthorized, Action,
  pure, throw, gets, modify, catch, ◌>>=◌, ◌>>◌, Env,
}
use payment_microservice.Attempt
use payment_microservice.Orchestrator.Verify.{verify_payment}

-- An event, once its signature has been accepted and its body read
pub record Incoming : Type 0 where
  pub provider : Provider
  pub event_type : String
  pub event_id : String
  pub signature : String

abbrev pub has_event_id : String → WebhookLog → Bool
has_event_id event_id w = w.event_id == event_id

abbrev pub has_id : String → WebhookLog → Bool
has_id id w = w.id == id

abbrev pub update_log : String → (WebhookLog → WebhookLog) → Db → Db
update_log id f db = record db { webhook_logs = update_where (has_id id) f db.webhook_logs }

abbrev pub new_log : Env → Incoming → Db → WebhookLog
new_log env event db = record {
  id = env.uuid db.issued;
  provider = event.provider;
  event_type = event.event_type;
  event_id = event.event_id;
  attempt_id = none;
  signature = event.signature;
  is_verified = true;
  is_processed = false;
  processed_at = none;
  error = none;
}

abbrev pub verified : WebhookLog → WebhookLog
verified w = record w { is_verified = true }

abbrev pub add_log : WebhookLog → Db → Db
add_log w db = record db { issued = suc db.issued; webhook_logs = w ∷ db.webhook_logs }

abbrev pub upsert : Env → Incoming → Option WebhookLog → Action WebhookLog
upsert env event (some w) = do modify (update_log w.id verified); pure (verified w)
upsert env event none = do w ← gets (new_log env event); modify (add_log w); pure w

unfoldable pub upsert_webhook_log : Env → Incoming → Action WebhookLog
upsert_webhook_log env event = do
  existing ← gets (λ db. find_first (has_event_id event.event_id) db.webhook_logs)
  upsert env event existing

abbrev pub is_processed : Option WebhookLog → Bool
is_processed none = false
is_processed (some w) = w.is_processed

abbrev pub processed : ℕ → WebhookLog → WebhookLog
processed now w = record w { is_processed = true; processed_at = some now }

-- The error's text is not modelled, but that there is one.
abbrev pub failed : WebhookLog → WebhookLog
failed w = record w { error = some "" }

abbrev pub note_failure : String → Fault → Action (Unit {0})
note_failure id e = do modify (update_log id failed); throw e

unfoldable pub log_and_process : Env → Incoming → (String → Action (Unit {0})) → Action (Unit {0})
unfolding upsert_webhook_log
log_and_process env event process = do
  w ← upsert_webhook_log env event
  catch (process w.id >> modify (update_log w.id (processed env.now))) (note_failure w.id)

-- The two handlers from the check of the signature on; `process` is the provider's dispatch, which
-- takes the id of the log row.
unfoldable pub handle_webhook :
    Env → Bool → Incoming → (String → Action (Unit {0})) → Action (Unit {0})
handle_webhook env is_valid event process =
    if is_valid
    then (do
      existing ← gets (λ db. find_first (has_event_id event.event_id) db.webhook_logs)
      if is_processed existing then pure tt else log_and_process env event process)
    else throw (unauthorized ErrorCode.webhook_signature_invalid)

abbrev pub tenant_of : Option Transaction → String
tenant_of none = ""
tenant_of (some t) = t.tenant_id

abbrev pub for_attempt : String → WebhookLog → WebhookLog
for_attempt attempt_id w = record w { attempt_id = some attempt_id }

-- what follows for the attempt of the order: link the log to it, and verify the payment
abbrev pub order_found : Env → Option String → String → String → PaymentAttempt → Action (Unit {0})
order_found env payment_id actor log_id a = do
  modify (update_log log_id (for_attempt a.id))
  t ← gets (λ db. find_first (λ t. t.id == a.transaction_id) db.transactions)
  verify_payment env (record {
    tenant_id = tenant_of t;
    transaction_id = a.transaction_id;
    attempt_id = a.id;
    provider_payment_id = payment_id;
    provider_signature = none;
    actor_id = actor;
  })
  pure tt

abbrev pub if_found :
    (PaymentAttempt → Action (Unit {0})) → Option PaymentAttempt → Action (Unit {0})
if_found next none = pure tt
if_found next (some a) = next a

-- The common end of the success events
unfoldable pub verify_order : Env → String → Option String → String → String → Action (Unit {0})
unfolding Attempt.find_by_provider_order_id
verify_order env order_id payment_id actor log_id = do
  found ← gets (Attempt.find_by_provider_order_id order_id)
  if_found (order_found env payment_id actor log_id) found

abbrev pub fail_attempt : String → PaymentAttempt → Action (Unit {0})
fail_attempt reason a = do Attempt.mark_failed a.id reason; pure tt

-- The common end of the failure events
unfoldable pub fail_order : String → String → Action (Unit {0})
unfolding Attempt.find_by_provider_order_id
fail_order order_id reason = do
  found ← gets (Attempt.find_by_provider_order_id order_id)
  if_found (fail_attempt reason) found
