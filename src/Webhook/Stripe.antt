-- ===== src/Webhook/Stripe.antt =====
-- `processStripeEvent` and `syncStripeSubscription` (src/modules/payment/webhook/webhook.service.ts).
use payment_microservice.Prelude.{
  ℕ, suc, ◌*◌, String, Bool, false, ◌||◌, Option, none, some, ◌==◌, truthy, or_default, leb,
  if◌then◌else◌,
}
use payment_microservice.Store.{
  Provider, SubscriptionStatus, Metadata, end, get, as_text, Action, pure, ◌>>◌, Env,
}
use payment_microservice.Subscription.{sync_external_subscription}
use payment_microservice.Webhook.{verify_order, fail_order, handle_webhook}

-- The fields of `event.data.object` that the handlers read
pub record StripeObject : Type 0 where
  pub id : String
  pub metadata : Option Metadata
  pub error_message : Option String
  pub status : Option String
  pub current_period_start : Option ℕ
  pub current_period_end : Option ℕ
  pub trial_start : Option ℕ
  pub trial_end : Option ℕ

-- `fromUnixSeconds`: 0 is no date, and `new Date` is invalid beyond 8.64e15 ms.
unfoldable pub from_unix_seconds : Option ℕ → Option ℕ
from_unix_seconds (some (suc n)) =
    if leb (suc n * 1000) 8_640_000_000_000_000 then some (suc n * 1000) else none
from_unix_seconds _ = none

unfoldable pub map_stripe_status : Option String → Option SubscriptionStatus
map_stripe_status none = none
map_stripe_status (some s) =
    if s == "trialing"
    then some SubscriptionStatus.trialing
    else if s == "active"
    then some SubscriptionStatus.active
    else if (s == "past_due") || (s == "unpaid") || (s == "incomplete")
    then some SubscriptionStatus.past_due
    else if (s == "canceled") || (s == "incomplete_expired")
    then some SubscriptionStatus.cancelled
    else none

-- a text of the metadata that is not empty
abbrev pub present : String → Metadata → Option String
present key metadata = elim (as_text (get key metadata)) [
  | none ↦ none
  | some s ↦ if truthy s then some s else none
]

-- What a provider reports of a subscription, where all of it is known
pub record Reported : Type 0 where
  pub customer_id : String
  pub plan_id : String
  pub status : SubscriptionStatus
  pub period_start : ℕ
  pub period_end : ℕ

-- The early returns of the two `sync…Subscription` methods: something is missing.
abbrev pub report :
    Option String
    → Option String
    → Option SubscriptionStatus
    → Option ℕ
    → Option ℕ
    → Option Reported
report (some customer_id) (some plan_id) (some status) (some from) (some to) = some (record {
  customer_id = customer_id;
  plan_id = plan_id;
  status = status;
  period_start = from;
  period_end = to;
})
report _ _ _ _ _ = none

abbrev pub stripe_status : String → StripeObject → Option SubscriptionStatus
stripe_status event_type object =
    if event_type == "customer.subscription.deleted"
    then some SubscriptionStatus.cancelled
    else map_stripe_status object.status

abbrev pub metadata_of : Option Metadata → Metadata
metadata_of none = end
metadata_of (some m) = m

abbrev pub sync_reported : Env → StripeObject → Option Reported → Action (Unit {0})
sync_reported env object none = pure tt
sync_reported env object (some r) =
    sync_external_subscription env false (record {
      tenant_id = or_default (as_text (get "tenantId" (metadata_of object.metadata))) "easydev";
      customer_id = r.customer_id;
      plan_id = r.plan_id;
      provider = Provider.stripe;
      provider_subscription_id = object.id;
      actor_id = "stripe-webhook";
      status = r.status;
      current_period_start = r.period_start;
      current_period_end = r.period_end;
      trial_start = from_unix_seconds object.trial_start;
      trial_end = from_unix_seconds object.trial_end;
      metadata = some (metadata_of object.metadata);
    })
    >> pure tt

unfoldable pub sync_stripe_subscription : Env → String → StripeObject → Action (Unit {0})
sync_stripe_subscription env event_type object =
    let metadata = metadata_of object.metadata in
    sync_reported env object (
      report (present "customerId" metadata) (present "planId" metadata)
        (stripe_status event_type object) (from_unix_seconds object.current_period_start)
        (from_unix_seconds object.current_period_end))

-- `handlePaymentIntentSucceeded`: nothing is done without a `transactionId` in the metadata.
abbrev pub payment_intent_succeeded :
    Env → StripeObject → Option String → String → Action (Unit {0})
payment_intent_succeeded env object none log_id = pure tt
payment_intent_succeeded env object (some transaction_id) log_id =
    verify_order env object.id none "stripe-webhook" log_id

abbrev pub is_subscription_event : String → Bool
is_subscription_event event_type =
    (event_type == "customer.subscription.created")
    || (event_type == "customer.subscription.updated")
    || (event_type == "customer.subscription.deleted")

unfoldable pub process_stripe_event : Env → String → StripeObject → String → Action (Unit {0})
process_stripe_event env event_type object log_id =
    if event_type == "checkout.session.completed"
    then verify_order env object.id none "stripe-webhook" log_id
    else if event_type == "payment_intent.succeeded"
    then payment_intent_succeeded env object (present "transactionId" (metadata_of object.metadata))
        log_id
    else if event_type == "payment_intent.payment_failed"
    then fail_order object.id (or_default object.error_message "PaymentIntent failed")
    else if is_subscription_event event_type
    then sync_stripe_subscription env event_type object
    else pure tt

unfoldable pub handle_stripe_webhook :
    Env → Bool → String → String → String → StripeObject → Action (Unit {0})
handle_stripe_webhook env is_valid event_id event_type signature object =
    handle_webhook env is_valid
      (record {
        provider = Provider.stripe;
        event_type = event_type;
        event_id = event_id;
        signature = signature;
      })
      (process_stripe_event env event_type object)
