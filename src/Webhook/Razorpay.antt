-- ===== src/Webhook/Razorpay.antt =====
-- `processRazorpayEvent` and `syncRazorpaySubscription`
-- (src/modules/payment/webhook/webhook.service.ts).
use payment_microservice.Prelude.{
  ℕ, ◌/◌, String, Bool, false, ◌||◌, ◌&&◌, Option, none, some, ◌==◌, or_default, ltb, if◌then◌else◌,
}
use payment_microservice.Store.{
  Provider, SubscriptionStatus, Metadata, get, as_text, Action, pure, ◌>>◌, Env,
}
use payment_microservice.Subscription.{sync_external_subscription}
use payment_microservice.Webhook.{verify_order, fail_order, handle_webhook}
use payment_microservice.Webhook.Stripe.{from_unix_seconds, present, metadata_of, Reported, report}

-- `payload.payment.entity`
pub record PaymentEntity : Type 0 where
  pub id : String
  pub order_id : String
  pub error_description : Option String

-- `payload.subscription.entity`
pub record SubscriptionEntity : Type 0 where
  pub id : String
  pub status : Option String
  pub notes : Option Metadata
  pub current_start : Option ℕ
  pub current_end : Option ℕ
  pub start_at : Option ℕ
  pub charge_at : Option ℕ

pub record RazorpayBody : Type 0 where
  pub event : String
  pub payment : Option PaymentEntity
  pub subscription : Option SubscriptionEntity

abbrev pub is_ending : String → Bool
is_ending event = (event == "subscription.cancelled") || (event == "subscription.completed")

abbrev pub status_of : String → Option SubscriptionStatus
status_of s =
    if s == "authenticated"
    then some SubscriptionStatus.trialing
    else if s == "active"
    then some SubscriptionStatus.active
    else if (s == "pending") || (s == "halted")
    then some SubscriptionStatus.past_due
    else if (s == "cancelled") || (s == "completed")
    then some SubscriptionStatus.cancelled
    else none

unfoldable pub map_razorpay_status : Option String → String → Option SubscriptionStatus
map_razorpay_status status event =
    if is_ending event
    then some SubscriptionStatus.cancelled
    else elim status [ none ↦ none | some s ↦ status_of s ]

-- `a ?? b` of two optional values
abbrev pub or_else : Option ℕ → Option ℕ → Option ℕ
or_else none b = b
or_else (some a) b = some a

-- a start that lies in the future: `start_at > Math.floor(Date.now() / 1000)`
abbrev pub trial_start_of : Env → Option ℕ → Option ℕ
trial_start_of env none = none
trial_start_of env (some start_at) =
    if ltb (env.now / 1000) start_at && ltb 0 start_at then some env.now else none

abbrev pub sync_reported : Env → SubscriptionEntity → Option Reported → Action (Unit {0})
sync_reported env s none = pure tt
sync_reported env s (some r) =
    sync_external_subscription env false (record {
      tenant_id = or_default (as_text (get "tenantId" (metadata_of s.notes))) "easydev";
      customer_id = r.customer_id;
      plan_id = r.plan_id;
      provider = Provider.razorpay;
      provider_subscription_id = s.id;
      actor_id = "razorpay-webhook";
      status = r.status;
      current_period_start = r.period_start;
      current_period_end = r.period_end;
      trial_start = trial_start_of env s.start_at;
      trial_end = from_unix_seconds s.start_at;
      metadata = some (metadata_of s.notes);
    })
    >> pure tt

unfoldable pub sync_razorpay_subscription : Env → String → SubscriptionEntity → Action (Unit {0})
sync_razorpay_subscription env event s =
    let notes = metadata_of s.notes in
    sync_reported env s (
      report (present "customerId" notes) (present "planId" notes)
        (map_razorpay_status s.status event)
        (from_unix_seconds (or_else s.current_start s.start_at))
        (from_unix_seconds (or_else s.current_end s.charge_at)))

abbrev pub is_subscription_event : String → Bool
is_subscription_event event =
    (event == "subscription.authenticated")
    || (event == "subscription.activated")
    || (event == "subscription.charged")
    || (event == "subscription.pending")
    || (event == "subscription.halted")
    || (event == "subscription.cancelled")
    || (event == "subscription.completed")

abbrev pub sync_if_present : Env → String → Option SubscriptionEntity → Action (Unit {0})
sync_if_present env event none = pure tt
sync_if_present env event (some s) = sync_razorpay_subscription env event s

abbrev pub captured : Env → Option PaymentEntity → String → Action (Unit {0})
captured env none log_id = pure tt
captured env (some p) log_id = verify_order env p.order_id (some p.id) "razorpay-webhook" log_id

abbrev pub payment_failed : Option PaymentEntity → Action (Unit {0})
payment_failed none = pure tt
payment_failed (some p) =
    fail_order p.order_id (or_default p.error_description "Razorpay payment failed")

unfoldable pub process_razorpay_event : Env → RazorpayBody → String → Action (Unit {0})
process_razorpay_event env body log_id =
    if is_subscription_event body.event
    then sync_if_present env body.event body.subscription
    else if body.event == "payment.captured"
    then captured env body.payment log_id
    else if body.event == "payment.failed"
    then payment_failed body.payment
    else pure tt

-- The event id is made from the event and the id of its payment or order, or from the time.
unfoldable pub handle_razorpay_webhook :
    Env → Bool → String → String → RazorpayBody → Action (Unit {0})
handle_razorpay_webhook env is_valid event_id signature body =
    handle_webhook env is_valid
      (record {
        provider = Provider.razorpay;
        event_type = body.event;
        event_id = event_id;
        signature = signature;
      })
      (process_razorpay_event env body)
