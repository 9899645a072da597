-- ===== src/Gateway/Stripe/Events.antt =====
-- `verifyWebhookSignature` and `parseWebhookEvent` of `StripeProvider`. `construct_event` is the SDK's
-- `webhooks.constructEvent(rawBody, signature, secret)`, which returns the event or throws; the secret
-- is empty where none is configured.
use payment_microservice.Prelude.{String, Bool, true, false, truthy, if◌then◌else◌}
use payment_microservice.Store.{Outcome, ok, err, provider_fault}
use payment_microservice.Webhook.Stripe.{StripeObject}

pub record StripeEvent : Type 0 where
  pub id : String
  pub type : String
  pub object : StripeObject

abbrev pub ConstructEvent : Type 0
ConstructEvent = String → String → String → Outcome StripeEvent

abbrev pub is_ok : {A : Type 0} → Outcome A → Bool
is_ok (ok a) = true
is_ok (err e) = false

unfoldable pub verify_webhook_signature : ConstructEvent → String → String → String → Bool
verify_webhook_signature construct_event secret raw_body signature =
    if truthy secret then is_ok (construct_event raw_body signature secret) else false

unfoldable pub parse_webhook_event : ConstructEvent → String → String → String → Outcome StripeEvent
parse_webhook_event construct_event secret raw_body signature =
    if truthy secret
    then construct_event raw_body signature secret
    else err (provider_fault "Stripe webhook secret is not configured")
