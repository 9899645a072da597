-- ===== src/Controller/Webhooks/Signed.antt =====
-- Which deliveries of webhooks have an effect.
use payment_microservice.Prelude.{
  ◌⊎◌, ==_iff, String, true, some, ◌==◌, truthy, Bool-cases, ◌≡◌, refl, inl, inr,
}
use payment_microservice.Store.{ErrorCode, unauthorized, ok, err, Db, Outcome-cases, Env}
use payment_microservice.Gateway.Stripe.Events.{
  ConstructEvent, StripeEvent, verify_webhook_signature, parse_webhook_event,
}
use payment_microservice.Gateway.Razorpay.Payments.{
  verify_webhook_signature as verify_razorpay_signature,
}
use payment_microservice.Controller.Webhooks.{
  RazorpayParser, handle_stripe, handle_razorpay, process_event,
}

-- The secret is configured and the SDK takes the delivery for an event signed with it.
abbrev pub IsSigned : ConstructEvent → String → String → String → StripeEvent → Type 0
IsSigned construct_event secret raw_body signature event =
    (truthy secret ≡ true) × (construct_event raw_body signature secret ≡ ok event)

-- A delivery has an effect only if it is signed. One to Stripe's endpoint is refused and writes
-- nothing unless the SDK takes it for an event signed with the configured secret, and then that
-- event is what is processed. One to Razorpay's endpoint is refused and writes nothing unless its
-- signature is the HMAC of its body under a secret that is configured.
pub handle_stripe-IsSigned :
    (env : Env) (construct_event : ConstructEvent) (hmac : String → String → String)
    (parser : RazorpayParser) (secret signature raw_body : String) (db : Db)
    → ((handle_stripe env construct_event secret signature (some raw_body) db
          ≡ (err (unauthorized ErrorCode.webhook_signature_invalid), db))
        ⊎ ((event : StripeEvent) × IsSigned construct_event secret raw_body signature event
            × (handle_stripe env construct_event secret signature (some raw_body) db
                ≡ process_event env signature event db)))
      × ((handle_razorpay env hmac parser secret signature (some raw_body) db
            ≡ (err (unauthorized ErrorCode.webhook_signature_invalid), db))
          ⊎ ((truthy secret ≡ true) × (hmac secret raw_body ≡ signature)))
unfolding handle_stripe handle_razorpay verify_webhook_signature verify_razorpay_signature
    parse_webhook_event
handle_stripe-IsSigned env construct_event hmac parser secret signature raw_body db = (
  elim (Bool-cases (truthy secret)) [
    | inl configured ↦ elim (Outcome-cases (construct_event raw_body signature secret)) [
      | inl (event, built) ↦ inr (event, (configured, built), rw (configured, built) refl)
      | inr (e, refused) ↦ inl (rw (configured, refused) refl)
    ]
    | inr unset ↦ inl (rw unset refl)
  ],
  elim (Bool-cases (truthy secret)) [
    | inl configured ↦ elim (Bool-cases (hmac secret raw_body == signature)) [
      | inl same ↦ inr (configured, (==_iff _ _).0 same)
      | inr other ↦ inl (rw (configured, other) refl)
    ]
    | inr unset ↦ inl (rw unset refl)
  ],
)
