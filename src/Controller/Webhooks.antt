-- ===== src/Controller/Webhooks.antt =====
-- `WebhookController` (src/modules/payment/webhook/webhook.controller.ts), and what the two handlers
-- of `WebhookService` do before the event is known. The Boolean answers `received`.
pub mod Signed
use payment_microservice.Prelude.{
  ℕ, String, Bool, true, false, Option, none, some, or_default, if◌then◌else◌,
}
use payment_microservice.Store.{
  ErrorCode, unauthorized, Outcome, ok, err, Action, pure, throw, lift, ◌>>=◌, ◌>>◌, Env,
}
use payment_microservice.Gateway.Stripe.Events.{
  ConstructEvent, StripeEvent, verify_webhook_signature, parse_webhook_event,
}
use payment_microservice.Gateway.Razorpay.Payments.{
  verify_webhook_signature as verify_razorpay_signature,
}
use payment_microservice.Webhook.Stripe.{handle_stripe_webhook}
use payment_microservice.Webhook.Razorpay.{RazorpayBody, PaymentEntity, handle_razorpay_webhook}
use Prim.Native.String.{◌++◌ as str_append}

abbrev pub process_event : Env → String → StripeEvent → Action Bool
process_event env signature event = do
  handle_stripe_webhook env true event.id event.type signature event.object
  pure true

-- without a raw body nothing has been received
abbrev pub with_body : (String → Action Bool) → Option String → Action Bool
with_body handler none = pure false
with_body handler (some raw_body) = handler raw_body

unfoldable pub handle_stripe : Env → ConstructEvent → String → String → Option String → Action Bool
handle_stripe env construct_event secret signature = with_body (λ raw_body.
    if verify_webhook_signature construct_event secret raw_body signature
    then (do
      event ← lift (parse_webhook_event construct_event secret raw_body signature)
      process_event env signature event)
    else throw (unauthorized ErrorCode.webhook_signature_invalid))

-- `JSON.parse(rawBody.toString())`: the body, and the id of the order in it; or it throws. `time_text`
-- is `Date.now()` in digits.
pub record RazorpayParser : Type 0 where
  pub parse : String → Outcome (RazorpayBody × Option String)
  pub time_text : ℕ → String

abbrev pub entity_id : Option PaymentEntity → Option String → Option String
entity_id none order_id = order_id
entity_id (some payment) order_id = some payment.id

abbrev pub event_id_of : Env → RazorpayParser → RazorpayBody → Option String → String
event_id_of env parser body order_id = str_append "rz_" (
    str_append body.event
      (str_append "_" (or_default (entity_id body.payment order_id) (parser.time_text env.now))))

abbrev pub process_body : Env → RazorpayParser → String → RazorpayBody × Option String → Action Bool
process_body env parser signature (body, order_id) = do
  handle_razorpay_webhook env true (event_id_of env parser body order_id) signature body
  pure true

unfoldable pub handle_razorpay :
    Env
    → (String → String → String)
    → RazorpayParser
    → String
    → String
    → Option String
    → Action Bool
handle_razorpay env hmac parser secret signature = with_body (λ raw_body.
    if verify_razorpay_signature hmac secret raw_body signature
    then (do parsed ← lift (parser.parse raw_body); process_body env parser signature parsed)
    else throw (unauthorized ErrorCode.webhook_signature_invalid))
