-- ===== src/Gateway/Stripe/Checkout.antt =====
-- `createPayment` of `StripeProvider`: a PaymentIntent, or a Checkout Session in one of two modes.
use payment_microservice.Prelude.{
  ◌&&◌, ◌||◌, String, true, Option, none, some, ◌==◌, truthy, or_default, if◌then◌else◌,
}
use payment_microservice.Store.{
  text, boolean, Metadata, end, field, merge, Outcome, ok, err, Fault, provider_fault, Provider,
  on_ok, Env, CreatePaymentInput, ProviderPaymentResponse,
}
use payment_microservice.Js.{positive_number, is_true, string_or, get_from, stripe_customer_in}
use payment_microservice.Gateway.Stripe.Sdk.{
  PaymentIntentParams, PaymentIntent, SessionParams, Session, Sdk,
}
use payment_microservice.Subscription.{provider_text}
use Prim.Native.String.{◌++◌ as str_append}

-- `...(value ? { key: value } : {})`
abbrev pub field_if : String → Option String → Metadata → Metadata
field_if key none rest = rest
field_if key (some s) rest = field key (text s) rest

abbrev pub or_empty : Option Metadata → Metadata
or_empty none = end
or_empty (some m) = m

-- `${key}:${provider}`
abbrev pub key_text : String × Provider → String
key_text (key, provider) = str_append key (str_append ":" (provider_text provider))

abbrev pub intent_params : Env → CreatePaymentInput → PaymentIntentParams
intent_params env input =
    let customer = stripe_customer_in env input.metadata in
    record {
      amount = input.amount;
      currency = env.to_lower input.currency;
      customer = customer;
      metadata =
          merge
            (field "transactionId" (text input.transaction_id) (
              field "customerId" (text input.customer_id)
                (field_if "providerCustomerId" customer end)))
            (or_empty input.metadata);
      description = str_append "Transaction " input.transaction_id;
      idempotency_key = input.idempotency_key;
    }

abbrev pub intent_response : PaymentIntent → ProviderPaymentResponse
intent_response intent = record {
  provider_order_id = intent.id;
  client_secret = intent.client_secret;
  session_url = none;
  method = "card";
  metadata = some (field "paymentIntentId" (text intent.id) end);
}

-- `customer`, or else `customer_email` where it is not empty
abbrev pub email_unless : Option String → String → Option String
email_unless (some customer) email = none
email_unless none email = if truthy email then some email else none

abbrev pub url_fault : Fault
url_fault = provider_fault "Stripe Checkout Session requires successUrl and cancelUrl in metadata"

abbrev pub session_response : String → Metadata → Session → ProviderPaymentResponse
session_response method metadata session = record {
  provider_order_id = session.id;
  client_secret = none;
  session_url = session.url;
  method = method;
  metadata = some (field "sessionId" (text session.id) metadata);
}

abbrev pub checkout_params : Env → CreatePaymentInput → SessionParams
checkout_params env input =
    let customer = stripe_customer_in env input.metadata in
    record {
      mode = "payment";
      currency = env.to_lower input.currency;
      unit_amount = input.amount;
      recurring = none;
      product_name = string_or env "Product" (get_from "productName" input.metadata);
      success_url = string_or env "" (get_from "successUrl" input.metadata);
      cancel_url = string_or env "" (get_from "cancelUrl" input.metadata);
      customer = customer;
      customer_email =
          email_unless customer (string_or env "" (get_from "customerEmail" input.metadata));
      metadata = field "transactionId" (text input.transaction_id) (
          field "customerId" (text input.customer_id) (
            field "idempotencyKey" (text (key_text input.idempotency_key))
              (field_if "providerCustomerId" customer end)));
      trial_period_days = none;
      subscription_metadata = none;
      idempotency_key = input.idempotency_key;
    }

-- the call of `checkout.sessions.create`, unless a URL is missing
abbrev pub create_session :
    Sdk → SessionParams → (Session → ProviderPaymentResponse) → Outcome ProviderPaymentResponse
create_session sdk params response =
    if truthy params.success_url && truthy params.cancel_url
    then on_ok (sdk.sessions_create params) (λ session. ok (response session))
    else err url_fault

unfoldable pub create_checkout_session :
    Env → Sdk → CreatePaymentInput → Outcome ProviderPaymentResponse
create_checkout_session env sdk input =
    create_session sdk (checkout_params env input) (session_response "checkout" end)

abbrev pub resolve_stripe_interval : String → String
resolve_stripe_interval interval =
    if (interval == "day") || (interval == "week") || (interval == "year")
    then interval
    else "month"

abbrev pub plan_metadata : Env → CreatePaymentInput → Metadata → Metadata
plan_metadata env input rest = field "transactionId" (text input.transaction_id) (
    field "customerId" (text input.customer_id) (
      field "planId" (text (string_or env "" (get_from "planId" input.metadata))) (
        field "productId" (text (string_or env "" (get_from "productId" input.metadata))) (
          field "customerEmail" (text (string_or env "" (get_from "customerEmail" input.metadata)))
            (field "recurringMode" (text "true") rest)))))

abbrev pub recurring_params : Env → CreatePaymentInput → SessionParams
recurring_params env input =
    let customer = stripe_customer_in env input.metadata in
    record (checkout_params env input) {
      mode = "subscription";
      recurring = some (
        resolve_stripe_interval (string_or env "month" (get_from "interval" input.metadata)),
        or_default (positive_number env (get_from "intervalCount" input.metadata)) 1,
      );
      metadata = plan_metadata env input (
          field "idempotencyKey" (text (key_text input.idempotency_key))
            (field_if "providerCustomerId" customer end));
      trial_period_days = positive_number env (get_from "trialDays" input.metadata);
      subscription_metadata =
          some (plan_metadata env input (field_if "providerCustomerId" customer end));
    }

unfoldable pub create_recurring_checkout_session :
    Env → Sdk → CreatePaymentInput → Outcome ProviderPaymentResponse
create_recurring_checkout_session env sdk input =
    create_session sdk (recurring_params env input)
      (session_response "subscription" (field "recurringMode" (boolean true) end))

unfoldable pub create_payment : Env → Sdk → CreatePaymentInput → Outcome ProviderPaymentResponse
unfolding create_checkout_session create_recurring_checkout_session
create_payment env sdk input =
    if is_true (get_from "checkoutMode" input.metadata)
    then (if is_true (get_from "recurringMode" input.metadata)
        then create_recurring_checkout_session env sdk input
        else create_checkout_session env sdk input)
    else on_ok (sdk.payment_intents_create (intent_params env input))
        (λ intent. ok (intent_response intent))
