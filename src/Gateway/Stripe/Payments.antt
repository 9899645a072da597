-- ===== src/Gateway/Stripe/Payments.antt =====
-- `verifyPayment` and `refundPayment` of `StripeProvider`, and the provider that all three make up.
use payment_microservice.Prelude.{
  starts_with, ℕ, ◌&&◌, ◌||◌, String, Bool, true, false, Option, none, some, ◌==◌, truthy,
  or_default, if◌then◌else◌,
}
use payment_microservice.Store.{
  Json, null, text, number, Metadata, end, field, Outcome, ok, err, Fault, provider_fault, on_ok,
  Env, VerifyPaymentInput, VerifyPaymentResult, RefundInput, RefundState, RefundProviderResponse,
  PaymentProvider,
}
use payment_microservice.Gateway.Stripe.Sdk.{
  Expandable, id_of, object_with, PaymentIntent, Session, SubscriptionObject, Sdk,
}
use Prim.Native.String.{◌++◌ as str_append}
use payment_microservice.Gateway.Stripe.Checkout.{create_payment}

abbrev pub text_or_null : Option String → Json
text_or_null none = null
text_or_null (some s) = text s

abbrev pub number_or_null : Option ℕ → Json
number_or_null none = null
number_or_null (some n) = number n

-- `typeof x === 'string' ? x : undefined`
abbrev pub if_unexpanded : Option Expandable → Option String
if_unexpanded (some (id_of id)) = some id
if_unexpanded _ = none

-- `typeof x === 'string' ? x : x?.id`
abbrev pub expandable_id : Option Expandable → Option String
expandable_id none = none
expandable_id (some (id_of id)) = some id
expandable_id (some (object_with id)) = some id

unfoldable pub map_subscription_status : String → Option String
map_subscription_status s =
    if s == "trialing"
    then some "TRIALING"
    else if s == "active"
    then some "ACTIVE"
    else if (s == "past_due") || (s == "unpaid") || (s == "incomplete")
    then some "PAST_DUE"
    else if (s == "canceled") || (s == "incomplete_expired")
    then some "CANCELLED"
    else none

abbrev pub success : Metadata → VerifyPaymentResult
success metadata = record { is_success = true; failure_reason = none; metadata = some metadata }

abbrev pub failure : String → VerifyPaymentResult
failure reason = record { is_success = false; failure_reason = some reason; metadata = none }

-- What a subscription adds to the metadata of a session; all of it is undefined where there is none.
abbrev pub subscription_fields : Option String → Option SubscriptionObject → Metadata → Metadata
subscription_fields id none rest = field "providerSubscriptionId" (text_or_null id) (
    field "subscriptionId" (text_or_null id) (
      field "subscriptionStatus" null (
        field "currentPeriodStart" null
          (field "currentPeriodEnd" null (field "trialStart" null (field "trialEnd" null rest))))))
subscription_fields id (some s) rest = field "providerSubscriptionId" (text s.id) (
    field "subscriptionId" (text s.id) (
      field "subscriptionStatus" (text_or_null (map_subscription_status s.status)) (
        field "currentPeriodStart" (number s.current_period_start) (
          field "currentPeriodEnd" (number s.current_period_end) (
            field "trialStart" (number_or_null s.trial_start)
              (field "trialEnd" (number_or_null s.trial_end) rest))))))

abbrev pub subscription_metadata : Session → Option String → Option SubscriptionObject → Metadata
subscription_metadata session id subscription = field "sessionId" (text session.id) (
    field "paymentIntentId" (text (or_default session.payment_intent "")) (
      subscription_fields id subscription (
        field "providerCustomerId" (text_or_null (if_unexpanded session.customer))
          (field "customerId" (text_or_null (if_unexpanded session.customer)) end))))

-- the subscription of a session, if it has one
abbrev pub retrieve_subscription : Sdk → Option String → Outcome (Option SubscriptionObject)
retrieve_subscription sdk none = ok none
retrieve_subscription sdk (some id) =
    if truthy id
    then on_ok (sdk.subscriptions_retrieve id) (λ subscription. ok (some subscription))
    else ok none

abbrev pub is_subscription_done : Session → Bool
is_subscription_done session =
    (session.mode == "subscription")
    && (session.status == "complete")
    && ((session.payment_status == "paid") || (session.payment_status == "no_payment_required"))

abbrev pub session_result : Session → VerifyPaymentResult
session_result session =
    if session.payment_status == "paid"
    then success (
        field "sessionId" (text session.id) (
          field "paymentIntentId" (text (or_default session.payment_intent ""))
            (field "providerCustomerId" (text_or_null (if_unexpanded session.customer)) end)))
    else failure (str_append "Checkout Session payment_status: " session.payment_status)

-- the `try` block
abbrev pub check_session : Sdk → Session → Outcome VerifyPaymentResult
check_session sdk session =
    if is_subscription_done session
    then on_ok (retrieve_subscription sdk (expandable_id session.subscription)) (λ subscription.
      ok
        (success (subscription_metadata session (expandable_id session.subscription) subscription)))
    else ok (session_result session)

abbrev pub message_of : Fault → String
message_of (provider_fault message) = message
message_of _ = ""

-- the `catch` block
abbrev pub or_failure : Outcome VerifyPaymentResult → Outcome VerifyPaymentResult
or_failure (ok result) = ok result
or_failure (err e) = ok (failure (message_of e))

abbrev pub intent_result : PaymentIntent → VerifyPaymentResult
intent_result intent =
    if intent.status == "succeeded"
    then success (
        field "chargeId" (text_or_null intent.latest_charge)
          (field "providerCustomerId" (text_or_null (if_unexpanded intent.customer)) end))
    else failure
        (or_default intent.last_payment_error (str_append "PaymentIntent status: " intent.status))

-- with an order id; a session's starts with `cs_`
abbrev pub verify_order_id : Sdk → String → Outcome VerifyPaymentResult
verify_order_id sdk id =
    if starts_with id "cs_"
    then or_failure (on_ok (sdk.sessions_retrieve id) (check_session sdk))
    else on_ok (sdk.payment_intents_retrieve id) (λ intent. ok (intent_result intent))

-- Without an order id `startsWith` throws.
unfoldable pub verify_payment : Sdk → VerifyPaymentInput → Outcome VerifyPaymentResult
verify_payment sdk input = elim input.provider_order_id [
  | none ↦ err (provider_fault "TypeError")
  | some id ↦ verify_order_id sdk id
]

abbrev pub reason_text : String → Option String
reason_text reason =
    if reason == "duplicate"
    then some "duplicate"
    else if reason == "fraudulent"
    then some "fraudulent"
    else if reason == "customer_request"
    then some "requested_by_customer"
    else none

unfoldable pub map_refund_reason : Env → Option String → Option String
map_refund_reason env none = none
map_refund_reason env (some reason) =
    if truthy reason then reason_text (env.to_lower reason) else none

abbrev pub refund_state : Option String → RefundState
refund_state none = RefundState.failed
refund_state (some status) =
    if status == "succeeded"
    then RefundState.success
    else if status == "pending"
    then RefundState.pending
    else RefundState.failed

unfoldable pub refund_payment : Env → Sdk → RefundInput → Outcome RefundProviderResponse
unfolding map_refund_reason
refund_payment env sdk input =
    on_ok
      (sdk.refunds_create (record {
        payment_intent = input.provider_payment_id;
        amount = input.amount;
        reason = map_refund_reason env input.reason;
        currency = input.currency;
        idempotency_key = input.idempotency_key;
      }))
      (λ refund.
        ok (record { provider_refund_id = refund.id; status = refund_state refund.status }))

-- The provider, as the factory hands it over
abbrev pub stripe_provider : Env → Sdk → PaymentProvider
stripe_provider env sdk = record {
  create_payment = create_payment env sdk;
  verify_payment = verify_payment sdk;
  refund_payment = refund_payment env sdk;
}
