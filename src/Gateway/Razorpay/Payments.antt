-- ===== src/Gateway/Razorpay/Payments.antt =====
-- `RazorpayProvider` (src/modules/payment/provider/razorpay/razorpay.provider.ts). The SDK and
-- HMAC-SHA256 (secret and text to hexadecimal digits) are parameters. Two texts have the same bytes
-- where they are equal. A property whose value is undefined holds `null`.
use payment_microservice.Prelude.{
  starts_with, ℕ, ◌+◌, ◌*◌, ◌/◌, ◌&&◌, ◌||◌, String, Bool, true, false, Option, none, some, ◌==◌,
  truthy, or_default, ltb, if◌then◌else◌,
}
use payment_microservice.Store.{
  text, number, boolean, end, field, Outcome, ok, err, provider_fault, on_ok, Env,
  CreatePaymentInput, ProviderPaymentResponse, VerifyPaymentInput, VerifyPaymentResult, RefundInput,
  RefundState, RefundProviderResponse, PaymentProvider,
}
use payment_microservice.Js.{positive_number, is_true, string_or, get_from}
use payment_microservice.Gateway.Razorpay.Sdk.{
  Order, PlanParams, PlanObject, SubscriptionParams, SubscriptionObject, Sdk,
}
use payment_microservice.Gateway.Stripe.Payments.{text_or_null, number_or_null}
use Prim.Native.String.{◌++◌ as str_append}

unfoldable pub map_plan_period : String → String
map_plan_period interval =
    if interval == "day"
    then "daily"
    else if interval == "week"
    then "weekly"
    else if interval == "year"
    then "yearly"
    else "monthly"

unfoldable pub map_subscription_status : Option String → Option String
map_subscription_status none = none
map_subscription_status (some s) =
    if s == "authenticated"
    then some "TRIALING"
    else if s == "active"
    then some "ACTIVE"
    else if (s == "pending") || (s == "halted")
    then some "PAST_DUE"
    else if (s == "cancelled") || (s == "completed")
    then some "CANCELLED"
    else none

abbrev pub resolve_total_count : ℕ
resolve_total_count = 120

abbrev pub plan_params : Env → CreatePaymentInput → PlanParams
plan_params env input = record {
  period = map_plan_period (string_or env "month" (get_from "interval" input.metadata));
  interval = or_default (positive_number env (get_from "intervalCount" input.metadata)) 1;
  name = string_or env "Subscription" (get_from "productName" input.metadata);
  amount = input.amount;
  currency = env.to_upper input.currency;
  description =
      str_append (string_or env "Subscription" (get_from "productName" input.metadata))
        " recurring billing";
  transaction_id = input.transaction_id;
  customer_id = input.customer_id;
}

-- `trialDays > 0 ? nowSeconds + trialDays * 24 * 60 * 60 : nowSeconds`
abbrev pub start_of : ℕ → Option ℕ → ℕ
start_of now_seconds none = now_seconds
start_of now_seconds (some days) = now_seconds + days * 24 * 60 * 60

abbrev pub start_at : Env → CreatePaymentInput → ℕ
start_at env input =
    start_of (env.now / 1000) (positive_number env (get_from "trialDays" input.metadata))

abbrev pub subscription_params : Env → CreatePaymentInput → PlanObject → SubscriptionParams
subscription_params env input plan = record {
  plan_id = plan.id;
  total_count = resolve_total_count;
  quantity = 1;
  customer_notify = 0;
  start_at = start_at env input;
  notes = field "transactionId" (text input.transaction_id) (
      field "customerId" (text input.customer_id) (
        field "planId" (text (string_or env "" (get_from "planId" input.metadata))) (
          field "productId" (text (string_or env "" (get_from "productId" input.metadata))) (
            field "customerEmail"
              (text (string_or env "" (get_from "customerEmail" input.metadata)))
              (field "tenantId"
                (text (string_or env "easydev" (get_from "tenantId" input.metadata))) end)))));
}

abbrev pub subscription_response :
    Env → CreatePaymentInput → PlanObject → SubscriptionObject → ProviderPaymentResponse
subscription_response env input plan s = record {
  provider_order_id = s.id;
  client_secret = none;
  session_url = none;
  method = "subscription";
  metadata = some (
      field "providerSubscriptionId" (text s.id) (
        field "razorpayPlanId" (text plan.id) (
          field "recurringMode" (boolean true) (
            field "subscriptionStatus" (text_or_null (map_subscription_status s.status)) (
              field "trialEnd" (number (start_at env input))
                (field "currentPeriodStart" (number (start_at env input)) end))))));
}

unfoldable pub create_recurring_subscription :
    Env → Sdk → CreatePaymentInput → Outcome ProviderPaymentResponse
create_recurring_subscription env sdk input =
    on_ok (sdk.plans_create (plan_params env input)) (λ plan.
      on_ok (sdk.subscriptions_create (subscription_params env input plan))
        (λ s. ok (subscription_response env input plan s)))

abbrev pub order_response : CreatePaymentInput → Order → ProviderPaymentResponse
order_response input order = record {
  provider_order_id = order.id;
  client_secret = none;
  session_url = none;
  method = or_default input.method "upi";
  metadata = some (field "orderId" (text order.id) (field "status" (text order.status) end));
}

unfoldable pub create_payment : Env → Sdk → CreatePaymentInput → Outcome ProviderPaymentResponse
unfolding create_recurring_subscription
create_payment env sdk input =
    if is_true (get_from "recurringMode" input.metadata)
    then create_recurring_subscription env sdk input
    else on_ok
        (sdk.orders_create (record {
          amount = input.amount;
          currency = env.to_upper input.currency;
          receipt = env.slice input.transaction_id 0 40;
          transaction_id = input.transaction_id;
          customer_id = input.customer_id;
        }))
        (λ order. ok (order_response input order))

-- `a ?? b` of optional numbers, as a positive number
abbrev pub as_unix_timestamp : Option ℕ → Option ℕ → Option ℕ
as_unix_timestamp none none = none
as_unix_timestamp none (some b) = if ltb 0 b then some b else none
as_unix_timestamp (some a) b = if ltb 0 a then some a else none

-- a trial has started if its end lies ahead
abbrev pub trial_start : Env → Option ℕ → Option ℕ
trial_start env none = none
trial_start env (some trial_end) =
    if ltb (env.now / 1000) trial_end then some (env.now / 1000) else none

abbrev pub is_authorised : String → Bool
is_authorised status = (status == "authenticated") || (status == "active")

abbrev pub subscription_result : Env → SubscriptionObject → VerifyPaymentResult
subscription_result env s =
    let status = or_default s.status "" in
    let trial_end = as_unix_timestamp s.start_at s.charge_at in
    record {
      is_success = is_authorised status;
      failure_reason =
          if is_authorised status then none else some (str_append "Subscription status: " status);
      metadata = some (
          field "providerSubscriptionId" (text s.id) (
            field "subscriptionId" (text s.id) (
              field "subscriptionStatus" (text_or_null (map_subscription_status (some status))) (
                field "trialStart" (number_or_null (trial_start env trial_end)) (
                  field "trialEnd" (number_or_null trial_end) (
                    field "currentPeriodStart"
                      (number_or_null (as_unix_timestamp s.current_start s.start_at))
                      (field "currentPeriodEnd"
                        (number_or_null (as_unix_timestamp s.current_end s.charge_at)) end)))))));
    }

-- `paymentId && signature`
abbrev pub both : Option String → Option String → Option (String × String)
both none signature = none
both (some payment_id) none = none
both (some payment_id) (some signature) =
    if truthy payment_id && truthy signature then some (payment_id, signature) else none

-- `${a}|${b}`
abbrev pub joined : String → String → String
joined a b = str_append a (str_append "|" b)

module _ (hmac : String → String → String) (key_secret : String) where
  abbrev pub verify_subscription :
      Env → Sdk → String → Option (String × String) → Outcome VerifyPaymentResult
  verify_subscription env sdk id none =
      on_ok (sdk.subscriptions_fetch id) (λ s. ok (subscription_result env s))
  verify_subscription env sdk id (some (payment_id, signature)) =
      if hmac key_secret (joined payment_id id) == signature
      then on_ok (sdk.subscriptions_fetch id) (λ s. ok (subscription_result env s))
      else ok (record {
        is_success = false;
        failure_reason = some "Subscription signature verification failed";
        metadata = none;
      })

  abbrev pub signature_result : Bool → VerifyPaymentResult
  signature_result is_valid = record {
    is_success = is_valid;
    failure_reason = if is_valid then none else some "Signature verification failed";
    metadata = none;
  }

  abbrev pub order_result : Order → VerifyPaymentResult
  order_result order = record {
    is_success = order.status == "paid";
    failure_reason =
        if order.status == "paid" then none else some (str_append "Order status: " order.status);
    metadata = none;
  }

  abbrev pub verify_order : Sdk → String → Option (String × String) → Outcome VerifyPaymentResult
  verify_order sdk id none = on_ok (sdk.orders_fetch id) (λ order. ok (order_result order))
  verify_order sdk id (some (payment_id, signature)) =
      ok (signature_result (hmac key_secret (joined id payment_id) == signature))

  abbrev pub verify_order_id :
      Env → Sdk → String → Option (String × String) → Outcome VerifyPaymentResult
  verify_order_id env sdk id signed =
      if starts_with id "sub_"
      then verify_subscription env sdk id signed
      else verify_order sdk id signed

  -- Without an order id `startsWith` throws.
  unfoldable pub verify_payment : Env → Sdk → VerifyPaymentInput → Outcome VerifyPaymentResult
  verify_payment env sdk input = elim input.provider_order_id [
    | none ↦ err (provider_fault "TypeError")
    | some id ↦ verify_order_id env sdk id (both input.provider_payment_id input.provider_signature)
  ]

abbrev pub refund_state : String → RefundState
refund_state status =
    if status == "processed"
    then RefundState.success
    else if status == "pending"
    then RefundState.pending
    else RefundState.failed

unfoldable pub refund_payment : Sdk → RefundInput → Outcome RefundProviderResponse
refund_payment sdk input =
    on_ok
      (sdk.payments_refund input.provider_payment_id input.amount
        (or_default input.reason "Refund requested"))
      (λ refund.
        ok (record { provider_refund_id = refund.id; status = refund_state refund.status }))

-- Without a secret every webhook is refused.
unfoldable pub verify_webhook_signature :
    (String → String → String) → String → String → String → Bool
verify_webhook_signature hmac webhook_secret raw_body signature =
    if truthy webhook_secret then hmac webhook_secret raw_body == signature else false

-- The provider, as the factory hands it over
abbrev pub razorpay_provider : (String → String → String) → String → Env → Sdk → PaymentProvider
razorpay_provider hmac key_secret env sdk = record {
  create_payment = create_payment env sdk;
  verify_payment = verify_payment hmac key_secret env sdk;
  refund_payment = refund_payment sdk;
}
