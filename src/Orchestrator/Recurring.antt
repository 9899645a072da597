-- ===== src/Orchestrator/Recurring.antt =====
-- `syncRecurringSubscriptionOnSuccess` and the helpers that read metadata
-- (src/modules/payment/orchestrator/payment-orchestrator.service.ts).
use payment_microservice.Prelude.{
  starts_with, ℕ, ◌*◌, String, Bool, true, false, Option, none, some, ◌==◌, truthy, or_default, ltb,
  leb, if◌then◌else◌, List, [], ◌∷◌,
}
use payment_microservice.Store.{
  Provider, SubscriptionStatus, Json, null, text, number, date, Metadata, end, field, get, merge,
  as_text, Action, pure, ◌>>◌, Env,
}
use payment_microservice.Js.{positive_number}
use payment_microservice.Subscription.{
  CreateSubscriptionDto, create_subscription, sync_external_subscription, provider_text,
}

pub record SyncInput : Type 0 where
  pub tenant_id : String
  pub customer_id : String
  pub transaction_metadata : Metadata
  pub provider : Provider
  pub provider_order_id : Option String
  pub attempt_metadata : Metadata
  pub actor_id : String

-- a field that is set to `undefined` where there is no text
abbrev pub text_or_null : Option String → Json
text_or_null none = null
text_or_null (some s) = text s

abbrev pub as_billing_metadata : Option Metadata → Metadata
as_billing_metadata none = end
as_billing_metadata (some m) = m

-- `new Date(ms)` is invalid beyond 8.64e15
abbrev pub valid_date : ℕ → Option ℕ
valid_date ms = if leb ms 8_640_000_000_000_000 then some ms else none

abbrev pub date_of : Env → Option Json → Option ℕ
date_of env (some (date ms)) = some ms
date_of env (some (number n)) = valid_date (if ltb 10_000_000_000 n then n else n * 1000)
date_of env (some (text s)) = if truthy s then env.date_of_text s else none
date_of env _ = none

-- `resolveDate(...values)`: the first that is a date
unfoldable pub resolve_date : Env → List (Option Json) → Option ℕ
resolve_date env [] = none
resolve_date env (v ∷ vs) =
    let rest = resolve_date env vs in elim (date_of env v) [ some ms ↦ some ms | none ↦ rest ]

-- no trial unless the number is positive
abbrev pub resolve_trial_override_days : Env → Option Json → Option ℕ
resolve_trial_override_days = positive_number

abbrev pub named_status : String → Option SubscriptionStatus
named_status s =
    if s == "TRIALING"
    then some SubscriptionStatus.trialing
    else if s == "ACTIVE"
    then some SubscriptionStatus.active
    else if s == "PAST_DUE"
    then some SubscriptionStatus.past_due
    else if s == "CANCELLED"
    then some SubscriptionStatus.cancelled
    else if s == "EXPIRED"
    then some SubscriptionStatus.expired
    else none

abbrev pub status_by_trial : Env → Option ℕ → SubscriptionStatus
status_by_trial env none = SubscriptionStatus.active
status_by_trial env (some trial_end) =
    if ltb env.now trial_end then SubscriptionStatus.trialing else SubscriptionStatus.active

abbrev pub named_or_by_trial : Env → Option String → Option ℕ → SubscriptionStatus
named_or_by_trial env none trial_end = status_by_trial env trial_end
named_or_by_trial env (some s) trial_end =
    or_default (named_status (env.to_upper s)) (status_by_trial env trial_end)

unfoldable pub resolve_subscription_status : Env → Option Json → Option ℕ → SubscriptionStatus
resolve_subscription_status env raw trial_end = named_or_by_trial env (as_text raw) trial_end

abbrev pub razorpay_order : Provider → Option String → Option String
razorpay_order Provider.razorpay (some order) =
    if starts_with order "sub_" then some order else none
razorpay_order _ _ = none

abbrev pub explicit_or : Option String → Option String → Option String
explicit_or none fallback = fallback
explicit_or (some s) fallback = if truthy s then some s else fallback

unfoldable pub resolve_provider_subscription_id :
    Provider → Option String → Metadata → Option String
resolve_provider_subscription_id p order metadata =
    explicit_or (as_text (get "providerSubscriptionId" metadata)) (razorpay_order p order)

abbrev pub cash_subscription : Env → SyncInput → String → CreateSubscriptionDto
cash_subscription env input plan_id = record {
  tenant_id = input.tenant_id;
  customer_id = input.customer_id;
  plan_id = plan_id;
  trial_override_days =
      resolve_trial_override_days env (get "trialDays" input.transaction_metadata);
  metadata = some (
      merge input.transaction_metadata (
        merge input.attempt_metadata (
          field "billingMode" (text "subscription") (
            field "provider" (text (provider_text input.provider))
              (field "providerOrderId" (text_or_null input.provider_order_id) end)))));
  actor_id = input.actor_id;
}

abbrev pub attempt_date : Env → SyncInput → String → String → Option ℕ
attempt_date env input first second =
    resolve_date env (get first input.attempt_metadata ∷ get second input.attempt_metadata ∷ [])

-- the call of `syncExternalSubscription`, if both ends of the period are known
abbrev pub sync_period : Env → SyncInput → String → String → Option ℕ → Option ℕ → Action (Unit {0})
sync_period env input plan_id id (some from) (some to) =
    let trial_end = resolve_date env (get "trialEnd" input.attempt_metadata ∷ []) in
    sync_external_subscription env true (record {
      tenant_id = input.tenant_id;
      customer_id = input.customer_id;
      plan_id = plan_id;
      provider = input.provider;
      provider_subscription_id = id;
      actor_id = input.actor_id;
      status =
          resolve_subscription_status env (get "subscriptionStatus" input.attempt_metadata)
            trial_end;
      current_period_start = from;
      current_period_end = to;
      trial_start = resolve_date env (get "trialStart" input.attempt_metadata ∷ []);
      trial_end = trial_end;
      metadata = some (merge input.transaction_metadata input.attempt_metadata);
    })
    >> pure tt
sync_period env input plan_id id _ _ = pure tt

abbrev pub sync_external : Env → SyncInput → String → Option String → Action (Unit {0})
sync_external env input plan_id none = pure tt
sync_external env input plan_id (some id) =
    sync_period env input plan_id id (attempt_date env input "currentPeriodStart" "periodStart")
      (attempt_date env input "currentPeriodEnd" "periodEnd")

abbrev pub sync_by_provider : Env → SyncInput → String → Provider → Action (Unit {0})
sync_by_provider env input plan_id Provider.cash =
    create_subscription env true (cash_subscription env input plan_id) >> pure tt
sync_by_provider env input plan_id p =
    sync_external env input plan_id
      (resolve_provider_subscription_id p input.provider_order_id input.attempt_metadata)

abbrev pub sync_plan : Env → SyncInput → Option String → Action (Unit {0})
sync_plan env input none = pure tt
sync_plan env input (some plan_id) =
    if truthy plan_id then sync_by_provider env input plan_id input.provider else pure tt

abbrev pub is_recurring : Option String → Bool
is_recurring none = false
is_recurring (some mode) = mode == "subscription"

unfoldable pub sync_recurring_subscription_on_success : Env → SyncInput → Action (Unit {0})
sync_recurring_subscription_on_success env input =
    if is_recurring (as_text (get "billingMode" input.transaction_metadata))
    then sync_plan env input (as_text (get "planId" input.transaction_metadata))
    else pure tt
