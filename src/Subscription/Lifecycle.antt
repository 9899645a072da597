-- ===== src/Subscription/Lifecycle.antt =====
-- `SubscriptionService`: status updates, cancellation and change of plan
-- (src/modules/subscription/subscription.service.ts).
use payment_microservice.Prelude.{
  ℕ, String, Bool, true, false, ◌&&◌, Option, none, some, List, ◌==◌, truthy, if◌then◌else◌, ◌-◌,
  ◌*◌, find_first, find_many, count_where, take, drop, leb,
}
use payment_microservice.Store.{
  Subscription, SubscriptionStatus, ErrorCode, Metadata, text, date, object, end, field, merge,
  as_text, Db, bad_request, not_found, Action, pure, gets, modify, or_throw, throw_if, ◌>>=◌, ◌>>◌,
  Env,
}
use payment_microservice.Audit.{log}
use payment_microservice.Subscription.{
  CancelSubscriptionDto, UpdateSubscriptionPlanDto, get_active_plan_or_throw, matches,
  has_provider_id, update_subscription, log_unless_in, metadata_field,
}

abbrev pub with_status : SubscriptionStatus → Subscription → Subscription
with_status status s = record s { status = status }

abbrev pub set_status_of :
    Bool → String → SubscriptionStatus → String → Option Subscription → Action (Option Subscription)
set_status_of in_transaction tenant_id status actor_id none = pure none
set_status_of in_transaction tenant_id status actor_id (some existing) = do
  modify (update_subscription existing.id (with_status status))
  log_unless_in in_transaction tenant_id actor_id "SUBSCRIPTION_STATUS_UPDATED" existing.id
  pure (some (with_status status existing))

unfoldable pub mark_external_subscription_status :
    Bool → String → String → SubscriptionStatus → String → Action (Option Subscription)
unfolding log
mark_external_subscription_status in_transaction tenant_id provider_subscription_id status
      actor_id =
    do
      existing ←
          gets
            (λ db. find_first (has_provider_id tenant_id provider_subscription_id) db.subscriptions)
      set_status_of in_transaction tenant_id status actor_id existing

abbrev pub is_cancelled : SubscriptionStatus → Bool
is_cancelled SubscriptionStatus.cancelled = true
is_cancelled _ = false

abbrev pub cancelled : ℕ → CancelSubscriptionDto → Subscription → Subscription
cancelled now dto s = record s {
  status = SubscriptionStatus.cancelled;
  cancelled_at = some now;
  cancel_reason = dto.reason;
  current_period_end = if dto.immediate then now else s.current_period_end;
}

unfoldable pub cancel_subscription : Env → CancelSubscriptionDto → Action Subscription
unfolding log
cancel_subscription env dto = do
  found ← gets (λ db.
      find_first (matches dto.subscription_id dto.tenant_id dto.customer_id) db.subscriptions)
  s ← or_throw found (not_found ErrorCode.subscription_not_found)
  throw_if (is_cancelled s.status) (bad_request ErrorCode.subscription_already_cancelled)
  modify (update_subscription dto.subscription_id (cancelled env.now dto))
  log (record {
    tenant_id = s.tenant_id;
    actor = dto.actor_id;
    action = "SUBSCRIPTION_CANCELLED";
    resource_type = "Subscription";
    resource_id = dto.subscription_id;
  })
  pure (cancelled env.now dto s)

-- CANCELLED or EXPIRED
abbrev pub is_closed : SubscriptionStatus → Bool
is_closed SubscriptionStatus.cancelled = true
is_closed SubscriptionStatus.expired = true
is_closed _ = false

abbrev pub or_empty : Option Metadata → Metadata
or_empty none = end
or_empty (some m) = m

-- The subscription belongs to a provider: it has a provider's id that is not blank.
abbrev pub is_external : Env → Option String → Bool
is_external env none = false
is_external env (some id) = truthy (env.trim id)

abbrev pub plan_change : String → String → ℕ → Metadata
plan_change from_plan to_plan now =
    field "lastPlanChange"
      (object (
        field "fromPlanId" (text from_plan)
          (field "toPlanId" (text to_plan) (field "changedAt" (date now) end))))
      end

abbrev pub changed_plan : ℕ → String → String → Option Metadata → Subscription → Subscription
changed_plan now from_plan to_plan metadata s = record s {
  plan_id = to_plan;
  metadata = some (merge (or_empty metadata) (plan_change from_plan to_plan now));
}

unfoldable pub update_subscription_plan : Env → UpdateSubscriptionPlanDto → Action Subscription
unfolding log get_active_plan_or_throw
update_subscription_plan env dto = do
  found ← gets (λ db.
      find_first (matches dto.subscription_id dto.tenant_id dto.customer_id) db.subscriptions)
  s ← or_throw found (not_found ErrorCode.subscription_not_found)
  throw_if (is_closed s.status) (bad_request ErrorCode.subscription_not_renewable)
  throw_if (s.plan_id == dto.plan_id) (bad_request ErrorCode.plan_inactive)
  throw_if (is_external env (as_text (metadata_field "providerSubscriptionId" s.metadata)))
      (bad_request ErrorCode.subscription_not_renewable)
  next_plan ← get_active_plan_or_throw dto.plan_id
  modify (
      update_subscription dto.subscription_id
        (changed_plan env.now s.plan_id dto.plan_id s.metadata))
  log (record {
    tenant_id = s.tenant_id;
    actor = dto.actor_id;
    action = "SUBSCRIPTION_PLAN_CHANGED";
    resource_type = "Subscription";
    resource_id = dto.subscription_id;
  })
  pure (changed_plan env.now s.plan_id dto.plan_id s.metadata s)

-- `findById`, whose tenant is optional
unfoldable pub find_by_id : String → Option String → Action Subscription
find_by_id id tenant_id = do
  found ← gets (λ db. find_first (matches id tenant_id none) db.subscriptions)
  or_throw found (not_found ErrorCode.subscription_not_found)

-- ACTIVE or PAST_DUE
abbrev pub is_collectable : SubscriptionStatus → Bool
is_collectable SubscriptionStatus.active = true
is_collectable SubscriptionStatus.past_due = true
is_collectable _ = false

unfoldable pub find_due_for_renewal : Env → Db → List Subscription
find_due_for_renewal env db =
    find_many (λ s. is_collectable s.status && leb s.current_period_end env.now) db.subscriptions

abbrev pub of_customer : String → String → Subscription → Bool
of_customer tenant_id customer_id s = (s.tenant_id == tenant_id) && (s.customer_id == customer_id)

-- A page of a customer's subscriptions, newest first, and their number. Pages count from 1.
unfoldable pub find_by_customer : String → String → ℕ → ℕ → Db → List Subscription × ℕ
find_by_customer tenant_id customer_id page limit db = (
  take limit
      (drop ((page - 1) * limit) (find_many (of_customer tenant_id customer_id) db.subscriptions)),
  count_where (of_customer tenant_id customer_id) db.subscriptions,
)
