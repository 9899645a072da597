-- ===== src/Subscription.antt =====
-- `SubscriptionService` (src/modules/subscription/subscription.service.ts): the rows and the calls
-- that create, synchronise, cancel and change a subscription. Renewal is in Renewal.antt.
pub mod Lifecycle
pub mod Renewal
use payment_microservice.Prelude.{
  ℕ, zero, suc, ◌+◌, ◌*◌, String, Bool, true, false, ◌&&◌, ◌||◌, not, Option, none, some, List, ◌∷◌,
  ◌==◌, truthy, or_default, is_some, ltb, leb, if◌then◌else◌, find_first, find_many, update_where,
  count_where,
}
use payment_microservice.Store.{
  Subscription, SubscriptionStatus, Plan, PlanInterval, Provider, ErrorCode, Json, Metadata, Fields,
  text, number, date, object, end, field, get, merge, as_text, Db, Fault, bad_request, not_found,
  Action, pure, throw, gets, modify, or_throw, require, throw_if, ◌>>=◌, ◌>>◌, Env,
}
use payment_microservice.Audit.{log}

pub record CreateSubscriptionDto : Type 0 where
  pub tenant_id : String
  pub customer_id : String
  pub plan_id : String
  pub trial_override_days : Option ℕ
  pub metadata : Option Metadata
  pub actor_id : String

pub record SyncExternalSubscriptionDto : Type 0 where
  pub tenant_id : String
  pub customer_id : String
  pub plan_id : String
  pub provider : Provider
  pub provider_subscription_id : String
  pub actor_id : String
  pub status : SubscriptionStatus
  pub current_period_start : ℕ
  pub current_period_end : ℕ
  pub trial_start : Option ℕ
  pub trial_end : Option ℕ
  pub metadata : Option Metadata

pub record CancelSubscriptionDto : Type 0 where
  pub subscription_id : String
  pub tenant_id : Option String
  pub customer_id : Option String
  pub reason : Option String
  pub actor_id : String
  pub immediate : Bool

pub record UpdateSubscriptionPlanDto : Type 0 where
  pub subscription_id : String
  pub tenant_id : Option String
  pub customer_id : Option String
  pub plan_id : String
  pub actor_id : String

unfoldable pub calculate_next_period_end : Env → ℕ → PlanInterval → ℕ → ℕ
calculate_next_period_end env from PlanInterval.daily count = env.add_days from count
calculate_next_period_end env from PlanInterval.weekly count = env.add_days from (count * 7)
calculate_next_period_end env from PlanInterval.monthly count = env.add_months from count
calculate_next_period_end env from PlanInterval.yearly count = env.add_years from count

unfoldable pub get_active_plan_or_throw : String → Action Plan
get_active_plan_or_throw id = do
  found ← gets (λ db. find_first (λ p. p.id == id) db.plans)
  plan ← or_throw found (not_found ErrorCode.plan_not_found)
  throw_if (not plan.is_active) (bad_request ErrorCode.plan_inactive)
  pure plan

abbrev pub has_id : String → Subscription → Bool
has_id id s = s.id == id

-- A filter of a `where` that is left out for an absent or empty value
abbrev pub restricts : Option String → String → Bool
restricts none value = true
restricts (some wanted) value = if truthy wanted then value == wanted else true

abbrev pub matches : String → Option String → Option String → Subscription → Bool
matches id tenant_id customer_id s =
    (s.id == id) && restricts tenant_id s.tenant_id && restricts customer_id s.customer_id

abbrev pub update_subscription : String → (Subscription → Subscription) → Db → Db
update_subscription id f db = record db {
  subscriptions = update_where (has_id id) f db.subscriptions;
}

-- The audit entry of a call that was made outside a database transaction
abbrev pub log_unless_in : Bool → String → String → String → String → Action (Unit {0})
log_unless_in in_transaction tenant_id actor action id =
    if in_transaction
    then pure tt
    else log (record {
      tenant_id = tenant_id;
      actor = actor;
      action = action;
      resource_type = "Subscription";
      resource_id = id;
    })

-- The row of `createSubscription`
abbrev pub new_subscription : Env → CreateSubscriptionDto → Plan → String → Subscription
new_subscription env dto plan id =
    let trial_days = or_default dto.trial_override_days plan.trial_days in
    let on_trial = ltb 0 trial_days in
    let trial_end = env.add_days env.now trial_days in
    let start = if on_trial then trial_end else env.now in
    record {
      id = id;
      tenant_id = dto.tenant_id;
      customer_id = dto.customer_id;
      plan_id = dto.plan_id;
      status = if on_trial then SubscriptionStatus.trialing else SubscriptionStatus.active;
      current_period_start = start;
      current_period_end = calculate_next_period_end env start plan.interval plan.interval_count;
      cancelled_at = none;
      cancel_reason = none;
      trial_start = if on_trial then some env.now else none;
      trial_end = if on_trial then some trial_end else none;
      metadata = dto.metadata;
    }

abbrev pub add_subscription : Subscription → Db → Db
add_subscription row db = record db {
  issued = suc db.issued;
  subscriptions = row ∷ db.subscriptions;
}

-- The Boolean says whether the caller passes its own database transaction.
unfoldable pub create_subscription : Env → Bool → CreateSubscriptionDto → Action Subscription
unfolding get_active_plan_or_throw log
create_subscription env in_transaction dto = do
  plan ← get_active_plan_or_throw dto.plan_id
  row ← gets (λ db. new_subscription env dto plan (env.uuid db.issued))
  modify (add_subscription row)
  log_unless_in in_transaction dto.tenant_id dto.actor_id "SUBSCRIPTION_CREATED" row.id
  pure row

abbrev pub provider_text : Provider → String
provider_text Provider.stripe = "STRIPE"
provider_text Provider.razorpay = "RAZORPAY"
provider_text Provider.cash = "CASH"

-- `mergeMetadata`
abbrev pub merge_metadata : Option Metadata → Metadata → Metadata
merge_metadata none extra = merge end extra
merge_metadata (some metadata) extra = merge metadata extra

abbrev pub sync_metadata : SyncExternalSubscriptionDto → Metadata
sync_metadata dto = merge_metadata dto.metadata (
    field "provider" (text (provider_text dto.provider)) (
      field "providerSubscriptionId" (text dto.provider_subscription_id)
        (field "billingMode" (text "provider-managed") end)))

abbrev pub is_text : String → Option Json → Bool
is_text s (some (text t)) = t == s
is_text s _ = false

abbrev pub metadata_field : String → Option Metadata → Option Json
metadata_field k none = none
metadata_field k (some m) = get k m

-- `metadata: { path: ['providerSubscriptionId'], equals: id }`
abbrev pub has_provider_id : String → String → Subscription → Bool
has_provider_id tenant_id id s =
    (s.tenant_id == tenant_id) && is_text id (metadata_field "providerSubscriptionId" s.metadata)

-- The columns that `syncExternalSubscription` writes
abbrev pub synced : SyncExternalSubscriptionDto → Subscription → Subscription
synced dto s = record s {
  customer_id = dto.customer_id;
  plan_id = dto.plan_id;
  status = dto.status;
  current_period_start = dto.current_period_start;
  current_period_end = dto.current_period_end;
  trial_start = dto.trial_start;
  trial_end = dto.trial_end;
  metadata = some (sync_metadata dto);
}

abbrev pub external_subscription : SyncExternalSubscriptionDto → String → Subscription
external_subscription dto id = record {
  id = id;
  tenant_id = dto.tenant_id;
  customer_id = dto.customer_id;
  plan_id = dto.plan_id;
  status = dto.status;
  current_period_start = dto.current_period_start;
  current_period_end = dto.current_period_end;
  cancelled_at = none;
  cancel_reason = none;
  trial_start = dto.trial_start;
  trial_end = dto.trial_end;
  metadata = some (sync_metadata dto);
}

abbrev pub update_or_create :
    Env → Bool → SyncExternalSubscriptionDto → Option Subscription → Action Subscription
update_or_create env in_transaction dto (some existing) = do
  modify (update_subscription existing.id (synced dto))
  log_unless_in in_transaction dto.tenant_id dto.actor_id "SUBSCRIPTION_SYNCED" existing.id
  pure (synced dto existing)
update_or_create env in_transaction dto none = do
  row ← gets (λ db. external_subscription dto (env.uuid db.issued))
  modify (add_subscription row)
  log_unless_in in_transaction dto.tenant_id dto.actor_id "SUBSCRIPTION_CREATED" row.id
  pure row

unfoldable pub sync_external_subscription :
    Env → Bool → SyncExternalSubscriptionDto → Action Subscription
unfolding get_active_plan_or_throw log
sync_external_subscription env in_transaction dto = do
  plan ← get_active_plan_or_throw dto.plan_id
  existing ← gets (λ db.
      find_first (has_provider_id dto.tenant_id dto.provider_subscription_id) db.subscriptions)
  update_or_create env in_transaction dto existing
