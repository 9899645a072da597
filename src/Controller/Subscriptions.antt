-- ===== src/Controller/Subscriptions.antt =====
-- `SubscriptionController` (src/modules/subscription/subscription.controller.ts).
use payment_microservice.Prelude.{
  ℕ, String, Bool, true, false, not, Option, none, some, List, ◌==◌, truthy, if◌then◌else◌,
}
use payment_microservice.Store.{
  Plan, Subscription, ErrorCode, bad_request, Outcome, ok, err, Action, throw, gets, Env,
}
use payment_microservice.Http.Guards.{JwtPayload, Request, Security, api_key_guard}
use payment_microservice.Controller.{with_service_or_jwt, with_jwt}
use payment_microservice.Plan
use payment_microservice.Subscription.{create_subscription}
use payment_microservice.Subscription.Lifecycle.{
  cancel_subscription, update_subscription_plan, find_by_id, find_by_customer,
}

-- `@UseGuards(ApiKeyGuard)`
abbrev pub with_api_key : {A : Type 0} → Outcome Request → Action A → Action A
with_api_key (err e) handler = throw e
with_api_key (ok passed) handler = handler

-- the tenant of a request whose route has no guard: that of a user whom nobody has set
abbrev pub tenant_of : Option JwtPayload → Option String
tenant_of none = none
tenant_of (some user) = some user.tenant_id

-- `includeInactive !== 'true'`
abbrev pub is_only_active : Option String → Bool
is_only_active none = true
is_only_active (some s) = not (s == "true")

unfoldable pub list_plans : Request → Option String → Option String → Action (List Plan)
list_plans request include_inactive application_id =
    gets (Plan.find_all (tenant_of request.user) (is_only_active include_inactive) application_id)

unfoldable pub get_plan : Request → String → Action Plan
get_plan request id = Plan.find_by_id id (tenant_of request.user)

module _ (security : Security) (env : Env) (request : Request) where
  unfoldable pub create_plan : Plan.CreatePlanDto → Action Plan
  create_plan dto = with_api_key (api_key_guard security request) (Plan.create env dto)

  unfoldable pub deactivate_plan : String → String → Action Plan
  deactivate_plan id tenant_id = with_api_key (api_key_guard security request) (
      if truthy tenant_id
      then Plan.deactivate id tenant_id
      else throw (bad_request ErrorCode.uncoded))

  unfoldable pub list_subscriptions : ℕ → ℕ → Action (List Subscription × ℕ)
  list_subscriptions page limit =
      with_service_or_jwt security "subscription:read" request
        (λ user. gets (find_by_customer user.tenant_id user.sub page limit))

  unfoldable pub get_subscription : String → Action Subscription
  get_subscription id =
      with_service_or_jwt security "subscription:read" request
        (λ user. find_by_id id (some user.tenant_id))

  unfoldable pub change_plan : String → String → Action Subscription
  change_plan id plan_id = with_service_or_jwt security "subscription:write" request (λ user.
      update_subscription_plan env (record {
        subscription_id = id;
        tenant_id = some user.tenant_id;
        customer_id = some user.sub;
        plan_id = plan_id;
        actor_id = user.sub;
      }))

  unfoldable pub cancel : String → Option String → Bool → Action Subscription
  cancel id reason immediate = with_service_or_jwt security "subscription:cancel" request (λ user.
      cancel_subscription env (record {
        subscription_id = id;
        tenant_id = some user.tenant_id;
        customer_id = some user.sub;
        reason = reason;
        actor_id = user.sub;
        immediate = immediate;
      }))

module _ (passport : Request → Outcome JwtPayload) (env : Env) (request : Request) where
  unfoldable pub subscribe : String → Option ℕ → Action Subscription
  subscribe plan_id trial_override_days = with_jwt passport "subscription:write" request (λ user.
      create_subscription env false (record {
        tenant_id = user.tenant_id;
        customer_id = user.sub;
        plan_id = plan_id;
        trial_override_days = trial_override_days;
        metadata = none;
        actor_id = user.sub;
      }))
