-- ===== src/Tests/Requests.antt =====
-- Guards, lists, amounts, plans, saved payment methods and the cache at concrete inputs.
use payment_microservice.Prelude.{
  ℕ, ◌≤◌, String, true, false, none, some, List, [], ◌∷◌, ◌==◌, truthy, pos, length, find_first,
  find_many, count_where, ◌≡◌, refl, ◌↔◌, ◌⊎◌, arith,
}
use payment_microservice.Store.{
  Db, Outcome, ok, err, bad_request, Fault, ErrorCode, Plan, PlanInterval, InitiatePaymentResult,
}
use payment_microservice.Idempotency
use payment_microservice.Idempotency.Map.{view, insert, remove, view-store}
use payment_microservice.Subscription.{
  CreateSubscriptionDto, SyncExternalSubscriptionDto, UpdateSubscriptionPlanDto,
  create_subscription, sync_external_subscription,
}
use payment_microservice.Subscription.Lifecycle.{update_subscription_plan}
use payment_microservice.Plan
use payment_microservice.Plan.Retired.{deactivate-subscriptions}
use payment_microservice.Http.Permissions.{Permission, permission_text}
use payment_microservice.Http.Guards.{
  JwtPayload, Request, Route, Security, service_or_jwt_guard, admin_guards, with_user, service_user,
  has_role, or_no_texts,
}
use payment_microservice.Http.Access.{
  AreGranted, IsService, IsVerified, service_or_jwt_guard-user, admin_guards-AreGranted,
}
use payment_microservice.Admin.{page_count, paginate}
use payment_microservice.Admin.Pages.{rows_of, first_pages, first_pages-paginate}
use payment_microservice.Tests.World.{here, empty_db}

abbrev monthly : Plan
monthly = record {
  id = "plan";
  tenant_id = "shop";
  application_id = none;
  name = "Monthly";
  description = none;
  amount = pos 500;
  currency = "INR";
  interval = PlanInterval.monthly;
  interval_count = 1;
  trial_days = 0;
  is_active = true;
  metadata = none;
}

abbrev with_plan : Db
with_plan = record empty_db { plans = monthly ∷ [] }

abbrev subscribe : CreateSubscriptionDto
subscribe = record {
  tenant_id = "shop";
  customer_id = "ann";
  plan_id = "plan";
  trial_override_days = none;
  metadata = none;
  actor_id = "ann";
}

deactivate-subscriptions_example :
    let after = (Plan.deactivate "plan" "shop" with_plan).1 in
    ((dto : CreateSubscriptionDto)
      → dto.plan_id ≡ "plan"
      → create_subscription here false dto after
        ≡ (err (bad_request ErrorCode.plan_inactive), after))
    × ((dto : SyncExternalSubscriptionDto)
        → dto.plan_id ≡ "plan"
        → sync_external_subscription here false dto after
          ≡ (err (bad_request ErrorCode.plan_inactive), after))
    × ((dto : UpdateSubscriptionPlanDto)
        → dto.plan_id ≡ "plan"
        → (e : Fault) × (update_subscription_plan here dto after ≡ (err e, after)))
unfolding Plan.deactivate find_first truthy ◌==◌
deactivate-subscriptions_example =
    deactivate-subscriptions "plan" "shop" with_plan {plan = Plan.retired monthly} refl here false

abbrev ann : JwtPayload
ann = record {
  sub = "ann";
  tenant_id = "shop";
  email = none;
  roles = some ("admin" ∷ []);
  permissions = some ("admin:refunds" ∷ []);
}

abbrev request : Request
request = record {
  api_key = some "key";
  x_user_id = none;
  x_tenant_id = some "shop";
  x_user_email = none;
  authorization = none;
  user = some ann;
}

abbrev refunds_route : Route
refunds_route = record {
  is_public = false;
  required_permissions = some (permission_text Permission.admin_refunds ∷ []);
  required_roles = some ("admin" ∷ "support" ∷ []);
}

abbrev security : Security
security = record {
  api_key_hash = some "key";
  jwt_public_key = none;
  jwt_secret = some "secret";
  sha256 = λ key. key;
  verify = λ token key. some ann;
  after_bearer = λ header. header;
}

service_or_jwt_guard-user_example :
    IsService security request (with_user (service_user request) request)
    ⊎ IsVerified security request (with_user (service_user request) request)
unfolding service_or_jwt_guard truthy ◌==◌
service_or_jwt_guard-user_example =
    service_or_jwt_guard-user security refunds_route request refl refl

admin_guards-AreGranted_example :
    (admin_guards (λ r. ok ann) refunds_route request ≡ ok (with_user ann request)) ↔ (
      (user : JwtPayload) × (◌≡◌ {A = Outcome JwtPayload} (ok ann) (ok user))
      × (with_user ann request ≡ with_user user request)
      × (has_role ("admin" ∷ "support" ∷ []) (or_no_texts user.roles) ≡ true)
      × AreGranted ("admin:refunds" ∷ []) (or_no_texts user.permissions))
admin_guards-AreGranted_example =
    admin_guards-AreGranted (λ r. ok ann) refunds_route request (with_user ann request) refl refl

abbrev names : List String
names = "ann" ∷ "bob" ∷ "cid" ∷ []

first_pages-paginate_example :
    (pages : ℕ) × (page_count (count_where (λ name. true) names) 2 ≡ some pages)
    × ((page : ℕ) → length (rows_of (paginate (λ name. true) names page 2)) ≤ 2)
    × (first_pages (λ name. true) names pages 2 ≡ find_many (λ name. true) names)
first_pages-paginate_example = first_pages-paginate (λ name. true) names 1

abbrev options : InitiatePaymentResult
options = record { transaction_id = "t"; options = [] }

view-store_example :
    (view here (Idempotency.store here "k" options empty_db).1
      ≡ insert "k" options (view here empty_db))
    × (view here (Idempotency.release here "k" empty_db).1 ≡ remove "k" (view here empty_db))
    × ((other : String) → Idempotency.get here other empty_db ≡ view here empty_db other)
view-store_example = view-store here "k" options empty_db (omega arith)
