-- ===== src/Plan/Retired.antt =====
-- What follows for subscriptions when a plan is deactivated.
use payment_microservice.Prelude.{
  String, Bool, ◌==◌, Bool-cases, find_first, find_first-update_where, ◌≡◌, refl, arith,
  Option-cases, inl, inr,
}
use payment_microservice.Store.{
  as_text, Fault, Plan, ErrorCode, Db, bad_request, not_found, ok, err, Env,
}
use payment_microservice.Subscription.{
  CreateSubscriptionDto, SyncExternalSubscriptionDto, UpdateSubscriptionPlanDto,
  create_subscription, sync_external_subscription, get_active_plan_or_throw, matches,
  metadata_field,
}
use payment_microservice.Subscription.Lifecycle.{update_subscription_plan, is_closed, is_external}
use payment_microservice.Plan.{has_id, retired, deactivate}

inactive_lem :
    (id tenant_id : String) (db : Db) {plan : Plan}
    → (deactivate id tenant_id db).0 ≡ ok plan
    → get_active_plan_or_throw id (deactivate id tenant_id db).1
      ≡ (err (bad_request ErrorCode.plan_inactive), (deactivate id tenant_id db).1)
unfolding deactivate get_active_plan_or_throw
inactive_lem id tenant_id db {plan} done = elim (Option-cases (find_first (has_id id) db.plans)) [
  | inl absent ↦ ground arith
  | inr (p, found) ↦
      ground (arith, find_first-update_where (has_id id) retired db.plans {r = p} (λ x. refl) found)
]

change_lem :
    (env : Env) (dto : UpdateSubscriptionPlanDto) (db : Db)
    → get_active_plan_or_throw dto.plan_id db ≡ (err (bad_request ErrorCode.plan_inactive), db)
    → (e : Fault) × (update_subscription_plan env dto db ≡ (err e, db))
unfolding update_subscription_plan
change_lem env dto db inactive =
    elim (Option-cases
      (find_first (matches dto.subscription_id dto.tenant_id dto.customer_id) db.subscriptions)) [
        | inl absent ↦ (not_found ErrorCode.subscription_not_found, rw absent refl)
        | inr (s, found) ↦ elim (Bool-cases (is_closed s.status)) [
          | inl closed ↦ (bad_request ErrorCode.subscription_not_renewable, rw (found, closed) refl)
          | inr open_yet ↦ elim (Bool-cases (s.plan_id == dto.plan_id)) [
            | inl same ↦ (bad_request ErrorCode.plan_inactive, rw (found, open_yet, same) refl)
            | inr new ↦
                elim (Bool-cases (
                  is_external env (as_text (metadata_field "providerSubscriptionId" s.metadata)))) [
                    | inl external ↦ (
                      bad_request ErrorCode.subscription_not_renewable,
                      rw (found, open_yet, new, external) refl,
                    )
                    | inr managed ↦ (
                      bad_request ErrorCode.plan_inactive,
                      rw (found, open_yet, new, managed, inactive) refl,
                    )
                  ]
          ]
        ]
      ]

-- Once `deactivate` has returned, no subscription gets the plan by any of the three ways in which the
-- service gives one to a subscription: creating a subscription, inside a database transaction or
-- outside, and taking over the state of a provider's subscription, new or known, are refused as
-- PLAN_INACTIVE and write nothing; a change to the plan throws and writes nothing, whatever the
-- subscription is.
pub deactivate-subscriptions :
    (id tenant_id : String) (db : Db) {plan : Plan}
    → (deactivate id tenant_id db).0 ≡ ok plan
    → (env : Env) (in_transaction : Bool)
    → let after = (deactivate id tenant_id db).1 in
      ((dto : CreateSubscriptionDto)
        → dto.plan_id ≡ id
        → create_subscription env in_transaction dto after
          ≡ (err (bad_request ErrorCode.plan_inactive), after))
      × ((dto : SyncExternalSubscriptionDto)
          → dto.plan_id ≡ id
          → sync_external_subscription env in_transaction dto after
            ≡ (err (bad_request ErrorCode.plan_inactive), after))
      × ((dto : UpdateSubscriptionPlanDto)
          → dto.plan_id ≡ id
          → (e : Fault) × (update_subscription_plan env dto after ≡ (err e, after)))
unfolding create_subscription sync_external_subscription
deactivate-subscriptions id tenant_id db done env in_transaction = (
  λ dto same. rw (same, inactive_lem id tenant_id db done) refl,
  λ dto same. rw (same, inactive_lem id tenant_id db done) refl,
  λ dto same. change_lem env dto _ (rw same (inactive_lem id tenant_id db done)),
)
