-- ===== src/Iam/Permissions.antt =====
-- `IamPermissionRegistrar` (src/modules/iam/iam-permission-registrar.service.ts): what the service asks
-- the identity service to register when it starts. The descriptions, and what becomes of the answer,
-- which is logged, are left out.
use payment_microservice.Prelude.{
  String, Option, none, some, List, [], ◌∷◌, map, ◌==◌, truthy, if◌then◌else◌, count_where, ◌≡◌,
  refl, arith, Bool-cases, inl, inr, subst, ap,
}
use mathlib.Core.Option.{some-injective}
use payment_microservice.Http.Permissions.{Permission, permission_text}
use Prim.Native.String.{◌++◌ as str_append}

pub record Registration : Type 0 where
  pub url : String
  pub api_key : String
  pub source : String
  pub permissions : List String

abbrev pub payment_permissions : List Permission
payment_permissions =
    Permission.payment_read ∷ Permission.payment_write ∷ Permission.refund_read
    ∷ Permission.refund_write ∷ Permission.invoice_read ∷ Permission.invoice_write
    ∷ Permission.invoice_void ∷ Permission.subscription_read ∷ Permission.subscription_write
    ∷ Permission.subscription_cancel ∷ Permission.plan_read ∷ Permission.plan_manage
    ∷ Permission.admin_dashboard ∷ Permission.admin_transactions ∷ Permission.admin_refunds
    ∷ Permission.admin_invoices ∷ Permission.admin_subscriptions ∷ Permission.admin_webhooks
    ∷ Permission.admin_audit ∷ Permission.admin_ledger ∷ []

-- the one request of `onApplicationBootstrap`, if it makes one
unfoldable pub on_application_bootstrap : String → String → Option Registration
on_application_bootstrap base_url api_key =
    if truthy base_url
    then (if truthy api_key
        then some (record {
          url = str_append base_url "/api/v1/iam/rbac/permissions/register";
          api_key = api_key;
          source = "payment-microservice";
          permissions = map permission_text payment_permissions;
        })
        else none)
    else none

abbrev registered : List String
registered = map permission_text payment_permissions

registered_once : (p : Permission) → count_where (λ text. text == permission_text p) registered ≡ 1
unfolding count_where ◌==◌
registered_once Permission.payment_read = refl
registered_once Permission.payment_write = refl
registered_once Permission.refund_read = refl
registered_once Permission.refund_write = refl
registered_once Permission.invoice_read = refl
registered_once Permission.invoice_write = refl
registered_once Permission.invoice_void = refl
registered_once Permission.subscription_read = refl
registered_once Permission.subscription_write = refl
registered_once Permission.subscription_cancel = refl
registered_once Permission.plan_read = refl
registered_once Permission.plan_manage = refl
registered_once Permission.admin_dashboard = refl
registered_once Permission.admin_transactions = refl
registered_once Permission.admin_refunds = refl
registered_once Permission.admin_invoices = refl
registered_once Permission.admin_subscriptions = refl
registered_once Permission.admin_webhooks = refl
registered_once Permission.admin_audit = refl
registered_once Permission.admin_ledger = refl

-- Whatever route a permission guards, it can be granted: where the identity service and its key are
-- configured, the start of the service registers every permission, each exactly once.
pub on_application_bootstrap-permission :
    (base_url api_key : String) (p : Permission) {sent : Registration}
    → on_application_bootstrap base_url api_key ≡ some sent
    → count_where (λ text. text == permission_text p) sent.permissions ≡ 1
unfolding on_application_bootstrap
on_application_bootstrap-permission base_url api_key p {sent} h =
    elim (Bool-cases (truthy base_url)) [
      | inl url ↦ elim (Bool-cases (truthy api_key)) [
        | inl key ↦
            subst (λ texts. count_where (λ text. text == permission_text p) texts ≡ 1)
              (ap (λ (r : Registration). r.permissions) (some-injective _ _ (rw (url, key) at h)))
              (registered_once p)
        | inr no_key ↦ ground arith
      ]
      | inr no_url ↦ ground arith
    ]
