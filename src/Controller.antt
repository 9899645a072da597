-- ===== src/Controller.antt =====
-- The controllers (src/modules/): each route checks its guards, takes the user that they leave in the
-- request, and calls a service. The bodies and ids of requests have passed the validation, which is
-- class-validator's. `@RequirePermission` has no effect on these routes: `PermissionsGuard` is
-- applied to the administration alone.
pub mod Payments
pub mod Methods
pub mod Subscriptions
pub mod Invoices
pub mod Ownership
pub mod Webhooks
use payment_microservice.Prelude.{String, Bool, true, false, Option, none, some, [], ◌∷◌}
use payment_microservice.Store.{Outcome, ok, err, provider_fault, Action, throw}
use payment_microservice.Http.Guards.{
  JwtPayload, Request, Route, Security, service_or_jwt_guard, jwt_auth_guard,
}

-- a route with `@RequirePermission`
abbrev pub route_of : String → Route
route_of permission = record {
  is_public = false;
  required_permissions = some (permission ∷ []);
  required_roles = none;
}

-- `@CurrentUser()` and `@CurrentTenant()`: reading `sub` of no user throws.
abbrev pub for_user : {A : Type 0} → Option JwtPayload → (JwtPayload → Action A) → Action A
for_user none handler = throw (provider_fault "TypeError")
for_user (some user) handler = handler user

abbrev pub guarded : {A : Type 0} → Outcome Request → (JwtPayload → Action A) → Action A
guarded (err e) handler = throw e
guarded (ok passed) handler = for_user passed.user handler

-- `@UseGuards(ServiceOrJwtGuard)`
abbrev pub with_service_or_jwt :
    {A : Type 0} → Security → String → Request → (JwtPayload → Action A) → Action A
with_service_or_jwt security permission request =
    guarded (service_or_jwt_guard security (route_of permission) request)

-- `@UseGuards(JwtAuthGuard)`
abbrev pub with_jwt :
    {A : Type 0}
    → (Request → Outcome JwtPayload)
    → String
    → Request
    → (JwtPayload → Action A)
    → Action A
with_jwt passport permission request =
    guarded (jwt_auth_guard passport (route_of permission) request)
