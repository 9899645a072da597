-- ===== src/Http/Guards.antt =====
-- The guards (src/common/guards/). Each returns the request, perhaps with another user, or throws.
-- SHA-256 and the verification of a token are parameters; two digests have the same bytes where they
-- are equal.
use payment_microservice.Prelude.{
  String, Bool, false, ◌||◌, Option, none, some, List, [], ◌∷◌, ◌==◌, truthy, or_default,
  starts_with, contains, if◌then◌else◌,
}
use payment_microservice.Store.{ErrorCode, Outcome, ok, err, unauthorized, forbidden, on_ok}

-- src/modules/security/strategies/jwt.strategy.ts
pub record JwtPayload : Type 0 where
  pub sub : String
  pub tenant_id : String
  pub email : Option String
  pub roles : Option (List String)
  pub permissions : Option (List String)

-- the headers that the guards read, and the user that one of them has set
pub record Request : Type 0 where
  pub api_key : Option String
  pub x_user_id : Option String
  pub x_tenant_id : Option String
  pub x_user_email : Option String
  pub authorization : Option String
  pub user : Option JwtPayload

-- what the decorators say of the route
pub record Route : Type 0 where
  pub is_public : Bool
  pub required_permissions : Option (List String)
  pub required_roles : Option (List String)

-- The key that `jwtService.verify` is given: RS256 with a public key, or else HS256
pub data VerifyKey : Type 0 where
  public_key secret : String → VerifyKey

pub record Security : Type 0 where
  pub api_key_hash : Option String
  pub jwt_public_key : Option String
  pub jwt_secret : Option String
  pub sha256 : String → String
  -- `jwtService.verify(token, options)`, which throws or returns the payload
  pub verify : String → VerifyKey → Option JwtPayload
  -- `authHeader.slice(7)`
  pub after_bearer : String → String

abbrev pub non_empty : Option String → Option String
non_empty none = none
non_empty (some s) = if truthy s then some s else none

-- `requiredPermissions.filter((p) => !userPermissions.has(p))`
unfoldable pub missing : List String → List String → List String
missing [] granted = []
missing (p ∷ rest) granted =
    let others = missing rest granted in if contains p granted then others else p ∷ others

abbrev pub or_no_texts : Option (List String) → List String
or_no_texts none = []
or_no_texts (some ps) = ps

-- `user?.permissions ?? []`
abbrev pub permissions_of : Option JwtPayload → List String
permissions_of none = []
permissions_of (some user) = or_no_texts user.permissions

abbrev pub roles_of : Option JwtPayload → List String
roles_of none = []
roles_of (some user) = or_no_texts user.roles

abbrev pub unless_missing : Request → List String → Outcome Request
unless_missing request [] = ok request
unless_missing request (p ∷ rest) = err (forbidden ErrorCode.uncoded)

unfoldable pub permissions_guard : Route → Request → Outcome Request
permissions_guard route request =
    if route.is_public
    then ok request
    else unless_missing request
        (missing (or_no_texts route.required_permissions) (permissions_of request.user))

-- `roles.some((role) => requiredRoles.includes(role))`
unfoldable pub has_role : List String → List String → Bool
has_role required [] = false
has_role required (role ∷ rest) = contains role required || has_role required rest

abbrev pub check_roles : Request → List String → Outcome Request
check_roles request [] = ok request
check_roles request (role ∷ rest) =
    if has_role (role ∷ rest) (roles_of request.user)
    then ok request
    else err (forbidden ErrorCode.uncoded)

unfoldable pub roles_guard : Route → Request → Outcome Request
roles_guard route request = check_roles request (or_no_texts route.required_roles)

abbrev pub check_tenant : Request → Option JwtPayload → Outcome Request
check_tenant request none = ok request
check_tenant request (some user) =
    if truthy user.tenant_id then ok request else err (unauthorized ErrorCode.uncoded)

unfoldable pub tenant_guard : Route → Request → Outcome Request
tenant_guard route request =
    if route.is_public then ok request else check_tenant request request.user

abbrev pub service_permissions : List String
service_permissions =
    "payment:read" ∷ "payment:write" ∷ "invoice:read" ∷ "invoice:write" ∷ "subscription:read"
    ∷ "subscription:write" ∷ []

-- the user that stands for another service
abbrev pub service_user : Request → JwtPayload
service_user request = record {
  sub = or_default request.x_user_id "service-account";
  tenant_id = or_default request.x_tenant_id "";
  email = request.x_user_email;
  roles = some ("service" ∷ []);
  permissions = some service_permissions;
}

abbrev pub with_user : JwtPayload → Request → Request
with_user user request = record request { user = some user }

module _ (security : Security) where
  -- `storedHash`, or the exception
  abbrev pub stored_hash : Outcome String
  stored_hash = elim (non_empty security.api_key_hash) [
    | none ↦ err (unauthorized ErrorCode.uncoded)
    | some hash ↦ ok hash
  ]

  abbrev pub check_api_key : Request → Option String → Outcome Request
  check_api_key request none = err (unauthorized ErrorCode.uncoded)
  check_api_key request (some key) = on_ok stored_hash (λ hash.
      if hash == security.sha256 key then ok request else err (unauthorized ErrorCode.uncoded))

  unfoldable pub api_key_guard : Request → Outcome Request
  api_key_guard request = check_api_key request (non_empty request.api_key)

  -- the public key if there is one, or else the secret
  abbrev pub verify_key : Option VerifyKey
  verify_key = elim (non_empty security.jwt_public_key) [
    | some key ↦ some (public_key key)
    | none ↦ elim (non_empty security.jwt_secret) [ some key ↦ some (secret key) | none ↦ none ]
  ]

  abbrev pub accept_payload : Request → Option JwtPayload → Outcome Request
  accept_payload request none = err (unauthorized ErrorCode.uncoded)
  accept_payload request (some payload) = ok (with_user payload request)

  abbrev pub check_token : Request → String → Option VerifyKey → Outcome Request
  check_token request token none = err (unauthorized ErrorCode.uncoded)
  check_token request token (some key) = accept_payload request (security.verify token key)

  abbrev pub check_bearer : Request → Option String → Outcome Request
  check_bearer request none = err (unauthorized ErrorCode.uncoded)
  check_bearer request (some header) =
      if starts_with header "Bearer "
      then check_token request (security.after_bearer header) verify_key
      else err (unauthorized ErrorCode.uncoded)

  -- A key that does not match leaves the request to its bearer token.
  abbrev pub check_service : Request → Option String → Outcome Request
  check_service request none = check_bearer request request.authorization
  check_service request (some key) = on_ok stored_hash (λ hash.
      if hash == security.sha256 key
      then ok (with_user (service_user request) request)
      else check_bearer request request.authorization)

  unfoldable pub service_or_jwt_guard : Route → Request → Outcome Request
  service_or_jwt_guard route request =
      if route.is_public then ok request else check_service request (non_empty request.api_key)

-- `AuthGuard('jwt')` with `JwtStrategy` is a parameter: it throws or returns the token's payload.
module _ (passport : Request → Outcome JwtPayload) where
  unfoldable pub jwt_auth_guard : Route → Request → Outcome Request
  jwt_auth_guard route request =
      if route.is_public
      then ok request
      else on_ok (passport request) (λ payload. ok (with_user payload request))

  -- the guards of AdminController
  unfoldable pub admin_guards : Route → Request → Outcome Request
  unfolding jwt_auth_guard roles_guard permissions_guard
  admin_guards route request =
      on_ok (jwt_auth_guard route request)
        (λ authenticated. on_ok (roles_guard route authenticated) (permissions_guard route))
