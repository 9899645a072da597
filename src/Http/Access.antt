-- ===== src/Http/Access.antt =====
-- Who passes the guards.
use payment_microservice.Prelude.{
  String, true, false, some, List, [], ◌∷◌, ◌==◌, ==_iff, All, contains, ◌≡◌, refl, ◌↔◌, ◌⊎◌, inl,
  inr, arith, Bool-cases, Option-cases,
}
use payment_microservice.Store.{Outcome, ok, err, on_ok}
use payment_microservice.Http.Guards.{
  JwtPayload, Request, Route, Security, VerifyKey, missing, permissions_of, or_no_texts,
  unless_missing, permissions_guard, roles_guard, jwt_auth_guard, has_role, admin_guards,
  service_or_jwt_guard, service_user, with_user, verify_key, non_empty, check_bearer,
}

-- all of the required permissions are among the granted ones
abbrev pub AreGranted : List String → List String → Type 0
AreGranted required granted = All (λ p. contains p granted ≡ true) required

missing-AreGranted :
    (required granted : List String) → (missing required granted ≡ []) ↔ AreGranted required granted
unfolding missing
missing-AreGranted [] granted = (λ h. tt, λ h. refl)
missing-AreGranted (p ∷ rest) granted =
    let (up, down) = missing-AreGranted rest granted in
    elim (Bool-cases (contains p granted)) [
      | inl has ↦ rw has (λ h. (refl, up h), λ (_, h). down h)
      | inr lacks ↦ rw lacks (λ h. cc, λ (h, _). cc)
    ]

unless_missing-ok :
    (request passed : Request) (ps : List String)
    → unless_missing request ps ≡ ok passed
    → (passed ≡ request) × (ps ≡ [])
unless_missing-ok request passed [] h = (cc, refl)
unless_missing-ok request passed (p ∷ ps) h = cc

unless_missing_lem :
    (request : Request) (ps : List String) → unless_missing request ps ≡ ok request → ps ≡ []
unless_missing_lem request [] h = refl
unless_missing_lem request (p ∷ ps) h = cc

-- On a route that is not public, the permissions guard lets a request pass, unchanged, if and only
-- if every permission that the route requires is among those of the request's user; with no user,
-- none is.
pub permissions_guard-AreGranted :
    (route : Route) (request : Request)
    → route.is_public ≡ false
    → (permissions_guard route request ≡ ok request)
      ↔ AreGranted (or_no_texts route.required_permissions) (permissions_of request.user)
unfolding permissions_guard
permissions_guard-AreGranted route request private =
    let required = or_no_texts route.required_permissions in
    let (up, down) = missing-AreGranted required (permissions_of request.user) in
    rw private (λ passed. up (unless_missing_lem request _ passed), λ h. rw (down h) refl)

-- The user stands for a service that sent the configured key.
abbrev pub IsService : Security → Request → Request → Type 0
IsService security request passed =
    (key : String) × (non_empty request.api_key ≡ some key)
    × (non_empty security.api_key_hash ≡ some (security.sha256 key))
    × (passed ≡ with_user (service_user request) request)

-- The user is the payload of a bearer token that the configured key verifies.
abbrev pub IsVerified : Security → Request → Request → Type 0
IsVerified security request passed =
    (header : String) × (key : VerifyKey) × (payload : JwtPayload) × (request.authorization
      ≡ some header)
    × (verify_key security ≡ some key)
    × (security.verify (security.after_bearer header) key ≡ some payload)
    × (passed ≡ with_user payload request)

bearer-IsVerified :
    (security : Security) (request : Request) {passed : Request}
    → check_bearer security request request.authorization ≡ ok passed
    → IsVerified security request passed
bearer-IsVerified security request {passed} h = elim (Option-cases request.authorization) [
  | inl absent ↦ ground arith
  | inr (header, sent) ↦ elim (Option-cases (verify_key security)) [
    | inl no_key ↦ ground arith
    | inr (key, configured) ↦
        elim (Option-cases (security.verify (security.after_bearer header) key)) [
          | inl refused ↦ ground arith
          | inr (payload, verified) ↦
              (header, key, payload, sent, configured, verified, ground arith)
        ]
  ]
]

-- A request that `ServiceOrJwtGuard` lets pass on a route that is not public has a user that it can
-- trust: it sent the configured API key, and its user is the service account, or it sent a bearer
-- token that the configured key verifies, and its user is that token's payload.
pub service_or_jwt_guard-user :
    (security : Security) (route : Route) (request : Request) {passed : Request}
    → route.is_public ≡ false
    → service_or_jwt_guard security route request ≡ ok passed
    → IsService security request passed ⊎ IsVerified security request passed
unfolding service_or_jwt_guard
service_or_jwt_guard-user security route request {passed} private h =
    elim (Option-cases (non_empty request.api_key)) [
      | inl absent ↦ inr (bearer-IsVerified security request (ground arith))
      | inr (key, sent) ↦ elim (Option-cases (non_empty security.api_key_hash)) [
        | inl unset ↦ ground arith
        | inr (hash, stored) ↦ elim (Bool-cases (hash == security.sha256 key)) [
          | inl same ↦ inl (key, sent, rw (stored, (==_iff _ _).0 same) refl, ground arith)
          | inr other ↦ inr (bearer-IsVerified security request (ground arith))
        ]
      ]
    ]

accepted-AreGranted :
    (route : Route) (request passed : Request) (user : JwtPayload) {role : String}
    {roles : List String}
    → route.is_public ≡ false
    → route.required_roles ≡ some (role ∷ roles)
    → (on_ok (roles_guard route (with_user user request)) (permissions_guard route) ≡ ok passed) ↔ (
        (passed ≡ with_user user request)
        × (has_role (role ∷ roles) (or_no_texts user.roles) ≡ true)
        × AreGranted (or_no_texts route.required_permissions) (or_no_texts user.permissions))
unfolding roles_guard permissions_guard
accepted-AreGranted route request passed user {role} {roles} private required =
    let required_permissions = or_no_texts route.required_permissions in
    let (up, down) = missing-AreGranted required_permissions (or_no_texts user.permissions) in
    elim (Bool-cases (has_role (role ∷ roles) (or_no_texts user.roles))) [
      | inl has ↦
          rw (private, required, has)
            (
              λ h.
                  let (same, none_missing) =
                    unless_missing-ok (with_user user request) passed _ h in
                  (same, refl, up none_missing),
              λ (same, _, h). rw (down h, same) refl,
            )
      | inr lacks ↦ rw (private, required, lacks) (λ h. cc, λ (_, h, _). cc)
    ]

admin_lem :
    (route : Route) (request passed : Request) (answer : Outcome JwtPayload) {role : String}
    {roles : List String}
    → route.is_public ≡ false
    → route.required_roles ≡ some (role ∷ roles)
    → (on_ok
          (on_ok answer (λ payload. ok (with_user payload request)))
          (λ authenticated. on_ok (roles_guard route authenticated) (permissions_guard route))
        ≡ ok passed)
      ↔ ((user : JwtPayload) × (answer ≡ ok user)
          × (passed ≡ with_user user request)
          × (has_role (role ∷ roles) (or_no_texts user.roles) ≡ true)
          × AreGranted (or_no_texts route.required_permissions) (or_no_texts user.permissions))
admin_lem route request passed (err e) private required = (λ h. cc, λ (_, h, _, _, _). cc)
admin_lem route request passed (ok user) private required =
    let (up, down) = accepted-AreGranted route request passed user private required in
    (
      λ h. let (same, has, granted) = up h in (user, refl, same, has, granted),
      λ (other, same_user, same, has, granted).
          down (let e : other ≡ user = cc in rw (← e) (same, has, granted)),
    )

jwt_auth_guard_lem :
    (passport : Request → Outcome JwtPayload) (route : Route) (request : Request)
    → route.is_public ≡ false
    → jwt_auth_guard passport route request
      ≡ on_ok (passport request) (λ payload. ok (with_user payload request))
unfolding jwt_auth_guard
jwt_auth_guard_lem passport route request private = rw private refl

-- What the administration's guards let pass: on a route that is not public and requires some role, a
-- request comes out of them if and only if passport accepts the token of the request that went in,
-- what comes out is that request with the token's user, and this user has one of the required roles
-- and all required permissions.
pub admin_guards-AreGranted :
    (passport : Request → Outcome JwtPayload) (route : Route) (request passed : Request)
    {role : String} {roles : List String}
    → route.is_public ≡ false
    → route.required_roles ≡ some (role ∷ roles)
    → (admin_guards passport route request ≡ ok passed) ↔ (
        (user : JwtPayload) × (passport request ≡ ok user)
        × (passed ≡ with_user user request)
        × (has_role (role ∷ roles) (or_no_texts user.roles) ≡ true)
        × AreGranted (or_no_texts route.required_permissions) (or_no_texts user.permissions))
unfolding admin_guards
admin_guards-AreGranted passport route request passed private required =
    rw (jwt_auth_guard_lem passport route request private)
      (admin_lem route request passed (passport request) private required)
