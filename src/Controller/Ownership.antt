-- ===== src/Controller/Ownership.antt =====
-- What a customer's requests can do to the rows of others.
use payment_microservice.Prelude.{
  ◌≤◌, String, Bool, true, not, ◌&&◌, Option, none, some, List, [], ◌∷◌, ◌==◌, truthy, Bool-cases,
  Option-cases, find_first, find_many, update_where, count_where, update_where_absent, ◌≡◌, refl,
  arith, inl, inr,
}
use payment_microservice.Store.{as_text, Subscription, Plan, ok, Db, Env}
use payment_microservice.Http.Guards.{JwtPayload, Request, Security, service_or_jwt_guard}
use payment_microservice.Controller.{route_of}
use payment_microservice.Controller.Subscriptions.{cancel, change_plan}
use payment_microservice.Subscription.{
  metadata_field, has_id, matches, get_active_plan_or_throw, update_subscription,
}
use payment_microservice.Subscription.Lifecycle.{
  cancel_subscription, update_subscription_plan, is_closed, is_cancelled, is_external,
}

module _ {R : Type 0} (p own m : R → Bool) where
  none_matches :
      ((r : R) → m r ≡ true → (p r ≡ true) × (own r ≡ true))
      → (rs : List R) → count_where p rs ≡ 0
      → find_first m rs ≡ none
  unfolding find_first count_where
  none_matches k [] h = refl
  none_matches k (r ∷ rs) h = elim (Bool-cases (m r)) [
    | inl yes_matches ↦ ground (arith, k r)
    | inr no_match ↦ rw no_match (none_matches k rs (ground arith))
  ]

  -- A write to the one row of a key, which is one's own, leaves the others' rows as they are.
  keeps_others :
      (f : R → R)
      → ((r : R) → m r ≡ true → (p r ≡ true) × (own r ≡ true))
      → ((r : R) → own (f r) ≡ own r)
      → (rs : List R) {s : R} → count_where p rs ≤ 1
      → find_first m rs ≡ some s
      → find_many (λ r. not (own r)) (update_where p f rs) ≡ find_many (λ r. not (own r)) rs
  unfolding find_first count_where find_many update_where
  keeps_others f k same [] one found = cc
  keeps_others f k same (r ∷ rs) {s} one found = elim (Bool-cases (p r)) [
    | inl here ↦ elim (Bool-cases (own r)) [
      | inl mine ↦
          let last : count_where p rs ≡ 0 = ground arith in
          rw (here, same r, mine, update_where_absent p f rs last) refl
      | inr theirs ↦
          let last : count_where p rs ≡ 0 = ground arith in
          absurd (ground (arith, k r, none_matches k rs last))
    ]
    | inr there ↦
        let tail : find_many (λ r. not (own r)) (update_where p f rs)
            ≡ find_many (λ r. not (own r)) rs =
          keeps_others f k same rs {s = s} (ground arith) (ground (arith, k r)) in
        rw (there, tail) refl
  ]

abbrev provider_id_of : Subscription → Option String
provider_id_of s = as_text (metadata_field "providerSubscriptionId" s.metadata)

-- the rows of others than a user
abbrev pub is_own : JwtPayload → Subscription → Bool
is_own user s = (s.tenant_id == user.tenant_id) && (s.customer_id == user.sub)

abbrev pub others : JwtPayload → Db → List Subscription
others user db = find_many (λ s. not (is_own user s)) db.subscriptions

matches-is_own :
    (user : JwtPayload) (id : String)
    → truthy user.tenant_id ≡ true
    → truthy user.sub ≡ true
    → (s : Subscription) → matches id (some user.tenant_id) (some user.sub) s ≡ true
    → (has_id id s ≡ true) × (is_own user s ≡ true)
matches-is_own user id tenant sub s h = ground arith

module _ (env : Env) (user : JwtPayload) (id : String) (db : Db)
    (tenant : truthy user.tenant_id ≡ true) (sub : truthy user.sub ≡ true)
    (one : count_where (has_id id) db.subscriptions ≤ 1) where
  others_kept :
      (f : Subscription → Subscription) {s : Subscription}
      → ((r : Subscription) → is_own user (f r) ≡ is_own user r)
      → find_first (matches id (some user.tenant_id) (some user.sub)) db.subscriptions ≡ some s
      → others user (update_subscription id f db) ≡ others user db
  others_kept f {s} same found =
      keeps_others (has_id id) (is_own user) (matches id (some user.tenant_id) (some user.sub)) f
        (matches-is_own user id tenant sub) same db.subscriptions {s = s} one found

  cancel_subscription-others :
      (reason : Option String) (immediate : Bool)
      → others user
          (cancel_subscription env
            (record {
              subscription_id = id;
              tenant_id = some user.tenant_id;
              customer_id = some user.sub;
              reason = reason;
              actor_id = user.sub;
              immediate = immediate;
            })
            db).1
        ≡ others user db
  unfolding cancel_subscription
  cancel_subscription-others reason immediate =
      elim (Option-cases
        (find_first (matches id (some user.tenant_id) (some user.sub)) db.subscriptions)) [
          | inl absent ↦ rw absent refl
          | inr (s, found) ↦ elim (Bool-cases (is_cancelled s.status)) [
            | inl closed ↦ rw (found, closed) refl
            | inr open_yet ↦ rw (found, open_yet) (others_kept _ (λ r. refl) found)
          ]
        ]

  update_subscription_plan-others :
      (plan_id : String)
      → others user
          (update_subscription_plan env
            (record {
              subscription_id = id;
              tenant_id = some user.tenant_id;
              customer_id = some user.sub;
              plan_id = plan_id;
              actor_id = user.sub;
            })
            db).1
        ≡ others user db
  unfolding update_subscription_plan get_active_plan_or_throw
  update_subscription_plan-others plan_id =
      elim (Option-cases
        (find_first (matches id (some user.tenant_id) (some user.sub)) db.subscriptions)) [
          | inl absent ↦ rw absent refl
          | inr (s, found) ↦ elim (Bool-cases (is_closed s.status)) [
            | inl closed ↦ rw (found, closed) refl
            | inr open_yet ↦ elim (Bool-cases (s.plan_id == plan_id)) [
              | inl same ↦ rw (found, open_yet, same) refl
              | inr new ↦ elim (Bool-cases (is_external env (provider_id_of s))) [
                | inl external ↦ rw (found, open_yet, new, external) refl
                | inr managed ↦
                    elim (Option-cases (find_first (λ (p : Plan). p.id == plan_id) db.plans)) [
                      | inl absent ↦ rw (found, open_yet, new, managed, absent) refl
                      | inr (plan, there) ↦ elim (Bool-cases plan.is_active) [
                        | inl active ↦
                            rw (found, open_yet, new, managed, there, active)
                              (others_kept _ (λ r. refl) found)
                        | inr retired ↦ rw (found, open_yet, new, managed, there, retired) refl
                      ]
                    ]
              ]
            ]
          ]
        ]

-- A customer reaches no one else's subscription: where the guard lets a request pass for a user whose
-- tenant and id are not empty, cancelling a subscription and changing its plan, whatever they return
-- or throw, leave every subscription of another tenant or another customer as it was. No two
-- subscriptions have the id.
pub cancel-others :
    (security : Security) (env : Env) (request : Request) (id : String) (reason : Option String)
    (immediate : Bool) (plan_id : String) (db : Db) {passed : Request} {user : JwtPayload}
    → service_or_jwt_guard security (route_of "subscription:write") request ≡ ok passed
    → passed.user ≡ some user
    → truthy user.tenant_id ≡ true
    → truthy user.sub ≡ true
    → count_where (has_id id) db.subscriptions ≤ 1
    → (others user (cancel security env request id reason immediate db).1 ≡ others user db)
      × (others user (change_plan security env request id plan_id db).1 ≡ others user db)
unfolding cancel change_plan service_or_jwt_guard
cancel-others security env request id reason immediate plan_id db {passed} {user} passes known
      tenant sub one =
    rw (passes, known)
      (
        cancel_subscription-others env user id db tenant sub one reason immediate,
        update_subscription_plan-others env user id db tenant sub one plan_id,
      )
