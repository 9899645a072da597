-- ===== src/Backfill.antt =====
-- `scripts/backfill-legacy-subscriptions.mjs`: it makes subscriptions of old checkout payments. The
-- reading of the two `.env` files, the connections and the console are left out.
pub mod Settled
pub mod Created
pub mod Again
use payment_microservice.Prelude.{
  ℕ, zero, suc, ◌*◌, String, Bool, true, false, ◌&&◌, Option, none, some, List, [], ◌∷◌, ◌++◌, ◌==◌,
  truthy, starts_with, contains, or_default, is_some, ltb, leb, if◌then◌else◌, find_first,
  find_many,
}
use payment_microservice.Store.{
  Transaction, TransactionStatus, PaymentAttempt, Provider, Plan, PlanInterval, Subscription,
  SubscriptionStatus, Json, null, text, number, Metadata, end, field, get, merge, as_text, Db, Env,
}
use payment_microservice.Subscription.{provider_text, add_subscription, metadata_field}
use Prim.Native.String.{◌++◌ as str_append}
use mathlib.Core.List.{map, reverse}

-- What the script reads beside the payment database: the users of the identity service by their
-- email; the columns `createdAt`, which no service reads; and JavaScript's dates and numbers, where
-- the methods of `Date` are `setDate`, `setMonth` and `setFullYear` of what a getter reads and a count
-- more, and `parse_int` is 0 for what is negative or not a number.
pub record Script : Type 0 where
  pub user_of_email : String → Option String
  pub created_at : String → ℕ
  pub to_iso_string : ℕ → String
  pub set_date : ℕ → ℕ → ℕ
  pub set_month : ℕ → ℕ → ℕ
  pub set_full_year : ℕ → ℕ → ℕ
  pub parse_int : String → ℕ

-- a row of `prepared`: the transaction, and the data of the subscription to create
pub record Payload : Type 0 where
  pub tenant_id : String
  pub customer_id : String
  pub plan_id : String
  pub status : SubscriptionStatus
  pub current_period_start : ℕ
  pub current_period_end : ℕ
  pub trial_start : Option ℕ
  pub trial_end : Option ℕ
  pub metadata : Metadata

pub data SkipReason : Type 0 where
  no_user already_backfilled plan_not_found period_exists : SkipReason

-- the local state of the second loop; `Map` and `Set` are lists
pub record Progress : Type 0 where
  pub plan_cache : List Plan
  pub fingerprints : List String
  pub prepared : List (String × Payload)
  pub skipped : List (String × SkipReason)

abbrev pub is_success : TransactionStatus → Bool
is_success TransactionStatus.success = true
is_success _ = false

abbrev pub is_candidate : Transaction → Bool
is_candidate t =
    starts_with t.customer_id "checkout:"
    && is_some (as_text (metadata_field "planId" t.metadata))
    && is_some (as_text (metadata_field "customerEmail" t.metadata))

-- the oldest first
unfoldable pub candidate_transactions : Db → List Transaction
candidate_transactions db =
    find_many is_candidate (reverse (find_many (λ t. is_success t.status) db.transactions))

abbrev pub text_of : String → Transaction → String
text_of key t = or_default (as_text (metadata_field key t.metadata)) ""

abbrev pub email_of : Env → Transaction → String
email_of env t = env.to_lower (env.trim (text_of "customerEmail" t))

-- `emailToUser`, a user or null for each email
abbrev pub Users : Type 0
Users = List (String × Option String)

abbrev pub is_entry : String → String × Option String → Bool
is_entry email (other, user) = other == email

abbrev pub add_user : Script → String → Users → Users
add_user script email users =
    if truthy email
    then (if is_some (find_first (is_entry email) users)
        then users
        else (email, script.user_of_email email) ∷ users)
    else users

unfoldable pub email_to_user : Env → Script → List Transaction → Users → Users
email_to_user env script [] users = users
email_to_user env script (t ∷ rest) users =
    email_to_user env script rest (add_user script (email_of env t) users)

-- `emailToUser.get(email) ?? null`
abbrev pub user_in : String → Users → Option String
user_in email users = elim (find_first (is_entry email) users) [
  | none ↦ none
  | some (other, user) ↦ user
]

abbrev pub join_fingerprint : Script → String → String → String → ℕ → ℕ → String
join_fingerprint script tenant_id customer_id plan_id start_of end_of = str_append tenant_id (
    str_append "|" (
      str_append customer_id (
        str_append "|" (
          str_append plan_id (
            str_append "|" (
              str_append (script.to_iso_string start_of)
                (str_append "|" (script.to_iso_string end_of))))))))

-- `buildFingerprint`, of a row and of a payload
unfoldable pub build_fingerprint : Script → Subscription → String
build_fingerprint script s =
    join_fingerprint script s.tenant_id s.customer_id s.plan_id s.current_period_start
      s.current_period_end

unfoldable pub payload_fingerprint : Script → Payload → String
payload_fingerprint script p =
    join_fingerprint script p.tenant_id p.customer_id p.plan_id p.current_period_start
      p.current_period_end

-- the source transaction that a subscription's metadata name, if it is not blank
abbrev pub source_id : Env → Subscription → List String
source_id env s = elim (as_text (metadata_field "sourceTransactionId" s.metadata)) [
  | none ↦ []
  | some id ↦ if truthy (env.trim id) then env.trim id ∷ [] else []
]

unfoldable pub source_transaction_ids : Env → List Subscription → List String
source_transaction_ids env [] = []
source_transaction_ids env (s ∷ rest) = source_id env s ++ source_transaction_ids env rest

abbrev pub parse_positive_integer : Env → Script → Option Json → ℕ
parse_positive_integer env script (some (number n)) = n
parse_positive_integer env script (some (text s)) =
    if truthy (env.trim s) then script.parse_int s else 0
parse_positive_integer env script _ = 0

-- `Math.max(1, count || 1)`
abbrev pub at_least_one : ℕ → ℕ
at_least_one zero = 1
at_least_one (suc n) = suc n

abbrev pub calculate_next_period_end : Script → ℕ → PlanInterval → ℕ → ℕ
calculate_next_period_end script from PlanInterval.daily count =
    script.set_date from (at_least_one count)
calculate_next_period_end script from PlanInterval.weekly count =
    script.set_date from (at_least_one count * 7)
calculate_next_period_end script from PlanInterval.yearly count =
    script.set_full_year from (at_least_one count)
calculate_next_period_end script from PlanInterval.monthly count =
    script.set_month from (at_least_one count)

abbrev pub is_after : Option ℕ → ℕ → Bool
is_after none now = false
is_after (some date) now = ltb now date

abbrev pub status_at : ℕ → Option ℕ → ℕ → SubscriptionStatus
status_at now trial_end period_end =
    if is_after trial_end now
    then SubscriptionStatus.trialing
    else if leb period_end now
    then SubscriptionStatus.expired
    else SubscriptionStatus.active

-- `attempts[0]?.provider ?? null`, of the attempts in the order of their creation
abbrev pub first_provider : String → Db → Json
first_provider id db =
    elim (find_first (λ (a : PaymentAttempt). a.transaction_id == id) (reverse db.attempts)) [
      | none ↦ null
      | some a ↦ text (provider_text a.provider)
    ]

abbrev pub or_empty : Option Metadata → Metadata
or_empty none = end
or_empty (some m) = m

abbrev pub backfilled_metadata : Env → Script → Db → Transaction → Metadata
backfilled_metadata env script db t = merge (or_empty t.metadata) (
    field "billingMode" (text "subscription") (
      field "legacyCustomerId" (text t.customer_id) (
        field "sourceTransactionId" (text t.id) (
          field "backfilledAt" (text (script.to_iso_string env.now))
            (field "provider" (first_provider t.id db) end)))))

abbrev pub new_payload : Env → Script → Db → Transaction → String → Plan → Payload
new_payload env script db t user_id plan =
    let created = script.created_at t.id in
    let trial_days = parse_positive_integer env script (metadata_field "trialDays" t.metadata) in
    let on_trial = ltb 0 trial_days in
    let trial_end = if on_trial then some (script.set_date created trial_days) else none in
    let period_start = or_default trial_end created in
    let period_end =
      calculate_next_period_end script period_start plan.interval plan.interval_count in
    record {
      tenant_id = t.tenant_id;
      customer_id = user_id;
      plan_id = text_of "planId" t;
      status = status_at env.now trial_end period_end;
      current_period_start = period_start;
      current_period_end = period_end;
      trial_start = if on_trial then some created else none;
      trial_end = trial_end;
      metadata = backfilled_metadata env script db t;
    }

abbrev pub skip : Transaction → SkipReason → Progress → Progress
skip t reason p = record p { skipped = p.skipped ++ ((t.id, reason) ∷ []) }

abbrev pub with_id : String → Plan → Bool
with_id id plan = plan.id == id

abbrev pub cached_plan : Db → String → List Plan → Option Plan
cached_plan db id cache = elim (find_first (with_id id) cache) [
  | some plan ↦ some plan
  | none ↦ find_first (with_id id) db.plans
]

-- `planCache.set`, where the plan was not there yet
abbrev pub remember : Plan → List Plan → List Plan
remember plan cache = if is_some (find_first (with_id plan.id) cache) then cache else plan ∷ cache

abbrev pub add_or_skip : Script → Transaction → Payload → Progress → Progress
add_or_skip script t payload p =
    if contains (payload_fingerprint script payload) p.fingerprints
    then skip t SkipReason.period_exists p
    else record p {
      prepared = p.prepared ++ ((t.id, payload) ∷ []);
      fingerprints = payload_fingerprint script payload ∷ p.fingerprints;
    }

abbrev pub with_plan : Env → Script → Db → Transaction → String → Progress → Option Plan → Progress
with_plan env script db t user_id p none = skip t SkipReason.plan_not_found p
with_plan env script db t user_id p (some plan) =
    add_or_skip script t (new_payload env script db t user_id plan)
      (record p { plan_cache = remember plan p.plan_cache })

abbrev pub with_user :
    Env → Script → Db → List String → Transaction → Progress → Option String → Progress
with_user env script db sources t p none = skip t SkipReason.no_user p
with_user env script db sources t p (some user_id) =
    if contains t.id sources
    then skip t SkipReason.already_backfilled p
    else with_plan env script db t user_id p (cached_plan db (text_of "planId" t) p.plan_cache)

-- one round of the second loop
unfoldable pub consider :
    Env → Script → Db → Users → List String → Transaction → Progress → Progress
consider env script db users sources t p =
    with_user env script db sources t p (user_in (email_of env t) users)

unfoldable pub consider_all :
    Env → Script → Db → Users → List String → List Transaction → Progress → Progress
consider_all env script db users sources [] p = p
consider_all env script db users sources (t ∷ rest) p =
    consider_all env script db users sources rest (consider env script db users sources t p)

-- what the loop starts with
abbrev pub at_start : Script → Db → Progress
at_start script db = record {
  plan_cache = [];
  fingerprints = map (build_fingerprint script) db.subscriptions;
  prepared = [];
  skipped = [];
}

-- what a run prepares and skips
unfoldable pub plan_run : Env → Script → Db → Progress
plan_run env script db =
    let candidates = candidate_transactions db in
    consider_all env script db (email_to_user env script candidates [])
      (source_transaction_ids env db.subscriptions) candidates (at_start script db)

abbrev pub row_of : Payload → String → Subscription
row_of p id = record {
  id = id;
  tenant_id = p.tenant_id;
  customer_id = p.customer_id;
  plan_id = p.plan_id;
  status = p.status;
  current_period_start = p.current_period_start;
  current_period_end = p.current_period_end;
  cancelled_at = none;
  cancel_reason = none;
  trial_start = p.trial_start;
  trial_end = p.trial_end;
  metadata = some p.metadata;
}

unfoldable pub create_all : Env → List (String × Payload) → Db → Db
create_all env [] db = db
create_all env ((id, p) ∷ rest) db =
    create_all env rest (add_subscription (row_of p (env.uuid db.issued)) db)

-- `main`: only with `--apply` does it write.
unfoldable pub run : Env → Script → Bool → Db → Progress × Db
run env script apply db =
    let progress = plan_run env script db in
    (progress, if apply then create_all env progress.prepared db else db)
