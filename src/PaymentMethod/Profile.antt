-- ===== src/PaymentMethod/Profile.antt =====
-- The billing profile of a customer at Stripe: `resolveStripeProfile`, `discoverStripeProfile`,
-- `upsertStripeProfile` and `syncStoredDefault`
-- (src/modules/payment/method/payment-method.service.ts).
use payment_microservice.Prelude.{
  suc, String, Bool, true, false, not, is_some, ◌&&◌, Option, none, some, List, [], ◌∷◌, ◌++◌, map,
  ◌==◌, if◌then◌else◌, find_first, find_many, update_where, take,
}
use payment_microservice.Store.{
  Subscription, Transaction, PaymentAttempt, CustomerBillingProfile, Provider, TransactionStatus,
  is_success, Metadata, text, end, field, Db, Action, pure, gets, modify, require, throw_if,
  unique_violation, ◌>>=◌, ◌>>◌, Env,
}
use payment_microservice.Js.{get_from, trimmed, stripe_customer_in}
use payment_microservice.Gateway.Stripe.Sdk.{CustomerSdk}
use payment_microservice.Gateway.Stripe.Customers.{ensure_customer}

-- `orderBy: { updatedAt: 'desc' }`, a column that the rows do not keep
pub record Recency : Type 0 where
  pub subscriptions : List Subscription → List Subscription
  pub transactions : List Transaction → List Transaction
  pub attempts : List PaymentAttempt → List PaymentAttempt

pub record ProfileInput : Type 0 where
  pub tenant_id : String
  pub customer_id : String
  pub customer_email : Option String
  pub allow_create : Bool

pub record DiscoveredProfile : Type 0 where
  pub provider_customer_id : String
  pub default_payment_method_id : Option String
  pub source : String

pub record UpsertInput : Type 0 where
  pub tenant_id : String
  pub customer_id : String
  pub provider_customer_id : String
  pub default_payment_method_id : Option String
  pub metadata : Metadata

-- `tenantId_customerId_provider`, of Stripe
abbrev pub is_stripe : Provider → Bool
is_stripe Provider.stripe = true
is_stripe _ = false

abbrev pub is_profile_of : String → String → CustomerBillingProfile → Bool
is_profile_of tenant_id customer_id p =
    (p.tenant_id == tenant_id) && (p.customer_id == customer_id) && is_stripe p.provider

abbrev pub find_profile : String → String → Db → Option CustomerBillingProfile
find_profile tenant_id customer_id db =
    find_first (is_profile_of tenant_id customer_id) db.billing_profiles

abbrev pub new_profile : Env → UpsertInput → Db → CustomerBillingProfile
new_profile env input db = record {
  id = env.uuid db.issued;
  tenant_id = input.tenant_id;
  customer_id = input.customer_id;
  provider = Provider.stripe;
  provider_customer_id = input.provider_customer_id;
  default_payment_method_id = input.default_payment_method_id;
  metadata = some input.metadata;
}

abbrev pub updated_profile : UpsertInput → CustomerBillingProfile → CustomerBillingProfile
updated_profile input p = record p {
  provider_customer_id = input.provider_customer_id;
  default_payment_method_id = input.default_payment_method_id;
  metadata = some input.metadata;
}

abbrev pub insert_profile : Env → UpsertInput → Db → Db
insert_profile env input db = record db {
  issued = suc db.issued;
  billing_profiles = new_profile env input db ∷ db.billing_profiles;
}

abbrev pub update_profile : UpsertInput → Db → Db
update_profile input db = record db {
  billing_profiles =
      update_where (is_profile_of input.tenant_id input.customer_id) (updated_profile input)
        db.billing_profiles;
}

abbrev pub insert_or_update :
    Env → UpsertInput → Option CustomerBillingProfile → Action CustomerBillingProfile
insert_or_update env input none = do
  row ← gets (new_profile env input)
  modify (insert_profile env input)
  pure row
insert_or_update env input (some p) = do
  modify (update_profile input)
  pure (updated_profile input p)

-- another profile with the customer of Stripe that the row would have
abbrev pub is_other_with_customer : UpsertInput → CustomerBillingProfile → Bool
is_other_with_customer input p =
    (p.provider_customer_id == input.provider_customer_id)
    && is_stripe p.provider
    && not (is_profile_of input.tenant_id input.customer_id p)

-- `upsert`, under @@unique([provider, providerCustomerId])
unfoldable pub upsert_stripe_profile : Env → UpsertInput → Action CustomerBillingProfile
upsert_stripe_profile env input = do
  taken ← gets (λ db. is_some (find_first (is_other_with_customer input) db.billing_profiles))
  throw_if taken unique_violation
  existing ← gets (find_profile input.tenant_id input.customer_id)
  insert_or_update env input existing

abbrev pub has_profile_id : String → CustomerBillingProfile → Bool
has_profile_id id p = p.id == id

abbrev pub with_default : Option String → CustomerBillingProfile → CustomerBillingProfile
with_default method_id p = record p { default_payment_method_id = method_id }

abbrev pub set_stored_default : String → Option String → Db → Db
set_stored_default id method_id db = record db {
  billing_profiles = update_where (has_profile_id id) (with_default method_id) db.billing_profiles;
}

-- `===` on ids that may be absent
abbrev pub is_same_id : Option String → Option String → Bool
is_same_id none none = true
is_same_id none (some b) = false
is_same_id (some a) none = false
is_same_id (some a) (some b) = a == b

abbrev pub update_default : String → Option String → Action (Unit {0})
update_default id method_id = do
  found ← gets (λ db. find_first (has_profile_id id) db.billing_profiles)
  require found
  modify (set_stored_default id method_id)

unfoldable pub sync_stored_default : CustomerBillingProfile → Option String → Action (Unit {0})
sync_stored_default profile method_id =
    if is_same_id profile.default_payment_method_id method_id
    then pure tt
    else update_default profile.id method_id

abbrev pub extract_default_payment_method_id : Env → Option Metadata → Option String
extract_default_payment_method_id env metadata =
    trimmed env (get_from "defaultPaymentMethodId" metadata)

abbrev pub discovered_in : Env → String → Option Metadata → String → DiscoveredProfile
discovered_in env source metadata id = record {
  provider_customer_id = id;
  default_payment_method_id = extract_default_payment_method_id env metadata;
  source = source;
}

-- the loops: the first metadata that has a customer of Stripe
unfoldable pub first_discovered : Env → String → List (Option Metadata) → Option DiscoveredProfile
first_discovered env source [] = none
first_discovered env source (m ∷ rest) =
    let later = first_discovered env source rest in
    elim (stripe_customer_in env m) [
      | some id ↦ some (discovered_in env source m id)
      | none ↦ later
    ]

abbrev pub is_paid_by : String → String → Transaction → Bool
is_paid_by tenant_id customer_id t =
    (t.tenant_id == tenant_id)
    && (t.customer_id == customer_id)
    && elim t.status [ TransactionStatus.success ↦ true | _ ↦ false ]

abbrev pub is_stripe_success : String → PaymentAttempt → Bool
is_stripe_success transaction_id a =
    (a.transaction_id == transaction_id) && is_stripe a.provider && is_success a.status

-- the metadata of the attempts of some transactions, five of each
unfoldable pub attempt_metadata :
    Recency → List PaymentAttempt → List Transaction → List (Option Metadata)
attempt_metadata recency attempts [] = []
attempt_metadata recency attempts (t ∷ rest) =
    map (λ (a : PaymentAttempt). a.metadata)
      (take 5 (recency.attempts (find_many (is_stripe_success t.id) attempts)))
    ++ attempt_metadata recency attempts rest

unfoldable pub discover_stripe_profile :
    Env → Recency → String → String → Db → Option DiscoveredProfile
unfolding first_discovered attempt_metadata
discover_stripe_profile env recency tenant_id customer_id db =
    let by_subscription = first_discovered env "subscription-metadata" (
      map (λ (s : Subscription). s.metadata)
        (take 25 (
          recency.subscriptions (
            find_many (λ s. (s.tenant_id == tenant_id) && (s.customer_id == customer_id))
              db.subscriptions)))) in
    let by_attempt = first_discovered env "payment-attempt-metadata" (
      attempt_metadata recency db.attempts (
        take 20
          (recency.transactions (find_many (is_paid_by tenant_id customer_id) db.transactions)))) in
    elim by_subscription [ some found ↦ some found | none ↦ by_attempt ]

abbrev pub profile_input : ProfileInput → String → Option String → String → UpsertInput
profile_input input id default_id source = record {
  tenant_id = input.tenant_id;
  customer_id = input.customer_id;
  provider_customer_id = id;
  default_payment_method_id = default_id;
  metadata = field "source" (text source) end;
}

abbrev pub create_if_allowed :
    Env → CustomerSdk → ProfileInput → Action (Option CustomerBillingProfile)
create_if_allowed env sdk input =
    if input.allow_create
    then (do
      id ← ensure_customer env sdk none input.customer_email input.customer_id input.tenant_id
      profile ← upsert_stripe_profile env (profile_input input id none "created")
      pure (some profile))
    else pure none

-- An id that was discovered is not empty: it was trimmed, or starts with `cus_`.
abbrev pub upsert_discovered :
    Env
    → CustomerSdk
    → ProfileInput
    → Option DiscoveredProfile
    → Action (Option CustomerBillingProfile)
upsert_discovered env sdk input none = create_if_allowed env sdk input
upsert_discovered env sdk input (some found) = do
  profile ←
      upsert_stripe_profile env (
        profile_input input found.provider_customer_id found.default_payment_method_id found.source)
  pure (some profile)

abbrev pub existing_or_discovered :
    Env
    → CustomerSdk
    → Recency
    → ProfileInput
    → Option CustomerBillingProfile
    → Action (Option CustomerBillingProfile)
existing_or_discovered env sdk recency input (some p) = pure (some p)
existing_or_discovered env sdk recency input none = do
  discovered ← gets (discover_stripe_profile env recency input.tenant_id input.customer_id)
  upsert_discovered env sdk input discovered

unfoldable pub resolve_stripe_profile :
    Env → CustomerSdk → Recency → ProfileInput → Action (Option CustomerBillingProfile)
unfolding upsert_stripe_profile discover_stripe_profile
resolve_stripe_profile env sdk recency input = do
  existing ← gets (find_profile input.tenant_id input.customer_id)
  existing_or_discovered env sdk recency input existing
