-- ===== src/Gateway/Stripe/Customers.antt =====
-- The calls of `StripeProvider` on customers and their saved payment methods.
use payment_microservice.Prelude.{
  ℕ, ◌*◌, ◌||◌, String, Bool, false, not, Option, none, some, List, [], ◌∷◌, map, ◌==◌, truthy, ltb,
  if◌then◌else◌,
}
use payment_microservice.Store.{
  as_text, Db, provider_fault, Outcome, Action, pure, modify, or_throw, throw_if, ◌>>=◌, ◌>>◌, Env,
  StripeCall, customer_created, setup_intent_created, customer_default_set,
  subscription_default_set,
}
use payment_microservice.Js.{get_from}
use payment_microservice.Gateway.Stripe.Sdk.{
  SubscriptionObject, Card, PaymentMethodObject, CustomerSdk,
}
use payment_microservice.Gateway.Stripe.Payments.{expandable_id}
use mathlib.Core.Option

pub record StripeSavedPaymentMethod : Type 0 where
  pub id : String
  pub type : String
  pub brand : Option String
  pub last4 : Option String
  pub exp_month : Option ℕ
  pub exp_year : Option ℕ
  pub funding : Option String
  -- in milliseconds
  pub created_at : Option ℕ
  pub is_default : Bool

abbrev pub is_default_id : Option String → String → Bool
is_default_id none id = false
is_default_id (some default_id) id = if truthy default_id then id == default_id else false

unfoldable pub to_saved_payment_method :
    PaymentMethodObject → Option String → StripeSavedPaymentMethod
to_saved_payment_method method default_id = record {
  id = method.id;
  type = method.type;
  brand = Option.map (λ (c : Card). c.brand) method.card;
  last4 = Option.map (λ (c : Card). c.last4) method.card;
  exp_month = Option.map (λ (c : Card). c.exp_month) method.card;
  exp_year = Option.map (λ (c : Card). c.exp_year) method.card;
  funding = Option.map (λ (c : Card). c.funding) method.card;
  created_at = if ltb 0 method.created then some (method.created * 1000) else none;
  is_default = is_default_id default_id method.id;
}

-- a call that Stripe answers by what it has been asked before
abbrev pub ask : {A : Type 0} → (List StripeCall → Outcome A) → Action A
ask answer db = (answer db.stripe_calls, db)

abbrev pub note : StripeCall → Db → Db
note call db = record db { stripe_calls = call ∷ db.stripe_calls }

-- a call that changes something, if Stripe accepts it
abbrev pub tell : {A : Type 0} → StripeCall → (List StripeCall → Outcome A) → Action A
tell call answer = do a ← ask answer; modify (note call); pure a

-- `getClient`: there is none unless Stripe is enabled.
abbrev pub get_client : Env → Action (Unit {0})
get_client env = throw_if (not env.stripe_enabled) (provider_fault "Stripe provider is not enabled")

-- a text that is neither absent nor empty
abbrev pub non_empty : Option String → Option String
non_empty none = none
non_empty (some s) = if truthy s then some s else none

abbrev pub existing_or_create :
    CustomerSdk → Option String → Option String → String → String → Action String
existing_or_create sdk (some id) email customer_id tenant_id = pure id
existing_or_create sdk none email customer_id tenant_id =
    tell (customer_created (non_empty email) customer_id tenant_id)
      (λ calls. sdk.customers_create calls (non_empty email) customer_id tenant_id)

-- The arguments are `providerCustomerId`, `customerEmail`, `internalCustomerId` and `tenantId`.
unfoldable pub ensure_customer :
    Env → CustomerSdk → Option String → Option String → String → String → Action String
ensure_customer env sdk provider_customer_id email customer_id tenant_id = do
  get_client env
  existing_or_create sdk (non_empty provider_customer_id) email customer_id tenant_id

pub record SetupIntent : Type 0 where
  pub setup_intent_id : String
  pub client_secret : String
  pub provider_customer_id : String

unfoldable pub create_setup_intent :
    Env
    → CustomerSdk
    → Option String
    → Option String
    → String
    → String
    → String
    → Action SetupIntent
unfolding ensure_customer
create_setup_intent env sdk provider_customer_id email customer_id tenant_id key = do
  get_client env
  id ← ensure_customer env sdk provider_customer_id email customer_id tenant_id
  intent ←
      tell (setup_intent_created id customer_id tenant_id key)
        (λ calls. sdk.setup_intents_create calls id customer_id tenant_id key)
  secret ←
      or_throw (non_empty intent.client_secret)
        (provider_fault "Stripe SetupIntent did not return a client secret")
  pure (record { setup_intent_id = intent.id; client_secret = secret; provider_customer_id = id })

pub record CompletedSetup : Type 0 where
  pub provider_customer_id : String
  pub payment_method : StripeSavedPaymentMethod
  pub internal_customer_id : Option String
  pub tenant_id : Option String

unfoldable pub retrieve_completed_setup_intent : Env → CustomerSdk → String → Action CompletedSetup
unfolding to_saved_payment_method
retrieve_completed_setup_intent env sdk setup_intent_id = do
  get_client env
  intent ← ask (λ calls. sdk.setup_intents_retrieve calls setup_intent_id)
  throw_if (not (intent.status == "succeeded")) (provider_fault "SetupIntent is not complete")
  customer ←
      or_throw (non_empty (expandable_id intent.customer))
        (provider_fault "SetupIntent is missing customer or payment method data")
  method_id ←
      or_throw (non_empty (expandable_id intent.payment_method))
        (provider_fault "SetupIntent is missing customer or payment method data")
  method ← ask (λ calls. sdk.payment_methods_retrieve calls method_id)
  pure (record {
    provider_customer_id = customer;
    payment_method = to_saved_payment_method method none;
    internal_customer_id = as_text (get_from "internalCustomerId" intent.metadata);
    tenant_id = as_text (get_from "tenantId" intent.metadata);
  })

pub record SavedMethods : Type 0 where
  pub default_payment_method_id : Option String
  pub methods : List StripeSavedPaymentMethod

unfoldable pub list_saved_payment_methods : Env → CustomerSdk → String → Action SavedMethods
unfolding to_saved_payment_method
list_saved_payment_methods env sdk provider_customer_id = do
  get_client env
  customer ← ask (λ calls. sdk.customers_retrieve calls provider_customer_id)
  throw_if customer.is_deleted (provider_fault "Stripe customer was deleted")
  methods ← ask (λ calls. sdk.payment_methods_list calls provider_customer_id)
  pure (record {
    default_payment_method_id = expandable_id customer.default_payment_method;
    methods =
        map (λ m. to_saved_payment_method m (expandable_id customer.default_payment_method))
          methods;
  })

abbrev pub is_active_status : String → Bool
is_active_status s =
    (s == "active")
    || (s == "trialing")
    || (s == "past_due")
    || (s == "unpaid")
    || (s == "incomplete")

-- the loop over the customer's subscriptions that are active
unfoldable pub set_subscription_defaults :
    CustomerSdk → String → List SubscriptionObject → Action (Unit {0})
set_subscription_defaults sdk method_id [] = pure tt
set_subscription_defaults sdk method_id (s ∷ rest) =
    let later = set_subscription_defaults sdk method_id rest in
    if is_active_status s.status
    then tell (subscription_default_set s.id method_id)
        (λ calls. sdk.subscriptions_set_default calls s.id method_id)
      >> later
    else later

abbrev pub is_id : Option String → String → Bool
is_id none id = false
is_id (some other) id = other == id

unfoldable pub set_default_payment_method :
    Env → CustomerSdk → String → String → Action StripeSavedPaymentMethod
unfolding to_saved_payment_method
set_default_payment_method env sdk provider_customer_id method_id = do
  get_client env
  method ← ask (λ calls. sdk.payment_methods_retrieve calls method_id)
  throw_if (not (is_id (expandable_id method.customer) provider_customer_id))
      (provider_fault "Payment method does not belong to the Stripe customer")
  tell (customer_default_set provider_customer_id method_id)
      (λ calls. sdk.customers_set_default calls provider_customer_id method_id)
  subscriptions ← ask (λ calls. sdk.subscriptions_list calls provider_customer_id)
  set_subscription_defaults sdk method_id subscriptions
  pure (to_saved_payment_method method (some method_id))
