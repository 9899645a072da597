-- ===== src/PaymentMethod.antt =====
-- `PaymentMethodService` (src/modules/payment/method/payment-method.service.ts). Each call returns
-- what its response has under `data`.
pub mod Profile
pub mod Ownership
use payment_microservice.Prelude.{
  ℕ, suc, String, Bool, true, false, not, ◌&&◌, ◌||◌, Option, none, some, List, [], ◌∷◌, ◌==◌,
  truthy, or_default, if◌then◌else◌, find_first,
}
use payment_microservice.Store.{
  CustomerBillingProfile, Provider, ErrorCode, Metadata, text, end, field, Db, bad_request,
  not_found, forbidden, Action, pure, throw, gets, modify, or_throw, throw_if, ◌>>=◌, ◌>>◌, Env,
}
use payment_microservice.Audit.{log}
use payment_microservice.Gateway.Stripe.Sdk.{CustomerSdk}
use payment_microservice.Gateway.Stripe.Customers.{
  StripeSavedPaymentMethod, SetupIntent, CompletedSetup, SavedMethods, non_empty, is_id,
  create_setup_intent as create_at_stripe, retrieve_completed_setup_intent,
  list_saved_payment_methods, set_default_payment_method as set_default_at_stripe,
}
use payment_microservice.PaymentMethod.Profile.{
  Recency, ProfileInput, resolve_stripe_profile, upsert_stripe_profile, sync_stored_default,
}
use mathlib.Core.Option

pub record CreateSetupIntentDto : Type 0 where
  pub tenant_id : String
  pub customer_id : String
  pub customer_email : Option String
  pub provider : Option Provider
  pub actor_id : String

pub record CompleteSetupIntentDto : Type 0 where
  pub tenant_id : String
  pub customer_id : String
  pub setup_intent_id : String
  pub provider : Option Provider
  pub set_as_default : Option Bool
  pub actor_id : String

pub record SetDefaultPaymentMethodDto : Type 0 where
  pub tenant_id : String
  pub customer_id : String
  pub payment_method_id : String
  pub provider : Option Provider
  pub actor_id : String

pub record MethodsData : Type 0 where
  pub items : List StripeSavedPaymentMethod
  pub default_payment_method_id : Option String
  pub providers : List Provider
  pub can_add_payment_method : Bool

pub record SetupData : Type 0 where
  pub provider : Provider
  pub setup_intent_id : String
  pub client_secret : String
  pub provider_customer_id : String
  pub publishable_key : String

pub record CompletedData : Type 0 where
  pub provider : Provider
  pub payment_method : StripeSavedPaymentMethod
  pub items : List StripeSavedPaymentMethod
  pub default_payment_method_id : Option String

abbrev pub assert_stripe_supported : Env → Action (Unit {0})
assert_stripe_supported env =
    throw_if (not env.stripe_enabled) (bad_request ErrorCode.payment_provider_unavailable)

abbrev pub resolve_provider : Env → Option Provider → Action Provider
resolve_provider env (some Provider.razorpay) = throw (bad_request ErrorCode.validation_error)
resolve_provider env (some Provider.cash) = throw (bad_request ErrorCode.validation_error)
resolve_provider env _ = do assert_stripe_supported env; pure Provider.stripe

abbrev pub log_method : String → String → String → String → Action (Unit {0})
log_method tenant_id actor action id = log (record {
  tenant_id = tenant_id;
  actor = actor;
  action = action;
  resource_type = "CustomerBillingProfile";
  resource_id = id;
})

abbrev pub found_method : List StripeSavedPaymentMethod → String → Option StripeSavedPaymentMethod
found_method methods id = find_first (λ m. m.id == id) methods

abbrev pub find_payment_method_or_throw :
    List StripeSavedPaymentMethod → String → Action StripeSavedPaymentMethod
find_payment_method_or_throw methods id =
    or_throw (found_method methods id) (not_found ErrorCode.not_found_code)

-- `randomUUID()`
abbrev pub random_uuid : Env → Action String
random_uuid env = do
  id ← gets (λ db. env.uuid db.issued)
  modify (λ db. record db { issued = suc db.issued })
  pure id

abbrev pub customer_id_of : Option CustomerBillingProfile → Option String
customer_id_of = Option.map (λ p. p.provider_customer_id)

abbrev pub default_of : Option CustomerBillingProfile → Option String
default_of none = none
default_of (some p) = p.default_payment_method_id

abbrev pub no_methods : List Provider → Bool → MethodsData
no_methods providers can_add = record {
  items = [];
  default_payment_method_id = none;
  providers = providers;
  can_add_payment_method = can_add;
}

-- whose setup it was
abbrev pub belongs_to : CompletedSetup → CompleteSetupIntentDto → Bool
belongs_to completed dto =
    is_id completed.internal_customer_id dto.customer_id && is_id completed.tenant_id dto.tenant_id

abbrev pub matches_profile : CompletedSetup → Option CustomerBillingProfile → Bool
matches_profile completed none = true
matches_profile completed (some p) = p.provider_customer_id == completed.provider_customer_id

-- `dto.setAsDefault ?? !existingProfile?.defaultPaymentMethodId`
abbrev pub should_set_default : CompleteSetupIntentDto → Option CustomerBillingProfile → Bool
should_set_default dto profile =
    or_default dto.set_as_default
      (elim (non_empty (default_of profile)) [ none ↦ true | some id ↦ false ])

abbrev pub setup_source : Option CustomerBillingProfile → String
setup_source none = "setup-intent"
setup_source (some p) = "existing-profile"

module _ (env : Env) (sdk : CustomerSdk) (recency : Recency) where
  abbrev pub resolve_existing : String → String → Action (Option CustomerBillingProfile)
  resolve_existing tenant_id customer_id = resolve_stripe_profile env sdk recency (record {
    tenant_id = tenant_id;
    customer_id = customer_id;
    customer_email = none;
    allow_create = false;
  })

  abbrev pub live_methods : Option CustomerBillingProfile → Action MethodsData
  live_methods none = pure (no_methods (Provider.stripe ∷ []) true)
  live_methods (some profile) = do
    live ← list_saved_payment_methods env sdk profile.provider_customer_id
    sync_stored_default profile live.default_payment_method_id
    pure (record {
      items = live.methods;
      default_payment_method_id = live.default_payment_method_id;
      providers = Provider.stripe ∷ [];
      can_add_payment_method = true;
    })

  unfoldable pub list_customer_payment_methods : String → String → Action MethodsData
  unfolding resolve_stripe_profile
  list_customer_payment_methods tenant_id customer_id =
      if env.stripe_enabled
      then (do profile ← resolve_existing tenant_id customer_id; live_methods profile)
      else pure (no_methods [] false)

  -- The publishable key comes from the configuration.
  unfoldable pub create_setup_intent : Option String → CreateSetupIntentDto → Action SetupData
  unfolding resolve_stripe_profile create_at_stripe upsert_stripe_profile log
  create_setup_intent publishable_key dto = do
    provider ← resolve_provider env dto.provider
    key ← or_throw (non_empty publishable_key) (bad_request ErrorCode.payment_provider_unavailable)
    profile ← resolve_stripe_profile env sdk recency (record {
      tenant_id = dto.tenant_id;
      customer_id = dto.customer_id;
      customer_email = dto.customer_email;
      allow_create = true;
    })
    idempotency_key ← random_uuid env
    intent ←
        create_at_stripe env sdk (customer_id_of profile) dto.customer_email dto.customer_id
          dto.tenant_id idempotency_key
    saved ← upsert_stripe_profile env (record {
      tenant_id = dto.tenant_id;
      customer_id = dto.customer_id;
      provider_customer_id = intent.provider_customer_id;
      default_payment_method_id = default_of profile;
      metadata =
          field "source" (text (setup_source profile))
            (field "lastSetupIntentId" (text intent.setup_intent_id) end);
    })
    log_method dto.tenant_id dto.actor_id "PAYMENT_METHOD_SETUP_INTENT_CREATED" saved.id
    pure (record {
      provider = provider;
      setup_intent_id = intent.setup_intent_id;
      client_secret = intent.client_secret;
      provider_customer_id = saved.provider_customer_id;
      publishable_key = key;
    })

  abbrev pub set_default_if : Bool → String → String → Action (Unit {0})
  set_default_if false customer method_id = pure tt
  set_default_if true customer method_id = do
    set_default_at_stripe env sdk customer method_id
    pure tt

  -- what follows the check of whose setup it was
  unfoldable pub save_completed :
      CompleteSetupIntentDto
      → Provider
      → CompletedSetup
      → Option CustomerBillingProfile
      → Action CompletedData
  unfolding list_saved_payment_methods upsert_stripe_profile log
  save_completed dto provider completed profile = do
    set_default_if (should_set_default dto profile) completed.provider_customer_id
        completed.payment_method.id
    live ← list_saved_payment_methods env sdk completed.provider_customer_id
    saved ← upsert_stripe_profile env (record {
      tenant_id = dto.tenant_id;
      customer_id = dto.customer_id;
      provider_customer_id = completed.provider_customer_id;
      default_payment_method_id = live.default_payment_method_id;
      metadata =
          field "source" (text "setup-intent-complete")
            (field "lastSetupIntentId" (text dto.setup_intent_id) end);
    })
    log_method dto.tenant_id dto.actor_id "PAYMENT_METHOD_ADDED" saved.id
    method ← find_payment_method_or_throw live.methods completed.payment_method.id
    pure (record {
      provider = provider;
      payment_method = method;
      items = live.methods;
      default_payment_method_id = live.default_payment_method_id;
    })

  unfoldable pub complete_setup_intent : CompleteSetupIntentDto → Action CompletedData
  unfolding retrieve_completed_setup_intent resolve_stripe_profile save_completed
  complete_setup_intent dto = do
    provider ← resolve_provider env dto.provider
    completed ← retrieve_completed_setup_intent env sdk dto.setup_intent_id
    profile ← resolve_existing dto.tenant_id dto.customer_id
    throw_if (not (belongs_to completed dto) || not (matches_profile completed profile))
        (forbidden ErrorCode.forbidden_code)
    save_completed dto provider completed profile

  unfoldable pub set_default_payment_method :
      SetDefaultPaymentMethodDto → Action (Provider × StripeSavedPaymentMethod)
  unfolding resolve_stripe_profile set_default_at_stripe sync_stored_default log
  set_default_payment_method dto = do
    provider ← resolve_provider env dto.provider
    found ← resolve_existing dto.tenant_id dto.customer_id
    profile ← or_throw found (not_found ErrorCode.not_found_code)
    method ← set_default_at_stripe env sdk profile.provider_customer_id dto.payment_method_id
    sync_stored_default profile (some method.id)
    log_method dto.tenant_id dto.actor_id "PAYMENT_METHOD_DEFAULT_UPDATED" profile.id
    pure (provider, method)
