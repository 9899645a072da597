-- ===== src/PaymentMethod/Ownership.antt =====
-- Whose SetupIntent a customer can complete, and where the default method is kept.
use payment_microservice.Prelude.{
  String, Bool, false, ◌&&◌, ◌||◌, not, Option, none, some, ◌≡◌, refl, arith, inl, inr, List,
}
use payment_microservice.Store.{
  Db, Fault, forbidden, ErrorCode, Action, throw_if, ◌>>=◌, ◌>>◌, Outcome, ok, err, as_text,
  CustomerBillingProfile, StripeCall, Env, Provider, Outcome-cases,
}
use payment_microservice.Store.Keeps.{
  Keeps, Keeps-pure, Keeps-throw, Keeps-gets, Keeps-bind, keeps_rules, bind_lem,
}
use payment_microservice.Js.{get_from}
use payment_microservice.Gateway.Stripe.Sdk.{CustomerSdk, SetupIntentObject}
use payment_microservice.Gateway.Stripe.Customers.{
  CompletedSetup, is_id, retrieve_completed_setup_intent,
}
use payment_microservice.Gateway.Stripe.Keeps.{retrieve_completed_setup_intent-Keeps}
use payment_microservice.PaymentMethod.{
  CompleteSetupIntentDto, CompletedData, resolve_provider, complete_setup_intent, belongs_to,
  resolve_existing, matches_profile, save_completed,
}
use payment_microservice.PaymentMethod.Profile.{
  Recency, ProfileInput, UpsertInput, DiscoveredProfile, upsert_stripe_profile, insert_or_update,
  existing_or_discovered, upsert_discovered, resolve_stripe_profile,
}

-- the metadata of a SetupIntent name the customer and the tenant of a request
abbrev pub names : SetupIntentObject → CompleteSetupIntentDto → Bool
names intent dto =
    is_id (as_text (get_from "internalCustomerId" intent.metadata)) dto.customer_id
    && is_id (as_text (get_from "tenantId" intent.metadata)) dto.tenant_id

pub resolve_provider-Keeps {κ} :
    {P : Db → Type κ} (env : Env) (provider : Option Provider)
    → Keeps P (resolve_provider env provider)
resolve_provider-Keeps env none = search keeps_rules
resolve_provider-Keeps env (some Provider.stripe) = search keeps_rules
resolve_provider-Keeps env (some Provider.razorpay) = Keeps-throw _
resolve_provider-Keeps env (some Provider.cash) = Keeps-throw _

-- Stripe has been asked to change nothing since `calls`.
abbrev IsUntouched : List StripeCall → Db → Type 0
IsUntouched calls db = db.stripe_calls ≡ calls

existing_input : String → String → ProfileInput
existing_input tenant_id customer_id = record {
  tenant_id = tenant_id;
  customer_id = customer_id;
  customer_email = none;
  allow_create = false;
}

module _ {calls : List StripeCall} (env : Env) (sdk : CustomerSdk) (recency : Recency) where
  insert_or_update-IsUntouched :
      (input : UpsertInput) (found : Option CustomerBillingProfile)
      → Keeps (IsUntouched calls) (insert_or_update env input found)
  insert_or_update-IsUntouched input none = record { at = λ db h. h }
  insert_or_update-IsUntouched input (some p) = record { at = λ db h. h }

  upsert-IsUntouched :
      (input : UpsertInput) → Keeps (IsUntouched calls) (upsert_stripe_profile env input)
  unfolding upsert_stripe_profile
  upsert-IsUntouched input = search (keeps_rules, insert_or_update-IsUntouched)

  discovered-IsUntouched :
      (input : ProfileInput)
      → input.allow_create ≡ false
      → (found : Option DiscoveredProfile)
      → Keeps (IsUntouched calls) (upsert_discovered env sdk input found)
  discovered-IsUntouched input only_read none = rw only_read (Keeps-pure none)
  discovered-IsUntouched input only_read (some found) = search (keeps_rules, upsert-IsUntouched)

  existing-IsUntouched :
      (input : ProfileInput)
      → input.allow_create ≡ false
      → (found : Option CustomerBillingProfile)
      → Keeps (IsUntouched calls) (existing_or_discovered env sdk recency input found)
  existing-IsUntouched input only_read (some p) = Keeps-pure _
  existing-IsUntouched input only_read none =
      Keeps-bind _ _ (Keeps-gets _) (discovered-IsUntouched input only_read)

  resolve_existing-IsUntouched :
      (tenant_id customer_id : String)
      → Keeps (IsUntouched calls) (resolve_existing env sdk recency tenant_id customer_id)
  unfolding resolve_stripe_profile existing_input
  resolve_existing-IsUntouched tenant_id customer_id =
      Keeps-bind _ _ (Keeps-gets _)
        (existing-IsUntouched (existing_input tenant_id customer_id) refl)

-- It threw, and Stripe has been asked to change nothing since `calls`.
abbrev pub IsRefused : List StripeCall → Outcome CompletedData × Db → Type 0
IsRefused calls (r, after) = ((e : Fault) × (r ≡ err e)) × (after.stripe_calls ≡ calls)

module _ (env : Env) (sdk : CustomerSdk) (recency : Recency) (dto : CompleteSetupIntentDto) where
  retrieved_lem :
      (db : Db) (completed : CompletedSetup)
      → ((intent : SetupIntentObject)
          → sdk.setup_intents_retrieve db.stripe_calls dto.setup_intent_id ≡ ok intent
          → names intent dto ≡ false)
      → (retrieve_completed_setup_intent env sdk dto.setup_intent_id db).0 ≡ ok completed
      → belongs_to completed dto ≡ false
  unfolding retrieve_completed_setup_intent
  retrieved_lem db completed other done =
      elim (Outcome-cases (sdk.setup_intents_retrieve db.stripe_calls dto.setup_intent_id)) [
        | inl (intent, found) ↦ ground (arith, other intent found)
        | inr (e, thrown) ↦ ground arith
      ]

  -- what follows the answer of Stripe
  check_owner : Provider → CompletedSetup → Action CompletedData
  check_owner provider completed = do
    profile ← resolve_existing env sdk recency dto.tenant_id dto.customer_id
    throw_if (not (belongs_to completed dto) || not (matches_profile completed profile))
        (forbidden ErrorCode.forbidden_code)
    save_completed env sdk recency dto provider completed profile

  check_owner-IsRefused :
      {calls : List StripeCall} (provider : Provider) (completed : CompletedSetup) (db : Db)
      → belongs_to completed dto ≡ false
      → db.stripe_calls ≡ calls
      → IsRefused calls (check_owner provider completed db)
  unfolding check_owner
  check_owner-IsRefused {calls} provider completed db other same =
      let kept =
        (resolve_existing-IsUntouched env sdk recency dto.tenant_id dto.customer_id).at db same in
      bind_lem (IsRefused calls) _ (resolve_existing env sdk recency dto.tenant_id dto.customer_id)
        db (λ e h. ((e, refl), kept))
        (λ profile h. rw other ((forbidden ErrorCode.forbidden_code, refl), kept))

  retrieve-IsRefused :
      {calls : List StripeCall} (provider : Provider) (db : Db)
      → ((intent : SetupIntentObject)
          → sdk.setup_intents_retrieve db.stripe_calls dto.setup_intent_id ≡ ok intent
          → names intent dto ≡ false)
      → db.stripe_calls ≡ calls
      → IsRefused calls (
          (retrieve_completed_setup_intent env sdk dto.setup_intent_id >>= check_owner provider) db)
  retrieve-IsRefused {calls} provider db other same =
      let kept =
        (retrieve_completed_setup_intent-Keeps {P = IsUntouched calls} env sdk
            dto.setup_intent_id).at
          db same in
      bind_lem (IsRefused calls) (check_owner provider)
        (retrieve_completed_setup_intent env sdk dto.setup_intent_id) db (λ e h. ((e, refl), kept))
        (λ completed h.
          check_owner-IsRefused provider completed _ (retrieved_lem db completed other h) kept)

  -- If the SetupIntent that Stripe has, where it has one, names another customer or another tenant
  -- than the request, the completion throws, and Stripe has been asked to change nothing.
  pub complete_setup_intent-IsRefused :
      (db : Db)
      → ((intent : SetupIntentObject)
          → sdk.setup_intents_retrieve db.stripe_calls dto.setup_intent_id ≡ ok intent
          → names intent dto ≡ false)
      → IsRefused db.stripe_calls (complete_setup_intent env sdk recency dto db)
  unfolding complete_setup_intent check_owner
  complete_setup_intent-IsRefused db other =
      let kept =
        (resolve_provider-Keeps {P = IsUntouched db.stripe_calls} env dto.provider).at db refl in
      bind_lem (IsRefused db.stripe_calls) _ (resolve_provider env dto.provider) db
        (λ e h. ((e, refl), kept))
        (λ provider h. retrieve-IsRefused provider _ (rw kept other) kept)
