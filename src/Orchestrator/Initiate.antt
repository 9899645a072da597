-- ===== src/Orchestrator/Initiate.antt =====
-- `initiatePayment` (src/modules/payment/orchestrator/payment-orchestrator.service.ts). Of a failed
-- provider the model keeps the name and not the text that `describeProviderError` makes of it.
use payment_microservice.Prelude.{
  String, Bool, ◌&&◌, Option, none, some, List, [], ◌∷◌, ◌++◌, ℤ, ◌==◌, truthy, or_default,
  if◌then◌else◌, find_first,
}
use payment_microservice.Store.{
  Transaction, TransactionStatus, Provider, is_same_provider, CustomerBillingProfile, Metadata, end,
  field, text, merge, PaymentOption, InitiatePaymentResult, Db, provider_unavailable, Outcome, ok,
  err, Action, pure, throw, gets, lift, ◌>>=◌, ◌>>◌, Env, CreatePaymentInput,
  ProviderPaymentResponse,
}
use payment_microservice.Audit.{log}
use payment_microservice.Provider as ProviderFactory
use payment_microservice.Idempotency
use payment_microservice.Transaction
use payment_microservice.Attempt

pub record InitiatePaymentDto : Type 0 where
  pub tenant_id : String
  pub order_id : String
  pub idempotency_key : String
  pub customer_id : String
  pub amount : ℤ
  pub currency : String
  pub invoice_id : Option String
  pub providers : Option (List Provider)
  pub preferred_method : Option String
  pub metadata : Option Metadata
  pub actor_id : String

abbrev pub transaction_dto : InitiatePaymentDto → Transaction.CreateTransactionDto
transaction_dto dto = record {
  tenant_id = dto.tenant_id;
  order_id = dto.order_id;
  idempotency_key = dto.idempotency_key;
  customer_id = dto.customer_id;
  amount = dto.amount;
  currency = dto.currency;
  invoice_id = dto.invoice_id;
  metadata = dto.metadata;
}

abbrev pub has_profile : String → String → CustomerBillingProfile → Bool
has_profile tenant_id customer_id p =
    (p.tenant_id == tenant_id)
    && (p.customer_id == customer_id)
    && is_same_provider p.provider Provider.stripe

abbrev pub with_customer : Option Metadata → Option CustomerBillingProfile → Option Metadata
with_customer metadata none = metadata
with_customer metadata (some p) =
    if truthy p.provider_customer_id
    then some (
        merge (or_default metadata end)
          (field "providerCustomerId" (text p.provider_customer_id) end))
    else metadata

unfoldable pub resolve_provider_metadata : Provider → InitiatePaymentDto → Db → Option Metadata
resolve_provider_metadata p dto db =
    if is_same_provider p Provider.stripe
    then with_customer dto.metadata
        (find_first (has_profile dto.tenant_id dto.customer_id) db.billing_profiles)
    else dto.metadata

abbrev pub payment_input :
    InitiatePaymentDto → Transaction → Provider → Option Metadata → CreatePaymentInput
payment_input dto t p metadata = record {
  amount = dto.amount;
  currency = dto.currency;
  transaction_id = t.id;
  customer_id = dto.customer_id;
  method = dto.preferred_method;
  idempotency_key = (dto.idempotency_key, p);
  metadata = metadata;
}

abbrev pub attempt_dto :
    InitiatePaymentDto → Transaction → Provider → ProviderPaymentResponse → Attempt.CreateAttemptDto
attempt_dto dto t p response = record {
  transaction_id = t.id;
  provider = p;
  method = response.method;
  provider_order_id = some response.provider_order_id;
  client_secret = response.client_secret;
  amount = dto.amount;
  currency = dto.currency;
  metadata = response.metadata;
}

abbrev pub when_provider : Provider → Provider → Option String → Option String
when_provider p wanted value = if is_same_provider p wanted then value else none

abbrev pub payment_option : Provider → ProviderPaymentResponse → String → PaymentOption
payment_option p response attempt_id = record {
  provider = p;
  method = response.method;
  order_id = when_provider p Provider.razorpay (some response.provider_order_id);
  client_secret = when_provider p Provider.stripe response.client_secret;
  session_url = when_provider p Provider.stripe response.session_url;
  attempt_id = attempt_id;
}

-- the body of the `try` in the loop over the providers
unfoldable pub try_provider :
    Env → InitiatePaymentDto → Transaction → Provider → Action PaymentOption
unfolding Attempt.create ProviderFactory.get_provider
try_provider env dto t p = do
  provider ← lift (ProviderFactory.get_provider env p)
  metadata ← gets (resolve_provider_metadata p dto)
  response ← lift (provider.create_payment (payment_input dto t p metadata))
  a ← Attempt.create env (attempt_dto dto t p response)
  pure (payment_option p response a.id)

-- What the loop has collected: the options, and the providers that failed
pub record Progress : Type 0 where
  pub options : List PaymentOption
  pub failures : List Provider

abbrev pub collect : Provider → Progress → Outcome PaymentOption → Progress
collect p acc (ok option) = record acc { options = acc.options ++ option ∷ [] }
collect p acc (err e) = record acc { failures = acc.failures ++ p ∷ [] }

unfoldable pub try_all :
    Env → InitiatePaymentDto → Transaction → List Provider → Progress → Action Progress
try_all env dto t [] acc db = (ok acc, db)
try_all env dto t (p ∷ ps) acc db =
    let (r, db') = try_provider env dto t p db in try_all env dto t ps (collect p acc r) db'

unfoldable pub finish :
    Env
    → InitiatePaymentDto
    → Transaction
    → List PaymentOption
    → List Provider
    → Action InitiatePaymentResult
finish env dto t [] failures = do
  Transaction.update_status t.id TransactionStatus.failed
  throw (provider_unavailable failures)
finish env dto t (o ∷ os) failures = do
  Transaction.update_status t.id TransactionStatus.processing
  Idempotency.store env dto.idempotency_key (record { transaction_id = t.id; options = o ∷ os })
  pure (record { transaction_id = t.id; options = o ∷ os })

unfoldable pub start : Env → InitiatePaymentDto → Action InitiatePaymentResult
unfolding log
start env dto = do
  t ← Transaction.create env (transaction_dto dto)
  log (record {
    tenant_id = dto.tenant_id;
    actor = dto.actor_id;
    action = "PAYMENT_INITIATED";
    resource_type = "Transaction";
    resource_id = t.id;
  })
  progress ←
      try_all env dto t (or_default dto.providers (ProviderFactory.get_enabled_providers env))
        (record { options = []; failures = [] })
  finish env dto t progress.options progress.failures

abbrev pub replay_or_start :
    Env → InitiatePaymentDto → Option InitiatePaymentResult → Action InitiatePaymentResult
replay_or_start env dto (some cached) = pure cached
replay_or_start env dto none = start env dto

unfoldable pub initiate_payment : Env → InitiatePaymentDto → Action InitiatePaymentResult
initiate_payment env dto = do
  cached ← gets (Idempotency.get env dto.idempotency_key)
  replay_or_start env dto cached
