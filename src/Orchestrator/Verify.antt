-- ===== src/Orchestrator/Verify.antt =====
-- `verifyPayment` (src/modules/payment/orchestrator/payment-orchestrator.service.ts).
use payment_microservice.Prelude.{
  String, Bool, true, false, not, ◌&&◌, Option, none, some, ◌==◌, or_default, if◌then◌else◌,
  update_where,
}
use payment_microservice.Store.{
  Transaction, TransactionStatus, PaymentAttempt, AttemptStatus, is_success, is_failed, is_open,
  Metadata, end, field, merge, or_json_null, Db, Action, pure, lift, modify, with_transaction,
  ◌>>=◌, ◌>>◌, Env, VerifyPaymentInput, VerifyPaymentResult,
}
use payment_microservice.Audit.{log}
use payment_microservice.Ledger.{RecordPaymentInput, record_payment}
use payment_microservice.Provider as ProviderFactory
use payment_microservice.Transaction
use payment_microservice.Attempt
use payment_microservice.Orchestrator.Recurring.{
  SyncInput, text_or_null, as_billing_metadata, sync_recurring_subscription_on_success,
}
use Prim.Native.String.{◌++◌ as str_append}
use payment_microservice.Subscription.{provider_text}

pub record VerifyPaymentDto : Type 0 where
  pub tenant_id : String
  pub transaction_id : String
  pub attempt_id : String
  pub provider_payment_id : Option String
  pub provider_signature : Option String
  pub actor_id : String

abbrev pub verify_input : VerifyPaymentDto → PaymentAttempt → VerifyPaymentInput
verify_input dto a = record {
  provider_order_id = a.provider_order_id;
  provider_payment_id = dto.provider_payment_id;
  provider_signature = dto.provider_signature;
}

-- `mergedAttemptMetadata`
abbrev pub merged_metadata : VerifyPaymentDto → PaymentAttempt → VerifyPaymentResult → Metadata
merged_metadata dto a result = merge (as_billing_metadata a.metadata) (
    merge (or_default result.metadata end)
      (field "providerPaymentId" (text_or_null dto.provider_payment_id) end))

abbrev pub with_metadata : Metadata → PaymentAttempt → PaymentAttempt
with_metadata m a = record a { metadata = or_json_null m }

-- the other attempts of the transaction that are still open
abbrev pub is_other_open : String → String → PaymentAttempt → Bool
is_other_open transaction_id id a =
    (a.transaction_id == transaction_id) && not (a.id == id) && is_open a.status

unfoldable pub cancel_others : String → String → Db → Db
cancel_others transaction_id id db = record db {
  attempts =
      update_where (is_other_open transaction_id id) (Attempt.with_status AttemptStatus.cancelled)
        db.attempts;
}

abbrev pub ledger_input : VerifyPaymentDto → PaymentAttempt → RecordPaymentInput
ledger_input dto a = record {
  tenant_id = dto.tenant_id;
  transaction_id = dto.transaction_id;
  amount = a.amount;
  currency = a.currency;
  description = str_append "Payment received via " (provider_text a.provider);
  tax_amount = none;
}

abbrev pub sync_input :
    VerifyPaymentDto → PaymentAttempt → Transaction → VerifyPaymentResult → SyncInput
sync_input dto a t result = record {
  tenant_id = dto.tenant_id;
  customer_id = t.customer_id;
  transaction_metadata = as_billing_metadata t.metadata;
  provider = a.provider;
  provider_order_id = a.provider_order_id;
  attempt_metadata = merged_metadata dto a result;
  actor_id = dto.actor_id;
}

-- the callback of `withTransaction`
unfoldable pub settle_success :
    Env → VerifyPaymentDto → PaymentAttempt → Transaction → VerifyPaymentResult → Action (Unit {0})
settle_success env dto a t result = do
  Attempt.mark_success a.id
  modify (Attempt.update_attempt a.id (with_metadata (merged_metadata dto a result)))
  modify (cancel_others dto.transaction_id a.id)
  Transaction.update_status dto.transaction_id TransactionStatus.success
  record_payment env (record {
    tenant_id = dto.tenant_id;
    transaction_id = dto.transaction_id;
    amount = a.amount;
    currency = a.currency;
    description = str_append "Payment received via " (provider_text a.provider);
    tax_amount = none;
  })
  sync_recurring_subscription_on_success env (sync_input dto a t result)

abbrev pub log_result : VerifyPaymentDto → String → Action (Unit {0})
log_result dto action = log (record {
  tenant_id = dto.tenant_id;
  actor = dto.actor_id;
  action = action;
  resource_type = "Transaction";
  resource_id = dto.transaction_id;
})

-- what follows the provider's answer
abbrev pub accept_or_reject :
    Env → VerifyPaymentDto → PaymentAttempt → Transaction → VerifyPaymentResult → Action Bool
accept_or_reject env dto a t result =
    if result.is_success
    then (do
      with_transaction (settle_success env dto a t result)
      log_result dto "PAYMENT_VERIFIED"
      pure true)
    else (do
      Attempt.mark_failed a.id (or_default result.failure_reason "Verification failed")
      log_result dto "PAYMENT_VERIFICATION_FAILED"
      pure false)

abbrev pub ask_provider : Env → VerifyPaymentDto → PaymentAttempt → Transaction → Action Bool
ask_provider env dto a t = do
  provider ← lift (ProviderFactory.get_provider env a.provider)
  result ← lift (provider.verify_payment (verify_input dto a))
  accept_or_reject env dto a t result

-- an attempt that has been settled already is answered from its status
abbrev pub settled_or_ask : Env → VerifyPaymentDto → PaymentAttempt → Transaction → Action Bool
settled_or_ask env dto a t =
    if is_success a.status
    then pure true
    else if is_failed a.status
    then pure false
    else ask_provider env dto a t

-- The result is `success`; `transactionId` is the input's.
unfoldable pub verify_payment : Env → VerifyPaymentDto → Action Bool
unfolding log
verify_payment env dto = do
  a ← Attempt.find_by_id dto.attempt_id
  t ← Transaction.find_by_id dto.transaction_id (some dto.tenant_id)
  settled_or_ask env dto a t
