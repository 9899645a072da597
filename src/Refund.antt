-- ===== src/Refund.antt =====
-- `RefundService` (src/modules/payment/refund/refund.service.ts).
pub mod Safety
pub mod LateFailure
use payment_microservice.Prelude.{
  suc, String, Bool, not, ◌&&◌, Option, none, some, List, [], ◌∷◌, ℤ, pos, ◌+ℤ◌, ◌-ℤ◌, ltb_ℤ, leb_ℤ,
  ◌==◌, truthy, or_default, if◌then◌else◌, find_first, find_many, update_where,
}
use payment_microservice.Store.{
  Transaction, TransactionStatus, PaymentAttempt, Refund, RefundStatus, is_refundable, is_refunded,
  ErrorCode, Db, Fault, bad_request, Action, pure, throw, gets, modify, lift, require, throw_if,
  with_transaction, catch, ◌>>=◌, ◌>>◌, Env, RefundInput, RefundState, RefundProviderResponse,
}
use payment_microservice.Audit.{log}
use payment_microservice.Ledger.{RecordRefundInput, record_refund}
use payment_microservice.Provider as ProviderFactory
use payment_microservice.Transaction
use payment_microservice.Attempt
use payment_microservice.Subscription.{provider_text}
use Prim.Native.String.{◌++◌ as str_append}

pub record CreateRefundDto : Type 0 where
  pub tenant_id : String
  pub transaction_id : String
  pub amount : ℤ
  pub reason : Option String
  pub idempotency_key : String
  pub actor_id : String

abbrev pub has_key : String → String → String → Refund → Bool
has_key tenant_id transaction_id hashed r =
    (r.tenant_id == tenant_id)
    && (r.transaction_id == transaction_id)
    && (r.idempotency_key == hashed)

-- the rows that `refund.aggregate` adds up
abbrev pub is_success_of : String → Refund → Bool
is_success_of transaction_id r = (r.transaction_id == transaction_id) && is_refunded r.status

-- `_sum.amount ?? 0n`
unfoldable pub refunded_amount : String → List Refund → ℤ
refunded_amount transaction_id [] = pos 0
refunded_amount transaction_id (r ∷ rs) =
    let rest = refunded_amount transaction_id rs in
    if is_success_of transaction_id r then r.amount +ℤ rest else rest

abbrev pub new_refund : Env → CreateRefundDto → Transaction → Db → Refund
new_refund env dto t db = record {
  id = env.uuid db.issued;
  tenant_id = dto.tenant_id;
  transaction_id = dto.transaction_id;
  amount = dto.amount;
  currency = t.currency;
  reason = dto.reason;
  status = RefundStatus.processing;
  provider_refund_id = none;
  idempotency_key = env.hash dto.idempotency_key;
}

abbrev pub add_refund : Refund → Db → Db
add_refund r db = record db { issued = suc db.issued; refunds = r ∷ db.refunds }

abbrev pub has_id : String → Refund → Bool
has_id id r = r.id == id

abbrev pub update_refund : String → (Refund → Refund) → Db → Db
update_refund id f db = record db { refunds = update_where (has_id id) f db.refunds }

abbrev pub with_status : RefundStatus → Refund → Refund
with_status status r = record r { status = status }

-- `providerResult.status === 'SUCCESS' ? SUCCESS : PROCESSING`
abbrev pub outcome_status : RefundState → RefundStatus
outcome_status RefundState.success = RefundStatus.success
outcome_status _ = RefundStatus.processing

abbrev pub answered : RefundProviderResponse → Refund → Refund
answered response r = record r {
  status = outcome_status response.status;
  provider_refund_id = some response.provider_refund_id;
}

-- `dto.amount >= transaction.amount - alreadyRefunded`
abbrev pub refund_status : ℤ → ℤ → TransactionStatus
refund_status amount available =
    if leb_ℤ available amount
    then TransactionStatus.refunded
    else TransactionStatus.partially_refunded

abbrev pub refund_input : Env → CreateRefundDto → Transaction → String → RefundInput
refund_input env dto t order_id = record {
  provider_payment_id = order_id;
  amount = dto.amount;
  currency = t.currency;
  reason = dto.reason;
  idempotency_key = env.hash dto.idempotency_key;
}

abbrev pub ledger_input : CreateRefundDto → Transaction → PaymentAttempt → RecordRefundInput
ledger_input dto t a = record {
  tenant_id = dto.tenant_id;
  transaction_id = dto.transaction_id;
  amount = dto.amount;
  currency = t.currency;
  description = str_append "Refund via " (
      str_append (provider_text a.provider)
        (str_append ": " (or_default dto.reason "customer request")));
}

-- the callback of `withTransaction`
unfoldable pub settle :
    Env
    → CreateRefundDto
    → Transaction
    → PaymentAttempt
    → ℤ
    → Refund
    → RefundProviderResponse
    → Action (Unit {0})
unfolding record_refund Transaction.update_status
settle env dto t a available r response = do
  found ← gets (λ db. find_first (has_id r.id) db.refunds)
  row ← require found
  modify (update_refund r.id (answered response))
  Transaction.update_status dto.transaction_id (refund_status dto.amount available)
  record_refund env (record {
    tenant_id = dto.tenant_id;
    transaction_id = dto.transaction_id;
    amount = dto.amount;
    currency = t.currency;
    description = str_append "Refund via " (
        str_append (provider_text a.provider)
          (str_append ": " (or_default dto.reason "customer request")));
  })
  pure tt

-- the `try` block
unfoldable pub pay_back :
    Env → CreateRefundDto → Transaction → PaymentAttempt → String → ℤ → Refund → Action Refund
unfolding settle log ProviderFactory.get_provider
pay_back env dto t a order_id available r = do
  provider ← lift (ProviderFactory.get_provider env a.provider)
  response ← lift (provider.refund_payment (refund_input env dto t order_id))
  with_transaction (settle env dto t a available r response)
  log (record {
    tenant_id = dto.tenant_id;
    actor = dto.actor_id;
    action = "REFUND_PROCESSED";
    resource_type = "Refund";
    resource_id = r.id;
  })
  found ← gets (λ db. find_first (has_id r.id) db.refunds)
  require found

-- the `catch` block
unfoldable pub mark_failed_and_rethrow : Refund → Fault → Action Refund
mark_failed_and_rethrow r e = do
  modify (update_refund r.id (with_status RefundStatus.failed))
  throw e

-- the provider's id of the payment: `!successAttempt?.providerOrderId` is refused
abbrev pub order_of : Option PaymentAttempt → Option (PaymentAttempt × String)
order_of none = none
order_of (some a) = elim a.provider_order_id [
  | none ↦ none
  | some order_id ↦ if truthy order_id then some (a, order_id) else none
]

-- creates the record, then tries the provider
abbrev pub record_and_pay :
    Env → CreateRefundDto → Transaction → ℤ → Option (PaymentAttempt × String) → Action Refund
record_and_pay env dto t available none = throw (bad_request ErrorCode.refund_not_eligible)
record_and_pay env dto t available (some (a, order_id)) = do
  r ← gets (new_refund env dto t)
  modify (add_refund r)
  catch (pay_back env dto t a order_id available r) (mark_failed_and_rethrow r)

unfoldable pub check_and_pay : Env → CreateRefundDto → Action Refund
unfolding Transaction.find_by_id Attempt.find_success_attempt
check_and_pay env dto = do
  t ← Transaction.find_by_id dto.transaction_id (some dto.tenant_id)
  throw_if (not (is_refundable t.status)) (bad_request ErrorCode.refund_not_eligible)
  available ← gets (λ db. t.amount -ℤ refunded_amount dto.transaction_id db.refunds)
  throw_if (ltb_ℤ available dto.amount) (bad_request ErrorCode.refund_exceeds_amount)
  paid ← gets (Attempt.find_success_attempt dto.transaction_id)
  record_and_pay env dto t available (order_of paid)

abbrev pub replay_or_check : Env → CreateRefundDto → Option Refund → Action Refund
replay_or_check env dto (some existing) = pure existing
replay_or_check env dto none = check_and_pay env dto

unfoldable pub create_refund : Env → CreateRefundDto → Action Refund
create_refund env dto = do
  existing ← gets (λ db.
      find_first (has_key dto.tenant_id dto.transaction_id (env.hash dto.idempotency_key))
        db.refunds)
  replay_or_check env dto existing

unfoldable pub find_by_transaction : String → String → Db → List Refund
find_by_transaction tenant_id transaction_id db =
    find_many (λ r. (r.tenant_id == tenant_id) && (r.transaction_id == transaction_id)) db.refunds
