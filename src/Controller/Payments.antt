-- ===== src/Controller/Payments.antt =====
-- `PaymentOrchestratorController` and `RefundController` (src/modules/payment/).
use payment_microservice.Prelude.{ℕ, String, Bool, Option, List, ℤ, length}
use payment_microservice.Store.{
  Transaction, Refund, Provider, Metadata, Outcome, Action, gets, InitiatePaymentResult, Env,
}
use payment_microservice.Http.Guards.{JwtPayload, Request, Security}
use payment_microservice.Controller.{with_service_or_jwt, with_jwt}
use payment_microservice.Provider.{get_enabled_providers}
use payment_microservice.Transaction
use payment_microservice.Orchestrator.Initiate.{initiate_payment}
use payment_microservice.Orchestrator.Verify.{verify_payment}
use payment_microservice.Refund

-- The public route that lists the enabled providers
unfoldable pub get_enabled_methods : Env → List Provider × ℕ
get_enabled_methods env = (get_enabled_providers env, length (get_enabled_providers env))

pub record InitiatePaymentRequestDto : Type 0 where
  pub order_id : String
  pub idempotency_key : String
  pub amount : ℤ
  pub currency : String
  pub invoice_id : Option String
  pub providers : Option (List Provider)
  pub preferred_method : Option String
  pub metadata : Option Metadata

pub record VerifyPaymentRequestDto : Type 0 where
  pub attempt_id : String
  pub provider_payment_id : Option String
  pub provider_signature : Option String

pub record CreateRefundRequestDto : Type 0 where
  pub amount : ℤ
  pub reason : Option String
  pub idempotency_key : String

module _ (security : Security) (env : Env) (request : Request) where
  unfoldable pub initiate : InitiatePaymentRequestDto → Action InitiatePaymentResult
  initiate dto = with_service_or_jwt security "payment:write" request (λ user.
      initiate_payment env (record {
        tenant_id = user.tenant_id;
        order_id = dto.order_id;
        idempotency_key = dto.idempotency_key;
        customer_id = user.sub;
        amount = dto.amount;
        currency = dto.currency;
        invoice_id = dto.invoice_id;
        providers = dto.providers;
        preferred_method = dto.preferred_method;
        metadata = dto.metadata;
        actor_id = user.sub;
      }))

  unfoldable pub verify : String → VerifyPaymentRequestDto → Action Bool
  verify transaction_id dto = with_service_or_jwt security "payment:write" request (λ user.
      verify_payment env (record {
        tenant_id = user.tenant_id;
        transaction_id = transaction_id;
        attempt_id = dto.attempt_id;
        provider_payment_id = dto.provider_payment_id;
        provider_signature = dto.provider_signature;
        actor_id = user.sub;
      }))

  unfoldable pub get_transaction : String → Action Transaction
  get_transaction id =
      with_service_or_jwt security "payment:read" request
        (λ user. Transaction.find_by_id id (Option.some user.tenant_id))

  unfoldable pub list_transactions : ℕ → ℕ → Action (List Transaction × ℕ)
  list_transactions page limit =
      with_service_or_jwt security "payment:read" request
        (λ user. gets (Transaction.find_by_customer user.tenant_id user.sub page limit))

module _ (passport : Request → Outcome JwtPayload) (env : Env) (request : Request) where
  unfoldable pub create_refund : String → CreateRefundRequestDto → Action Refund
  create_refund transaction_id dto = with_jwt passport "refund:write" request (λ user.
      Refund.create_refund env (record {
        tenant_id = user.tenant_id;
        transaction_id = transaction_id;
        amount = dto.amount;
        reason = dto.reason;
        idempotency_key = dto.idempotency_key;
        actor_id = user.sub;
      }))

  unfoldable pub list_refunds : String → Action (List Refund)
  list_refunds transaction_id =
      with_jwt passport "refund:read" request
        (λ user. gets (Refund.find_by_transaction user.tenant_id transaction_id))
