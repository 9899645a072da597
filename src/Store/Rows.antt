-- ===== src/Store/Rows.antt =====
-- The tables of prisma/schema.prisma, a record for each model. Dates are milliseconds. Of
-- `AuditLog` the columns that no service reads back are left out.
use payment_microservice.Prelude.{ℕ, String, Bool, Option, List, ℤ}
use payment_microservice.Store.Enums.{
  TransactionStatus, Provider, AttemptStatus, EntryType, RefundStatus, InvoiceStatus, PlanInterval,
  SubscriptionStatus, CycleStatus,
}
use payment_microservice.Store.Columns.{Metadata}

pub record Transaction : Type 0 where
  pub id : String
  pub tenant_id : String
  pub order_id : String
  pub idempotency_key : String
  pub customer_id : String
  pub amount : ℤ
  pub currency : String
  pub status : TransactionStatus
  pub invoice_id : Option String
  pub metadata : Option Metadata

pub record PaymentAttempt : Type 0 where
  pub id : String
  pub transaction_id : String
  pub provider : Provider
  pub method : String
  pub provider_order_id : Option String
  pub client_secret : Option String
  pub status : AttemptStatus
  pub amount : ℤ
  pub currency : String
  pub metadata : Option Metadata
  pub failure_reason : Option String
  pub expires_at : Option ℕ

pub record LedgerEntry : Type 0 where
  pub tenant_id : String
  pub transaction_id : String
  pub type : EntryType
  pub debit_account : String
  pub credit_account : String
  pub amount : ℤ
  pub currency : String
  pub description : String
  pub created_at : ℕ

pub record WebhookLog : Type 0 where
  pub id : String
  pub provider : Provider
  pub event_type : String
  pub event_id : String
  pub attempt_id : Option String
  pub signature : String
  pub is_verified : Bool
  pub is_processed : Bool
  pub processed_at : Option ℕ
  pub error : Option String

pub record Refund : Type 0 where
  pub id : String
  pub tenant_id : String
  pub transaction_id : String
  pub amount : ℤ
  pub currency : String
  pub reason : Option String
  pub status : RefundStatus
  pub provider_refund_id : Option String
  -- `metadata.idempotencyKey`, the one field that is ever written
  pub idempotency_key : String

pub record InvoiceItem : Type 0 where
  pub description : String
  pub quantity : ℤ
  pub unit_amount : ℤ
  pub amount : ℤ
  pub cgst_amount : Option ℤ
  pub sgst_amount : Option ℤ
  pub igst_amount : Option ℤ

-- `INV-YYYYMM-XXXXXXXX`, by its parts
pub record InvoiceNumber : Type 0 where
  pub year : ℕ
  pub month : ℕ
  pub sequence : ℕ

pub record Invoice : Type 0 where
  pub id : String
  pub tenant_id : String
  pub invoice_number : InvoiceNumber
  pub customer_id : String
  pub status : InvoiceStatus
  pub subtotal : ℤ
  pub tax_amount : ℤ
  pub total_amount : ℤ
  pub currency : String
  pub due_date : Option ℕ
  pub paid_at : Option ℕ
  pub items : List InvoiceItem

pub record Plan : Type 0 where
  pub id : String
  pub tenant_id : String
  pub application_id : Option String
  pub name : String
  pub description : Option String
  pub amount : ℤ
  pub currency : String
  pub interval : PlanInterval
  pub interval_count : ℕ
  pub trial_days : ℕ
  pub is_active : Bool
  pub metadata : Option Metadata

pub record Subscription : Type 0 where
  pub id : String
  pub tenant_id : String
  pub customer_id : String
  pub plan_id : String
  pub status : SubscriptionStatus
  pub current_period_start : ℕ
  pub current_period_end : ℕ
  pub cancelled_at : Option ℕ
  pub cancel_reason : Option String
  pub trial_start : Option ℕ
  pub trial_end : Option ℕ
  pub metadata : Option Metadata

pub record SubscriptionCycle : Type 0 where
  pub id : String
  pub subscription_id : String
  pub period_start : ℕ
  pub period_end : ℕ
  pub amount : ℤ
  pub currency : String
  pub status : CycleStatus
  pub invoice_id : Option String
  pub attempt_count : ℕ

pub record CustomerBillingProfile : Type 0 where
  pub id : String
  pub tenant_id : String
  pub customer_id : String
  pub provider : Provider
  pub provider_customer_id : String
  pub default_payment_method_id : Option String
  pub metadata : Option Metadata

pub record AuditLog : Type 0 where
  pub tenant_id : String
  pub actor : String
  pub action : String
  pub resource_type : String
  pub resource_id : String

-- A request that changes what Stripe keeps of a customer
-- (src/modules/payment/provider/stripe/stripe.provider.ts)
pub data StripeCall : Type 0 where
  -- the email if there is one, the customer and the tenant
  customer_created : Option String → String → String → StripeCall
  -- Stripe's customer, the customer and the tenant, and the idempotency key
  setup_intent_created : String → String → String → String → StripeCall
  -- Stripe's customer and the payment method
  customer_default_set : String → String → StripeCall
  -- Stripe's subscription and the payment method
  subscription_default_set : String → String → StripeCall
