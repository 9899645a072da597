-- ===== src/Tests/World.antt =====
-- A small shop: one tenant, one customer, one order of 100 paid in cash, and the calls on them.
use payment_microservice.Prelude.{
  ℕ, zero, suc, ◌+◌, ◌*◌, String, true, false, none, some, [], ◌∷◌, pos,
}
use payment_microservice.Store.{
  Transaction, TransactionStatus, PaymentAttempt, AttemptStatus, Provider, Db, Outcome, ok, Env,
  PaymentProvider, RefundProviderResponse, RefundState,
}
use payment_microservice.Transaction.{CreateTransactionDto}
use payment_microservice.Attempt.{CreateAttemptDto}
use payment_microservice.Orchestrator.Initiate.{InitiatePaymentDto}
use payment_microservice.Orchestrator.Verify.{VerifyPaymentDto}
use payment_microservice.Refund.{CreateRefundDto}

abbrev pub numbered : ℕ → String
numbered zero = "row-0"
numbered (suc zero) = "row-1"
numbered (suc (suc n)) = "row-2"

abbrev pub counter : Outcome RefundProviderResponse → PaymentProvider
counter answer = record {
  create_payment = λ input. ok (record {
    provider_order_id = "cash-1";
    client_secret = none;
    session_url = none;
    method = "cash";
    metadata = none;
  });
  verify_payment =
      λ input. ok (record { is_success = true; failure_reason = none; metadata = none });
  refund_payment = λ input. answer;
}

abbrev pub at_time : ℕ → Outcome RefundProviderResponse → Env
at_time now answer = record {
  now = now;
  year = 2024;
  month = 5;
  uuid = numbered;
  hash = λ key. key;
  providers = λ p. counter answer;
  stripe_enabled = false;
  razorpay_enabled = false;
  cash_enabled = true;
  attempt_expiry_minutes = 30;
  idempotency_ttl_seconds = 86400;
  grace_period_days = 3;
  subscription_max_retries = 3;
  add_minutes = λ date count. date + count * 60000;
  add_days = λ date count. date + count * 86400000;
  add_months = λ date count. date + count * 2592000000;
  add_years = λ date count. date + count * 31536000000;
  round_half_up = λ num den. num;
  gst_config = λ tenant. record { gst_type = none; gst_rate = none };
  trim = λ s. s;
  to_upper = λ s. s;
  to_lower = λ s. s;
  number_of_text = λ s. none;
  date_of_text = λ s. none;
  string_of = λ v. "";
  slice = λ s i j. s;
}

abbrev pub accepted : RefundProviderResponse
accepted = record { provider_refund_id = "r-1"; status = RefundState.success }

abbrev pub in_progress : RefundProviderResponse
in_progress = record { provider_refund_id = "r-1"; status = RefundState.pending }

abbrev pub here : Env
here = at_time 1000 (ok accepted)

abbrev pub empty_db : Db
empty_db = record {
  issued = 0;
  transactions = [];
  attempts = [];
  ledger_entries = [];
  webhook_logs = [];
  refunds = [];
  invoices = [];
  plans = [];
  subscriptions = [];
  cycles = [];
  billing_profiles = [];
  audit_logs = [];
  cache = [];
  stripe_calls = [];
  reconciliation_lock = none;
}

abbrev pub sale : TransactionStatus → Transaction
sale status = record {
  id = "t";
  tenant_id = "shop";
  order_id = "order";
  idempotency_key = "key";
  customer_id = "ann";
  amount = pos 100;
  currency = "INR";
  status = status;
  invoice_id = none;
  metadata = none;
}

abbrev pub try_of : AttemptStatus → PaymentAttempt
try_of status = record {
  id = "a";
  transaction_id = "t";
  provider = Provider.cash;
  method = "cash";
  provider_order_id = some "cash-1";
  client_secret = none;
  status = status;
  amount = pos 100;
  currency = "INR";
  metadata = none;
  failure_reason = none;
  expires_at = some 500;
}

abbrev pub open_db : Db
open_db = record empty_db {
  transactions = sale TransactionStatus.processing ∷ [];
  attempts = try_of AttemptStatus.pending ∷ [];
}

abbrev pub paid_db : Db
paid_db = record empty_db {
  transactions = sale TransactionStatus.success ∷ [];
  attempts = try_of AttemptStatus.success ∷ [];
}

abbrev pub order_dto : CreateTransactionDto
order_dto = record {
  tenant_id = "shop";
  order_id = "order-2";
  idempotency_key = "key-2";
  customer_id = "ann";
  amount = pos 70;
  currency = "INR";
  invoice_id = none;
  metadata = none;
}

abbrev pub attempt_dto : CreateAttemptDto
attempt_dto = record {
  transaction_id = "t";
  provider = Provider.cash;
  method = "cash";
  provider_order_id = some "cash-2";
  client_secret = none;
  amount = pos 100;
  currency = "INR";
  metadata = none;
}

abbrev pub initiate_dto : InitiatePaymentDto
initiate_dto = record {
  tenant_id = "shop";
  order_id = "order-2";
  idempotency_key = "key-2";
  customer_id = "ann";
  amount = pos 70;
  currency = "INR";
  invoice_id = none;
  providers = none;
  preferred_method = none;
  metadata = none;
  actor_id = "ann";
}

abbrev pub verify_dto : String → VerifyPaymentDto
verify_dto attempt_id = record {
  tenant_id = "shop";
  transaction_id = "t";
  attempt_id = attempt_id;
  provider_payment_id = none;
  provider_signature = none;
  actor_id = "ann";
}

abbrev pub refund_dto : CreateRefundDto
refund_dto = record {
  tenant_id = "shop";
  transaction_id = "t";
  amount = pos 40;
  reason = none;
  idempotency_key = "refund-key";
  actor_id = "ann";
}
