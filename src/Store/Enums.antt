-- ===== src/Store/Enums.antt =====
-- The enums of prisma/schema.prisma and the codes of src/common/constants/error-codes.constant.ts.
use payment_microservice.Prelude.{Bool, true, false}

pub data TransactionStatus : Type 0 where
  pending processing success failed refunded partially_refunded void : TransactionStatus

pub data Provider : Type 0 where
  stripe razorpay cash : Provider

pub data AttemptStatus : Type 0 where
  pending processing success failed expired cancelled : AttemptStatus

pub data EntryType : Type 0 where
  payment refund fee adjustment tax : EntryType

pub data RefundStatus : Type 0 where
  pending processing success failed : RefundStatus

pub data InvoiceStatus : Type 0 where
  draft issued paid failed void : InvoiceStatus

pub data PlanInterval : Type 0 where
  daily weekly monthly yearly : PlanInterval

pub data SubscriptionStatus : Type 0 where
  trialing active past_due cancelled expired : SubscriptionStatus

pub data CycleStatus : Type 0 where
  pending processing paid failed skipped : CycleStatus

pub data ErrorCode : Type 0 where
  -- General
  internal_error validation_error not_found_code unauthorized_code forbidden_code conflict_code
        rate_limited :
      ErrorCode
  -- Idempotency
  idempotency_conflict : ErrorCode
  -- Payment
  payment_not_found payment_already_succeeded payment_already_failed payment_provider_error
        payment_provider_unavailable duplicate_transaction invalid_amount :
      ErrorCode
  -- Webhook
  webhook_signature_invalid webhook_already_processed : ErrorCode
  -- Refund
  refund_not_found refund_exceeds_amount refund_not_eligible : ErrorCode
  -- Invoice / Billing
  invoice_not_found invoice_not_issuable invoice_already_paid : ErrorCode
  -- Subscription / Plan
  plan_not_found plan_inactive subscription_not_found subscription_already_cancelled
        subscription_not_renewable :
      ErrorCode
  -- An exception raised with no code of the list
  uncoded : ErrorCode

-- The enum comparisons that the services write with `===` and `in`.
abbrev pub is_refundable : TransactionStatus → Bool
is_refundable TransactionStatus.success = true
is_refundable TransactionStatus.partially_refunded = true
is_refundable _ = false

abbrev pub is_processing : TransactionStatus → Bool
is_processing TransactionStatus.processing = true
is_processing _ = false

abbrev pub is_success : AttemptStatus → Bool
is_success AttemptStatus.success = true
is_success _ = false

abbrev pub is_failed : AttemptStatus → Bool
is_failed AttemptStatus.failed = true
is_failed _ = false

-- `status: { in: [PENDING, PROCESSING] }`
abbrev pub is_open : AttemptStatus → Bool
is_open AttemptStatus.pending = true
is_open AttemptStatus.processing = true
is_open _ = false

abbrev pub is_refunded : RefundStatus → Bool
is_refunded RefundStatus.success = true
is_refunded _ = false

abbrev pub is_same_provider : Provider → Provider → Bool
is_same_provider stripe stripe = true
is_same_provider razorpay razorpay = true
is_same_provider cash cash = true
is_same_provider _ _ = false
