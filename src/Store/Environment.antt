-- ===== src/Store/Environment.antt =====
-- What a call reads and does not change: the clock, the configuration, and the parties outside the
-- repository. dayjs, SHA-256 and uuid are functions of which nothing is assumed here; a theorem
-- that needs one of their documented properties has it as a hypothesis. The types of the provider
-- calls are those of payment/provider/interfaces/payment-provider.interface.ts.
use payment_microservice.Prelude.{ℕ, String, Bool, Option, ℤ}
use payment_microservice.Store.Enums.{Provider}
use payment_microservice.Store.Columns.{Metadata, Json}
use payment_microservice.Store.Monad.{Outcome}

pub record CreatePaymentInput : Type 0 where
  pub amount : ℤ
  pub currency : String
  pub transaction_id : String
  pub customer_id : String
  pub method : Option String
  -- `${key}:${provider}`, by its parts
  pub idempotency_key : String × Provider
  pub metadata : Option Metadata

pub record ProviderPaymentResponse : Type 0 where
  pub provider_order_id : String
  pub client_secret : Option String
  pub session_url : Option String
  pub method : String
  pub metadata : Option Metadata

pub record VerifyPaymentInput : Type 0 where
  pub provider_order_id : Option String
  pub provider_payment_id : Option String
  pub provider_signature : Option String

pub record VerifyPaymentResult : Type 0 where
  pub is_success : Bool
  pub failure_reason : Option String
  pub metadata : Option Metadata

pub record RefundInput : Type 0 where
  pub provider_payment_id : String
  pub amount : ℤ
  pub currency : String
  pub reason : Option String
  -- `refund:${hash}`
  pub idempotency_key : String

pub data RefundState : Type 0 where
  success pending failed : RefundState

pub record RefundProviderResponse : Type 0 where
  pub provider_refund_id : String
  pub status : RefundState

pub record PaymentProvider : Type 0 where
  pub create_payment : CreatePaymentInput → Outcome ProviderPaymentResponse
  pub verify_payment : VerifyPaymentInput → Outcome VerifyPaymentResult
  pub refund_payment : RefundInput → Outcome RefundProviderResponse

-- A GST rate in percent, `num / den`. A rate that is negative or not a number is taxed like none.
pub record Rate : Type 0 where
  pub num : ℕ
  pub den : ℕ

pub data GstType : Type 0 where
  intra inter : GstType

pub record GstConfig : Type 0 where
  pub gst_type : Option GstType
  pub gst_rate : Option Rate

pub record Env : Type 0 where
  pub now : ℕ
  pub year : ℕ
  pub month : ℕ
  pub uuid : ℕ → String
  pub hash : String → String
  pub providers : Provider → PaymentProvider
  -- AppConfigService
  pub stripe_enabled : Bool
  pub razorpay_enabled : Bool
  pub cash_enabled : Bool
  pub attempt_expiry_minutes : ℕ
  pub idempotency_ttl_seconds : ℕ
  pub grace_period_days : ℕ
  pub subscription_max_retries : ℕ
  -- dayjs: `dayjs(date).add(count, unit)`
  pub add_minutes : ℕ → ℕ → ℕ
  pub add_days : ℕ → ℕ → ℕ
  pub add_months : ℕ → ℕ → ℕ
  pub add_years : ℕ → ℕ → ℕ
  -- decimal.js: `toDecimalPlaces(0, ROUND_HALF_UP)` of a quotient of two integers
  pub round_half_up : ℤ → ℕ → ℤ
  -- what `IamSettingsService.getGstConfig` (Iam.antt) returns at the time of the call; it never throws
  pub gst_config : String → GstConfig
  -- JavaScript on texts: `trim`, `toUpperCase`, `Number(s)` where it is finite and positive,
  -- `new Date(s)` where it is a date
  pub trim : String → String
  pub to_upper : String → String
  pub to_lower : String → String
  pub number_of_text : String → Option ℕ
  pub date_of_text : String → Option ℕ
  -- `String(v)` of a value that is not a text, and `s.slice(i, j)`
  pub string_of : Json → String
  pub slice : String → ℕ → ℕ → String
