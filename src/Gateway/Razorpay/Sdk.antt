-- ===== src/Gateway/Razorpay/Sdk.antt =====
-- What `RazorpayProvider` asks of Razorpay's SDK, and the parts of the answers that it reads.
use payment_microservice.Prelude.{ℕ, String, Option, ℤ}
use payment_microservice.Store.{Metadata, Outcome}

pub record OrderParams : Type 0 where
  pub amount : ℤ
  pub currency : String
  pub receipt : String
  pub transaction_id : String
  pub customer_id : String

pub record Order : Type 0 where
  pub id : String
  pub status : String

pub record PlanParams : Type 0 where
  pub period : String
  pub interval : ℕ
  pub name : String
  pub amount : ℤ
  pub currency : String
  pub description : String
  pub transaction_id : String
  pub customer_id : String

pub record PlanObject : Type 0 where
  pub id : String

pub record SubscriptionParams : Type 0 where
  pub plan_id : String
  pub total_count : ℕ
  pub quantity : ℕ
  pub customer_notify : ℕ
  pub start_at : ℕ
  pub notes : Metadata

pub record SubscriptionObject : Type 0 where
  pub id : String
  pub status : Option String
  pub current_start : Option ℕ
  pub current_end : Option ℕ
  pub start_at : Option ℕ
  pub charge_at : Option ℕ

pub record RefundObject : Type 0 where
  pub id : String
  pub status : String

-- Each call throws or answers.
pub record Sdk : Type 0 where
  pub orders_create : OrderParams → Outcome Order
  pub orders_fetch : String → Outcome Order
  pub plans_create : PlanParams → Outcome PlanObject
  pub subscriptions_create : SubscriptionParams → Outcome SubscriptionObject
  pub subscriptions_fetch : String → Outcome SubscriptionObject
  -- the payment, the amount and the reason
  pub payments_refund : String → ℤ → String → Outcome RefundObject
