-- ===== src/Gateway/Stripe/Sdk.antt =====
-- What `StripeProvider` asks of Stripe's SDK, and the parts of the answers that it reads.
use payment_microservice.Prelude.{ℕ, String, Bool, Option, List, ℤ}
use payment_microservice.Store.{Metadata, Provider, Outcome, StripeCall}

-- A reference that the SDK may have expanded: an id, or an object with one
pub data Expandable : Type 0 where
  id_of object_with : String → Expandable

pub record PaymentIntentParams : Type 0 where
  pub amount : ℤ
  pub currency : String
  pub customer : Option String
  pub metadata : Metadata
  pub description : String
  pub idempotency_key : String × Provider

pub record PaymentIntent : Type 0 where
  pub id : String
  pub client_secret : Option String
  pub status : String
  pub latest_charge : Option String
  pub customer : Option Expandable
  pub last_payment_error : Option String

-- `recurring`: the interval and its count
pub record SessionParams : Type 0 where
  pub mode : String
  pub currency : String
  pub unit_amount : ℤ
  pub recurring : Option (String × ℕ)
  pub product_name : String
  pub success_url : String
  pub cancel_url : String
  pub customer : Option String
  pub customer_email : Option String
  pub metadata : Metadata
  pub trial_period_days : Option ℕ
  pub subscription_metadata : Option Metadata
  pub idempotency_key : String × Provider

pub record Session : Type 0 where
  pub id : String
  pub url : Option String
  pub mode : String
  pub status : String
  pub payment_status : String
  pub payment_intent : Option String
  pub subscription : Option Expandable
  pub customer : Option Expandable

pub record SubscriptionObject : Type 0 where
  pub id : String
  pub status : String
  pub current_period_start : ℕ
  pub current_period_end : ℕ
  pub trial_start : Option ℕ
  pub trial_end : Option ℕ

pub record RefundParams : Type 0 where
  pub payment_intent : String
  pub amount : ℤ
  pub reason : Option String
  pub currency : String
  pub idempotency_key : String

pub record RefundObject : Type 0 where
  pub id : String
  pub status : Option String

-- The calls behind `IPaymentProvider`. Each throws or answers.
pub record Sdk : Type 0 where
  pub payment_intents_create : PaymentIntentParams → Outcome PaymentIntent
  pub payment_intents_retrieve : String → Outcome PaymentIntent
  pub sessions_create : SessionParams → Outcome Session
  pub sessions_retrieve : String → Outcome Session
  pub subscriptions_retrieve : String → Outcome SubscriptionObject
  pub refunds_create : RefundParams → Outcome RefundObject

pub record Card : Type 0 where
  pub brand : String
  pub last4 : String
  pub exp_month : ℕ
  pub exp_year : ℕ
  pub funding : String

pub record PaymentMethodObject : Type 0 where
  pub id : String
  pub type : String
  pub card : Option Card
  pub created : ℕ
  pub customer : Option Expandable

pub record CustomerObject : Type 0 where
  pub is_deleted : Bool
  pub default_payment_method : Option Expandable

pub record SetupIntentObject : Type 0 where
  pub id : String
  pub client_secret : Option String
  pub status : String
  pub customer : Option Expandable
  pub payment_method : Option Expandable
  pub metadata : Option Metadata

-- The calls on customers. What Stripe answers may depend on all that it has been asked to change
-- before, the newest first.
pub record CustomerSdk : Type 0 where
  pub customers_create : List StripeCall → Option String → String → String → Outcome String
  pub customers_retrieve : List StripeCall → String → Outcome CustomerObject
  pub customers_set_default : List StripeCall → String → String → Outcome (Unit {0})
  pub setup_intents_create :
      List StripeCall → String → String → String → String → Outcome SetupIntentObject
  pub setup_intents_retrieve : List StripeCall → String → Outcome SetupIntentObject
  pub payment_methods_retrieve : List StripeCall → String → Outcome PaymentMethodObject
  pub payment_methods_list : List StripeCall → String → Outcome (List PaymentMethodObject)
  pub subscriptions_list : List StripeCall → String → Outcome (List SubscriptionObject)
  pub subscriptions_set_default : List StripeCall → String → String → Outcome (Unit {0})
