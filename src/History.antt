-- ===== src/History.antt =====
-- Histories of the service: sequences of calls by requests, webhooks, queue workers and the
-- reconciliation (src/modules/payment/), each at its own time, with its own configuration and
-- answers of the providers.
pub mod OneSuccess
use payment_microservice.Prelude.{
  ℕ, zero, String, Bool, Option, List, [], ◌∷◌, ◌≡◌, refl, sym, subst, ◌≤◌, arith, count_where, ap,
  if◌then◌else◌, ◌==◌, true, false, ◌*◌, ◌+◌, some,
}
use payment_microservice.Store.{Db, Env, Action, pure}
use payment_microservice.Store.Keeps.{
  Keeps, keeps_rules, Keeps-bind, Keeps-gets, Keeps-if, Keeps-pure,
}
use payment_microservice.Attempt.{succeeded, expire_stale_pending_attempts}
use payment_microservice.Attempt.Sound.{
  IsSound, IsInjective, mark_expired-IsSound, expire-IsSound, modify-IsSound,
}
use payment_microservice.Orchestrator.Initiate.{InitiatePaymentDto, initiate_payment}
use payment_microservice.Orchestrator.Verify.{VerifyPaymentDto, verify_payment}
use payment_microservice.Orchestrator.Sound.{verify_payment-IsSound, initiate_payment-IsSound}
use payment_microservice.Webhook.Stripe.{StripeObject, handle_stripe_webhook}
use payment_microservice.Webhook.Razorpay.{RazorpayBody, handle_razorpay_webhook}
use payment_microservice.Webhook.Sound.{
  handle_stripe_webhook-IsSound, handle_razorpay_webhook-IsSound,
}
use payment_microservice.Reconciliation.{
  Query, Report, reconcile_stale_transactions, reconcile_locked, verify_all, verify_dto,
  count_result, set_lock, is_locked, with_lock, nothing_done, unlock,
}
use payment_microservice.Jobs.{PaymentJobData, process, process_payment, expire_attempt}
use payment_microservice.Store.{Transaction, PaymentAttempt, Outcome}

-- A call that may write to the attempts
pub data Call : Type 0 where
  initiate : InitiatePaymentDto → Call
  verify : VerifyPaymentDto → Call
  stripe_webhook : Bool → String → String → String → StripeObject → Call
  razorpay_webhook : Bool → String → String → RazorpayBody → Call
  job : String → PaymentJobData → Call
  reconcile : Query → Call

-- The database after a call, whether it returns or throws
unfoldable pub run : Env → Call → Db → Db
run env (Call.initiate dto) db = (initiate_payment env dto db).1
run env (Call.verify dto) db = (verify_payment env dto db).1
run env (Call.stripe_webhook is_valid event_id event_type signature object) db =
    (handle_stripe_webhook env is_valid event_id event_type signature object db).1
run env (Call.razorpay_webhook is_valid event_id signature body) db =
    (handle_razorpay_webhook env is_valid event_id signature body db).1
run env (Call.job name data_of) db = (process env name data_of db).1
run env (Call.reconcile query) db = (reconcile_stale_transactions env query db).1

-- The calls differ in everything but the generator of ids.
pub data Reach (base : Env) (start : Db) : Db → Type 0 where
  none_yet : Reach base start start
  then_call :
      {db : Db}
      → Reach base start db
      → (env : Env) → env.uuid ≡ base.uuid
      → (call : Call) → Reach base start (run env call db)
