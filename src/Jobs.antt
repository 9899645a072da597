-- ===== src/Jobs.antt =====
-- The workers of the queues (src/modules/events/processors/): what they do with one job.
use payment_microservice.Prelude.{String, Option, ◌==◌, if◌then◌else◌}
use payment_microservice.Store.{Action, pure, ◌>>◌, Env}
use payment_microservice.Attempt.{mark_expired}
use payment_microservice.Orchestrator.Verify.{verify_payment}
use payment_microservice.Subscription.Renewal.{process_renewal}

-- `PaymentJobData` and `ExpireAttemptJobData`, of which the latter has an `attemptId` alone
pub record PaymentJobData : Type 0 where
  pub tenant_id : String
  pub transaction_id : String
  pub attempt_id : String
  pub provider_payment_id : Option String
  pub provider_signature : Option String

abbrev pub process_payment : Env → PaymentJobData → Action (Unit {0})
process_payment env data_of = do
  verify_payment env (record {
    tenant_id = data_of.tenant_id;
    transaction_id = data_of.transaction_id;
    attempt_id = data_of.attempt_id;
    provider_payment_id = data_of.provider_payment_id;
    provider_signature = data_of.provider_signature;
    actor_id = "payment-processor-worker";
  })
  pure tt

abbrev pub expire_attempt : PaymentJobData → Action (Unit {0})
expire_attempt data_of = do mark_expired data_of.attempt_id; pure tt

unfoldable pub process : Env → String → PaymentJobData → Action (Unit {0})
process env name data_of =
    if name == "process-payment"
    then process_payment env data_of
    else if name == "expire-attempt"
    then expire_attempt data_of
    else pure tt

-- A failure is thrown again, for the queue to retry.
unfoldable pub process_renewal_job : Env → String → Action (Unit {0})
process_renewal_job env subscription_id = do process_renewal env subscription_id; pure tt
