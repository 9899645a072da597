-- ===== src/Tests/Refunds.antt =====
-- Refunds and webhooks at concrete inputs.
use payment_microservice.Prelude.{
  ◌==◌, truthy, true, none, some, [], ◌++◌, pos, ◌≡◌, refl, arith, find_first, count_where, ◌≤ℤ◌,
  ◌-ℤ◌,
}
use payment_microservice.Store.{
  TransactionStatus, AttemptStatus, RefundStatus, Env, ok, err, provider_fault,
}
use payment_microservice.Ledger.{refund_entries}
use payment_microservice.Provider.{is_enabled}
use payment_microservice.Refund.{
  refunded_amount, create_refund, new_refund, with_status, answered, ledger_input,
}
use payment_microservice.Refund.Safety.{
  create_refund-refunded_amount, create_refund_retry, create_refund_pending,
}
use payment_microservice.Attempt
use payment_microservice.Webhook.{handle_webhook, log_and_process, fail_order}
use payment_microservice.Webhook.Stripe.{StripeObject, handle_stripe_webhook, process_stripe_event}
use payment_microservice.Webhook.Once.{handle_stripe_webhook-handle_stripe_webhook}
use payment_microservice.Tests.World.{
  here, at_time, in_progress, open_db, paid_db, refund_dto, sale, try_of,
}

abbrev down : Env
down = at_time 1000 (err (provider_fault "timeout"))

abbrev pending_env : Env
pending_env = at_time 1000 (ok in_progress)

create_refund-refunded_amount_example :
    refunded_amount "t" (create_refund here refund_dto paid_db).1.refunds ≤ℤ pos 100
unfolding find_first count_where refunded_amount truthy ◌==◌
create_refund-refunded_amount_example =
    create_refund-refunded_amount here refund_dto paid_db {t = sale TransactionStatus.success} refl
      refl (omega arith)

create_refund_retry_example :
    let failed = (create_refund down refund_dto paid_db).1 in
    ((create_refund down refund_dto paid_db).0 ≡ err (provider_fault "timeout"))
    × (create_refund here refund_dto failed ≡ (
      ok (
          with_status RefundStatus.failed
            (new_refund down refund_dto (sale TransactionStatus.success) paid_db)),
      failed,
    ))
unfolding find_first refunded_amount truthy is_enabled ◌-ℤ◌ ◌==◌
create_refund_retry_example =
    create_refund_retry down refund_dto paid_db (sale TransactionStatus.success)
      (try_of AttemptStatus.success) "cash-1" refl refl refl refl refl refl here
      {e = provider_fault "timeout"} refl refl

create_refund_pending_example :
    let after = (create_refund pending_env refund_dto paid_db).1 in
    ((create_refund pending_env refund_dto paid_db).0
      ≡ ok (
          answered in_progress
            (new_refund pending_env refund_dto (sale TransactionStatus.success) paid_db)))
    × (refunded_amount "t" after.refunds ≡ pos 0)
    × (find_first (λ x. x.id == "t") after.transactions
        ≡ some (sale TransactionStatus.partially_refunded))
    × (after.ledger_entries
        ≡ refund_entries 1000 (
            ledger_input refund_dto (sale TransactionStatus.success) (try_of AttemptStatus.success))
          ++ [])
unfolding find_first refunded_amount count_where truthy is_enabled ◌-ℤ◌ ◌==◌
create_refund_pending_example =
    create_refund_pending pending_env refund_dto paid_db (sale TransactionStatus.success)
      (try_of AttemptStatus.success) "cash-1" refl refl refl refl refl refl {response = in_progress}
      refl refl refl refl refl

abbrev failed_intent : StripeObject
failed_intent = record {
  id = "cash-1";
  metadata = none;
  error_message = none;
  status = none;
  current_period_start = none;
  current_period_end = none;
  trial_start = none;
  trial_end = none;
}

handle_stripe_webhook-handle_stripe_webhook_example :
    let after =
      (handle_stripe_webhook here true "evt" "payment_intent.payment_failed" "sig" failed_intent
        open_db).1 in
    handle_stripe_webhook down true "evt" "payment_intent.succeeded" "sig-2" failed_intent after
    ≡ (ok tt, after)
unfolding handle_stripe_webhook handle_webhook log_and_process process_stripe_event fail_order
    Attempt.mark_failed find_first ◌==◌
handle_stripe_webhook-handle_stripe_webhook_example =
    handle_stripe_webhook-handle_stripe_webhook here down "evt" "payment_intent.payment_failed"
      "payment_intent.succeeded" "sig" "sig-2" failed_intent failed_intent open_db refl
