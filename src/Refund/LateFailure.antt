-- ===== src/Refund/LateFailure.antt =====
-- A provider's report of a failure that comes after the payment has succeeded
-- (`payment_intent.payment_failed`, `payment.failed`).
use payment_microservice.Prelude.{
  String, true, false, none, some, ==_refl, ◌≡◌, refl, arith, find_first, update_where,
  count_where-update_where, find_first-eq-none, find_first-update_where, ◌-ℤ◌, ltb_ℤ,
}
use payment_microservice.Store.{
  Db, Env, PaymentAttempt, Transaction, ErrorCode, bad_request, err, is_success, is_refundable,
}
use payment_microservice.Attempt.{
  has_id, succeeded, mark_failed, with_failure, find_by_provider_order_id,
}
use payment_microservice.Attempt.Success.{IsValid}
use payment_microservice.Transaction
use payment_microservice.Webhook.{fail_order}
use payment_microservice.Refund.{
  CreateRefundDto, create_refund, check_and_pay, refunded_amount, has_key,
}

-- the database after the report
fail_order-attempts :
    (order_id reason : String) (db : Db) {a : PaymentAttempt}
    → find_by_provider_order_id order_id db ≡ some a
    → find_first (has_id a.id) db.attempts ≡ some a
    → (fail_order order_id reason db).1
      ≡ record db { attempts = update_where (has_id a.id) (with_failure reason) db.attempts }
unfolding fail_order mark_failed
fail_order-attempts order_id reason db reported found = rw (reported, found) refl

no_success_left :
    (reason : String) (db : Db) {a : PaymentAttempt}
    → IsValid db
    → find_first (has_id a.id) db.attempts ≡ some a
    → is_success a.status ≡ true
    → find_first
        (succeeded a.transaction_id)
        (update_where (has_id a.id) (with_failure reason) db.attempts)
      ≡ none
no_success_left reason db {a} v found paid =
    let change =
      count_where-update_where (succeeded a.transaction_id) (has_id a.id) (with_failure reason)
        db.attempts found (v.ids a.id) in
    find_first-eq-none _ _
      (ground (arith, change, ==_refl a.transaction_id, v.one_success a.transaction_id))

-- When a provider reports a failure for the order of an attempt that has succeeded, the attempt
-- becomes FAILED although its transaction, which is not touched, is paid; from then on every refund
-- of the transaction that is otherwise in order is refused as not eligible, and writes nothing.
pub create_refund-fail_order :
    (order_id reason : String) (db : Db) {a : PaymentAttempt}
    → IsValid db
    → find_by_provider_order_id order_id db ≡ some a
    → find_first (has_id a.id) db.attempts ≡ some a
    → is_success a.status ≡ true
    → (env : Env) (dto : CreateRefundDto) {t : Transaction} → dto.transaction_id ≡ a.transaction_id
    → find_first
        (has_key dto.tenant_id dto.transaction_id (env.hash dto.idempotency_key))
        db.refunds
      ≡ none
    → find_first (Transaction.has_id dto.transaction_id (some dto.tenant_id)) db.transactions
      ≡ some t
    → is_refundable t.status ≡ true
    → ltb_ℤ (t.amount -ℤ refunded_amount dto.transaction_id db.refunds) dto.amount ≡ false
    → let after = (fail_order order_id reason db).1 in
      (find_first (has_id a.id) after.attempts ≡ some (with_failure reason a))
      × (after.transactions ≡ db.transactions)
      × (create_refund env dto after ≡ (err (bad_request ErrorCode.refund_not_eligible), after))
unfolding create_refund check_and_pay
create_refund-fail_order order_id reason db {a} v reported found paid env dto same new_key order
      refundable within =
    rw (fail_order-attempts order_id reason db reported found) (
      find_first-update_where (has_id a.id) (with_failure reason) db.attempts (λ x. refl) found,
      refl,
      rw (new_key, order, refundable, within, same, no_success_left reason db v found paid) refl,
    )
