-- ===== src/Refund/Safety.antt =====
-- Refunds that have succeeded never exceed the payment.
use payment_microservice.Prelude.{
  String, true, false, Option, none, some, ℤ, pos, ◌+ℤ◌, ◌-ℤ◌, ◌≤ℤ◌, int_laws, ◌++◌, leb_ℤ,
  +ℤ_parts, -ℤ_parts, ◌==◌, ==_refl, find_first, count_where, update_where, ◌≡◌, refl, arith,
  update_where_absent, find_first-update_where, ltb_ℤ,
}
use payment_microservice.Store.{
  Transaction, PaymentAttempt, RefundStatus, is_refundable, Db, Fault, ok, err, Env,
  RefundProviderResponse, RefundState, TransactionStatus,
}
use payment_microservice.Transaction
use payment_microservice.Ledger.{refund_entries}
use payment_microservice.Attempt
use payment_microservice.Refund.{
  CreateRefundDto, has_key, has_id, refunded_amount, new_refund, with_status, answered, pay_back,
  mark_failed_and_rethrow, record_and_pay, check_and_pay, create_refund, order_of, refund_input,
  ledger_input,
}
use payment_microservice.Provider.{is_enabled}

-- An id that no refund has yet: what uuid() generates.
abbrev pub IsFresh : Env → Db → Type 0
IsFresh env db = count_where (has_id (env.uuid db.issued)) db.refunds ≡ 0

-- The refunds after the provider has been tried: the new row, with another status at most.
record_and_pay-refunds :
    (env : Env) (dto : CreateRefundDto) (t : Transaction) (available : ℤ)
    (paid : Option (PaymentAttempt × String)) (db : Db)
    → IsFresh env db
    → pos 0 ≤ℤ available
    → dto.amount ≤ℤ available
    → refunded_amount dto.transaction_id (record_and_pay env dto t available paid db).1.refunds
      ≤ℤ available +ℤ refunded_amount dto.transaction_id db.refunds
unfolding pay_back mark_failed_and_rethrow refunded_amount find_first update_where
record_and_pay-refunds env dto t available none db fresh nonneg within = omega int_laws
record_and_pay-refunds env dto t available (some (a, order_id)) db fresh nonneg within = grind (
  int_laws,
  ==_refl (env.uuid db.issued),
  ==_refl dto.transaction_id,
  update_where_absent (has_id (env.uuid db.issued)) (with_status RefundStatus.failed) db.refunds
      fresh,
  (λ (response : RefundProviderResponse).
      update_where_absent (has_id (env.uuid db.issued)) (answered response) db.refunds fresh),
  +ℤ_parts available (refunded_amount dto.transaction_id db.refunds),
  +ℤ_parts dto.amount (refunded_amount dto.transaction_id db.refunds),
)

-- For a transaction of the tenant, with a new id for the refund: if the refunds that have succeeded
-- do not exceed the payment, they do not after the call, however it ends.
pub create_refund-refunded_amount :
    (env : Env) (dto : CreateRefundDto) (db : Db) {t : Transaction}
    → find_first (Transaction.has_id dto.transaction_id (some dto.tenant_id)) db.transactions
      ≡ some t
    → IsFresh env db
    → refunded_amount dto.transaction_id db.refunds ≤ℤ t.amount
    → refunded_amount dto.transaction_id (create_refund env dto db).1.refunds ≤ℤ t.amount
unfolding create_refund check_and_pay
create_refund-refunded_amount env dto db {t} found fresh covered =
    let available : ℤ = t.amount -ℤ refunded_amount dto.transaction_id db.refunds in
    ground (
      arith,
      record_and_pay-refunds env dto t available
          (order_of (find_first (Attempt.succeeded dto.transaction_id) db.attempts)) db fresh,
      -ℤ_parts t.amount (refunded_amount dto.transaction_id db.refunds),
      +ℤ_parts available (refunded_amount dto.transaction_id db.refunds),
    )

module _ (env : Env) (dto : CreateRefundDto) (db : Db) (t : Transaction) (a : PaymentAttempt)
    (order_id : String)
    (new_key : find_first
        (has_key dto.tenant_id dto.transaction_id (env.hash dto.idempotency_key))
        db.refunds
      ≡ none)
    (found : find_first (Transaction.has_id dto.transaction_id (some dto.tenant_id)) db.transactions
      ≡ some t)
    (refundable : is_refundable t.status ≡ true)
    (within : ltb_ℤ (t.amount -ℤ refunded_amount dto.transaction_id db.refunds) dto.amount ≡ false)
    (paid : order_of (find_first (Attempt.succeeded dto.transaction_id) db.attempts)
      ≡ some (a, order_id))
    (enabled : is_enabled env a.provider ≡ true) where
  -- If the provider fails in a refund with a new key that is otherwise in order, the record stays as
  -- FAILED, and a retry whose key hashes alike, at any later time, is answered with that failed
  -- record: the provider is not asked again and nothing is written.
  pub create_refund_retry :
      (later : Env) {e : Fault}
      → (env.providers a.provider).refund_payment (refund_input env dto t order_id) ≡ err e
      → later.hash dto.idempotency_key ≡ env.hash dto.idempotency_key
      → let failed = (create_refund env dto db).1 in
        ((create_refund env dto db).0 ≡ err e)
        × (create_refund later dto failed
            ≡ (ok (with_status RefundStatus.failed (new_refund env dto t db)), failed))
  unfolding create_refund check_and_pay pay_back mark_failed_and_rethrow find_first update_where
  create_refund_retry later fails same_hash =
      simp (new_key, found, refundable, within, paid, enabled, fails, same_hash, ==_refl)
        (refl, refl)

  -- A partial refund, with a new key and a new id, that is otherwise in order and that the provider
  -- accepts as PENDING succeeds: the ledger has its entries, but the sum that limits later refunds is
  -- what it was, and the transaction is PARTIALLY_REFUNDED.
  pub create_refund_pending :
      {response : RefundProviderResponse}
      → (env.providers a.provider).refund_payment (refund_input env dto t order_id) ≡ ok response
      → response.status ≡ RefundState.pending
      → IsFresh env db
      → find_first (λ x. x.id == dto.transaction_id) db.transactions ≡ some t
      → leb_ℤ (t.amount -ℤ refunded_amount dto.transaction_id db.refunds) dto.amount ≡ false
      → let after = (create_refund env dto db).1 in
        ((create_refund env dto db).0 ≡ ok (answered response (new_refund env dto t db)))
        × (refunded_amount dto.transaction_id after.refunds
            ≡ refunded_amount dto.transaction_id db.refunds)
        × (find_first (λ x. x.id == dto.transaction_id) after.transactions
            ≡ some (Transaction.with_status TransactionStatus.partially_refunded t))
        × (after.ledger_entries
            ≡ refund_entries env.now (ledger_input dto t a) ++ db.ledger_entries)
  unfolding create_refund check_and_pay pay_back find_first update_where refunded_amount
  create_refund_pending {response} accepted pending fresh known partial = ground (
    arith,
    ==_refl (env.uuid db.issued),
    ==_refl dto.transaction_id,
    update_where_absent (has_id (env.uuid db.issued)) (answered response) db.refunds fresh,
    find_first-update_where (λ (x : Transaction). x.id == dto.transaction_id)
        (Transaction.with_status TransactionStatus.partially_refunded) db.transactions (λ x. refl)
        known,
  )
