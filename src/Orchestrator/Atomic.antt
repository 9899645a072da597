-- ===== src/Orchestrator/Atomic.antt =====
-- `verifyPayment` is atomic, and what it leaves when it succeeds.
use payment_microservice.Prelude.{
  String, true, false, Option, some, List, ◌++◌, find_first, update_where, ◌≡◌, refl, arith, ◌==◌,
  Option-cases, inl, inr, find_first-update_where, find_first-update_where-none,
  find_first-update_where_other, count_where, count_where-update_where_self,
}
use payment_microservice.Store.{
  Outcome-cases, Transaction, TransactionStatus, PaymentAttempt, AttemptStatus, is_success, Db,
  Fault, ok, err, Env, VerifyPaymentResult, Metadata,
}
use payment_microservice.Orchestrator.Recurring.{SyncInput, sync_recurring_subscription_on_success}
use payment_microservice.Subscription.{create_subscription, sync_external_subscription}
use payment_microservice.Transaction
use payment_microservice.Attempt
use payment_microservice.Orchestrator.Verify.{
  VerifyPaymentDto, verify_payment, settle_success, is_other_open, with_metadata, merged_metadata,
  cancel_others, ledger_input, sync_input,
}
use payment_microservice.Ledger.{create_many, payment_entries, record_payment}
use mathlib.Core.Option

mark_failed-err :
    (id reason : String) (db : Db) {e : Fault}
    → (Attempt.mark_failed id reason db).0 ≡ err e
    → (Attempt.mark_failed id reason db).1 ≡ db
unfolding Attempt.mark_failed
mark_failed-err id reason db h = ground arith

-- A verification that throws has written nothing: not the attempt, the transaction, the ledger or
-- a subscription.
pub verify_payment_atomic :
    (env : Env) (dto : VerifyPaymentDto) (db : Db) {e : Fault}
    → (verify_payment env dto db).0 ≡ err e
    → (verify_payment env dto db).1 ≡ db
unfolding verify_payment Attempt.find_by_id Transaction.find_by_id
verify_payment_atomic env dto db thrown = grind (arith, mark_failed-err)

sync-frame :
    (env : Env) (input : SyncInput) (db : Db)
    → let after = (sync_recurring_subscription_on_success env input db).1 in
      (after.attempts ≡ db.attempts)
      × (after.transactions ≡ db.transactions)
      × (after.ledger_entries ≡ db.ledger_entries)
unfolding sync_recurring_subscription_on_success create_subscription sync_external_subscription
sync-frame env input db = grind arith

abbrev pub transaction_status : String → Db → Option TransactionStatus
transaction_status id db = Option.map (λ t. t.status) (find_first (λ t. t.id == id) db.transactions)

abbrev pub attempt_status : String → Db → Option AttemptStatus
attempt_status id db = Option.map (λ a. a.status) (find_first (Attempt.has_id id) db.attempts)

mark_success-status :
    (id : String) (db : Db) {a : PaymentAttempt}
    → (Attempt.mark_success id db).0 ≡ ok a
    → (attempt_status id (Attempt.mark_success id db).1 ≡ some AttemptStatus.success)
      × ((Attempt.mark_success id db).1.transactions ≡ db.transactions)
      × ((Attempt.mark_success id db).1.ledger_entries ≡ db.ledger_entries)
unfolding Attempt.mark_success
mark_success-status id db done = elim (Option-cases (find_first (Attempt.has_id id) db.attempts)) [
  | inl absent ↦ ground arith
  | inr (x, found) ↦ ground (
    arith,
    find_first-update_where (Attempt.has_id id) (Attempt.with_status AttemptStatus.success)
        db.attempts (λ x. refl) found,
  )
]

-- Setting metadata and cancelling the other attempts keep an attempt's status.
later_writes-status :
    (id transaction_id : String) (m : Metadata) (rows : List PaymentAttempt)
    → Option.map
        (λ a. a.status)
        (find_first (Attempt.has_id id) (
          update_where
            (is_other_open transaction_id id)
            (Attempt.with_status AttemptStatus.cancelled)
            (update_where (Attempt.has_id id) (with_metadata m) rows)))
      ≡ Option.map (λ a. a.status) (find_first (Attempt.has_id id) rows)
later_writes-status id transaction_id m rows =
    rw
      (find_first-update_where_other (Attempt.has_id id) (is_other_open transaction_id id)
        (Attempt.with_status AttemptStatus.cancelled)
        (update_where (Attempt.has_id id) (with_metadata m) rows) (λ x h. ground arith)
        (λ x h. ground arith))
      (elim (Option-cases (find_first (Attempt.has_id id) rows)) [
        | inl absent ↦
            rw (
              absent,
              find_first-update_where-none (Attempt.has_id id) (with_metadata m) rows absent,
            )
        | inr (x, found) ↦ rw (
          found,
          find_first-update_where (Attempt.has_id id) (with_metadata m) rows (λ x. refl) found,
        )
      ])

update_status-status :
    (id : String) (status : TransactionStatus) (db : Db) {t : Transaction}
    → (Transaction.update_status id status db).0 ≡ ok t
    → (transaction_status id (Transaction.update_status id status db).1 ≡ some status)
      × ((Transaction.update_status id status db).1.attempts ≡ db.attempts)
      × ((Transaction.update_status id status db).1.ledger_entries ≡ db.ledger_entries)
unfolding Transaction.update_status
update_status-status id status db done =
    elim (Option-cases (find_first (λ (t : Transaction). t.id == id) db.transactions)) [
      | inl absent ↦ ground arith
      | inr (x, found) ↦ ground (
        arith,
        find_first-update_where (λ (t : Transaction). t.id == id) (Transaction.with_status status)
            db.transactions (λ x. refl) found,
      )
    ]

settle_success-status :
    (env : Env) (dto : VerifyPaymentDto) (a : PaymentAttempt) (t : Transaction)
    (result : VerifyPaymentResult) (db : Db)
    → (settle_success env dto a t result db).0 ≡ ok tt
    → let after = (settle_success env dto a t result db).1 in
      (attempt_status a.id after ≡ some AttemptStatus.success)
      × (count_where (is_other_open dto.transaction_id a.id) after.attempts ≡ 0)
      × (transaction_status dto.transaction_id after ≡ some TransactionStatus.success)
      × (after.ledger_entries ≡ payment_entries env.now (ledger_input dto a) ++ db.ledger_entries)
unfolding settle_success record_payment cancel_others
settle_success-status env dto a t result db =
    let marked = (Attempt.mark_success a.id db).1 in
    let written =
      cancel_others dto.transaction_id a.id
        (Attempt.update_attempt a.id (with_metadata (merged_metadata dto a result)) marked) in
    elim (Outcome-cases (Attempt.mark_success a.id db).0) [
      | inr (e, thrown) ↦ rw thrown (λ done. ground arith)
      | inl (x, success) ↦
          elim (Outcome-cases
            (Transaction.update_status dto.transaction_id TransactionStatus.success written).0) [
              | inr (e, thrown) ↦ rw (success, thrown) (λ done. ground arith)
              | inl (y, updated) ↦
                  let posted =
                    create_many (payment_entries env.now (ledger_input dto a))
                      (Transaction.update_status dto.transaction_id TransactionStatus.success
                        written).1 in
                  let (attempts, transactions, ledger) =
                    sync-frame env (sync_input dto a t result) posted in
                  let (status, same_attempts, same_ledger) =
                    update_status-status dto.transaction_id TransactionStatus.success written
                      updated in
                  let (first_status, first_transactions, first_ledger) =
                    mark_success-status a.id db success in
                  rw (success, updated)
                    (λ done. (
                      rw
                          (
                            attempts,
                            same_attempts,
                            later_writes-status a.id dto.transaction_id
                                (merged_metadata dto a result) marked.attempts,
                          )
                          first_status,
                      rw (attempts, same_attempts)
                          (count_where-update_where_self (is_other_open dto.transaction_id a.id)
                            (Attempt.with_status AttemptStatus.cancelled)
                            (update_where (Attempt.has_id a.id)
                              (with_metadata (merged_metadata dto a result)) marked.attempts)
                            (λ x. ground arith)),
                      rw transactions status,
                      rw (ledger, same_ledger, first_ledger),
                    ))
            ]
    ]

-- When `verifyPayment` answers success for an attempt that had not succeeded before, the attempt is
-- SUCCESS, no other attempt of the transaction is PENDING or PROCESSING, the transaction is SUCCESS,
-- and the ledger has the entries of exactly one payment of the attempt's amount on top.
pub verify_payment-status :
    (env : Env) (dto : VerifyPaymentDto) (db : Db) {a : PaymentAttempt}
    → find_first (Attempt.has_id dto.attempt_id) db.attempts ≡ some a
    → is_success a.status ≡ false
    → (verify_payment env dto db).0 ≡ ok true
    → let after = (verify_payment env dto db).1 in
      (attempt_status a.id after ≡ some AttemptStatus.success)
      × (count_where (is_other_open dto.transaction_id a.id) after.attempts ≡ 0)
      × (transaction_status dto.transaction_id after ≡ some TransactionStatus.success)
      × (after.ledger_entries ≡ payment_entries env.now (ledger_input dto a) ++ db.ledger_entries)
unfolding verify_payment Attempt.find_by_id Transaction.find_by_id
verify_payment-status env dto db {a} found fresh done =
    grind (arith, settle_success-status env dto a)
