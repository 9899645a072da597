-- ===== src/Tests/Payments.antt =====
-- Transactions, attempts and the orchestrator at concrete inputs.
use payment_microservice.Prelude.{
  false, Option, ◌⊎◌, String, ◌==◌, truthy, none, some, [], ◌∷◌, ◌++◌, pos, ◌≡◌, refl, arith,
  find_first, find_many, update_where, count_where,
}
use payment_microservice.Store.{
  conflict, foreign_key_violation, Transaction, Invoice, ErrorCode, AttemptStatus,
  TransactionStatus, Provider, ErrorCode, ok, not_found, get, InitiatePaymentResult,
}
use payment_microservice.Idempotency
use payment_microservice.Transaction
use payment_microservice.Transaction.Uniqueness.{create-refused, create-create}
use payment_microservice.Attempt
use payment_microservice.Attempt.Success.{IsValid}
use payment_microservice.Ledger.{payment_entries, record_payment}
use payment_microservice.Provider.{get_provider, get_enabled_providers}
use payment_microservice.Orchestrator.Initiate.{
  initiate_payment, start, try_all, try_provider, finish,
}
use payment_microservice.Orchestrator.Recurring.{sync_recurring_subscription_on_success}
use payment_microservice.Orchestrator.Verify.{
  verify_payment, settle_success, cancel_others, is_other_open, ledger_input,
}
use payment_microservice.Orchestrator.Replay.{
  initiate_payment-initiate_payment, initiate_payment-status, status_of,
}
use payment_microservice.Orchestrator.Atomic.{
  verify_payment_atomic, verify_payment-status, attempt_status, transaction_status,
}
use payment_microservice.Tests.World.{
  here, at_time, accepted, empty_db, open_db, order_dto, initiate_dto, verify_dto, try_of,
}

open_db-IsValid : IsValid open_db
unfolding count_where
open_db-IsValid = record { ids = λ id. ground arith; one_success = λ t. ground arith }

-- another key for the order that is there
abbrev other_key : Transaction.CreateTransactionDto
other_key = record order_dto { order_id = "order"; idempotency_key = "other" }

create-refused_example :
    let dto = other_key in
    ((Transaction.create here dto open_db).1 ≡ open_db)
    × (find_first (Transaction.has_key "shop" (here.hash "other")) open_db.transactions ≡ none)
    × (((conflict ErrorCode.duplicate_transaction ≡ conflict ErrorCode.duplicate_transaction)
          × (t : Transaction) × (find_first
                (Transaction.has_order "shop" "order")
                open_db.transactions
              ≡ some t)
          × ((t.idempotency_key == here.hash "other") ≡ false))
        ⊎ ((conflict ErrorCode.duplicate_transaction ≡ foreign_key_violation)
            × (id : String) × (◌≡◌ {A = Option String} none (some id))
            × (find_first (λ (i : Invoice). i.id == id) open_db.invoices ≡ none)))
unfolding Transaction.create find_first ◌==◌
create-refused_example =
    create-refused here other_key open_db {e = conflict ErrorCode.duplicate_transaction} refl

create-create_example :
    Transaction.create
      (at_time 2000 (ok accepted))
      (record order_dto { amount = pos 1 })
      (Transaction.create here order_dto open_db).1
    ≡ (
      ok (Transaction.new_transaction here order_dto open_db),
      (Transaction.create here order_dto open_db).1,
    )
unfolding Transaction.create find_first ◌==◌
create-create_example =
    create-create here (at_time 2000 (ok accepted)) order_dto (record order_dto { amount = pos 1 })
      open_db (Transaction.new_transaction here order_dto open_db) refl refl refl

abbrev initiated : InitiatePaymentResult
initiated = record {
  transaction_id = "row-0";
  options =
      record {
        provider = Provider.cash;
        method = "cash";
        order_id = none;
        client_secret = none;
        session_url = none;
        attempt_id = "row-1";
      }
      ∷ [];
}

initiate_payment-initiate_payment_example :
    initiate_payment
      (at_time 2000 (ok accepted))
      (record initiate_dto { tenant_id = "other" })
      (initiate_payment here initiate_dto empty_db).1
    ≡ (ok initiated, (initiate_payment here initiate_dto empty_db).1)
unfolding initiate_payment start try_all try_provider finish Transaction.create
    Transaction.update_status Idempotency.get Idempotency.store get_enabled_providers find_first
    find_many update_where ◌==◌
initiate_payment-initiate_payment_example =
    initiate_payment-initiate_payment here (at_time 2000 (ok accepted)) initiate_dto
      (record initiate_dto { tenant_id = "other" }) empty_db {result = initiated} refl refl refl
      (omega arith)

initiate_payment-status_example :
    status_of "row-0" (initiate_payment here initiate_dto empty_db).1
    ≡ some TransactionStatus.processing
unfolding initiate_payment start try_all try_provider finish Transaction.create
    Transaction.update_status Idempotency.get Idempotency.store get_enabled_providers find_first
    find_many update_where ◌==◌
initiate_payment-status_example =
    initiate_payment-status here initiate_dto empty_db {result = initiated} refl refl

verify_payment_atomic_example : (verify_payment here (verify_dto "b") open_db).1 ≡ open_db
unfolding verify_payment Attempt.find_by_id find_first ◌==◌
verify_payment_atomic_example =
    verify_payment_atomic here (verify_dto "b") open_db {e = not_found ErrorCode.payment_not_found}
      refl

verify_payment-status_example :
    let after = (verify_payment here (verify_dto "a") open_db).1 in
    (attempt_status "a" after ≡ some AttemptStatus.success)
    × (count_where (is_other_open "t" "a") after.attempts ≡ 0)
    × (transaction_status "t" after ≡ some TransactionStatus.success)
    × (after.ledger_entries
        ≡ payment_entries 1000 (ledger_input (verify_dto "a") (try_of AttemptStatus.pending)) ++ [])
unfolding verify_payment settle_success Attempt.find_by_id Attempt.mark_success
    Transaction.find_by_id Transaction.update_status sync_recurring_subscription_on_success
    cancel_others record_payment get_provider get find_first update_where truthy ◌==◌
verify_payment-status_example =
    verify_payment-status here (verify_dto "a") open_db {a = try_of AttemptStatus.pending} refl refl
      refl
