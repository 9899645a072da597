-- ===== src/Tests/Histories.antt =====
-- Histories, late failures and confirmed payments at concrete inputs.
use payment_microservice.Prelude.{
  false, Bool, starts_with, [], ◌∷◌, ◌++◌, pos, ℕ, zero, suc, String, true, none, some, ◌≡◌, refl,
  ◌≤◌, ◌==◌, arith, find_first, count_where, truthy, if◌then◌else◌, ◌-ℤ◌, ap, sym, ◌∙◌,
}
use Prim.Native.String as NativeString
use Prim.Native.String.{◌++◌ as str_append}
use Prim.Native.Char.{nul}
use payment_microservice.Store.{
  PaymentAttempt, Transaction, Db, Env, ok, err, bad_request, ErrorCode, TransactionStatus,
  AttemptStatus, get, VerifyPaymentInput, VerifyPaymentResult,
}
use payment_microservice.Attempt
use payment_microservice.Attempt.Success.{IsValid}
use payment_microservice.Attempt.Sound.{IsInjective}
use payment_microservice.Webhook.{fail_order}
use payment_microservice.Refund.{create_refund, refunded_amount}
use payment_microservice.Refund.LateFailure.{create_refund-fail_order}
use payment_microservice.Orchestrator.Verify.{
  is_other_open, verify_payment, VerifyPaymentDto, ledger_input,
}
use payment_microservice.Orchestrator.Confirmed.{
  verify_payment-verdict, verify_payment-other_attempt,
}
use payment_microservice.Orchestrator.Atomic.{attempt_status, transaction_status}
use payment_microservice.Ledger.{payment_entries}
use payment_microservice.Provider.{get_provider}
use payment_microservice.History.{Call, run, none_yet, then_call}
use payment_microservice.History.OneSuccess.{Reach-one_success}
use payment_microservice.Reconciliation.{
  Query, nothing_done, stale_transactions, is_locked, reconcile_stale_transactions,
}
use payment_microservice.Reconciliation.Counts.{HasCounts, reconcile_stale_transactions-counts}
use payment_microservice.Gateway.Razorpay.Sdk.{Sdk}
use payment_microservice.Gateway.Razorpay.Payments as Razorpay
use payment_microservice.Gateway.Razorpay.Signatures.{verify_payment_signature, signed_message}
use payment_microservice.Tests.World.{
  here, empty_db, open_db, paid_db, initiate_dto, verify_dto, refund_dto, sale, try_of,
}

paid_db-IsValid : IsValid paid_db
unfolding count_where
paid_db-IsValid = record { ids = λ id. ground arith; one_success = λ t. ground arith }

create_refund-fail_order_example :
    let after = (fail_order "cash-1" "declined" paid_db).1 in
    (find_first (Attempt.has_id "a") after.attempts
      ≡ some (Attempt.with_failure "declined" (try_of AttemptStatus.success)))
    × (after.transactions ≡ paid_db.transactions)
    × (create_refund here refund_dto after
        ≡ (err (bad_request ErrorCode.refund_not_eligible), after))
unfolding Attempt.find_by_provider_order_id refunded_amount find_first truthy ◌==◌ ◌-ℤ◌
create_refund-fail_order_example =
    create_refund-fail_order "cash-1" "declined" paid_db {a = try_of AttemptStatus.success}
      paid_db-IsValid refl refl refl here refund_dto {t = sale TransactionStatus.success} refl refl
      refl refl refl

verify_payment-verdict_example :
    let after = (verify_payment here (verify_dto "a") open_db).1 in
    (◌≡◌ {A = Bool} true true
      → ((verify_payment here (verify_dto "a") open_db).0 ≡ ok true)
        × (attempt_status "a" after ≡ some AttemptStatus.success)
        × (count_where (is_other_open "t" "a") after.attempts ≡ 0)
        × (transaction_status "t" after ≡ some TransactionStatus.success)
        × (after.ledger_entries
            ≡ payment_entries 1000 (ledger_input (verify_dto "a") (try_of AttemptStatus.pending))
              ++ []))
    × (◌≡◌ {A = Bool} true false
        → ((verify_payment here (verify_dto "a") open_db).0 ≡ ok false)
          × (attempt_status "a" after ≡ some AttemptStatus.failed)
          × (after.transactions ≡ open_db.transactions)
          × (after.ledger_entries ≡ []))
unfolding find_first get get_provider truthy ◌==◌
verify_payment-verdict_example =
    verify_payment-verdict here (verify_dto "a") open_db {a = try_of AttemptStatus.pending}
      {t = sale TransactionStatus.processing}
      {result = record { is_success = true; failure_reason = none; metadata = none }} refl refl refl
      refl refl refl refl refl

-- an attempt of the order of 100, and an order of 9000
abbrev cheap : PaymentAttempt
cheap = try_of AttemptStatus.pending

abbrev dear : Transaction
dear = record (sale TransactionStatus.processing) { id = "t-2"; amount = pos 9000 }

abbrev two_orders : Db
two_orders = record open_db { transactions = dear ∷ sale TransactionStatus.processing ∷ [] }

abbrev crossed : VerifyPaymentDto
crossed = record (verify_dto "a") { transaction_id = "t-2" }

verify_payment-other_attempt_example :
    let after = (verify_payment here crossed two_orders).1 in
    ((verify_payment here crossed two_orders).0 ≡ ok true)
    × (transaction_status "t-2" after ≡ some TransactionStatus.success)
    × (after.ledger_entries ≡ payment_entries 1000 (ledger_input crossed cheap) ++ [])
    × (transaction_status "t" after ≡ transaction_status "t" two_orders)
unfolding find_first get get_provider truthy ◌==◌
verify_payment-other_attempt_example =
    verify_payment-other_attempt here crossed two_orders {a = cheap} {t = dear}
      {result = record { is_success = true; failure_reason = none; metadata = none }} refl refl refl
      refl refl refl refl refl refl refl refl refl

abbrev all_stale : Query
all_stale = record { is_stale = λ t. true; order = λ ts. ts }

reconcile_stale_transactions-counts_example :
    let (r, after) = reconcile_stale_transactions here all_stale open_db in
    if is_locked 1000 none
    then (r ≡ ok nothing_done) × (after ≡ open_db)
    else ((after.reconciliation_lock ≡ none)
        × HasCounts (stale_transactions all_stale open_db) open_db.attempts r)
reconcile_stale_transactions-counts_example =
    reconcile_stale_transactions-counts here all_stale open_db

-- an id for each number: a text of that length
abbrev tallied : ℕ → String
tallied zero = NativeString.[]
tallied (suc n) = NativeString.◌∷◌ nul (tallied n)

abbrev size : String → ℕ
size NativeString.[] = 0
size (NativeString.◌∷◌ c s) = suc (size s)

size-tallied : (n : ℕ) → size (tallied n) ≡ n
size-tallied zero = refl
size-tallied (suc n) = ap suc (size-tallied n)

abbrev counting : Env
counting = record here { uuid = tallied }

counting-IsInjective : IsInjective counting
counting-IsInjective m n same = sym (size-tallied m) ∙ ap size same ∙ size-tallied n

abbrev paid : Db
paid =
    run counting (Call.verify (verify_dto (tallied 1)))
      (run counting (Call.initiate initiate_dto) empty_db)

Reach-one_success_example : count_where (Attempt.succeeded (tallied 0)) paid.attempts ≤ 1
Reach-one_success_example =
    Reach-one_success {base = counting} counting-IsInjective refl
      (then_call (then_call none_yet counting refl (Call.initiate initiate_dto)) counting refl
        (Call.verify (verify_dto (tallied 1))))
      (tallied 0)

abbrev signed : VerifyPaymentInput
signed = record {
  provider_order_id = some "order_1";
  provider_payment_id = some "pay_1";
  provider_signature = some "secret/order_1|pay_1";
}

-- an SDK that refuses every call
abbrev refusing : Sdk
refusing = record {
  orders_create = λ params. err (bad_request ErrorCode.uncoded);
  orders_fetch = λ id. err (bad_request ErrorCode.uncoded);
  plans_create = λ params. err (bad_request ErrorCode.uncoded);
  subscriptions_create = λ params. err (bad_request ErrorCode.uncoded);
  subscriptions_fetch = λ id. err (bad_request ErrorCode.uncoded);
  payments_refund = λ id amount reason. err (bad_request ErrorCode.uncoded);
}

abbrev keyed : String → String → String
keyed secret body = str_append secret (str_append "/" body)

verify_payment_signature_example :
    ((result : VerifyPaymentResult)
      → Razorpay.verify_payment keyed "secret" here refusing signed ≡ ok result
      → result.is_success ≡ true
      → keyed "secret" (signed_message "order_1" "pay_1") ≡ "secret/order_1|pay_1")
    × (starts_with "order_1" "sub_" ≡ false
        → keyed "secret" (signed_message "order_1" "pay_1") ≡ "secret/order_1|pay_1"
        → (result : VerifyPaymentResult) × (Razorpay.verify_payment keyed "secret" here refusing
              signed
            ≡ ok result)
          × (result.is_success ≡ true))
unfolding truthy ◌==◌
verify_payment_signature_example =
    verify_payment_signature keyed "secret" here refusing signed {id = "order_1"}
      {payment_id = "pay_1"} {signature = "secret/order_1|pay_1"} refl refl refl refl refl
