-- ===== src/Orchestrator/Confirmed.antt =====
-- What becomes of a payment by the provider's answer.
use payment_microservice.Prelude.{
  String, ap, subst, sym, ==_iff, ◌++◌, find_first-update_where_other, true, false, none, some,
  ◌==◌, ◌≡◌, refl, find_first, find_first-holds, find_first-update_where, ==_refl, count_where,
  Bool, List, [], ◌∷◌, arith,
}
use payment_microservice.Store.{
  TransactionStatus, AttemptStatus, Db, Env, PaymentAttempt, Transaction, ok, is_success, is_failed,
  VerifyPaymentResult, get, as_text,
}
use mathlib.Core.Option
use payment_microservice.Attempt
use payment_microservice.Transaction
use payment_microservice.Provider as ProviderFactory
use payment_microservice.Orchestrator.Recurring.{
  sync_recurring_subscription_on_success, is_recurring, as_billing_metadata,
}
use payment_microservice.Orchestrator.Verify.{
  VerifyPaymentDto, verify_payment, settle_success, cancel_others, is_other_open, verify_input,
  ledger_input,
}
use payment_microservice.Ledger.{record_payment, payment_entries}
use payment_microservice.Orchestrator.Atomic.{
  verify_payment-status, transaction_status, attempt_status,
}

-- nothing on the way of a confirmed payment throws
confirmed_result :
    (env : Env) (dto : VerifyPaymentDto) (db : Db) {a : PaymentAttempt} {t : Transaction}
    {result : VerifyPaymentResult}
    → find_first (Attempt.has_id dto.attempt_id) db.attempts ≡ some a
    → find_first (Attempt.has_id a.id) db.attempts ≡ some a
    → find_first (Transaction.has_id dto.transaction_id (some dto.tenant_id)) db.transactions
      ≡ some t
    → find_first (λ t. t.id == dto.transaction_id) db.transactions ≡ some t
    → find_first (Attempt.succeeded a.transaction_id) db.attempts ≡ none
    → is_success a.status ≡ false
    → is_failed a.status ≡ false
    → is_recurring (as_text (get "billingMode" (as_billing_metadata t.metadata))) ≡ false
    → ProviderFactory.get_provider env a.provider ≡ ok (env.providers a.provider)
    → (env.providers a.provider).verify_payment (verify_input dto a) ≡ ok result
    → result.is_success ≡ true
    → (verify_payment env dto db).0 ≡ ok true
unfolding verify_payment settle_success Attempt.find_by_id Attempt.mark_success
    Transaction.find_by_id Transaction.update_status sync_recurring_subscription_on_success
    cancel_others record_payment
confirmed_result env dto db found by_id order row alone unpaid open_yet once enabled answer
      confirmed =
    rw (found, order, unpaid, open_yet, enabled, answer, confirmed, by_id, unpaid, alone, row, once)
      refl

other_row :
    (id id' : String)
    → (id == id') ≡ false
    → (t : Transaction) → (t.id == id) ≡ true
    → (t.id == id') ≡ false
other_row id id' other t same =
    subst (λ k. (k == id') ≡ false) (sym ((==_iff t.id id).0 same)) other

-- An attempt of one order pays for another: with an attempt of a different transaction, which the
-- provider confirms, `verifyPayment` returns success, sets the request's transaction to SUCCESS and
-- posts the attempt's amount for it, whatever that transaction's own amount is, while the status of
-- the transaction that the attempt belongs to stays as it was. The other conditions are those of a
-- payment that is confirmed.
pub verify_payment-other_attempt :
    (env : Env) (dto : VerifyPaymentDto) (db : Db) {a : PaymentAttempt} {t : Transaction}
    {result : VerifyPaymentResult}
    → (dto.transaction_id == a.transaction_id) ≡ false
    → find_first (Attempt.has_id dto.attempt_id) db.attempts ≡ some a
    → find_first (Attempt.has_id a.id) db.attempts ≡ some a
    → find_first (Transaction.has_id dto.transaction_id (some dto.tenant_id)) db.transactions
      ≡ some t
    → find_first (λ t. t.id == dto.transaction_id) db.transactions ≡ some t
    → find_first (Attempt.succeeded a.transaction_id) db.attempts ≡ none
    → is_success a.status ≡ false
    → is_failed a.status ≡ false
    → is_recurring (as_text (get "billingMode" (as_billing_metadata t.metadata))) ≡ false
    → ProviderFactory.get_provider env a.provider ≡ ok (env.providers a.provider)
    → (env.providers a.provider).verify_payment (verify_input dto a) ≡ ok result
    → result.is_success ≡ true
    → let after = (verify_payment env dto db).1 in
      ((verify_payment env dto db).0 ≡ ok true)
      × (transaction_status dto.transaction_id after ≡ some TransactionStatus.success)
      × (after.ledger_entries ≡ payment_entries env.now (ledger_input dto a) ++ db.ledger_entries)
      × (transaction_status a.transaction_id after ≡ transaction_status a.transaction_id db)
unfolding verify_payment settle_success Attempt.find_by_id Attempt.mark_success
    Transaction.find_by_id Transaction.update_status sync_recurring_subscription_on_success
    cancel_others record_payment
verify_payment-other_attempt env dto db {a} {t} {result} other found by_id order row alone unpaid
      open_yet once enabled answer confirmed =
    let success =
      confirmed_result env dto db {a = a} {t = t} {result = result} found by_id order row alone
        unpaid open_yet once enabled answer confirmed in
    let (attempt, others, status, ledger) =
      verify_payment-status env dto db {a = a} found unpaid success in
    (
      success,
      status,
      ledger,
      rw
          (
            found, order, unpaid, open_yet, enabled, answer, confirmed, by_id, unpaid, alone, row,
            once,
          )
          (ap (Option.map (λ (t : Transaction). t.status)) (
            find_first-update_where_other (λ t. t.id == a.transaction_id)
              (λ t. t.id == dto.transaction_id) (Transaction.with_status TransactionStatus.success)
              db.transactions (other_row _ _ other) (other_row _ _ other))),
    )

-- What one test finds, another one that finds nothing does not hold of.
find_first-excludes :
    {R : Type 0} (p q : R → Bool) (rs : List R) {r : R}
    → find_first p rs ≡ some r
    → find_first q rs ≡ none
    → q r ≡ false
unfolding find_first
find_first-excludes p q [] found absent = cc
find_first-excludes p q (x ∷ rs) {r} found absent =
    ground (arith, find_first-excludes p q rs {r = r})

found_by_id :
    (id : String) (rows : List PaymentAttempt) {a : PaymentAttempt}
    → find_first (Attempt.has_id id) rows ≡ some a
    → find_first (Attempt.has_id a.id) rows ≡ some a
found_by_id id rows {a} found =
    subst (λ k. find_first (Attempt.has_id k) rows ≡ some a)
      (sym ((==_iff a.id id).0 (find_first-holds (Attempt.has_id id) rows found))) found

not_successful :
    (id : String) (rows : List PaymentAttempt) {a : PaymentAttempt}
    → find_first (Attempt.has_id id) rows ≡ some a
    → find_first (Attempt.succeeded a.transaction_id) rows ≡ none
    → is_success a.status ≡ false
not_successful id rows {a} found alone = ground (
  arith,
  find_first-excludes (Attempt.has_id id) (Attempt.succeeded a.transaction_id) rows {r = a} found
      alone,
  ==_refl a.transaction_id,
)

rejected_result :
    (env : Env) (dto : VerifyPaymentDto) (db : Db) {a : PaymentAttempt} {t : Transaction}
    {result : VerifyPaymentResult}
    → find_first (Attempt.has_id dto.attempt_id) db.attempts ≡ some a
    → find_first (Attempt.has_id a.id) db.attempts ≡ some a
    → find_first (Transaction.has_id dto.transaction_id (some dto.tenant_id)) db.transactions
      ≡ some t
    → is_success a.status ≡ false
    → is_failed a.status ≡ false
    → ProviderFactory.get_provider env a.provider ≡ ok (env.providers a.provider)
    → (env.providers a.provider).verify_payment (verify_input dto a) ≡ ok result
    → result.is_success ≡ false
    → let after = (verify_payment env dto db).1 in
      ((verify_payment env dto db).0 ≡ ok false)
      × (attempt_status a.id after ≡ some AttemptStatus.failed)
      × (after.transactions ≡ db.transactions)
      × (after.ledger_entries ≡ db.ledger_entries)
unfolding verify_payment Attempt.find_by_id Attempt.mark_failed Transaction.find_by_id
rejected_result env dto db {a} {t} {result} found by_id order unpaid open_yet enabled answer
      refused =
    rw (found, order, unpaid, open_yet, enabled, answer, refused, by_id)
      (
        refl,
        ap (Option.map (λ (a : PaymentAttempt). a.status)) (
            find_first-update_where (Attempt.has_id a.id) (Attempt.with_failure _) db.attempts
              (λ x. refl) by_id),
        refl,
        refl,
      )

-- An open payment ends as the provider says. Let the attempt not have failed, no attempt of its
-- transaction have succeeded, the tenant have the request's transaction, which is the only one with
-- its id and not for a subscription, and let the attempt's provider be enabled and answer. If it
-- confirms the payment, `verifyPayment` returns success, the attempt and the transaction are SUCCESS,
-- no other attempt of the transaction is open, and the ledger has the entries of exactly one payment
-- of the attempt's amount on top. If it does not, `verifyPayment` returns failure, the attempt is
-- FAILED, and no transaction and nothing in the ledger has changed.
pub verify_payment-verdict :
    (env : Env) (dto : VerifyPaymentDto) (db : Db) {a : PaymentAttempt} {t : Transaction}
    {result : VerifyPaymentResult}
    → find_first (Attempt.has_id dto.attempt_id) db.attempts ≡ some a
    → is_failed a.status ≡ false
    → find_first (Attempt.succeeded a.transaction_id) db.attempts ≡ none
    → find_first (Transaction.has_id dto.transaction_id (some dto.tenant_id)) db.transactions
      ≡ some t
    → find_first (λ t. t.id == dto.transaction_id) db.transactions ≡ some t
    → is_recurring (as_text (get "billingMode" (as_billing_metadata t.metadata))) ≡ false
    → ProviderFactory.get_provider env a.provider ≡ ok (env.providers a.provider)
    → (env.providers a.provider).verify_payment (verify_input dto a) ≡ ok result
    → let after = (verify_payment env dto db).1 in
      (result.is_success ≡ true
        → ((verify_payment env dto db).0 ≡ ok true)
          × (attempt_status a.id after ≡ some AttemptStatus.success)
          × (count_where (is_other_open dto.transaction_id a.id) after.attempts ≡ 0)
          × (transaction_status dto.transaction_id after ≡ some TransactionStatus.success)
          × (after.ledger_entries
              ≡ payment_entries env.now (ledger_input dto a) ++ db.ledger_entries))
      × (result.is_success ≡ false
          → ((verify_payment env dto db).0 ≡ ok false)
            × (attempt_status a.id after ≡ some AttemptStatus.failed)
            × (after.transactions ≡ db.transactions)
            × (after.ledger_entries ≡ db.ledger_entries))
verify_payment-verdict env dto db {a} {t} {result} found open_yet alone order row once enabled
      answer =
    let by_id = found_by_id dto.attempt_id db.attempts {a = a} found in
    let unpaid = not_successful dto.attempt_id db.attempts {a = a} found alone in
    (
      λ confirmed.
          let success =
            confirmed_result env dto db {a = a} {t = t} {result = result} found by_id order row
              alone unpaid open_yet once enabled answer confirmed in
          let (attempt, others, status, ledger) =
            verify_payment-status env dto db {a = a} found unpaid success in
          (success, attempt, others, status, ledger),
      λ refused.
          rejected_result env dto db {a = a} {t = t} {result = result} found by_id order unpaid
            open_yet enabled answer refused,
    )
