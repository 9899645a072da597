-- ===== src/Orchestrator/Sound.antt =====
-- `initiatePayment` and `verifyPayment` keep the invariant of the attempts: at most one success for
-- each transaction.
use payment_microservice.Prelude.{ℕ, String, Bool, Option, none, some, List, [], ◌∷◌, refl, arith}
use payment_microservice.Store.{
  Env, AuditLog, LedgerEntry, PaymentAttempt, Transaction, TransactionStatus, AttemptStatus,
  Subscription, Fault, Provider, Metadata, modify, VerifyPaymentResult, PaymentOption,
  InitiatePaymentResult,
}
use payment_microservice.Store.Keeps.{Keeps, keeps_rules, Keeps-pure, Keeps-catch}
use payment_microservice.Audit.{log}
use payment_microservice.Ledger.{RecordPaymentInput, record_payment, create_many}
use payment_microservice.Idempotency
use payment_microservice.Transaction
use payment_microservice.Attempt
use payment_microservice.Attempt.Sound.{
  IsSound, IsInjective, modify-IsSound, update-IsSound, update_attempt-IsSound, create-IsSound,
  mark_success-IsSound, mark_failed-IsSound,
}
use payment_microservice.Subscription.{
  CreateSubscriptionDto, SyncExternalSubscriptionDto, create_subscription,
  sync_external_subscription, get_active_plan_or_throw, add_subscription, update_subscription,
  log_unless_in, update_or_create,
}
use payment_microservice.Orchestrator.Recurring.{
  SyncInput, sync_recurring_subscription_on_success, sync_plan, sync_by_provider, sync_external,
  sync_period,
}
use payment_microservice.Orchestrator.Verify.{
  VerifyPaymentDto, verify_payment, settle_success, with_metadata, cancel_others, is_other_open,
  accept_or_reject, settled_or_ask,
}
use payment_microservice.Orchestrator.Initiate.{
  InitiatePaymentDto, initiate_payment, start, try_provider, try_all, finish, collect, Progress,
  replay_or_start,
}

module _ (env : Env) where
  log-IsSound : (entry : AuditLog) → Keeps (IsSound env) (log entry)
  unfolding log
  log-IsSound entry = modify-IsSound env _ (λ db. refl) (λ db. omega arith)

  add_subscription-IsSound :
      (row : Subscription) → Keeps (IsSound env) (modify (add_subscription row))
  add_subscription-IsSound row = modify-IsSound env _ (λ db. refl) (λ db. omega arith)

  update_subscription-IsSound :
      (id : String) (f : Subscription → Subscription)
      → Keeps (IsSound env) (modify (update_subscription id f))
  update_subscription-IsSound id f = modify-IsSound env _ (λ db. refl) (λ db. omega arith)

  log_unless_in-IsSound :
      (in_transaction : Bool) (tenant_id actor action id : String)
      → Keeps (IsSound env) (log_unless_in in_transaction tenant_id actor action id)
  log_unless_in-IsSound in_transaction tenant_id actor action id = search (keeps_rules, log-IsSound)

  get_active_plan_or_throw-IsSound :
      (id : String) → Keeps (IsSound env) (get_active_plan_or_throw id)
  unfolding get_active_plan_or_throw
  get_active_plan_or_throw-IsSound id = search keeps_rules

  create_subscription-IsSound :
      (in_transaction : Bool) (dto : CreateSubscriptionDto)
      → Keeps (IsSound env) (create_subscription env in_transaction dto)
  unfolding create_subscription
  create_subscription-IsSound in_transaction dto =
      search
        (
          keeps_rules, get_active_plan_or_throw-IsSound, add_subscription-IsSound,
          log_unless_in-IsSound,
        )
        depth 8

  update_or_create-IsSound :
      (in_transaction : Bool) (dto : SyncExternalSubscriptionDto) (found : Option Subscription)
      → Keeps (IsSound env) (update_or_create env in_transaction dto found)
  update_or_create-IsSound in_transaction dto (some s) =
      search (keeps_rules, update_subscription-IsSound, log_unless_in-IsSound)
  update_or_create-IsSound in_transaction dto none =
      search (keeps_rules, add_subscription-IsSound, log_unless_in-IsSound)

  pub sync_external_subscription-IsSound :
      (in_transaction : Bool) (dto : SyncExternalSubscriptionDto)
      → Keeps (IsSound env) (sync_external_subscription env in_transaction dto)
  unfolding sync_external_subscription
  sync_external_subscription-IsSound in_transaction dto =
      search (keeps_rules, get_active_plan_or_throw-IsSound, update_or_create-IsSound)

  sync_period-IsSound :
      (input : SyncInput) (plan_id id : String) (from to : Option ℕ)
      → Keeps (IsSound env) (sync_period env input plan_id id from to)
  sync_period-IsSound input plan_id id (some from) (some to) =
      search (keeps_rules, sync_external_subscription-IsSound)
  sync_period-IsSound input plan_id id (some from) none = Keeps-pure tt
  sync_period-IsSound input plan_id id none to = Keeps-pure tt

  sync_external-IsSound :
      (input : SyncInput) (plan_id : String) (id : Option String)
      → Keeps (IsSound env) (sync_external env input plan_id id)
  sync_external-IsSound input plan_id none = Keeps-pure tt
  sync_external-IsSound input plan_id (some id) = sync_period-IsSound input plan_id id _ _

  sync_by_provider-IsSound :
      (input : SyncInput) (plan_id : String) (p : Provider)
      → Keeps (IsSound env) (sync_by_provider env input plan_id p)
  sync_by_provider-IsSound input plan_id Provider.cash =
      search (keeps_rules, create_subscription-IsSound)
  sync_by_provider-IsSound input plan_id Provider.stripe = sync_external-IsSound input plan_id _
  sync_by_provider-IsSound input plan_id Provider.razorpay = sync_external-IsSound input plan_id _

  sync_plan-IsSound :
      (input : SyncInput) (plan_id : Option String)
      → Keeps (IsSound env) (sync_plan env input plan_id)
  sync_plan-IsSound input none = Keeps-pure tt
  sync_plan-IsSound input (some plan_id) = search (keeps_rules, sync_by_provider-IsSound)

  sync_recurring-IsSound :
      (input : SyncInput) → Keeps (IsSound env) (sync_recurring_subscription_on_success env input)
  unfolding sync_recurring_subscription_on_success
  sync_recurring-IsSound input = search (keeps_rules, sync_plan-IsSound)

  create_many-IsSound :
      (entries : List LedgerEntry) → Keeps (IsSound env) (modify (create_many entries))
  create_many-IsSound entries = modify-IsSound env _ (λ db. refl) (λ db. omega arith)

  set_status-IsSound :
      (id : String) (status : TransactionStatus)
      → Keeps (IsSound env) (modify (Transaction.set_status id status))
  set_status-IsSound id status = modify-IsSound env _ (λ db. refl) (λ db. omega arith)

  record_payment-IsSound :
      (input : RecordPaymentInput) → Keeps (IsSound env) (record_payment env input)
  unfolding record_payment
  record_payment-IsSound input = search (keeps_rules, create_many-IsSound)

  update_status-IsSound :
      (id : String) (status : TransactionStatus)
      → Keeps (IsSound env) (Transaction.update_status id status)
  unfolding Transaction.update_status
  update_status-IsSound id status = search (keeps_rules, set_status-IsSound)

  with_metadata-IsSound :
      (id : String) (m : Metadata)
      → Keeps (IsSound env) (modify (Attempt.update_attempt id (with_metadata m)))
  with_metadata-IsSound id m =
      update_attempt-IsSound env id (with_metadata m) (λ a. refl) (λ a. refl) (λ a h. h)

  cancel_others-IsSound :
      (transaction_id id : String) → Keeps (IsSound env) (modify (cancel_others transaction_id id))
  unfolding cancel_others
  cancel_others-IsSound transaction_id id =
      update-IsSound env (is_other_open transaction_id id)
        (Attempt.with_status AttemptStatus.cancelled) (λ a. refl) (λ a. refl) (λ a h. cc)

  settle_success-IsSound :
      (dto : VerifyPaymentDto) (a : PaymentAttempt) (t : Transaction) (result : VerifyPaymentResult)
      → Keeps (IsSound env) (settle_success env dto a t result)
  unfolding settle_success
  settle_success-IsSound dto a t result =
      search
        (
          keeps_rules,
          mark_success-IsSound env,
          with_metadata-IsSound,
          cancel_others-IsSound,
          update_status-IsSound,
          record_payment-IsSound,
          sync_recurring-IsSound,
        )
        depth 12

  accept_or_reject-IsSound :
      (dto : VerifyPaymentDto) (a : PaymentAttempt) (t : Transaction) (result : VerifyPaymentResult)
      → Keeps (IsSound env) (accept_or_reject env dto a t result)
  accept_or_reject-IsSound dto a t result =
      search (keeps_rules, settle_success-IsSound, mark_failed-IsSound env, log-IsSound) depth 8

  settled_or_ask-IsSound :
      (dto : VerifyPaymentDto) (a : PaymentAttempt) (t : Transaction)
      → Keeps (IsSound env) (settled_or_ask env dto a t)
  settled_or_ask-IsSound dto a t = search (keeps_rules, accept_or_reject-IsSound) depth 8

  -- `verifyPayment` keeps the invariant, whatever the provider answers and however the call ends.
  pub verify_payment-IsSound :
      (dto : VerifyPaymentDto) → Keeps (IsSound env) (verify_payment env dto)
  unfolding verify_payment Attempt.find_by_id Transaction.find_by_id
  verify_payment-IsSound dto = search (keeps_rules, settled_or_ask-IsSound)

  add_transaction-IsSound :
      (dto : Transaction.CreateTransactionDto)
      → Keeps (IsSound env) (modify (Transaction.add_transaction env dto))
  add_transaction-IsSound dto = modify-IsSound env _ (λ db. refl) (λ db. omega arith)

  insert_transaction-IsSound :
      (dto : Transaction.CreateTransactionDto)
      → Keeps (IsSound env) (Transaction.insert_transaction env dto)
  unfolding Transaction.insert_transaction
  insert_transaction-IsSound dto = search (keeps_rules, add_transaction-IsSound) depth 10

  rethrow_duplicate-IsSound : (e : Fault) → Keeps (IsSound env) (Transaction.rethrow_duplicate e)
  rethrow_duplicate-IsSound e = record { at = λ db v. ground (arith, v) }

  replay_or_insert-IsSound :
      (dto : Transaction.CreateTransactionDto) (found : Option Transaction)
      → Keeps (IsSound env) (Transaction.replay_or_insert env dto found)
  replay_or_insert-IsSound dto (some t) = Keeps-pure t
  replay_or_insert-IsSound dto none =
      Keeps-catch _ _ (insert_transaction-IsSound dto) rethrow_duplicate-IsSound

  create_transaction-IsSound :
      (dto : Transaction.CreateTransactionDto) → Keeps (IsSound env) (Transaction.create env dto)
  unfolding Transaction.create
  create_transaction-IsSound dto = search (keeps_rules, replay_or_insert-IsSound)

  store-IsSound :
      (key : String) (result : InitiatePaymentResult)
      → Keeps (IsSound env) (Idempotency.store env key result)
  unfolding Idempotency.store
  store-IsSound key result = modify-IsSound env _ (λ db. refl) (λ db. omega arith)

  finish-IsSound :
      (dto : InitiatePaymentDto) (t : Transaction) (options : List PaymentOption)
      (failures : List Provider)
      → Keeps (IsSound env) (finish env dto t options failures)
  unfolding finish
  finish-IsSound dto t [] failures = search (keeps_rules, update_status-IsSound)
  finish-IsSound dto t (o ∷ os) failures =
      search (keeps_rules, update_status-IsSound, store-IsSound)

module _ (env : Env) (injective : IsInjective env) where
  try_provider-IsSound :
      (dto : InitiatePaymentDto) (t : Transaction) (p : Provider)
      → Keeps (IsSound env) (try_provider env dto t p)
  unfolding try_provider
  try_provider-IsSound dto t p = search (keeps_rules, create-IsSound env injective) depth 8

  try_all-IsSound :
      (dto : InitiatePaymentDto) (t : Transaction) (ps : List Provider) (acc : Progress)
      → Keeps (IsSound env) (try_all env dto t ps acc)
  unfolding try_all
  try_all-IsSound dto t [] acc = record { at = λ db v. v }
  try_all-IsSound dto t (p ∷ ps) acc = record {
    at = λ db v.
        (try_all-IsSound dto t ps (collect p acc (try_provider env dto t p db).0)).at
          (try_provider env dto t p db).1 ((try_provider-IsSound dto t p).at db v);
  }

  start-IsSound : (dto : InitiatePaymentDto) → Keeps (IsSound env) (start env dto)
  unfolding start
  start-IsSound dto =
      search
        (
          keeps_rules,
          create_transaction-IsSound env,
          log-IsSound env,
          try_all-IsSound,
          finish-IsSound env,
        )
        depth 8

  replay_or_start-IsSound :
      (dto : InitiatePaymentDto) (cached : Option InitiatePaymentResult)
      → Keeps (IsSound env) (replay_or_start env dto cached)
  replay_or_start-IsSound dto none = start-IsSound dto
  replay_or_start-IsSound dto (some result) = Keeps-pure result

  pub initiate_payment-IsSound :
      (dto : InitiatePaymentDto) → Keeps (IsSound env) (initiate_payment env dto)
  unfolding initiate_payment
  initiate_payment-IsSound dto = search (keeps_rules, replay_or_start-IsSound)
