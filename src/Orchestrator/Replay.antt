-- ===== src/Orchestrator/Replay.antt =====
-- Idempotency of `initiatePayment`.
use payment_microservice.Prelude.{
  find_first-update_where, ◌+◌, ◌*◌, ◌<◌, String, Option, none, some, List, [], ◌∷◌, find_first,
  ◌≡◌, refl, arith, ==_refl, ◌==◌, Option-cases, inl, inr,
}
use payment_microservice.Store.{
  Transaction, Provider, PaymentOption, InitiatePaymentResult, Db, ok, Env, TransactionStatus,
}
use payment_microservice.Idempotency
use mathlib.Core.Option
use payment_microservice.Transaction
use payment_microservice.Orchestrator.Initiate.{InitiatePaymentDto, finish, start, initiate_payment}

finish-cached :
    (env later : Env) (dto : InitiatePaymentDto) (key : String) (t : Transaction)
    (options : List PaymentOption) (failures : List Provider) (db : Db)
    {result : InitiatePaymentResult}
    → later.hash key ≡ env.hash dto.idempotency_key
    → later.now < env.now + env.idempotency_ttl_seconds * 1000
    → (finish env dto t options failures db).0 ≡ ok result
    → Idempotency.get later key (finish env dto t options failures db).1 ≡ some result
unfolding finish Transaction.update_status Idempotency.store Idempotency.get find_first
finish-cached env later dto key t [] failures db same_hash alive done = ground arith
finish-cached env later dto key t (o ∷ os) failures db same_hash alive done =
    ground (arith, ==_refl (env.hash dto.idempotency_key))

start-cached :
    (env later : Env) (dto : InitiatePaymentDto) (key : String) (db : Db)
    {result : InitiatePaymentResult}
    → later.hash key ≡ env.hash dto.idempotency_key
    → later.now < env.now + env.idempotency_ttl_seconds * 1000
    → (start env dto db).0 ≡ ok result
    → Idempotency.get later key (start env dto db).1 ≡ some result
unfolding start
start-cached env later dto key db same_hash alive done = grind (arith, finish-cached)

-- When a first call with a key has succeeded, a second call with a key of the same hash, made before
-- the cached result expires, returns the same result and writes nothing. The second request's
-- tenant, order and amount play no part.
pub initiate_payment-initiate_payment :
    (env later : Env) (dto again : InitiatePaymentDto) (db : Db) {result : InitiatePaymentResult}
    → Idempotency.get env dto.idempotency_key db ≡ none
    → (initiate_payment env dto db).0 ≡ ok result
    → later.hash again.idempotency_key ≡ env.hash dto.idempotency_key
    → later.now < env.now + env.idempotency_ttl_seconds * 1000
    → let after = (initiate_payment env dto db).1 in
      initiate_payment later again after ≡ (ok result, after)
unfolding initiate_payment
initiate_payment-initiate_payment env later dto again db {result} first done same_hash alive =
    ground
      (arith, start-cached env later dto again.idempotency_key db {result = result} same_hash alive)

-- The status of the row with an id
abbrev pub status_of : String → Db → Option TransactionStatus
status_of id db = Option.map (λ t. t.status) (find_first (λ t. t.id == id) db.transactions)

finish-status :
    (env : Env) (dto : InitiatePaymentDto) (t : Transaction) (options : List PaymentOption)
    (failures : List Provider) (db : Db) {result : InitiatePaymentResult}
    → (finish env dto t options failures db).0 ≡ ok result
    → status_of result.transaction_id (finish env dto t options failures db).1
      ≡ some TransactionStatus.processing
unfolding finish Transaction.update_status Idempotency.store
finish-status env dto t [] failures db done = ground arith
finish-status env dto t (o ∷ os) failures db done =
    elim (Option-cases (find_first (λ x. x.id == t.id) db.transactions)) [
      | inl absent ↦ ground arith
      | inr (x, found) ↦ ground (
        arith,
        find_first-update_where (λ (x : Transaction). x.id == t.id)
            (Transaction.with_status TransactionStatus.processing) db.transactions (λ x. refl)
            found,
      )
    ]

start-status :
    (env : Env) (dto : InitiatePaymentDto) (db : Db) {result : InitiatePaymentResult}
    → (start env dto db).0 ≡ ok result
    → status_of result.transaction_id (start env dto db).1 ≡ some TransactionStatus.processing
unfolding start
start-status env dto db done = grind (arith, finish-status)

-- A call that finds no cached result and succeeds leaves its transaction PROCESSING. The status that
-- the transaction had before plays no part, where the key was used already and its cached result has
-- expired.
pub initiate_payment-status :
    (env : Env) (dto : InitiatePaymentDto) (db : Db) {result : InitiatePaymentResult}
    → Idempotency.get env dto.idempotency_key db ≡ none
    → (initiate_payment env dto db).0 ≡ ok result
    → status_of result.transaction_id (initiate_payment env dto db).1
      ≡ some TransactionStatus.processing
unfolding initiate_payment
initiate_payment-status env dto db {result} first done =
    ground (arith, start-status env dto db {result = result})
