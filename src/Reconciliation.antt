-- ===== src/Reconciliation.antt =====
-- `ReconciliationService`
-- (src/modules/payment/reconciliation/reconciliation.service.ts).
pub mod Counts
use payment_microservice.Prelude.{
  ℕ, ◌+◌, ◌*◌, String, Bool, true, false, ◌&&◌, Option, none, some, List, [], ◌∷◌, ◌++◌, map, ◌==◌,
  ltb, length, if◌then◌else◌, find_many, take,
}
use payment_microservice.Store.{
  Transaction, TransactionStatus, PaymentAttempt, is_open, Db, Outcome, ok, err, Action, pure, gets,
  modify, ◌>>=◌, ◌>>◌, Env,
}
use payment_microservice.Attempt.{expire_stale_pending_attempts}
use payment_microservice.Orchestrator.Verify.{VerifyPaymentDto, verify_payment}

pub record Report : Type 0 where
  pub checked : ℕ
  pub recovered : ℕ
  pub failed : ℕ

abbrev pub nothing_done : Report
nothing_done = record { checked = 0; recovered = 0; failed = 0 }

-- What the query reads and the rows do not keep: whether `updatedAt` lies more than 30 minutes
-- back, and the order in which the database returns rows without `orderBy`
pub record Query : Type 0 where
  pub is_stale : Transaction → Bool
  pub order : List Transaction → List Transaction

abbrev pub is_processing : TransactionStatus → Bool
is_processing TransactionStatus.processing = true
is_processing _ = false

abbrev pub is_candidate : Query → Transaction → Bool
is_candidate query t = is_processing t.status && query.is_stale t

unfoldable pub stale_transactions : Query → Db → List Transaction
stale_transactions query db =
    take 100 (query.order (find_many (is_candidate query) db.transactions))

abbrev pub is_open_of : String → PaymentAttempt → Bool
is_open_of transaction_id a = (a.transaction_id == transaction_id) && is_open a.status

-- The attempts that the query includes, with their transactions, in the order of the two loops
unfoldable pub included :
    List PaymentAttempt → List Transaction → List (Transaction × PaymentAttempt)
included attempts [] = []
included attempts (t ∷ rest) =
    map (λ a. (t, a)) (find_many (is_open_of t.id) attempts) ++ included attempts rest

abbrev pub verify_dto : Transaction → PaymentAttempt → VerifyPaymentDto
verify_dto t a = record {
  tenant_id = t.tenant_id;
  transaction_id = t.id;
  attempt_id = a.id;
  provider_payment_id = none;
  provider_signature = none;
  actor_id = "reconciliation-worker";
}

-- `recovered++` or `failed++`, the latter also where the call throws
abbrev pub count_result : Outcome Bool → Report → Report
count_result (ok true) acc = record acc { recovered = acc.recovered + 1 }
count_result (ok false) acc = record acc { failed = acc.failed + 1 }
count_result (err e) acc = record acc { failed = acc.failed + 1 }

unfoldable pub verify_all : Env → List (Transaction × PaymentAttempt) → Report → Action Report
verify_all env [] acc db = (ok acc, db)
verify_all env ((t, a) ∷ rest) acc db =
    let (r, db') = verify_payment env (verify_dto t a) db in
    verify_all env rest (count_result r acc) db'

-- the `try` block
abbrev pub reconcile_locked : Env → Query → Action Report
reconcile_locked env query = do
  stale ← gets (stale_transactions query)
  rows ← gets (λ db. included db.attempts stale)
  report ← verify_all env rows (record { checked = length stale; recovered = 0; failed = 0 })
  expire_stale_pending_attempts env
  pure report

abbrev pub is_locked : ℕ → Option ℕ → Bool
is_locked now none = false
is_locked now (some expires_at) = ltb now expires_at

abbrev pub set_lock : Option ℕ → Db → Db
set_lock lock db = record db { reconciliation_lock = lock }

-- `finally`
abbrev pub unlock : Outcome Report × Db → Outcome Report × Db
unlock (r, db) = (r, set_lock none db)

abbrev pub with_lock : ℕ → Action Report → Action Report
with_lock now m db = unlock (m (set_lock (some (now + 300 * 1000)) db))

unfoldable pub reconcile_stale_transactions : Env → Query → Action Report
unfolding stale_transactions included verify_all expire_stale_pending_attempts
reconcile_stale_transactions env query = do
  locked ← gets (λ db. is_locked env.now db.reconciliation_lock)
  if locked then pure nothing_done else with_lock env.now (reconcile_locked env query)
