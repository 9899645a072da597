-- ===== src/History/OneSuccess.antt =====
-- In every history, at most one attempt of a transaction succeeds.
use payment_microservice.Prelude.{
  length, ℕ, String, Option, List, [], ◌∷◌, ◌≡◌, refl, sym, ◌∙◌, ◌≤◌, arith, count_where, ◌*◌, ◌+◌,
  some,
}
use payment_microservice.Store.{Db, Env, Action}
use payment_microservice.Store.Keeps.{
  Keeps, keeps_rules, Keeps-bind, Keeps-gets, Keeps-if, Keeps-pure, Keeps-then,
}
use payment_microservice.Attempt.{succeeded}
use payment_microservice.Attempt.Sound.{
  IsSound, IsInjective, mark_expired-IsSound, expire-IsSound, modify-IsSound,
}
use payment_microservice.Orchestrator.Verify.{verify_payment}
use payment_microservice.Orchestrator.Sound.{verify_payment-IsSound, initiate_payment-IsSound}
use payment_microservice.Webhook.Sound.{
  handle_stripe_webhook-IsSound, handle_razorpay_webhook-IsSound,
}
use payment_microservice.Reconciliation.{
  Query, Report, reconcile_stale_transactions, reconcile_locked, verify_all, stale_transactions,
  included, verify_dto, count_result, set_lock, is_locked, with_lock, nothing_done,
}
use payment_microservice.Jobs.{PaymentJobData, process}
use payment_microservice.Store.{Transaction, PaymentAttempt}
use payment_microservice.History.{Call, run, Reach, none_yet, then_call}

module _ (env : Env) where
  verify_all-IsSound :
      (rows : List (Transaction × PaymentAttempt)) (acc : Report)
      → Keeps (IsSound env) (verify_all env rows acc)
  unfolding verify_all
  verify_all-IsSound [] acc = record { at = λ db v. v }
  verify_all-IsSound ((t, a) ∷ rest) acc = record {
    at = λ db v.
        (verify_all-IsSound rest (count_result (verify_payment env (verify_dto t a) db).0 acc)).at
          (verify_payment env (verify_dto t a) db).1
          ((verify_payment-IsSound env (verify_dto t a)).at db v);
  }

  reconcile_locked-IsSound : (query : Query) → Keeps (IsSound env) (reconcile_locked env query)
  reconcile_locked-IsSound query = Keeps-bind _ _ (Keeps-gets (stale_transactions query)) (λ stale.
      Keeps-bind _ _ (Keeps-gets (λ db. included db.attempts stale)) (λ rows.
        Keeps-bind _ _
          (verify_all-IsSound rows (record { checked = length stale; recovered = 0; failed = 0 }))
          (λ report. Keeps-then _ _ (expire-IsSound env) (Keeps-pure report))))

  set_lock-IsSound : (lock : Option ℕ) (db : Db) → IsSound env db → IsSound env (set_lock lock db)
  set_lock-IsSound lock = (modify-IsSound env (set_lock lock) (λ db. refl) (λ db. omega arith)).at

  with_lock-IsSound :
      (m : Action Report) → Keeps (IsSound env) m → Keeps (IsSound env) (with_lock env.now m)
  with_lock-IsSound m kept = record {
    at = λ db v.
        set_lock-IsSound _ _ (kept.at _ (set_lock-IsSound (some (env.now + 300 * 1000)) db v));
  }

  reconcile-IsSound : (query : Query) → Keeps (IsSound env) (reconcile_stale_transactions env query)
  unfolding reconcile_stale_transactions
  reconcile-IsSound query =
      Keeps-bind _ _ (Keeps-gets (λ db. is_locked env.now db.reconciliation_lock)) (λ locked.
        Keeps-if locked _ _ (Keeps-pure nothing_done)
          (with_lock-IsSound _ (reconcile_locked-IsSound query)))

  process-IsSound :
      (name : String) (data_of : PaymentJobData) → Keeps (IsSound env) (process env name data_of)
  unfolding process
  process-IsSound name data_of =
      search (keeps_rules, verify_payment-IsSound env, mark_expired-IsSound env) depth 8

  run-IsSound :
      IsInjective env → (call : Call) (db : Db) → IsSound env db → IsSound env (run env call db)
  unfolding run
  run-IsSound injective (Call.initiate dto) = (initiate_payment-IsSound env injective dto).at
  run-IsSound injective (Call.verify dto) = (verify_payment-IsSound env dto).at
  run-IsSound injective (Call.stripe_webhook is_valid id type signature object) =
      (handle_stripe_webhook-IsSound env is_valid id type signature object).at
  run-IsSound injective (Call.razorpay_webhook is_valid id signature body) =
      (handle_razorpay_webhook-IsSound env is_valid id signature body).at
  run-IsSound injective (Call.job name data_of) = (process-IsSound name data_of).at
  run-IsSound injective (Call.reconcile query) = (reconcile-IsSound query).at

-- The invariant depends on the generator of ids alone.
same_uuid : {env later : Env} {db : Db} → env.uuid ≡ later.uuid → IsSound env db → IsSound later db
same_uuid {db = db} same v = record {
  valid = v.valid;
  fresh = λ n issued. rw⁻¹ same (v.fresh n issued);
}

empty-IsSound : (env : Env) (db : Db) → db.attempts ≡ [] → IsSound env db
unfolding count_where
empty-IsSound env db empty = record {
  valid = record { ids = λ id. rw empty (omega arith); one_success = λ t. rw empty (omega arith) };
  fresh = λ n later. rw empty refl;
}

Reach-IsSound :
    {base : Env} {start db : Db}
    → IsInjective base
    → start.attempts ≡ []
    → Reach base start db
    → (later : Env) → later.uuid ≡ base.uuid
    → IsSound later db
Reach-IsSound injective empty none_yet later same = empty-IsSound later _ empty
Reach-IsSound injective empty (then_call history env with_uuid call) later same =
    same_uuid (with_uuid ∙ sym same) (
      run-IsSound env (rw with_uuid injective) call _
        (Reach-IsSound injective empty history env with_uuid))

-- Whatever calls have been made, at whatever times, with whatever answers of the providers, and
-- however each of them ended: starting from a database without attempts, no transaction ever has
-- two successful attempts. Ids must not be generated twice.
pub Reach-one_success :
    {base : Env} {start db : Db}
    → IsInjective base
    → start.attempts ≡ []
    → Reach base start db
    → (transaction_id : String) → count_where (succeeded transaction_id) db.attempts ≤ 1
Reach-one_success {base = base} injective empty history transaction_id =
    (Reach-IsSound injective empty history base refl).valid.one_success transaction_id
