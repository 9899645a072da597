-- ===== src/Reconciliation/Counts.antt =====
-- What a run of the reconciliation reports, and that it keeps the invariant of the attempts.
use payment_microservice.Prelude.{
  ℕ, zero, suc, ◌+◌, ◌≤◌, Bool, true, false, List, [], ◌∷◌, ◌≡◌, refl, arith, length, take, none,
  some, if◌then◌else◌, ◌∙◌, sym, subst, Bool-cases, inl, inr, ◌*◌,
}
use payment_microservice.Store.{Db, Outcome, ok, err, Env, Transaction, PaymentAttempt}
use payment_microservice.Store.Keeps.{bind_lem}
use payment_microservice.Attempt.{expire_stale_pending_attempts}
use payment_microservice.Orchestrator.Verify.{verify_payment}
use payment_microservice.Reconciliation.{
  Report, Query, nothing_done, stale_transactions, included, verify_dto, count_result, verify_all,
  reconcile_locked, is_locked, set_lock, reconcile_stale_transactions,
}

length-take : {A : Type 0} (n : ℕ) (xs : List A) → length (take n xs) ≤ n
length-take zero xs = omega arith
length-take (suc n) [] = omega arith
length-take (suc n) (x ∷ xs) = omega (arith, length-take n xs)

count_result_lem :
    (r : Outcome Bool) (acc : Report)
    → ((count_result r acc).checked ≡ acc.checked)
      × ((count_result r acc).recovered + (count_result r acc).failed
          ≡ acc.recovered + acc.failed + 1)
count_result_lem (ok true) acc = (refl, omega arith)
count_result_lem (ok false) acc = (refl, omega arith)
count_result_lem (err e) acc = (refl, omega arith)

-- The loop returns, with one count for each attempt.
verify_all-counts :
    (env : Env) (rows : List (Transaction × PaymentAttempt)) (acc : Report) (db : Db)
    → (report : Report) × ((verify_all env rows acc db).0 ≡ ok report)
      × (report.checked ≡ acc.checked)
      × (report.recovered + report.failed ≡ acc.recovered + acc.failed + length rows)
unfolding verify_all
verify_all-counts env [] acc db = (acc, refl, refl, omega arith)
verify_all-counts env ((t, a) ∷ rest) acc db =
    let after = verify_payment env (verify_dto t a) db in
    let (report, done, checked, total) =
      verify_all-counts env rest (count_result after.0 acc) after.1 in
    let (same, one_more) = count_result_lem after.0 acc in
    (report, done, checked ∙ same, omega arith)

-- the report of a run that has the lock
abbrev pub HasCounts : List Transaction → List PaymentAttempt → Outcome Report → Type 0
HasCounts stale attempts r =
    (report : Report) × (r ≡ ok report)
    × (report.checked ≡ length stale)
    × (report.checked ≤ 100)
    × (report.recovered + report.failed ≡ length (included attempts stale))

stale_transactions_le : (query : Query) (db : Db) → length (stale_transactions query db) ≤ 100
unfolding stale_transactions
stale_transactions_le query db = length-take 100 _

ok-injective : {a b : Report} → ok a ≡ ok b → a ≡ b
ok-injective h = cc

reconcile_locked-HasCounts :
    (env : Env) (query : Query) (db : Db)
    → HasCounts (stale_transactions query db) db.attempts (reconcile_locked env query db).0
unfolding expire_stale_pending_attempts
reconcile_locked-HasCounts env query db =
    let stale = stale_transactions query db in
    let rows = included db.attempts stale in
    let acc : Report = record { checked = length stale; recovered = 0; failed = 0 } in
    let (report, done, checked, total) = verify_all-counts env rows acc db in
    bind_lem (λ r. HasCounts stale db.attempts r.0) _ (verify_all env rows acc) db (λ e thrown. cc)
      (λ report' returned.
        let same : report' ≡ report = ok-injective (sym returned ∙ done) in
        subst (λ r. HasCounts stale db.attempts (ok r)) (sym same)
          (report, refl, checked, rw checked (stale_transactions_le query db), omega arith))

-- A run always returns a report, whatever the providers answer and whichever verifications throw.
-- Where another run holds the lock, it reports nothing and changes nothing; otherwise it reports how
-- many of the stale transactions it read, which is 100 at most, counts each of their open attempts
-- once, as recovered or as failed, and leaves the lock free.
pub reconcile_stale_transactions-counts :
    (env : Env) (query : Query) (db : Db)
    → let (r, after) = reconcile_stale_transactions env query db in
      if is_locked env.now db.reconciliation_lock
      then (r ≡ ok nothing_done) × (after ≡ db)
      else ((after.reconciliation_lock ≡ none)
          × HasCounts (stale_transactions query db) db.attempts r)
unfolding reconcile_stale_transactions
reconcile_stale_transactions-counts env query db =
    elim (Bool-cases (is_locked env.now db.reconciliation_lock)) [
      | inl locked ↦ rw locked (refl, refl)
      | inr free ↦
          rw free
            (refl, reconcile_locked-HasCounts env query (set_lock (some (env.now + 300 * 1000)) db))
    ]
