-- ===== src/Backfill/Again.antt =====
-- A second run of the script has nothing left to do.
use payment_microservice.Prelude.{
  ℕ, String, true, false, some, List, [], ◌∷◌, ◌++◌, contains, Bool-cases, find_first, ◌≡◌, refl,
  All, inl, inr, subst, ap,
}
use payment_microservice.Store.{Transaction, Subscription, Db, Env}
use payment_microservice.Backfill.{
  Script, Users, candidate_transactions, email_of, email_to_user, text_of, add_user,
  build_fingerprint, payload_fingerprint, source_transaction_ids, source_id, with_id, at_start,
  plan_run, create_all, run,
}
use payment_microservice.Backfill.Settled.{
  Within, IsSettled, consider_all-IsLoop, consider_all-settled,
}
use payment_microservice.Backfill.Created.{
  consider_all-IsCovered, create_all-fingerprints, create_all-sources, create_all-transactions,
  create_all-plans,
}
use mathlib.Core.List.{map}

abbrev at_later : Env → ℕ → Env
at_later env later = record env { now = later }

email_to_user-later :
    (env : Env) (script : Script) (later : ℕ) (ts : List Transaction) (users : Users)
    → email_to_user (at_later env later) script ts users ≡ email_to_user env script ts users
unfolding email_to_user
email_to_user-later env script later [] users = refl
email_to_user-later env script later (t ∷ ts) users =
    email_to_user-later env script later ts (add_user script (email_of env t) users)

source_transaction_ids-later :
    (env : Env) (later : ℕ) (subs : List Subscription)
    → source_transaction_ids (at_later env later) subs ≡ source_transaction_ids env subs
unfolding source_transaction_ids
source_transaction_ids-later env later [] = refl
source_transaction_ids-later env later (s ∷ subs) =
    ap (λ rest. source_id env s ++ rest) (source_transaction_ids-later env later subs)

not_contains :
    (x : String) (xs ys : List String)
    → Within xs ys
    → contains x ys ≡ false
    → contains x xs ≡ false
not_contains x xs ys within absent = elim (Bool-cases (contains x xs)) [
  | inl there ↦ cc (within x there)
  | inr not_there ↦ not_there
]

-- What is settled in one run is settled in another, at any time, that knows at least as much.
All-IsSettled :
    (env : Env) (script : Script) (later : ℕ) (db db' : Db) (users : Users)
    (sources sources' fps fps' : List String) (ts : List Transaction)
    → db'.plans ≡ db.plans
    → Within sources sources'
    → Within fps fps'
    → All (IsSettled env script db users sources fps) ts
    → All (IsSettled (at_later env later) script db' users sources' fps') ts
All-IsSettled env script later db db' users sources sources' fps fps' [] plans more known v = tt
All-IsSettled env script later db db' users sources sources' fps fps' (t ∷ ts) plans more known
      (settled, v) =
    (
      λ u plan user new found.
          unfold payload_fingerprint in
          known _ (
            settled u plan user (not_contains t.id sources sources' more new)
              (subst (λ ps. find_first (with_id (text_of "planId" t)) ps ≡ some plan) plans found)),
      All-IsSettled env script later db db' users sources sources' fps fps' ts plans more known v,
    )

module _ (env : Env) (script : Script) (db : Db) where
  abbrev done : Db
  done = create_all env (plan_run env script db).prepared db

  -- what a run starts with
  abbrev users_of : Db → Users
  users_of before = email_to_user env script (candidate_transactions before) []

  plan_run-fingerprints :
      Within
        (plan_run env script db).fingerprints
        (map (build_fingerprint script) done.subscriptions)
  unfolding plan_run
  plan_run-fingerprints x h =
      create_all-fingerprints env script (plan_run env script db).prepared db x (
        consider_all-IsCovered env script db (users_of db)
          (source_transaction_ids env db.subscriptions)
          (map (build_fingerprint script) db.subscriptions) (candidate_transactions db)
          (at_start script db) (λ y before. before) x h)

  plan_run-IsSettled :
      All
        (IsSettled env script db
          (users_of db)
          (source_transaction_ids env db.subscriptions)
          (plan_run env script db).fingerprints)
        (candidate_transactions db)
  unfolding plan_run find_first
  plan_run-IsSettled =
      (consider_all-IsLoop env script db (users_of db) (source_transaction_ids env db.subscriptions)
        (candidate_transactions db) (at_start script db) (λ id. refl)).1

  candidates_lem : candidate_transactions done ≡ candidate_transactions db
  unfolding candidate_transactions
  candidates_lem = rw (create_all-transactions env (plan_run env script db).prepared db) refl

  plan_run-done : (later : ℕ) → (plan_run (at_later env later) script done).prepared ≡ []
  unfolding plan_run find_first
  plan_run-done later =
      rw
        (
          candidates_lem,
          email_to_user-later env script later (candidate_transactions db) [],
          source_transaction_ids-later env later done.subscriptions,
        )
        (consider_all-settled (at_later env later) script done (users_of db)
          (source_transaction_ids env done.subscriptions) (candidate_transactions db)
          (at_start script done) (λ id. refl)
          (All-IsSettled env script later db done (users_of db)
            (source_transaction_ids env db.subscriptions)
            (source_transaction_ids env done.subscriptions) (plan_run env script db).fingerprints
            (map (build_fingerprint script) done.subscriptions) (candidate_transactions db)
            (create_all-plans env (plan_run env script db).prepared db)
            (create_all-sources env (plan_run env script db).prepared db) plan_run-fingerprints
            plan_run-IsSettled))

-- The script can be run again: after a run with `--apply`, a second one, at any later or earlier time
-- and with the same users in the identity service, prepares nothing and writes nothing. A run without
-- `--apply` prepares what the run with it does, and writes nothing.
pub run-run :
    (env : Env) (script : Script) (db : Db) (later : ℕ)
    → let first = run env script true db in
      let second = run (record env { now = later }) script true first.1 in
      (second.0.prepared ≡ [])
      × (second.1 ≡ first.1)
      × ((run env script false db).0 ≡ first.0)
      × ((run env script false db).1 ≡ db)
unfolding run create_all
run-run env script db later =
    (plan_run-done env script db later, rw (plan_run-done env script db later) refl, refl, refl)
