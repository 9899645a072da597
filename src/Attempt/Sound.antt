-- ===== src/Attempt/Sound.antt =====
-- The invariant of the attempts with the ids that the database will still generate, and how the
-- operations on attempts keep it.
use payment_microservice.Prelude.{
  ℕ, ◌≤◌, String, Bool, true, ◌==◌, ==_iff, count_where, update_where, ◌≡◌, refl, arith, ap,
  Bool-cases, inl, inr, find_first-eq-none, count_where-update_where_eq,
  count_where-update_where_le,
}
use payment_microservice.Store.{PaymentAttempt, AttemptStatus, is_success, Db, Env, modify}
use payment_microservice.Store.Keeps.{Keeps, keeps_rules}
use payment_microservice.Attempt.{
  CreateAttemptDto, has_id, succeeded, create, mark_success, mark_failed, mark_expired,
  expire_stale_pending_attempts, update_attempt, with_status, with_failure, is_stale,
}
use payment_microservice.Attempt.Success.{IsValid, create-IsValid, mark_success-IsValid}

-- Ids are not generated twice.
abbrev pub IsInjective : Env → Type 0
IsInjective env = (m n : ℕ) → env.uuid m ≡ env.uuid n → m ≡ n

-- `IsValid`, and no attempt has an id that is still to be generated.
pub record IsSound (env : Env) (db : Db) : Type 0 where
  pub valid : IsValid db
  pub fresh : (n : ℕ) → db.issued ≤ n → count_where (has_id (env.uuid n)) db.attempts ≡ 0

module _ (env : Env) where
  -- a write that leaves the attempts alone
  pub modify-IsSound :
      (f : Db → Db)
      → ((db : Db) → (f db).attempts ≡ db.attempts)
      → ((db : Db) → db.issued ≤ (f db).issued)
      → Keeps (IsSound env) (modify f)
  modify-IsSound f same grows = record {
    at = λ db v. record {
      valid = record {
        ids = λ id. rw (same db) (v.valid.ids id);
        one_success = λ t. rw (same db) (v.valid.one_success t);
      };
      fresh = λ n later. rw (same db) (v.fresh n (omega (arith, grows db)));
    };
  }

  -- a write to attempts that keeps ids and brings in no success
  pub update-IsSound :
      (q : PaymentAttempt → Bool) (f : PaymentAttempt → PaymentAttempt)
      → ((a : PaymentAttempt) → (f a).id ≡ a.id)
      → ((a : PaymentAttempt) → (f a).transaction_id ≡ a.transaction_id)
      → ((a : PaymentAttempt) → is_success (f a).status ≡ true → is_success a.status ≡ true)
      → Keeps (IsSound env) (modify (λ db. record db { attempts = update_where q f db.attempts }))
  update-IsSound q f same_id same_transaction fails = record {
    at = λ db v. record {
      valid = record {
        ids = λ id.
            rw
              (count_where-update_where_eq (has_id id) q f db.attempts
                (λ a. ap (λ i. i == id) (same_id a)))
              (v.valid.ids id);
        one_success = λ t. omega (
          arith,
          v.valid.one_success t,
          count_where-update_where_le (succeeded t) q f db.attempts
              (λ a h. ground (arith, fails a, same_transaction a)),
        );
      };
      fresh = λ n later.
          rw
            (count_where-update_where_eq (has_id (env.uuid n)) q f db.attempts
              (λ a. ap (λ i. i == env.uuid n) (same_id a)))
            (v.fresh n later);
    };
  }

  pub update_attempt-IsSound :
      (id : String) (f : PaymentAttempt → PaymentAttempt)
      → ((a : PaymentAttempt) → (f a).id ≡ a.id)
      → ((a : PaymentAttempt) → (f a).transaction_id ≡ a.transaction_id)
      → ((a : PaymentAttempt) → is_success (f a).status ≡ true → is_success a.status ≡ true)
      → Keeps (IsSound env) (modify (update_attempt id f))
  update_attempt-IsSound id f = update-IsSound (has_id id) f

  pub create-IsSound :
      IsInjective env → (dto : CreateAttemptDto) → Keeps (IsSound env) (create env dto)
  unfolding create count_where
  create-IsSound injective dto = record {
    at = λ db v. record {
      valid =
          create-IsValid env dto db
            (find_first-eq-none _ db.attempts (v.fresh db.issued (omega arith))) v.valid;
      fresh = λ n later. elim (Bool-cases (env.uuid db.issued == env.uuid n)) [
        | inl same ↦ omega (arith, injective db.issued n ((==_iff _ _).0 same))
        | inr other ↦ rw other (v.fresh n (omega arith))
      ];
    };
  }

  mark_success-fresh :
      (id : String) (db : Db)
      → IsSound env db
      → (n : ℕ) → (mark_success id db).1.issued ≤ n
      → count_where (has_id (env.uuid n)) (mark_success id db).1.attempts ≡ 0
  unfolding mark_success
  mark_success-fresh id db v n = ground (
    arith,
    v.fresh n,
    count_where-update_where_eq (has_id (env.uuid n)) (has_id id)
        (with_status AttemptStatus.success) db.attempts (λ a. refl),
  )

  pub mark_success-IsSound : (id : String) → Keeps (IsSound env) (mark_success id)
  mark_success-IsSound id = record {
    at = λ db v. record {
      valid = mark_success-IsValid id db v.valid;
      fresh = mark_success-fresh id db v;
    };
  }

  failure-IsSound :
      (id reason : String) → Keeps (IsSound env) (modify (update_attempt id (with_failure reason)))
  failure-IsSound id reason =
      update_attempt-IsSound id (with_failure reason) (λ a. refl) (λ a. refl) (λ a h. cc)

  expiry-IsSound :
      (id : String)
      → Keeps (IsSound env) (modify (update_attempt id (with_status AttemptStatus.expired)))
  expiry-IsSound id =
      update_attempt-IsSound id (with_status AttemptStatus.expired) (λ a. refl) (λ a. refl)
        (λ a h. cc)

  pub mark_failed-IsSound : (id reason : String) → Keeps (IsSound env) (mark_failed id reason)
  unfolding mark_failed
  mark_failed-IsSound id reason = search (keeps_rules, failure-IsSound)

  pub mark_expired-IsSound : (id : String) → Keeps (IsSound env) (mark_expired id)
  unfolding mark_expired
  mark_expired-IsSound id = search (keeps_rules, expiry-IsSound)

  pub expire-IsSound : Keeps (IsSound env) (expire_stale_pending_attempts env)
  unfolding expire_stale_pending_attempts
  expire-IsSound = search (
    keeps_rules,
    update-IsSound (is_stale env.now) (with_status AttemptStatus.expired) (λ a. refl) (λ a. refl)
        (λ a h. cc),
  )
