-- ===== src/Attempt/Success.antt =====
-- At most one attempt of a transaction has succeeded: an invariant of every operation.
use payment_microservice.Prelude.{
  ap, subst, String, Bool, false, none, some, ◌==◌, ==_iff, find_first, count_where, update_where,
  ◌≡◌, refl, ◌≤◌, arith, Option-cases, Bool-cases, inl, inr, count_where-eq-zero,
  count_where-update_where, count_where-update_where_eq, count_where-update_where_le,
}
use payment_microservice.Store.{
  PaymentAttempt, AttemptStatus, is_success, ErrorCode, Db, conflict, err, Env,
}
use payment_microservice.Attempt.{
  CreateAttemptDto, has_id, succeeded, create, mark_success, mark_failed, mark_expired, with_status,
  with_failure, expire_stale_pending_attempts, is_stale,
}

pub record IsValid (db : Db) : Type 0 where
  -- the primary key
  pub ids : (id : String) → count_where (has_id id) db.attempts ≤ 1
  pub one_success :
      (transaction_id : String) → count_where (succeeded transaction_id) db.attempts ≤ 1

-- An id that no attempt has yet: what uuid() generates.
abbrev pub IsFresh : Env → Db → Type 0
IsFresh env db = find_first (has_id (env.uuid db.issued)) db.attempts ≡ none

-- A new attempt keeps the invariant, if its id is new.
pub create-IsValid :
    (env : Env) (dto : CreateAttemptDto) (db : Db)
    → IsFresh env db
    → IsValid db
    → IsValid (create env dto db).1
unfolding create count_where
create-IsValid env dto db fresh v = record {
  ids = λ id. elim (Bool-cases (env.uuid db.issued == id)) [
    | inl same ↦
        let none_yet =
          subst (λ i. count_where (has_id i) db.attempts ≡ 0) ((==_iff _ _).0 same)
            (count_where-eq-zero _ db.attempts fresh) in
        rw (same, none_yet) (omega arith)
    | inr different ↦ rw different (v.ids id)
  ];
  one_success = λ transaction_id. ground (arith, v.one_success transaction_id);
}

-- One write of SUCCESS to the row with an id, where its transaction has no other success.
success_row-one_success :
    (id transaction_id : String) (db : Db) {a : PaymentAttempt}
    → IsValid db
    → find_first (has_id id) db.attempts ≡ some a
    → find_first (succeeded a.transaction_id) db.attempts ≡ none
    → count_where
        (succeeded transaction_id)
        (update_where (has_id id) (with_status AttemptStatus.success) db.attempts)
      ≤ 1
success_row-one_success id transaction_id db {a} v found no_rival =
    let change =
      count_where-update_where (succeeded transaction_id) (has_id id)
        (with_status AttemptStatus.success) db.attempts found (v.ids id) in
    elim (Bool-cases (a.transaction_id == transaction_id)) [
      | inl same ↦
          let none_yet : count_where (succeeded transaction_id) db.attempts ≡ 0 =
            rw (← (==_iff _ _).0 same) (count_where-eq-zero _ db.attempts no_rival) in
          ground arith
      | inr different ↦ ground (arith, v.one_success transaction_id)
    ]

-- Marking an attempt as successful keeps the invariant, whether it writes, replays or is refused.
pub mark_success-IsValid : (id : String) (db : Db) → IsValid db → IsValid (mark_success id db).1
unfolding mark_success
mark_success-IsValid id db v = record {
  ids = λ other. ground (
    arith,
    v.ids other,
    count_where-update_where_eq (has_id other) (has_id id) (with_status AttemptStatus.success)
        db.attempts (λ t. refl),
  );
  one_success = λ transaction_id.
      grind (arith, v.one_success transaction_id, success_row-one_success id transaction_id db v);
}

-- An update that makes no attempt successful and keeps ids keeps the invariant.
update-IsValid :
    (q : PaymentAttempt → Bool) (f : PaymentAttempt → PaymentAttempt) (db : Db)
    → ((a : PaymentAttempt) → (f a).id ≡ a.id)
    → ((a : PaymentAttempt) → is_success (f a).status ≡ false)
    → IsValid db
    → IsValid (record db { attempts = update_where q f db.attempts })
update-IsValid q f db same_id fails v = record {
  ids = λ other.
      rw
        (count_where-update_where_eq (has_id other) q f db.attempts
          (λ a. ap (λ i. i == other) (same_id a)))
        (v.ids other);
  one_success = λ transaction_id. omega (
    arith,
    v.one_success transaction_id,
    count_where-update_where_le (succeeded transaction_id) q f db.attempts
        (λ a h. ground (arith, fails a)),
  );
}

-- Marking as failed keeps the invariant.
pub mark_failed-IsValid :
    (id reason : String) (db : Db) → IsValid db → IsValid (mark_failed id reason db).1
unfolding mark_failed
mark_failed-IsValid id reason db v = elim (Option-cases (find_first (has_id id) db.attempts)) [
  | inl absent ↦ rw absent v
  | inr (a, found) ↦
      rw found (update-IsValid (has_id id) (with_failure reason) db (λ a. refl) (λ a. refl) v)
]

-- Marking as expired keeps the invariant.
pub mark_expired-IsValid : (id : String) (db : Db) → IsValid db → IsValid (mark_expired id db).1
unfolding mark_expired
mark_expired-IsValid id db v = elim (Option-cases (find_first (has_id id) db.attempts)) [
  | inl absent ↦ rw absent v
  | inr (a, found) ↦
      rw found (
        update-IsValid (has_id id) (with_status AttemptStatus.expired) db (λ a. refl) (λ a. refl) v)
]

-- Expiring stale attempts keeps the invariant.
pub expire-IsValid :
    (env : Env) (db : Db) → IsValid db → IsValid (expire_stale_pending_attempts env db).1
unfolding expire_stale_pending_attempts
expire-IsValid env db v =
    update-IsValid (is_stale env.now) (with_status AttemptStatus.expired) db (λ a. refl) (λ a. refl)
      v

-- A second attempt of a transaction cannot be marked successful: while another one is, the call is
-- refused as a conflict and writes nothing.
pub mark_success_conflict :
    (id : String) (db : Db) {a b : PaymentAttempt}
    → find_first (has_id id) db.attempts ≡ some a
    → is_success a.status ≡ false
    → find_first (succeeded a.transaction_id) db.attempts ≡ some b
    → mark_success id db ≡ (err (conflict ErrorCode.payment_already_succeeded), db)
unfolding mark_success
mark_success_conflict id db found open_yet rival = rw (found, open_yet, rival)
