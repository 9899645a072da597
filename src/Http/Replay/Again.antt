-- ===== src/Http/Replay/Again.antt =====
-- What a second request with a key gets.
use payment_microservice.Prelude.{
  ℕ, ◌+◌, ◌*◌, ◌<◌, String, true, none, some, List, [], ◌∷◌, ◌==◌, ==_refl, truthy, ltb, is_some,
  find_first, find_many, not, Bool-cases, inl, inr, ◌≡◌, ◌∙◌, refl, arith,
}
use payment_microservice.Http.Replay.{
  Reply, Redis, Call, Decision, decided, Lock, is_guarded, look_up, set_lock, finish, is_live_lock,
  locked,
}

ltb-true : (a b : ℕ) → a < b → ltb a b ≡ true
ltb-true a b h = ground arith

-- What a request left that has got the lock
set_lock-run :
    {B : Type 0} (conflict : B) (now : ℕ) (hashed : String) (redis running : Redis B)
    → set_lock conflict now hashed redis ≡ (Decision.run hashed, running)
    → running ≡ locked now hashed redis
unfolding set_lock
set_lock-run conflict now hashed redis running ran =
    elim (Bool-cases (is_some (find_first (is_live_lock now hashed) redis.locks))) [
      | inl taken ↦ ground arith
      | inr free ↦ ground arith
    ]

-- The first lock of the hash, while it is live, is the one that the test finds.
live_lock :
    (again : ℕ) (hashed : String) (ls : List Lock) {l : Lock}
    → find_first (λ (k : Lock). k.key == hashed) ls ≡ some l
    → ltb again l.expires_at ≡ true
    → is_some (find_first (is_live_lock again hashed) ls) ≡ true
unfolding find_first
live_lock again hashed [] found live = cc
live_lock again hashed (k ∷ ls) {l} found live = elim (Bool-cases (k.key == hashed)) [
  | inl here ↦ ground arith
  | inr there ↦ ground (arith, live_lock again hashed ls {l = l})
]

-- A hash that has been unlocked has no live lock.
no_lock :
    (again : ℕ) (hashed : String) (ls : List Lock)
    → find_first (is_live_lock again hashed) (find_many (λ (l : Lock). not (l.key == hashed)) ls)
      ≡ none
unfolding find_first find_many
no_lock again hashed [] = refl
no_lock again hashed (k ∷ ls) = ground (arith, no_lock again hashed ls)

module _ {B : Type 0} (conflict : B) (hash : String → String) where
  refused_lem :
      (now again : ℕ) (hashed : String) (redis running between : Redis B)
      → set_lock conflict now hashed redis ≡ (Decision.run hashed, running)
      → find_first (λ (l : Lock). l.key == hashed) between.locks
        ≡ find_first (λ (l : Lock). l.key == hashed) running.locks
      → again < now + 30 * 1000
      → set_lock conflict again hashed between
        ≡ (Decision.replay (Reply.http_error 409 conflict), between)
  unfolding set_lock find_first
  refused_lem now again hashed redis running between ran same soon =
      let lock : Lock = record { key = hashed; expires_at = now + 30 * 1000 } in
      let first : find_first (λ (l : Lock). l.key == hashed) running.locks ≡ some lock =
        rw (set_lock-run conflict now hashed redis running ran, ==_refl hashed) refl in
      let taken : is_some (find_first (is_live_lock again hashed) between.locks) ≡ true =
        live_lock again hashed between.locks {l = lock} (same ∙ first)
          (ltb-true again (now + 30 * 1000) soon) in
      rw taken refl

  replayed_lem :
      (ttl done later : ℕ) (second : Call) (key hashed : String) (content : B) (current : Redis B)
      → is_guarded second.method ≡ true
      → second.idempotency_key ≡ some key
      → truthy key ≡ true
      → hash key ≡ hashed
      → later < done + ttl * 1000
      → look_up hash later second (finish ttl done hashed (Reply.body content) current)
        ≡ decided (Decision.replay (Reply.body content))
  unfolding look_up finish find_first
  replayed_lem ttl done later second key hashed content current guarded sent real same lives =
      rw (guarded, sent, real, same, ==_refl hashed, ltb-true later (done + ttl * 1000) lives) refl

  runs_again_lem :
      (ttl done later : ℕ) (hashed : String) (content : B) (current : Redis B)
      → (set_lock conflict later hashed (finish ttl done hashed (Reply.body content) current)).0
        ≡ Decision.run hashed
  unfolding set_lock finish
  runs_again_lem ttl done later hashed content current =
      rw (no_lock later hashed current.locks) refl

-- What the lock of a key and the answer kept under it exclude, and what they do not. Once a request
-- has got the lock, no request of the same hash gets it for 30 seconds, whatever other steps come
-- between, as long as the hash's first lock is still the one of that request: it is refused as a
-- conflict, and writes nothing. Once the request has answered with a body, a guarded request with a
-- key of the same hash whose look-up comes before the time to live is over is answered with that
-- body, whatever its path and user are. But the look-up and the lock are two steps: a request that
-- has looked up before the answer and tries the lock after it gets it, and its handler runs again.
pub set_lock-finish :
    {B : Type 0} (conflict content : B) (hash : String → String) (ttl now again done later : ℕ)
    (second : Call) (key hashed : String) (redis running between current : Redis B)
    → set_lock conflict now hashed redis ≡ (Decision.run hashed, running)
    → find_first (λ (l : Lock). l.key == hashed) between.locks
      ≡ find_first (λ (l : Lock). l.key == hashed) running.locks
    → again < now + 30 * 1000
    → is_guarded second.method ≡ true
    → second.idempotency_key ≡ some key
    → truthy key ≡ true
    → hash key ≡ hashed
    → later < done + ttl * 1000
    → (set_lock conflict again hashed between
        ≡ (Decision.replay (Reply.http_error 409 conflict), between))
      × (look_up hash later second (finish ttl done hashed (Reply.body content) current)
          ≡ decided (Decision.replay (Reply.body content)))
      × ((set_lock conflict later hashed (finish ttl done hashed (Reply.body content) current)).0
          ≡ Decision.run hashed)
set_lock-finish conflict content hash ttl now again done later second key hashed redis running
      between current ran same soon guarded sent real same_hash lives =
    (
      refused_lem conflict hash now again hashed redis running between ran same soon,
      replayed_lem conflict hash ttl done later second key hashed content current guarded sent real
          same_hash lives,
      runs_again_lem conflict hash ttl done later hashed content current,
    )
