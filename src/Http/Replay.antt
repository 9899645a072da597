-- ===== src/Http/Replay.antt =====
-- `IdempotencyInterceptor` (src/common/interceptors/idempotency.interceptor.ts), which is registered
-- nowhere. A body is what `JSON.parse` reads back of it. `tap` does not wait for its callbacks: what
-- `finish` writes is there a moment after the answer.
pub mod Again
use payment_microservice.Prelude.{
  ℕ, ◌+◌, ◌*◌, String, Bool, true, false, not, ◌&&◌, ◌||◌, Option, none, some, List, [], ◌∷◌, ◌==◌,
  truthy, ltb, is_some, if◌then◌else◌, find_first, find_many, contains,
}

-- What a handler answers: a body, an `HttpException` with its status and response, or another error
pub data Reply (B : Type 0) : Type 0 where
  body : B → Reply B
  http_error : ℕ → B → Reply B
  failure : Reply B

-- `idempotency:<hash>`
pub record Cached (B : Type 0) : Type 0 where
  pub key : String
  pub is_error : Bool
  pub status_code : ℕ
  pub content : B
  pub expires_at : ℕ

-- `idempotency:lock:<hash>`
pub record Lock : Type 0 where
  pub key : String
  pub expires_at : ℕ

pub record Redis (B : Type 0) : Type 0 where
  pub responses : List (Cached B)
  pub locks : List Lock

pub record Call : Type 0 where
  pub method : String
  pub idempotency_key : Option String

-- What the interceptor decides before the handler
pub data Decision (B : Type 0) : Type 0 where
  pass : Decision B  -- the handler runs, and nothing is kept
  replay : Reply B → Decision B
  run : String → Decision B  -- the handler runs under the lock of the hash

abbrev pub is_guarded : String → Bool
is_guarded method = contains method ("POST" ∷ "PATCH" ∷ "PUT" ∷ [])

module _ {B : Type 0} where
  abbrev pub is_live_response : ℕ → String → Cached B → Bool
  is_live_response now hashed c = (c.key == hashed) && ltb now c.expires_at

  -- a cached response; an error is thrown again
  abbrev pub replayed : Cached B → Reply B
  replayed c = if c.is_error then Reply.http_error c.status_code c.content else Reply.body c.content

abbrev pub is_live_lock : ℕ → String → Lock → Bool
is_live_lock now hashed l = (l.key == hashed) && ltb now l.expires_at

abbrev pub locked : {B : Type 0} → ℕ → String → Redis B → Redis B
locked now hashed redis = record redis {
  locks =
      record { key = hashed; expires_at = now + 30 * 1000 }
      ∷ find_many (λ (l : Lock). not (l.key == hashed)) redis.locks;
}

-- What a request does after the look-up: it is answered or passed on, or it tries the lock of the hash
pub data Found (B : Type 0) : Type 0 where
  decided : Decision B → Found B
  try_lock : String → Found B

module _ {B : Type 0} where
  abbrev pub replay_or_lock : String → Option (Cached B) → Found B
  replay_or_lock hashed (some cached) = decided (Decision.replay (replayed cached))
  replay_or_lock hashed none = try_lock hashed

  abbrev pub with_key : (String → String) → ℕ → Redis B → Option String → Found B
  with_key hash now redis none = decided Decision.pass
  with_key hash now redis (some key) =
      if truthy key
      then replay_or_lock (hash key) (find_first (is_live_response now (hash key)) redis.responses)
      else decided Decision.pass

  -- up to the answer of `GET`
  unfoldable pub look_up : (String → String) → ℕ → Call → Redis B → Found B
  look_up hash now call redis =
      if is_guarded call.method
      then with_key hash now redis call.idempotency_key
      else decided Decision.pass

module _ {B : Type 0} (conflict : B) where
  abbrev pub acquire : ℕ → String → Redis B → Bool → Decision B × Redis B
  acquire now hashed redis true = (Decision.replay (Reply.http_error 409 conflict), redis)
  acquire now hashed redis false = (Decision.run hashed, locked now hashed redis)

  -- `SET lock 1 EX 30 NX`, a step of its own: other requests' steps may come between it and `look_up`
  unfoldable pub set_lock : ℕ → String → Redis B → Decision B × Redis B
  set_lock now hashed redis =
      acquire now hashed redis (is_some (find_first (is_live_lock now hashed) redis.locks))

module _ {B : Type 0} where
  -- `SET key value EX seconds`
  abbrev pub store : Cached B → Redis B → Redis B
  store cached redis = record redis {
    responses = cached ∷ find_many (λ (c : Cached B). not (c.key == cached.key)) redis.responses;
  }

  abbrev pub unlock : String → Redis B → Redis B
  unlock hashed redis = record redis {
    locks = find_many (λ (l : Lock). not (l.key == hashed)) redis.locks;
  }

  -- the callbacks of `tap`, at the end of the handler
  unfoldable pub finish : ℕ → ℕ → String → Reply B → Redis B → Redis B
  finish ttl_seconds now hashed (Reply.body content) redis = unlock hashed (
      store
        (record {
          key = hashed;
          is_error = false;
          status_code = 200;
          content = content;
          expires_at = now + ttl_seconds * 1000;
        })
        redis)
  finish ttl_seconds now hashed (Reply.http_error status content) redis = unlock hashed (
      if ltb status 500
      then store
          (record {
            key = hashed;
            is_error = true;
            status_code = status;
            content = content;
            expires_at = now + 300 * 1000;
          })
          redis
      else redis)
  finish ttl_seconds now hashed Reply.failure redis = unlock hashed redis
