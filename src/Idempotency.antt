-- ===== src/Idempotency.antt =====
-- `IdempotencyService` (src/modules/security/services/idempotency.service.ts): the Redis keys
-- `idem:<hash>`, each with its expiry. The values are the results of `initiatePayment`, which
-- `JSON.parse` reads back as `JSON.stringify` wrote them.
pub mod Map
use payment_microservice.Prelude.{
  ℕ, ◌+◌, ◌*◌, String, Bool, not, ◌&&◌, Option, ◌∷◌, ◌==◌, ltb, is_some, truthy, none, some, [],
  if◌then◌else◌, find_first, find_many,
}
use payment_microservice.Store.{
  InitiatePaymentResult, CacheEntry, ErrorCode, conflict, throw_if, Db, Action, pure, gets, modify,
  ◌>>=◌, ◌>>◌, Env,
}
use mathlib.Core.Option

-- a key that is set and has not expired
abbrev pub is_live : ℕ → String → CacheEntry → Bool
is_live now hashed e = (e.key == hashed) && ltb now e.expires_at

unfoldable pub get : Env → String → Db → Option InitiatePaymentResult
get env key db = Option.map (λ e. e.value) (find_first (is_live env.now (env.hash key)) db.cache)

abbrev pub delete_key : String → Db → Db
delete_key hashed db = record db { cache = find_many (λ e. not (e.key == hashed)) db.cache }

-- `SET key value EX ttl`
abbrev pub set_key : Env → String → InitiatePaymentResult → Db → Db
set_key env hashed value db = record db {
  cache =
      record {
        key = hashed;
        value = value;
        expires_at = env.now + env.idempotency_ttl_seconds * 1000;
      }
      ∷ (delete_key hashed db).cache;
}

unfoldable pub store : Env → String → InitiatePaymentResult → Action (Unit {0})
store env key value = modify (set_key env (env.hash key) value)

-- `SET key value EX ttl NX`
unfoldable pub try_acquire : Env → String → InitiatePaymentResult → Action Bool
try_acquire env key value = do
  taken ← gets (λ db. is_some (find_first (is_live env.now (env.hash key)) db.cache))
  modify (λ db. if taken then db else set_key env (env.hash key) value db)
  pure (not taken)

unfoldable pub release : Env → String → Action (Unit {0})
release env key = modify (delete_key (env.hash key))

-- `if (transactionId)`
abbrev pub store_id : Env → String → Option String → Action (Unit {0})
store_id env key none = pure tt
store_id env key (some id) =
    if truthy id then store env key (record { transaction_id = id; options = [] }) else pure tt

-- `assertUnique`: nothing calls it. What it stores is not the result of a payment but the id of a
-- transaction, here as a result without options.
unfoldable pub assert_unique : Env → String → Option String → Action (Unit {0})
unfolding get store
assert_unique env key transaction_id = do
  existing ← gets (get env key)
  throw_if (is_some existing) (conflict ErrorCode.idempotency_conflict)
  store_id env key transaction_id
