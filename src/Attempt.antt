-- ===== src/Attempt.antt =====
-- `PaymentAttemptService` (src/modules/payment/attempt/payment-attempt.service.ts).
pub mod Success
pub mod Sound
use payment_microservice.Prelude.{
  ℕ, suc, String, Bool, false, ◌&&◌, Option, none, some, List, ◌∷◌, ℤ, ◌==◌, is_some, ltb,
  if◌then◌else◌, find_first, find_many, update_where, count_where,
}
use payment_microservice.Store.{
  PaymentAttempt, AttemptStatus, Provider, ErrorCode, Metadata, is_success, is_open, Db, conflict,
  not_found, Action, pure, gets, modify, or_throw, require, throw_if, ◌>>=◌, ◌>>◌, Env,
}

pub record CreateAttemptDto : Type 0 where
  pub transaction_id : String
  pub provider : Provider
  pub method : String
  pub provider_order_id : Option String
  pub client_secret : Option String
  pub amount : ℤ
  pub currency : String
  pub metadata : Option Metadata

abbrev pub new_attempt : Env → CreateAttemptDto → Db → PaymentAttempt
new_attempt env dto db = record {
  id = env.uuid db.issued;
  transaction_id = dto.transaction_id;
  provider = dto.provider;
  method = dto.method;
  provider_order_id = dto.provider_order_id;
  client_secret = dto.client_secret;
  status = AttemptStatus.pending;
  amount = dto.amount;
  currency = dto.currency;
  metadata = dto.metadata;
  failure_reason = none;
  expires_at = some (env.add_minutes env.now env.attempt_expiry_minutes);
}

abbrev add_attempt : Env → CreateAttemptDto → Db → Db
add_attempt env dto db = record db {
  issued = suc db.issued;
  attempts = new_attempt env dto db ∷ db.attempts;
}

unfoldable pub create : Env → CreateAttemptDto → Action PaymentAttempt
create env dto = do row ← gets (new_attempt env dto); modify (add_attempt env dto); pure row

abbrev pub has_id : String → PaymentAttempt → Bool
has_id id a = a.id == id

unfoldable pub find_by_id : String → Action PaymentAttempt
find_by_id id = do
  found ← gets (λ db. find_first (has_id id) db.attempts)
  or_throw found (not_found ErrorCode.payment_not_found)

abbrev pub is_order : String → Option String → Bool
is_order id none = false
is_order id (some order) = order == id

unfoldable pub find_by_provider_order_id : String → Db → Option PaymentAttempt
find_by_provider_order_id id db = find_first (λ a. is_order id a.provider_order_id) db.attempts

unfoldable pub find_by_transaction : String → Db → List PaymentAttempt
find_by_transaction transaction_id db =
    find_many (λ a. a.transaction_id == transaction_id) db.attempts

-- a SUCCESS attempt of the transaction
abbrev pub succeeded : String → PaymentAttempt → Bool
succeeded transaction_id a = (a.transaction_id == transaction_id) && is_success a.status

unfoldable pub find_success_attempt : String → Db → Option PaymentAttempt
find_success_attempt transaction_id db = find_first (succeeded transaction_id) db.attempts

abbrev pub with_status : AttemptStatus → PaymentAttempt → PaymentAttempt
with_status status a = record a { status = status }

abbrev pub update_attempt : String → (PaymentAttempt → PaymentAttempt) → Db → Db
update_attempt id f db = record db { attempts = update_where (has_id id) f db.attempts }

-- what follows the look-up of the locked row
abbrev pub succeed_unless_rival : String → PaymentAttempt → Action PaymentAttempt
succeed_unless_rival id a = if is_success a.status then pure a else (do
  rival ← gets (λ db. find_first (succeeded a.transaction_id) db.attempts)
  throw_if (is_some rival) (conflict ErrorCode.payment_already_succeeded)
  modify (update_attempt id (with_status AttemptStatus.success))
  pure (with_status AttemptStatus.success a))

unfoldable pub mark_success : String → Action PaymentAttempt
mark_success id = do
  found ← gets (λ db. find_first (has_id id) db.attempts)
  a ← require found
  succeed_unless_rival id a

abbrev pub with_failure : String → PaymentAttempt → PaymentAttempt
with_failure reason a = record a { status = AttemptStatus.failed; failure_reason = some reason }

unfoldable pub mark_failed : String → String → Action PaymentAttempt
mark_failed id reason = do
  found ← gets (λ db. find_first (has_id id) db.attempts)
  a ← require found
  modify (update_attempt id (with_failure reason))
  pure (with_failure reason a)

unfoldable pub mark_expired : String → Action PaymentAttempt
mark_expired id = do
  found ← gets (λ db. find_first (has_id id) db.attempts)
  a ← require found
  modify (update_attempt id (with_status AttemptStatus.expired))
  pure (with_status AttemptStatus.expired a)

-- `expiresAt: { lt: new Date() }`; a row with no expiry does not match
abbrev pub is_past : ℕ → Option ℕ → Bool
is_past now none = false
is_past now (some t) = ltb t now

abbrev pub is_stale : ℕ → PaymentAttempt → Bool
is_stale now a = is_open a.status && is_past now a.expires_at

unfoldable pub expire_stale_pending_attempts : Env → Action ℕ
expire_stale_pending_attempts env = do
  count ← gets (λ db. count_where (is_stale env.now) db.attempts)
  modify (λ db. record db {
    attempts = update_where (is_stale env.now) (with_status AttemptStatus.expired) db.attempts;
  })
  pure count
