-- ===== src/Store/Monad.antt =====
-- A service call: it reads and writes the database and the cache, and returns or throws. What was
-- written before a throw stays written, but inside `withTransaction`.
use payment_microservice.Prelude.{
  ◌≡◌, refl, ◌⊎◌, inl, inr, ℕ, String, Bool, Option, none, some, List,
}
use payment_microservice.Store.Enums.{ErrorCode, Provider}
use payment_microservice.Store.Rows.{
  Transaction, PaymentAttempt, LedgerEntry, WebhookLog, Refund, Invoice, Plan, Subscription,
  SubscriptionCycle, CustomerBillingProfile, AuditLog, StripeCall,
}

-- An option for the front end, `PaymentOption`
pub record PaymentOption : Type 0 where
  pub provider : Provider
  pub method : String
  pub order_id : Option String
  pub client_secret : Option String
  pub session_url : Option String
  pub attempt_id : String

-- What `JSON.stringify` keeps of an `InitiatePaymentResult`, whose status is always PROCESSING
pub record InitiatePaymentResult : Type 0 where
  pub transaction_id : String
  pub options : List PaymentOption

-- A Redis entry of `IdempotencyService`, with the time at which it expires
pub record CacheEntry : Type 0 where
  pub key : String
  pub value : InitiatePaymentResult
  pub expires_at : ℕ

-- The newest row of a table stands first.
pub record Db : Type 0 where
  pub issued : ℕ  -- how many ids the database has generated
  pub transactions : List Transaction
  pub attempts : List PaymentAttempt
  pub ledger_entries : List LedgerEntry
  pub webhook_logs : List WebhookLog
  pub refunds : List Refund
  pub invoices : List Invoice
  pub plans : List Plan
  pub subscriptions : List Subscription
  pub cycles : List SubscriptionCycle
  pub billing_profiles : List CustomerBillingProfile
  pub audit_logs : List AuditLog
  pub cache : List CacheEntry
  -- what Stripe has been asked to change, the newest first; nothing is asked inside `withTransaction`
  pub stripe_calls : List StripeCall
  -- until when Redis keeps the lock of the reconciliation
  pub reconciliation_lock : Option ℕ

-- What a call may throw: the HTTP exceptions with their code (BadRequestException with the providers
-- that failed, where all did), Prisma's errors (P2025, P2002, P2003), and whatever a provider throws.
pub data Fault : Type 0 where
  bad_request conflict not_found unauthorized forbidden : ErrorCode → Fault
  provider_unavailable : List Provider → Fault
  record_not_found unique_violation foreign_key_violation : Fault
  provider_fault : String → Fault

pub data Outcome (A : Type 0) : Type 0 where
  ok : A → Outcome A
  err : Fault → Outcome A

abbrev pub Action : Type 0 → Type 0
Action A = Db → Outcome A × Db

module _ {A : Type 0} where
  abbrev pub pure : A → Action A
  pure a db = (ok a, db)

  abbrev pub throw : Fault → Action A
  throw e db = (err e, db)

  abbrev pub gets : (Db → A) → Action A
  gets f db = (ok (f db), db)

  -- `if (!value) throw …`
  abbrev pub or_throw : Option A → Fault → Action A
  or_throw none e = throw e
  or_throw (some a) e = pure a

  -- a result that another party hands over
  abbrev pub lift : Outcome A → Action A
  lift r db = (r, db)

  abbrev pub rollback_on_error : Db → Outcome A × Db → Outcome A × Db
  rollback_on_error before (ok a, after) = (ok a, after)
  rollback_on_error before (err e, after) = (err e, before)

  -- `PrismaService.withTransaction`: all writes, or none if the callback throws
  abbrev pub with_transaction : Action A → Action A
  with_transaction m db = rollback_on_error db (m db)

  abbrev pub handle : (Fault → Action A) → Outcome A × Db → Outcome A × Db
  handle h (ok a, db) = (ok a, db)
  handle h (err e, db) = h e db

  -- `try … catch`
  abbrev pub catch : Action A → (Fault → Action A) → Action A
  catch m h db = handle h (m db)

-- what follows a result that is not an exception
abbrev pub on_ok : {A B : Type 0} → Outcome A → (A → Outcome B) → Outcome B
on_ok (ok a) f = f a
on_ok (err e) f = err e

abbrev pub modify : (Db → Db) → Action (Unit {0})
modify f db = (ok tt, f db)

abbrev pub after : {A B : Type 0} → (A → Action B) → Outcome A × Db → Outcome B × Db
after f (ok a, db) = f a db
after f (err e, db) = (err e, db)

infixl 5 ◌>>=◌ ◌>>◌
abbrev pub ◌>>=◌ : {A B : Type 0} → Action A → (A → Action B) → Action B
◌>>=◌ m f db = after f (m db)

abbrev pub ◌>>◌ : {A B : Type 0} → Action A → Action B → Action B
◌>>◌ m k db = after (λ _. k) (m db)

abbrev pub throw_if : Bool → Fault → Action (Unit {0})
throw_if Bool.true e = throw e
throw_if Bool.false e = pure tt

-- `findUniqueOrThrow`, and what `update` throws where no row has the key
abbrev pub require : {A : Type 0} → Option A → Action A
require o = or_throw o record_not_found

pub Outcome-cases :
    {A : Type 0} (r : Outcome A) → ((a : A) × (r ≡ ok a)) ⊎ ((e : Fault) × (r ≡ err e))
Outcome-cases (ok a) = inl (a, refl)
Outcome-cases (err e) = inr (e, refl)
