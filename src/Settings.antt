-- ===== src/Settings.antt =====
-- The settings of a process (src/modules/config/): `getEnvOptional` and `getEnvRequired`
-- (runtime-env.ts), and the configuration that is made of the environment (configuration.ts). What
-- holds it, NestJS's `ConfigService`, is a parameter; so are `trim`, `parseInt` and base64.
pub mod Accessors
pub mod Typed
use payment_microservice.Prelude.{
  String, Bool, false, not, Option, none, some, List, [], ◌∷◌, ℤ, ◌==◌, truthy, or_default,
  if◌then◌else◌, ◌≡◌,
}

-- A value of the configuration; `parseInt` may return NaN.
pub data Setting : Type 0 where
  undefined : Setting
  text : String → Setting
  number : Option ℤ → Setting
  flag : Bool → Setting

pub record Entry : Type 0 where
  pub key : String
  pub value : Setting

abbrev at : String → Setting → Entry
at path setting = record { key = path; value = setting }

-- `process.env` and the functions of JavaScript that read it
pub record Runtime : Type 0 where
  pub variable : String → Option String
  pub trim : String → String
  pub parse_int : String → Option ℤ
  pub from_base64 : String → String

unfoldable pub get_env_optional : Runtime → String → Option String
get_env_optional runtime key = elim (runtime.variable key) [
  | none ↦ none
  | some value ↦
      let normalized = runtime.trim value in
      if truthy value then (if truthy normalized then some normalized else none) else none
]

-- `getEnvRequired` throws where the option is none.
unfoldable pub get_env_required : Runtime → String → Option String
unfolding get_env_optional
get_env_required runtime key = elim (get_env_optional runtime key) [
  | none ↦ none
  | some value ↦ if truthy value then some value else none
]

-- `getEnvOptional(key) ?? undefined`
unfoldable pub text_or_undefined : Option String → Setting
text_or_undefined none = undefined
text_or_undefined (some value) = text value

-- `getEnvOptional(key) === value`
unfoldable pub is_value : String → Option String → Bool
is_value value none = false
is_value value (some other) = other == value

module _ (runtime : Runtime) where
  -- `getEnvOptional(key) ?? value`
  unfoldable pub text_or : String → String → Setting
  text_or key value = text (or_default (get_env_optional runtime key) value)

  -- `parseInt(getEnvOptional(key) ?? value, 10)`
  unfoldable pub int_or : String → String → Setting
  int_or key value = number (runtime.parse_int (or_default (get_env_optional runtime key) value))

  -- `getEnvOptional(key) === 'true'`, and `!== 'false'`
  unfoldable pub is_on : String → Setting
  is_on key = flag (is_value "true" (get_env_optional runtime key))

  unfoldable pub is_not_off : String → Setting
  is_not_off key = flag (not (is_value "false" (get_env_optional runtime key)))

  unfoldable pub optional_text : String → Setting
  optional_text key = text_or_undefined (get_env_optional runtime key)

  -- the first variable, or else the second
  abbrev pub either_variable : String → String → Option String
  either_variable first second = elim (get_env_optional runtime first) [
    | some value ↦ some value
    | none ↦ get_env_optional runtime second
  ]

  unfoldable pub public_key_of : Option String → Setting
  public_key_of none = undefined
  public_key_of (some encoded) =
      if truthy encoded then text (runtime.from_base64 encoded) else undefined

  -- The object that `configuration()` returns, its values by their paths, with the two required ones
  unfoldable pub configuration_with : String → String → List Entry
  configuration_with redis_host jwt_issuer =
      at "app.port" (int_or "PORT" "3000")
      ∷ at "app.env" (text_or "NODE_ENV" "development")
      ∷ at "app.prefix" (text_or "API_PREFIX" "api/v1")
      ∷ at "app.logLevel" (text_or "LOG_LEVEL" "info")
      ∷ at "app.structuredLoggingEnabled"
          (flag (is_value "true" (either_variable "ENABLE_LOGGING" "ENABLE_PINO_LOGGING")))
      ∷ at "database.url" (optional_text "DATABASE_URL")
      ∷ at "redis.host" (text redis_host)
      ∷ at "redis.port" (int_or "REDIS_PORT" "6379")
      ∷ at "redis.password" (optional_text "REDIS_PASSWORD")
      ∷ at "redis.db" (int_or "REDIS_DB" "0")
      ∷ at "jwt.secret" (optional_text "JWT_SECRET")
      ∷ at "jwt.publicKey" (public_key_of (either_variable "JWT_PUBLIC_KEY" "IAM_JWT_PUBLIC_KEY"))
      ∷ at "jwt.issuer" (text jwt_issuer)
      ∷ at "jwt.audience" (text_or "JWT_AUDIENCE" "dashboard-app")
      ∷ at "stripe.secretKey" (optional_text "STRIPE_SECRET_KEY")
      ∷ at "stripe.publishableKey" (optional_text "STRIPE_PUBLISHABLE_KEY")
      ∷ at "stripe.webhookSecret" (optional_text "STRIPE_WEBHOOK_SECRET")
      ∷ at "stripe.apiVersion" (text_or "STRIPE_API_VERSION" "2024-04-10")
      ∷ at "stripe.enabled" (is_on "STRIPE_ENABLED")
      ∷ at "razorpay.keyId" (optional_text "RAZORPAY_KEY_ID")
      ∷ at "razorpay.keySecret" (optional_text "RAZORPAY_KEY_SECRET")
      ∷ at "razorpay.webhookSecret" (optional_text "RAZORPAY_WEBHOOK_SECRET")
      ∷ at "razorpay.enabled" (is_on "RAZORPAY_ENABLED")
      ∷ at "cash.enabled" (is_on "CASH_ENABLED")
      ∷ at "payment.attemptExpiryMinutes" (int_or "PAYMENT_ATTEMPT_EXPIRY_MINUTES" "15")
      ∷ at "payment.maxRetryAttempts" (int_or "MAX_RETRY_ATTEMPTS" "3")
      ∷ at "payment.idempotencyTtlSeconds" (int_or "PAYMENT_IDEMPOTENCY_TTL_SECONDS" "86400")
      ∷ at "subscription.gracePeriodDays" (int_or "SUBSCRIPTION_GRACE_PERIOD_DAYS" "3")
      ∷ at "subscription.maxRetryAttempts" (int_or "SUBSCRIPTION_MAX_RETRY_ATTEMPTS" "3")
      ∷ at "subscription.retryIntervalHours" (int_or "SUBSCRIPTION_RETRY_INTERVAL_HOURS" "24")
      ∷ at "queues.paymentConcurrency" (int_or "PAYMENT_QUEUE_CONCURRENCY" "5")
      ∷ at "queues.refundConcurrency" (int_or "REFUND_QUEUE_CONCURRENCY" "3")
      ∷ at "queues.subscriptionConcurrency" (int_or "SUBSCRIPTION_QUEUE_CONCURRENCY" "5")
      ∷ at "features.multiCurrency" (is_on "FEATURE_MULTI_CURRENCY")
      ∷ at "features.failoverEnabled" (is_not_off "FEATURE_FAILOVER_ENABLED")
      ∷ at "features.reconciliationEnabled" (is_not_off "FEATURE_RECONCILIATION_ENABLED")
      ∷ at "features.reconciliationCron" (text_or "RECONCILIATION_CRON" "0 2 * * *")
      ∷ at "features.bullmqEnabled" (is_not_off "BULLMQ_ENABLED")
      ∷ at "iam.serviceUrl" (text_or "IAM_SERVICE_URL" "")
      ∷ at "iam.serviceApiKey" (text_or "IAM_SERVICE_API_KEY" "")
      ∷ []

  abbrev pub with_required : Option String → Option String → Option (List Entry)
  with_required (some redis_host) (some jwt_issuer) =
      some (configuration_with redis_host jwt_issuer)
  with_required redis_host jwt_issuer = none

  -- `configuration()`, which throws where a required variable is missing
  unfoldable pub configuration : Option (List Entry)
  configuration =
      with_required (get_env_required runtime "REDIS_HOST") (get_env_required runtime "JWT_ISSUER")

-- `ConfigService` of @nestjs/config: `get(path, default)`, and `getOrThrow(path)`, which may throw
pub record ConfigService : Type 0 where
  pub get : String → Setting → Setting
  pub get_or_throw : String → Option Setting

-- what the configuration has at a path
unfoldable pub value_at : String → List Entry → Setting
value_at path [] = undefined
value_at path (entry ∷ rest) = if entry.key == path then entry.value else value_at path rest

abbrev pub or_else : Setting → Setting → Setting
or_else undefined default = default
or_else setting default = setting

abbrev pub defined : Setting → Option Setting
defined undefined = none
defined setting = some setting

-- The documented behaviour of a service that has loaded a configuration: `get` returns the default
-- for what is undefined, where `getOrThrow` throws.
pub record HasLoaded (service : ConfigService) (entries : List Entry) : Type 0 where
  pub get_lem :
      (path : String) (default : Setting)
      → service.get path default ≡ or_else (value_at path entries) default
  pub get_or_throw_lem :
      (path : String) → service.get_or_throw path ≡ defined (value_at path entries)
