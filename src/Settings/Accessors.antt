-- ===== src/Settings/Accessors.antt =====
-- `AppConfigService` (src/modules/config/app-config.service.ts), an accessor for each setting. It
-- reads the configuration with a default where there is one, and throws or returns undefined where
-- there is none. A null is undefined here.
use payment_microservice.Prelude.{
  String, Bool, true, false, Option, some, ℤ, pos, ◌==◌, truthy, if◌then◌else◌,
}
use payment_microservice.Settings.{Setting, undefined, text, number, flag, ConfigService}

abbrev whole : ℤ → Setting
whole n = number (some n)

-- `value || other`, of a text
unfoldable pub falsy_or : Setting → Setting → Setting
falsy_or (text s) other = if truthy s then text s else other
falsy_or setting other = other

-- `setting === value`
abbrev is_text : String → Setting → Bool
is_text value (text s) = s == value
is_text value setting = false

module _ (config : ConfigService) where
  abbrev pub port : Setting
  port = config.get "app.port" (whole (pos 3000))

  abbrev pub env : Setting
  env = config.get "app.env" (text "development")

  abbrev pub is_production : Bool
  is_production = is_text "production" env

  abbrev pub log_level : Setting
  log_level = config.get "app.logLevel" (text "info")

  abbrev pub redis_host : Option Setting
  redis_host = config.get_or_throw "redis.host"

  abbrev pub redis_port : Setting
  redis_port = config.get "redis.port" (whole (pos 6379))

  abbrev pub redis_password : Setting
  redis_password = config.get "redis.password" undefined

  abbrev pub redis_db : Setting
  redis_db = config.get "redis.db" (whole (pos 0))

  abbrev pub jwt_secret : Option Setting
  jwt_secret = config.get_or_throw "jwt.secret"

  abbrev pub jwt_public_key : Setting
  jwt_public_key = config.get "jwt.publicKey" undefined

  abbrev pub jwt_issuer : Option Setting
  jwt_issuer = config.get_or_throw "jwt.issuer"

  abbrev pub jwt_audience : Setting
  jwt_audience = config.get "jwt.audience" (text "dashboard-app")

  abbrev pub stripe_secret_key : Option Setting
  stripe_secret_key = config.get_or_throw "stripe.secretKey"

  abbrev pub stripe_publishable_key : Setting
  stripe_publishable_key = falsy_or (config.get "stripe.publishableKey" undefined) undefined

  abbrev pub stripe_webhook_secret : Setting
  stripe_webhook_secret = falsy_or (config.get "stripe.webhookSecret" undefined) (text "")

  abbrev pub stripe_api_version : Setting
  stripe_api_version = config.get "stripe.apiVersion" (text "2024-04-10")

  abbrev pub stripe_enabled : Setting
  stripe_enabled = config.get "stripe.enabled" (flag false)

  abbrev pub razorpay_key_id : Option Setting
  razorpay_key_id = config.get_or_throw "razorpay.keyId"

  abbrev pub razorpay_key_secret : Option Setting
  razorpay_key_secret = config.get_or_throw "razorpay.keySecret"

  abbrev pub razorpay_webhook_secret : Setting
  razorpay_webhook_secret = falsy_or (config.get "razorpay.webhookSecret" undefined) (text "")

  abbrev pub razorpay_enabled : Setting
  razorpay_enabled = config.get "razorpay.enabled" (flag false)

  abbrev pub cash_enabled : Setting
  cash_enabled = config.get "cash.enabled" (flag false)

  abbrev pub attempt_expiry_minutes : Setting
  attempt_expiry_minutes = config.get "payment.attemptExpiryMinutes" (whole (pos 15))

  abbrev pub max_retry_attempts : Setting
  max_retry_attempts = config.get "payment.maxRetryAttempts" (whole (pos 3))

  abbrev pub idempotency_ttl_seconds : Setting
  idempotency_ttl_seconds = config.get "payment.idempotencyTtlSeconds" (whole (pos 86400))

  abbrev pub grace_period_days : Setting
  grace_period_days = config.get "subscription.gracePeriodDays" (whole (pos 3))

  abbrev pub subscription_max_retries : Setting
  subscription_max_retries = config.get "subscription.maxRetryAttempts" (whole (pos 3))

  abbrev pub payment_queue_concurrency : Setting
  payment_queue_concurrency = config.get "queues.paymentConcurrency" (whole (pos 5))

  abbrev pub refund_queue_concurrency : Setting
  refund_queue_concurrency = config.get "queues.refundConcurrency" (whole (pos 3))

  abbrev pub subscription_queue_concurrency : Setting
  subscription_queue_concurrency = config.get "queues.subscriptionConcurrency" (whole (pos 5))

  abbrev pub feature_failover_enabled : Setting
  feature_failover_enabled = config.get "features.failoverEnabled" (flag true)

  abbrev pub feature_reconciliation_enabled : Setting
  feature_reconciliation_enabled = config.get "features.reconciliationEnabled" (flag true)

  abbrev pub reconciliation_cron : Setting
  reconciliation_cron = config.get "features.reconciliationCron" (text "0 2 * * *")

  abbrev pub iam_service_url : Setting
  iam_service_url = config.get "iam.serviceUrl" (text "")

  abbrev pub iam_service_api_key : Setting
  iam_service_api_key = config.get "iam.serviceApiKey" (text "")
