-- ===== src/Settings/Typed.antt =====
-- The accessors return values of the types that they declare.
use payment_microservice.Prelude.{
  String, Bool, true, false, Option, none, some, List, [], ◌∷◌, ◌==◌, ◌≡◌, refl, sym, All, arith,
  subst,
}
use mathlib.Core.Option.{some-injective}
use payment_microservice.Settings.{
  Setting, undefined, text, number, flag, Entry, Runtime, value_at, ConfigService, HasLoaded,
  with_required, or_else, defined, either_variable, text_or, int_or, is_on, is_not_off,
  optional_text, text_or_undefined, public_key_of, get_env_optional, get_env_required,
  configuration_with, configuration,
}
use payment_microservice.Settings.Accessors.{
  port, env, log_level, redis_host, redis_port, redis_password, redis_db, jwt_secret,
  jwt_public_key, jwt_issuer, jwt_audience, stripe_secret_key, stripe_publishable_key,
  stripe_webhook_secret, stripe_api_version, stripe_enabled, razorpay_key_id, razorpay_key_secret,
  razorpay_webhook_secret, razorpay_enabled, cash_enabled, attempt_expiry_minutes,
  max_retry_attempts, idempotency_ttl_seconds, grace_period_days, subscription_max_retries,
  payment_queue_concurrency, refund_queue_concurrency, subscription_queue_concurrency,
  feature_failover_enabled, feature_reconciliation_enabled, reconciliation_cron, iam_service_url,
  iam_service_api_key, falsy_or,
}

-- `typeof`
abbrev pub is_number : Setting → Bool
is_number (number n) = true
is_number setting = false

abbrev pub is_string : Setting → Bool
is_string (text s) = true
is_string setting = false

abbrev pub is_boolean : Setting → Bool
is_boolean (flag b) = true
is_boolean setting = false

abbrev pub is_string_or_undefined : Setting → Bool
is_string_or_undefined undefined = true
is_string_or_undefined setting = is_string setting

-- it returns a string
abbrev pub returns_string : Option Setting → Bool
returns_string none = false
returns_string (some setting) = is_string setting

-- it returns a string, if it returns
abbrev pub throws_or_string : Option Setting → Bool
throws_or_string none = true
throws_or_string (some setting) = is_string setting

abbrev pub numbers : List (ConfigService → Setting)
numbers =
    port ∷ redis_port ∷ redis_db ∷ attempt_expiry_minutes ∷ max_retry_attempts
    ∷ idempotency_ttl_seconds ∷ grace_period_days ∷ subscription_max_retries
    ∷ payment_queue_concurrency ∷ refund_queue_concurrency ∷ subscription_queue_concurrency ∷ []

abbrev pub strings : List (ConfigService → Setting)
strings =
    env ∷ log_level ∷ jwt_audience ∷ stripe_webhook_secret ∷ stripe_api_version
    ∷ razorpay_webhook_secret ∷ reconciliation_cron ∷ iam_service_url ∷ iam_service_api_key ∷ []

abbrev pub booleans : List (ConfigService → Setting)
booleans =
    stripe_enabled ∷ razorpay_enabled ∷ cash_enabled ∷ feature_failover_enabled
    ∷ feature_reconciliation_enabled ∷ []

abbrev pub optional_strings : List (ConfigService → Setting)
optional_strings = redis_password ∷ jwt_public_key ∷ stripe_publishable_key ∷ []

abbrev pub required : List (ConfigService → Option Setting)
required = redis_host ∷ jwt_issuer ∷ []

abbrev pub secrets : List (ConfigService → Option Setting)
secrets = jwt_secret ∷ stripe_secret_key ∷ razorpay_key_id ∷ razorpay_key_secret ∷ []

-- What the accessors return of a service has the types that they declare.
pub record IsTyped (config : ConfigService) : Type 0 where
  pub numbers_are : All (λ accessor. is_number (accessor config) ≡ true) numbers
  pub strings_are : All (λ accessor. is_string (accessor config) ≡ true) strings
  pub booleans_are : All (λ accessor. is_boolean (accessor config) ≡ true) booleans
  pub optional_strings_are :
      All (λ accessor. is_string_or_undefined (accessor config) ≡ true) optional_strings
  pub required_are : All (λ accessor. returns_string (accessor config) ≡ true) required
  pub secrets_are : All (λ accessor. throws_or_string (accessor config) ≡ true) secrets

-- the service that answers from a list of entries
abbrev of_entries : List Entry → ConfigService
of_entries entries = record {
  get = (λ path default. or_else (value_at path entries) default);
  get_or_throw = (λ path. defined (value_at path entries));
}

of_entries-HasLoaded :
    (service : ConfigService) (entries : List Entry)
    → HasLoaded service entries
    → of_entries entries ≡ service
of_entries-HasLoaded service entries loaded = λ i. record {
  get = (λ path default. sym (loaded.get_lem path default) i);
  get_or_throw = (λ path. sym (loaded.get_or_throw_lem path) i);
}

or_empty-is_string :
    (value : Option String)
    → is_string (falsy_or (or_else (text_or_undefined value) undefined) (text "")) ≡ true
unfolding falsy_or text_or_undefined
or_empty-is_string none = refl
or_empty-is_string (some s) = ground arith

or_undefined-is_string_or_undefined :
    (value : Option String)
    → is_string_or_undefined (falsy_or (or_else (text_or_undefined value) undefined) undefined)
      ≡ true
unfolding falsy_or text_or_undefined
or_undefined-is_string_or_undefined none = refl
or_undefined-is_string_or_undefined (some s) = ground arith

text_or_undefined-is_string_or_undefined :
    (value : Option String)
    → is_string_or_undefined (or_else (text_or_undefined value) undefined) ≡ true
unfolding text_or_undefined
text_or_undefined-is_string_or_undefined none = refl
text_or_undefined-is_string_or_undefined (some s) = refl

public_key_of-is_string_or_undefined :
    (runtime : Runtime) (value : Option String)
    → is_string_or_undefined (or_else (public_key_of runtime value) undefined) ≡ true
unfolding public_key_of
public_key_of-is_string_or_undefined runtime none = refl
public_key_of-is_string_or_undefined runtime (some s) = ground arith

defined-throws_or_string :
    (value : Option String) → throws_or_string (defined (text_or_undefined value)) ≡ true
unfolding text_or_undefined
defined-throws_or_string none = refl
defined-throws_or_string (some s) = refl

configuration_with-IsTyped :
    (runtime : Runtime) (host issuer : String)
    → IsTyped (of_entries (configuration_with runtime host issuer))
unfolding configuration_with value_at int_or text_or is_on is_not_off optional_text ◌==◌
configuration_with-IsTyped runtime host issuer = record {
  numbers_are =
      (refl, (refl, (refl, (refl, (refl, (refl, (refl, (refl, (refl, (refl, (refl, tt)))))))))));
  strings_are = (
    refl,
    (
      refl,
      (
        refl,
        (
          or_empty-is_string (variable "STRIPE_WEBHOOK_SECRET"),
          (
            refl,
            (or_empty-is_string (variable "RAZORPAY_WEBHOOK_SECRET"), (refl, (refl, (refl, tt)))),
          ),
        ),
      ),
    ),
  );
  booleans_are = (refl, (refl, (refl, (refl, (refl, tt)))));
  optional_strings_are = (
    text_or_undefined-is_string_or_undefined (variable "REDIS_PASSWORD"),
    (
      public_key_of-is_string_or_undefined runtime
          (either_variable runtime "JWT_PUBLIC_KEY" "IAM_JWT_PUBLIC_KEY"),
      (or_undefined-is_string_or_undefined (variable "STRIPE_PUBLISHABLE_KEY"), tt),
    ),
  );
  required_are = (refl, (refl, tt));
  secrets_are = (
    defined-throws_or_string (variable "JWT_SECRET"),
    (
      defined-throws_or_string (variable "STRIPE_SECRET_KEY"),
      (
        defined-throws_or_string (variable "RAZORPAY_KEY_ID"),
        (defined-throws_or_string (variable "RAZORPAY_KEY_SECRET"), tt),
      ),
    ),
  );
}
  where
    variable : String → Option String
    variable key = get_env_optional runtime key

with_required-IsTyped :
    (runtime : Runtime) (host issuer : Option String) (entries : List Entry)
    → with_required runtime host issuer ≡ some entries
    → IsTyped (of_entries entries)
with_required-IsTyped runtime none issuer entries h = cc
with_required-IsTyped runtime (some host) none entries h = cc
with_required-IsTyped runtime (some host) (some issuer) entries h =
    subst (λ es. IsTyped (of_entries es))
      (some-injective (configuration_with runtime host issuer) entries h)
      (configuration_with-IsTyped runtime host issuer)

-- Whatever the environment, once the configuration is read and loaded every accessor of
-- `AppConfigService` returns what its type says: numbers (NaN among them), strings, Booleans; strings
-- or undefined where it says so. Of the accessors that may throw, those of the Redis host and the
-- issuer of tokens return a string, and the four secrets' return a string or throw.
pub configuration-IsTyped :
    (runtime : Runtime) (entries : List Entry) (service : ConfigService)
    → configuration runtime ≡ some entries
    → HasLoaded service entries
    → IsTyped service
unfolding configuration
configuration-IsTyped runtime entries service h loaded =
    subst IsTyped (of_entries-HasLoaded service entries loaded) (
      with_required-IsTyped runtime (get_env_required runtime "REDIS_HOST")
        (get_env_required runtime "JWT_ISSUER") entries h)
