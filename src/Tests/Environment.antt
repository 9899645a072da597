-- ===== src/Tests/Environment.antt =====
-- A process with the required variables and one setting.
use payment_microservice.Prelude.{
  String, List, Option, none, some, pos, ◌==◌, truthy, if◌then◌else◌, refl,
}
use payment_microservice.Settings.{
  Runtime, get_env_optional, get_env_required, configuration_with, configuration, Entry,
  ConfigService, or_else, defined, value_at,
}
use payment_microservice.Settings.Typed.{IsTyped, configuration-IsTyped}

abbrev local_variable : String → Option String
local_variable key =
    if key == "REDIS_HOST"
    then some "localhost"
    else if key == "JWT_ISSUER"
    then some "iam"
    else if key == "PORT"
    then some "3302"
    else none

abbrev local : Runtime
local = record {
  variable = local_variable;
  trim = (λ s. s);
  parse_int = (λ s. if s == "3302" then some (pos 3302) else none);
  from_base64 = (λ s. s);
}

abbrev entries : List Entry
entries = configuration_with local "localhost" "iam"

abbrev loaded_service : ConfigService
loaded_service = record {
  get = (λ path default. or_else (value_at path entries) default);
  get_or_throw = (λ path. defined (value_at path entries));
}

configuration-IsTyped_example : IsTyped loaded_service
unfolding configuration get_env_required get_env_optional truthy ◌==◌
configuration-IsTyped_example =
    configuration-IsTyped local entries loaded_service refl
      (record { get_lem = (λ path default. refl); get_or_throw_lem = (λ path. refl) })
