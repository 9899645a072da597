-- ===== src/Js.antt =====
-- How JavaScript reads a value of unknown type, in the ways that the services use.
use payment_microservice.Prelude.{
  starts_with, ℕ, suc, String, Bool, true, false, Option, none, some, truthy, if◌then◌else◌,
}
use payment_microservice.Store.{
  Json, null, text, number, boolean, date, Metadata, get, as_text, Env,
}

-- `Number(v)`, if it is finite and positive
abbrev pub positive_number : Env → Option Json → Option ℕ
positive_number env (some (number (suc n))) = some (suc n)
positive_number env (some (text s)) = env.number_of_text s
positive_number env (some (boolean true)) = some 1
positive_number env (some (date (suc ms))) = some (suc ms)
positive_number env _ = none

-- `v === true`
abbrev pub is_true : Option Json → Bool
is_true (some (boolean b)) = b
is_true _ = false

-- `String(v ?? fallback)`
abbrev pub string_or : Env → String → Option Json → String
string_or env fallback none = fallback
string_or env fallback (some null) = fallback
string_or env fallback (some (text s)) = s
string_or env fallback (some v) = env.string_of v

-- a property of a value that may be absent, `metadata?.key`
abbrev pub get_from : String → Option Metadata → Option Json
get_from key none = none
get_from key (some metadata) = get key metadata

-- a text that is not blank, trimmed
abbrev pub trimmed : Env → Option Json → Option String
trimmed env v = elim (as_text v) [
  | none ↦ none
  | some s ↦ if truthy (env.trim s) then some (env.trim s) else none
]

-- Stripe's id of a customer in metadata: `providerCustomerId`, or else a `customerId` that is one
unfoldable pub stripe_customer_in : Env → Option Metadata → Option String
stripe_customer_in env metadata = elim (trimmed env (get_from "providerCustomerId" metadata)) [
  | some id ↦ some id
  | none ↦ elim (as_text (get_from "customerId" metadata)) [
    | none ↦ none
    | some id ↦ if starts_with id "cus_" then some id else none
  ]
]
