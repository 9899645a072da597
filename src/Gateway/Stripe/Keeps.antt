-- ===== src/Gateway/Stripe/Keeps.antt =====
-- A call of `StripeProvider` that only reads leaves the state as it is.
use payment_microservice.Prelude.{List, String}
use payment_microservice.Store.{Db, Outcome, StripeCall, Env}
use payment_microservice.Store.Keeps.{Keeps, keeps_rules}
use payment_microservice.Gateway.Stripe.Sdk.{CustomerSdk}
use payment_microservice.Gateway.Stripe.Customers.{ask, retrieve_completed_setup_intent}

module _ {κ} {P : Db → Type κ} where
  pub Keeps-ask : {A : Type 0} (answer : List StripeCall → Outcome A) → Keeps P (ask answer)
  Keeps-ask answer = record { at = λ db p. p }

  pub retrieve_completed_setup_intent-Keeps :
      (env : Env) (sdk : CustomerSdk) (id : String)
      → Keeps P (retrieve_completed_setup_intent env sdk id)
  unfolding retrieve_completed_setup_intent
  retrieve_completed_setup_intent-Keeps env sdk id = search (keeps_rules, Keeps-ask) depth 12
