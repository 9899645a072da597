-- ===== src/Controller/Methods.antt =====
-- `PaymentMethodController` (src/modules/payment/method/payment-method.controller.ts).
use payment_microservice.Prelude.{String, Bool, Option}
use payment_microservice.Store.{Provider, Action, Env}
use payment_microservice.Http.Guards.{Request, Security}
use payment_microservice.Controller.{with_service_or_jwt}
use payment_microservice.Gateway.Stripe.Customers.{StripeSavedPaymentMethod}
use payment_microservice.PaymentMethod.{
  MethodsData, SetupData, CompletedData, list_customer_payment_methods, create_setup_intent,
  complete_setup_intent, set_default_payment_method,
}
use payment_microservice.Gateway.Stripe.Sdk.{CustomerSdk}
use payment_microservice.PaymentMethod.Profile.{Recency}

module _ (security : Security) (env : Env) (sdk : CustomerSdk) (recency : Recency)
    (request : Request) where
  unfoldable pub list_payment_methods : Action MethodsData
  list_payment_methods =
      with_service_or_jwt security "payment:read" request
        (λ user. list_customer_payment_methods env sdk recency user.tenant_id user.sub)

  unfoldable pub set_up : Option String → Option Provider → Action SetupData
  set_up publishable_key provider = with_service_or_jwt security "payment:write" request (λ user.
      create_setup_intent env sdk recency publishable_key (record {
        tenant_id = user.tenant_id;
        customer_id = user.sub;
        customer_email = user.email;
        provider = provider;
        actor_id = user.sub;
      }))

  unfoldable pub complete : String → Option Provider → Option Bool → Action CompletedData
  complete setup_intent_id provider set_as_default =
      with_service_or_jwt security "payment:write" request (λ user.
        complete_setup_intent env sdk recency (record {
          tenant_id = user.tenant_id;
          customer_id = user.sub;
          setup_intent_id = setup_intent_id;
          provider = provider;
          set_as_default = set_as_default;
          actor_id = user.sub;
        }))

  unfoldable pub make_default :
      String → Option Provider → Action (Provider × StripeSavedPaymentMethod)
  make_default payment_method_id provider =
      with_service_or_jwt security "payment:write" request (λ user.
        set_default_payment_method env sdk recency (record {
          tenant_id = user.tenant_id;
          customer_id = user.sub;
          payment_method_id = payment_method_id;
          provider = provider;
          actor_id = user.sub;
        }))
