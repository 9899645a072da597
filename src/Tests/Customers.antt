-- ===== src/Tests/Customers.antt =====
-- Saved payment methods at concrete inputs.
use payment_microservice.Prelude.{Bool, true, false, none, some, [], ◌∷◌, ◌≡◌, sym, ap, ◌==◌}
use payment_microservice.Store.{Env, Outcome, ok, err, field, text, end, get}
use payment_microservice.Gateway.Stripe.Sdk.{
  CustomerSdk, SetupIntentObject, PaymentMethodObject, id_of,
}
use payment_microservice.PaymentMethod.{CompleteSetupIntentDto, complete_setup_intent}
use payment_microservice.PaymentMethod.Profile.{Recency}
use payment_microservice.PaymentMethod.Ownership.{names, IsRefused, complete_setup_intent-IsRefused}
use payment_microservice.Tests.World.{here, empty_db}

-- the setup of Bob's card
abbrev intent : SetupIntentObject
intent = record {
  id = "seti_1";
  client_secret = some "secret";
  status = "succeeded";
  customer = some (id_of "cus_bob");
  payment_method = some (id_of "pm_1");
  metadata = some (field "internalCustomerId" (text "bob") (field "tenantId" (text "shop") end));
}

abbrev method : PaymentMethodObject
method = record {
  id = "pm_1";
  type = "card";
  card = none;
  created = 0;
  customer = some (id_of "cus_bob");
}

abbrev stripe : CustomerSdk
stripe = record {
  customers_create = λ calls email customer tenant. ok "cus_bob";
  customers_retrieve =
      λ calls id. ok (record { is_deleted = false; default_payment_method = none });
  customers_set_default = λ calls customer id. ok tt;
  setup_intents_create = λ calls id customer tenant key. ok intent;
  setup_intents_retrieve = λ calls id. ok intent;
  payment_methods_retrieve = λ calls id. ok method;
  payment_methods_list = λ calls id. ok (method ∷ []);
  subscriptions_list = λ calls id. ok [];
  subscriptions_set_default = λ calls subscription id. ok tt;
}

abbrev newest_first : Recency
newest_first = record { subscriptions = λ s. s; transactions = λ t. t; attempts = λ a. a }

abbrev shop : Env
shop = record here { stripe_enabled = true }

-- Ann's request
abbrev complete_dto : CompleteSetupIntentDto
complete_dto = record {
  tenant_id = "shop";
  customer_id = "ann";
  setup_intent_id = "seti_1";
  provider = none;
  set_as_default = some true;
  actor_id = "ann";
}

abbrev is_ours : Outcome SetupIntentObject → Bool
is_ours (ok answer) = names answer complete_dto
is_ours (err e) = false

names_other : (other : SetupIntentObject) → ok intent ≡ ok other → names other complete_dto ≡ false
unfolding ◌==◌ get
names_other other same = sym (ap is_ours same)

complete_setup_intent-IsRefused_example :
    IsRefused [] (complete_setup_intent shop stripe newest_first complete_dto empty_db)
complete_setup_intent-IsRefused_example =
    complete_setup_intent-IsRefused shop stripe newest_first complete_dto empty_db names_other
