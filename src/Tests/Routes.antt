-- ===== src/Tests/Routes.antt =====
-- Routes, webhooks, the dashboard, the permissions and replayed requests at concrete inputs.
use payment_microservice.Prelude.{
  ℕ, String, true, none, some, [], ◌∷◌, ◌==◌, truthy, contains, pos, find_first, find_many,
  count_where, ◌≡◌, ◌⊎◌, refl, arith,
}
use payment_microservice.Store.{
  Db, err, unauthorized, ErrorCode, Subscription, SubscriptionStatus, Invoice, InvoiceStatus,
  provider_fault,
}
use payment_microservice.Http.Guards.{
  JwtPayload, Request, Security, service_or_jwt_guard, with_user,
}
use payment_microservice.Http.Replay.{
  Reply, Redis, Call, Decision, decided, look_up, set_lock, finish, locked,
}
use payment_microservice.Http.Replay.Again.{set_lock-finish}
use payment_microservice.Admin.Views.{dashboard, of_tenant}
use payment_microservice.Admin.Totals.{counted, summed, amount_of_all, dashboard-totals}
use payment_microservice.Gateway.Stripe.Events.{ConstructEvent, StripeEvent}
use payment_microservice.Controller.Subscriptions.{cancel, change_plan}
use payment_microservice.Controller.Ownership.{others, cancel-others}
use payment_microservice.Controller.Webhooks.{
  RazorpayParser, handle_stripe, handle_razorpay, process_event,
}
use payment_microservice.Controller.Webhooks.Signed.{IsSigned, handle_stripe-IsSigned}
use payment_microservice.Tests.World.{here, empty_db, paid_db}

abbrev bob : JwtPayload
bob = record {
  sub = "bob";
  tenant_id = "other-shop";
  email = none;
  roles = none;
  permissions = none;
}

abbrev security : Security
security = record {
  api_key_hash = none;
  jwt_public_key = none;
  jwt_secret = some "secret";
  sha256 = λ s. s;
  verify = λ token key. some bob;
  after_bearer = λ header. "token";
}

abbrev request : Request
request = record {
  api_key = none;
  x_user_id = none;
  x_tenant_id = none;
  x_user_email = none;
  authorization = some "Bearer token";
  user = none;
}

abbrev membership : String → String → Subscription
membership tenant_id customer_id = record {
  id = "s";
  tenant_id = tenant_id;
  customer_id = customer_id;
  plan_id = "plan";
  status = SubscriptionStatus.active;
  current_period_start = 100;
  current_period_end = 900;
  cancelled_at = none;
  cancel_reason = none;
  trial_start = none;
  trial_end = none;
  metadata = none;
}

abbrev two_members : Db
two_members = record empty_db {
  subscriptions =
      membership "other-shop" "bob" ∷ record (membership "shop" "ann") { id = "s-2" } ∷ [];
}

cancel-others_example :
    (others bob (cancel security here request "s" none true two_members).1 ≡ others bob two_members)
    × (others bob (change_plan security here request "s" "plan-2" two_members).1
        ≡ others bob two_members)
unfolding service_or_jwt_guard truthy ◌==◌ count_where
cancel-others_example =
    cancel-others security here request "s" none true "plan-2" two_members
      {passed = with_user bob request} {user = bob} refl refl refl refl (omega arith)

abbrev bill : Invoice
bill = record {
  id = "i";
  tenant_id = "shop";
  invoice_number = record { year = 2024; month = 5; sequence = 1 };
  customer_id = "ann";
  status = InvoiceStatus.issued;
  subtotal = pos 100;
  tax_amount = pos 0;
  total_amount = pos 100;
  currency = "INR";
  due_date = none;
  paid_at = none;
  items = [];
}

abbrev billed_db : Db
billed_db = record empty_db { invoices = bill ∷ [] }

abbrev refuse_all : ConstructEvent
refuse_all body signature secret = err (provider_fault "No signatures found")

abbrev parser : RazorpayParser
parser = record { parse = λ body. err (provider_fault "SyntaxError"); time_text = λ time. "1" }

handle_stripe-IsSigned_example :
    ((handle_stripe here refuse_all "whsec" "forged" (some "body") paid_db
        ≡ (err (unauthorized ErrorCode.webhook_signature_invalid), paid_db))
      ⊎ ((event : StripeEvent) × IsSigned refuse_all "whsec" "body" "forged" event
          × (handle_stripe here refuse_all "whsec" "forged" (some "body") paid_db
              ≡ process_event here "forged" event paid_db)))
    × ((handle_razorpay here (λ key body. "mac") parser "whsec" "forged" (some "body") paid_db
          ≡ (err (unauthorized ErrorCode.webhook_signature_invalid), paid_db))
        ⊎ ((truthy "whsec" ≡ true) × (◌≡◌ {A = String} "mac" "forged")))
handle_stripe-IsSigned_example =
    handle_stripe-IsSigned here refuse_all (λ key body. "mac") parser "whsec" "forged" "body"
      paid_db

dashboard-totals_example :
    (counted (dashboard "shop" paid_db).transactions_by_status
      ≡ (dashboard "shop" paid_db).transactions_total)
    × (summed (dashboard "shop" paid_db).transactions_by_status
        ≡ amount_of_all (find_many (of_tenant "shop") paid_db.transactions))
dashboard-totals_example = dashboard-totals "shop" paid_db

abbrev post : String → Call
post key = record { method = "POST"; idempotency_key = some key }

abbrev empty_redis : Redis ℕ
empty_redis = record { responses = []; locks = [] }

set_lock-finish_example :
    (set_lock 0 1500 "k" (locked 1000 "k" empty_redis)
      ≡ (Decision.replay (Reply.http_error 409 0), locked 1000 "k" empty_redis))
    × (look_up (λ key. key) 9000 (post "k") (finish 86400 1800 "k" (Reply.body 7) empty_redis)
        ≡ decided (Decision.replay (Reply.body 7)))
    × ((set_lock 0 9000 "k" (finish 86400 1800 "k" (Reply.body 7) empty_redis)).0
        ≡ Decision.run "k")
unfolding set_lock ◌==◌ contains truthy find_first find_many
set_lock-finish_example =
    set_lock-finish 0 7 (λ key. key) 86400 1000 1500 1800 9000 (post "k") "k" "k" empty_redis
      (locked 1000 "k" empty_redis) (locked 1000 "k" empty_redis) empty_redis refl refl
      (omega arith) refl refl refl refl (omega arith)
