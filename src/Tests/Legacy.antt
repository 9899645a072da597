-- ===== src/Tests/Legacy.antt =====
-- The backfill, the settings of the identity service and the exception filter at concrete inputs.
use payment_microservice.Prelude.{
  String, true, false, none, some, [], ◌∷◌, ◌==◌, truthy, contains, find_first, find_many, length,
  pos, ◌≡◌, refl, arith, ◌+◌, ◌*◌,
}
use payment_microservice.Store.{
  Transaction, TransactionStatus, Plan, PlanInterval, Db, text, number, end, field, get, ok, object,
  GstType,
}
use payment_microservice.Backfill.{
  Script, run, plan_run, consider, consider_all, candidate_transactions, email_to_user, create_all,
  source_transaction_ids, build_fingerprint, payload_fingerprint,
}
use payment_microservice.Backfill.Again.{run-run}
use payment_microservice.Iam.{Remote, get_gst_config, fetch_from_iam}
use payment_microservice.Iam.Fresh.{started, then_get, IsFresh, Reach-IsFresh}
use payment_microservice.Http.Filter.{Exception, FilteredRequest, catch_exception}
use payment_microservice.Http.Filter.Masked.{catch_exception-catch_exception}
use payment_microservice.Tests.World.{here, empty_db, sale}

abbrev old_script : Script
old_script = record {
  user_of_email = λ email. some "user-1";
  created_at = λ id. 500;
  to_iso_string = λ date. "2024";
  set_date = λ date count. date + count * 86400000;
  set_month = λ date count. date + count * 2592000000;
  set_full_year = λ date count. date + count * 31536000000;
  parse_int = λ s. 0;
}

abbrev checkout : Transaction
checkout = record (sale TransactionStatus.success) {
  customer_id = "checkout:1";
  metadata = some (
      field "planId" (text "plan")
        (field "customerEmail" (text "ann@shop") (field "trialDays" (number 7) end)));
}

abbrev basic : Plan
basic = record {
  id = "plan";
  tenant_id = "shop";
  application_id = none;
  name = "Basic";
  description = none;
  amount = pos 500;
  currency = "INR";
  interval = PlanInterval.monthly;
  interval_count = 1;
  trial_days = 0;
  is_active = true;
  metadata = none;
}

abbrev old_db : Db
old_db = record empty_db { transactions = checkout ∷ []; plans = basic ∷ [] }

creates_one : length (run here old_script true old_db).1.subscriptions ≡ 1
unfolding run plan_run consider consider_all candidate_transactions email_to_user create_all
    source_transaction_ids build_fingerprint payload_fingerprint find_first find_many ◌==◌ truthy
    contains get
creates_one = refl

run-run_example :
    let first = run here old_script true old_db in
    let second = run (record here { now = 9000 }) old_script true first.1 in
    (second.0.prepared ≡ [])
    × (second.1 ≡ first.1)
    × ((run here old_script false old_db).0 ≡ first.0)
    × ((run here old_script false old_db).1 ≡ old_db)
run-run_example = run-run here old_script old_db 9000

abbrev remote : Remote
remote = record {
  service_url = "http://iam";
  fetch = λ time tenant_id. ok (record {
    is_ok = true;
    body = ok (object (field "payment.gst.default_type" (text "inter") end));
  });
  rate_of = λ raw. none;
}

Reach-IsFresh_example :
    IsFresh remote 200000 200100 "shop"
      (get_gst_config remote 200000 200100 "shop" (get_gst_config remote 5 90 "shop" []).1).0
Reach-IsFresh_example =
    Reach-IsFresh remote (then_get (started 0) 5 90 (omega arith) (omega arith) "shop") 200000
      200100 (omega arith) (omega arith) "shop"

-- The second call is answered from the first one's answer.
still_inter : (fetch_from_iam remote 90 "shop").gst_type ≡ some GstType.inter
unfolding fetch_from_iam truthy ◌==◌ get
still_inter = refl

abbrev failed_request : FilteredRequest
failed_request = record { correlation_id = none; url = "/payments" }

catch_exception-catch_exception_example :
    (catch_exception "production" 5 (Exception.error "no route to db:5432") failed_request
      ≡ catch_exception "production" 5 (Exception.prisma "P1001" "db:5432") failed_request)
    × ((catch_exception "production" 5
          (Exception.error "no route to db:5432")
          failed_request).status_code
        ≡ 500)
    × ((env code message message' : String)
        → catch_exception env 5 (Exception.prisma code message) failed_request
          ≡ catch_exception env 5 (Exception.prisma code message') failed_request)
unfolding ◌==◌
catch_exception-catch_exception_example =
    catch_exception-catch_exception 5 failed_request (Exception.error "no route to db:5432")
      (Exception.prisma "P1001" "db:5432") tt (refl, refl)
