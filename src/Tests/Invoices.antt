-- ===== src/Tests/Invoices.antt =====
-- Invoices and a renewal, at concrete inputs.
use payment_microservice.Prelude.{
  true, none, some, [], ◌∷◌, pos, ◌+ℤ◌, ◌≡◌, refl, find_first, count_where,
}
use payment_microservice.Store.{
  Invoice, Subscription, SubscriptionStatus, Plan, PlanInterval, Db, ok, GstType,
}
use payment_microservice.Billing.{
  whole, has_whole_quantities, CreateInvoiceDto, create_invoice, generate_invoice_number,
  new_invoice,
}
use payment_microservice.Billing.Numbering.{IsNumbered, create_invoice-IsNumbered}
use payment_microservice.Billing.Totals.{amount_of, taxes_of, create_invoice-totals}
use payment_microservice.Subscription
use payment_microservice.Tests.World.{here, empty_db}

abbrev bill : CreateInvoiceDto
bill = record {
  tenant_id = "shop";
  customer_id = "ann";
  currency = "INR";
  items =
      record {
        description = "plan";
        quantity = whole (pos 2);
        unit_amount = pos 500;
        gst_type = some GstType.intra;
        gst_rate = some (record { num = 18; den = 1 });
      }
      ∷ [];
  due_date = none;
  actor_id = "ann";
}

create_invoice-IsNumbered_example :
    ((create_invoice here bill empty_db).0
      ≡ ok (new_invoice here bill (generate_invoice_number here "shop" empty_db) empty_db))
    × IsNumbered "shop" (create_invoice here bill empty_db).1
unfolding count_where has_whole_quantities
create_invoice-IsNumbered_example = create_invoice-IsNumbered here bill empty_db "shop" refl refl

abbrev billed : Invoice
billed = new_invoice here bill (generate_invoice_number here "shop" empty_db) empty_db

create_invoice-totals_example :
    (billed.subtotal ≡ amount_of billed.items)
    × (billed.tax_amount ≡ taxes_of billed.items)
    × (billed.total_amount ≡ amount_of billed.items +ℤ taxes_of billed.items)
unfolding create_invoice find_first has_whole_quantities
create_invoice-totals_example = create_invoice-totals here bill empty_db {invoice = billed} refl

abbrev monthly : Plan
monthly = record {
  id = "plan";
  tenant_id = "shop";
  application_id = none;
  name = "Basic";
  description = none;
  amount = pos 500;
  currency = "INR";
  interval = PlanInterval.monthly;
  interval_count = 1;
  trial_days = 0;
  is_active = true;
  metadata = none;
}

abbrev member : Subscription
member = record {
  id = "s";
  tenant_id = "shop";
  customer_id = "ann";
  plan_id = "plan";
  status = SubscriptionStatus.active;
  current_period_start = 100;
  current_period_end = 900;
  cancelled_at = none;
  cancel_reason = none;
  trial_start = none;
  trial_end = none;
  metadata = none;
}

abbrev due_db : Db
due_db = record empty_db { plans = monthly ∷ []; subscriptions = member ∷ [] }
