-- ===== src/Subscription/Renewal/Advance.antt =====
-- What a renewal that nothing stops does: it issues an invoice and advances the period, without a
-- payment.
use payment_microservice.Prelude.{some, suc, ◌∷◌}
use payment_microservice.Store.{
  Subscription, SubscriptionCycle, InvoiceStatus, Invoice, Plan, Db, Env, CycleStatus,
}
use payment_microservice.Billing.{generate_invoice_number, new_invoice, with_status}
use payment_microservice.Subscription
use payment_microservice.Subscription.Renewal.{renewal_invoice, new_cycle}

abbrev paid_cycle : Env → Db → Subscription → Plan → SubscriptionCycle
paid_cycle env db s plan = record (new_cycle s plan (env.uuid db.issued)) {
  status = CycleStatus.paid;
  invoice_id = some (env.uuid (suc db.issued));
  attempt_count = 1;
}

abbrev with_cycle : Env → Db → Subscription → Plan → Db
with_cycle env db s plan = record db {
  issued = suc db.issued;
  cycles = new_cycle s plan (env.uuid db.issued) ∷ db.cycles;
}

abbrev issued_invoice : Env → Db → Subscription → Plan → Invoice
issued_invoice env db s plan = with_status InvoiceStatus.issued (
    new_invoice env (renewal_invoice s plan (env.gst_config s.tenant_id))
      (generate_invoice_number env s.tenant_id db) (with_cycle env db s plan))
