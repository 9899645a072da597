-- ===== src/Subscription/Renewal.antt =====
-- `SubscriptionService.processRenewal` (src/modules/subscription/subscription.service.ts). A row
-- that the call has just read or created is there when it is updated, so those updates do not fail.
pub mod Advance
use payment_microservice.Prelude.{
  ℕ, suc, ◌+◌, String, Bool, true, false, not, ◌&&◌, ◌||◌, Option, none, some, [], ◌∷◌, pos, ◌==◌,
  ltb, leb, eqb, if◌then◌else◌, find_first, update_where,
}
use payment_microservice.Store.{
  Subscription, SubscriptionStatus, SubscriptionCycle, CycleStatus, Plan, PlanInterval, ErrorCode,
  Db, Fault, bad_request, Action, pure, throw, gets, modify, require, throw_if, catch, ◌>>=◌, ◌>>◌,
  Env, GstConfig,
}
use payment_microservice.Audit.{log}
use payment_microservice.Billing.{whole, CreateInvoiceDto, create_invoice, issue_invoice}
use payment_microservice.Subscription.{update_subscription, calculate_next_period_end}
use payment_microservice.Subscription.Lifecycle.{find_by_id, with_status}
use Prim.Native.String.{◌++◌ as str_append}

-- ACTIVE, PAST_DUE or TRIALING
abbrev pub is_renewable : SubscriptionStatus → Bool
is_renewable SubscriptionStatus.active = true
is_renewable SubscriptionStatus.past_due = true
is_renewable SubscriptionStatus.trialing = true
is_renewable _ = false

abbrev pub is_paid : CycleStatus → Bool
is_paid CycleStatus.paid = true
is_paid _ = false

abbrev pub is_failed : CycleStatus → Bool
is_failed CycleStatus.failed = true
is_failed _ = false

-- The filter for a cycle of the period that has not failed
abbrev pub is_current : Subscription → SubscriptionCycle → Bool
is_current s c =
    (c.subscription_id == s.id)
    && eqb c.period_start s.current_period_start
    && not (is_failed c.status)

abbrev pub new_cycle : Subscription → Plan → String → SubscriptionCycle
new_cycle s plan id = record {
  id = id;
  subscription_id = s.id;
  period_start = s.current_period_start;
  period_end = s.current_period_end;
  amount = plan.amount;
  currency = plan.currency;
  status = CycleStatus.processing;
  invoice_id = none;
  attempt_count = 0;
}

abbrev pub has_cycle_id : String → SubscriptionCycle → Bool
has_cycle_id id c = c.id == id

abbrev pub update_cycle : String → (SubscriptionCycle → SubscriptionCycle) → Db → Db
update_cycle id f db = record db { cycles = update_where (has_cycle_id id) f db.cycles }

abbrev pub attempted : SubscriptionCycle → SubscriptionCycle
attempted c = record c { status = CycleStatus.processing; attempt_count = c.attempt_count + 1 }

abbrev pub invoiced : String → SubscriptionCycle → SubscriptionCycle
invoiced invoice_id c = record c { invoice_id = some invoice_id }

abbrev pub with_cycle_status : CycleStatus → SubscriptionCycle → SubscriptionCycle
with_cycle_status status c = record c { status = status }

abbrev pub advanced : Env → Plan → ℕ → Subscription → Subscription
advanced env plan period_end s = record s {
  status = SubscriptionStatus.active;
  current_period_start = period_end;
  current_period_end = calculate_next_period_end env period_end plan.interval plan.interval_count;
}

abbrev pub interval_text : PlanInterval → String
interval_text PlanInterval.daily = "DAILY"
interval_text PlanInterval.weekly = "WEEKLY"
interval_text PlanInterval.monthly = "MONTHLY"
interval_text PlanInterval.yearly = "YEARLY"

abbrev pub renewal_invoice : Subscription → Plan → GstConfig → CreateInvoiceDto
renewal_invoice s plan gst = record {
  tenant_id = s.tenant_id;
  customer_id = s.customer_id;
  currency = plan.currency;
  items =
      record {
        description =
            str_append plan.name
              (str_append " — " (str_append (interval_text plan.interval) " subscription"));
        quantity = whole (pos 1);
        unit_amount = plan.amount;
        gst_type = gst.gst_type;
        gst_rate = gst.gst_rate;
      }
      ∷ [];
  due_date = none;
  actor_id = "subscription-renewal-worker";
}

-- the `try` block
unfoldable pub bill_and_advance : Env → Subscription → Plan → String → Action (Unit {0})
unfolding log
bill_and_advance env s plan cycle_id = do
  invoice ← create_invoice env (renewal_invoice s plan (env.gst_config s.tenant_id))
  issue_invoice env invoice.id "subscription-renewal-worker"
  modify (update_cycle cycle_id (invoiced invoice.id))
  modify (update_subscription s.id (advanced env plan s.current_period_end))
  modify (update_cycle cycle_id (with_cycle_status CycleStatus.paid))
  log (record {
    tenant_id = s.tenant_id;
    actor = "subscription-renewal-worker";
    action = "SUBSCRIPTION_RENEWED";
    resource_type = "Subscription";
    resource_id = s.id;
  })

-- `isPastGracePeriod || exceedsRetries`
abbrev pub gives_up : Env → Subscription → ℕ → Bool
gives_up env s attempt_count =
    ltb (env.add_days s.current_period_end env.grace_period_days) env.now
    || leb env.subscription_max_retries attempt_count

-- the `catch` block
unfoldable pub settle_failure : Env → Subscription → String → Fault → Action (Unit {0})
settle_failure env s cycle_id e = do
  modify (update_cycle cycle_id (with_cycle_status CycleStatus.failed))
  found ← gets (λ db. find_first (has_cycle_id cycle_id) db.cycles)
  c ← require found
  modify (
      update_subscription s.id (
        with_status (
          if gives_up env s c.attempt_count
          then SubscriptionStatus.expired
          else SubscriptionStatus.past_due)))
  throw e

abbrev pub collect : Env → Subscription → Plan → String → Action (Unit {0})
collect env s plan cycle_id = do
  modify (update_cycle cycle_id attempted)
  catch (bill_and_advance env s plan cycle_id) (settle_failure env s cycle_id)

-- what follows the look-up of the period's cycle
abbrev pub renew : Env → Subscription → Plan → Option SubscriptionCycle → Action (Unit {0})
renew env s plan (some c) = if is_paid c.status then pure tt else collect env s plan c.id
renew env s plan none = do
  cycle ← gets (λ db. new_cycle s plan (env.uuid db.issued))
  modify (λ db. record db { issued = suc db.issued; cycles = cycle ∷ db.cycles })
  collect env s plan cycle.id

unfoldable pub process_renewal : Env → String → Action (Unit {0})
unfolding find_by_id
process_renewal env subscription_id = do
  s ← find_by_id subscription_id none
  throw_if (not (is_renewable s.status)) (bad_request ErrorCode.subscription_not_renewable)
  found ← gets (λ db. find_first (λ p. p.id == s.plan_id) db.plans)
  plan ← require found
  existing ← gets (λ db. find_first (is_current s) db.cycles)
  renew env s plan existing
