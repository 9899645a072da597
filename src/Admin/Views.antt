-- ===== src/Admin/Views.antt =====
-- `AdminController` (src/modules/admin/admin.controller.ts): the dashboard and the view of a
-- subscription.
use payment_microservice.Prelude.{
  ℕ, zero, suc, String, Bool, ◌&&◌, Option, List, [], ◌∷◌, ℤ, pos, ◌+ℤ◌, ◌==◌, eqb, if◌then◌else◌,
  find_first, find_many, count_where, take,
}
use payment_microservice.Store.{
  Transaction, TransactionStatus, Refund, Invoice, InvoiceStatus, Subscription, SubscriptionStatus,
  SubscriptionCycle, Plan, AuditLog, Db, Action, gets, require, ◌>>=◌,
}
use payment_microservice.Admin.{transaction_rank, invoice_rank, subscription_rank}
use mathlib.Core.List.{reverse}

-- `_count.id` and `_sum` of the rows with a status; the sum of none is 0
pub record Group (S : Type 0) : Type 0 where
  pub status : S
  pub count : ℕ
  pub total_amount : ℤ

abbrev pub add_group : {S : Type 0} → ℕ → S → ℤ → List (Group S) → List (Group S)
add_group zero s total rest = rest
add_group (suc n) s total rest = record { status = s; count = suc n; total_amount = total } ∷ rest

module _ {R S : Type 0} (rank : S → ℕ) (status : R → S) where
  abbrev pub has_status : S → R → Bool
  has_status s r = eqb (rank (status r)) (rank s)

  unfoldable pub sum_of : (R → ℤ) → S → List R → ℤ
  sum_of amount s [] = pos 0
  sum_of amount s (r ∷ rs) =
      let rest = sum_of amount s rs in if has_status s r then amount r +ℤ rest else rest

  -- `groupBy` the status: a group for each status that some row has
  unfoldable pub group_by : (R → ℤ) → List S → List R → List (Group S)
  group_by amount [] rows = []
  group_by amount (s ∷ statuses) rows =
      add_group (count_where (has_status s) rows) s (sum_of amount s rows)
        (group_by amount statuses rows)

abbrev pub transaction_statuses : List TransactionStatus
transaction_statuses =
    TransactionStatus.pending ∷ TransactionStatus.processing ∷ TransactionStatus.success
    ∷ TransactionStatus.failed ∷ TransactionStatus.refunded ∷ TransactionStatus.partially_refunded
    ∷ TransactionStatus.void ∷ []

abbrev pub invoice_statuses : List InvoiceStatus
invoice_statuses =
    InvoiceStatus.draft ∷ InvoiceStatus.issued ∷ InvoiceStatus.paid ∷ InvoiceStatus.failed
    ∷ InvoiceStatus.void ∷ []

pub record Dashboard : Type 0 where
  pub transactions_total : ℕ
  pub transactions_by_status : List (Group TransactionStatus)
  pub refunds_total : ℕ
  pub refunds_total_amount : ℤ
  pub active_subscriptions : ℕ
  pub past_due_subscriptions : ℕ
  pub invoices : List (Group InvoiceStatus)

abbrev pub sum_refunds : List Refund → ℤ
sum_refunds [] = pos 0
sum_refunds (r ∷ rs) = r.amount +ℤ sum_refunds rs

abbrev pub has_subscription_status : String → SubscriptionStatus → Subscription → Bool
has_subscription_status tenant_id status s =
    (s.tenant_id == tenant_id) && eqb (subscription_rank s.status) (subscription_rank status)

abbrev pub of_tenant : String → Transaction → Bool
of_tenant tenant_id t = t.tenant_id == tenant_id

unfoldable pub dashboard : String → Db → Dashboard
dashboard tenant_id db =
    let refunds = find_many (λ (r : Refund). r.tenant_id == tenant_id) db.refunds in
    record {
      transactions_total = count_where (of_tenant tenant_id) db.transactions;
      transactions_by_status =
          group_by transaction_rank (λ (t : Transaction). t.status) (λ (t : Transaction). t.amount)
            transaction_statuses (find_many (of_tenant tenant_id) db.transactions);
      refunds_total = count_where (λ (r : Refund). r.tenant_id == tenant_id) db.refunds;
      refunds_total_amount = sum_refunds refunds;
      active_subscriptions =
          count_where (has_subscription_status tenant_id SubscriptionStatus.active)
            db.subscriptions;
      past_due_subscriptions =
          count_where (has_subscription_status tenant_id SubscriptionStatus.past_due)
            db.subscriptions;
      invoices =
          group_by invoice_rank (λ (i : Invoice). i.status) (λ (i : Invoice). i.total_amount)
            invoice_statuses (find_many (λ (i : Invoice). i.tenant_id == tenant_id) db.invoices);
    }

-- `AuditService.findByResource`, of which the newest 50
abbrev pub find_by_resource : String → String → String → Db → List AuditLog
find_by_resource tenant_id resource_type resource_id db = take 50 (
    find_many
      (λ (a : AuditLog).
        (a.tenant_id == tenant_id)
        && (a.resource_type == resource_type)
        && (a.resource_id == resource_id))
      db.audit_logs)

pub record SubscriptionView : Type 0 where
  pub subscription : Subscription
  pub plan : Option Plan
  pub cycles : List SubscriptionCycle
  pub audit : List AuditLog

-- `findFirstOrThrow`, with the plan and the cycles, the oldest first
unfoldable pub get_subscription : String → String → Action SubscriptionView
get_subscription id tenant_id = do
  found ← gets (λ db.
      find_first (λ (s : Subscription). (s.id == id) && (s.tenant_id == tenant_id))
        db.subscriptions)
  s ← require found
  gets (λ db. record {
    subscription = s;
    plan = find_first (λ (p : Plan). p.id == s.plan_id) db.plans;
    cycles = reverse (find_many (λ (c : SubscriptionCycle). c.subscription_id == s.id) db.cycles);
    audit = find_by_resource tenant_id "Subscription" id db;
  })
