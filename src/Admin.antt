-- ===== src/Admin.antt =====
-- The lists of `AdminController` (src/modules/admin/admin.controller.ts), whose guards are in
-- Http/Guards. A list gives its rows without the rows of other tables that the code includes. Pages
-- count from 1 and limits are not negative; for a page below 1 the database refuses the negative
-- `skip`.
pub mod Pages
pub mod Views
pub mod Totals
use payment_microservice.Prelude.{
  ℕ, zero, suc, ◌+◌, ◌-◌, ◌*◌, ◌/◌, String, Bool, true, false, not, eqb, ◌&&◌, Option, none, some,
  List, map, ◌==◌, truthy, if◌then◌else◌, find_many, count_where, take, drop,
}
use payment_microservice.Store.{
  Transaction, TransactionStatus, Refund, RefundStatus, Invoice, InvoiceStatus, Subscription,
  SubscriptionStatus, WebhookLog, LedgerEntry, AuditLog, Provider, Db, Outcome, ok, err,
  provider_fault, Env, is_same_provider,
}
use payment_microservice.Subscription.{restricts}

pub record Page (A : Type 0) : Type 0 where
  pub rows : List A
  pub total : ℕ
  pub page : ℕ
  pub limit : ℕ
  -- `Math.ceil(total / limit)`; no number where the limit is 0
  pub pages : Option ℕ

abbrev pub page_count : ℕ → ℕ → Option ℕ
page_count total zero = none
page_count total (suc l) = some ((total + l) / suc l)

-- `findMany` with `skip` and `take`, and `count`
unfoldable pub paginate : {A : Type 0} → (A → Bool) → List A → ℕ → ℕ → Outcome (Page A)
paginate matches rows zero limit = err (provider_fault "Invalid value for skip argument")
paginate matches rows (suc before) limit = ok (record {
  rows = take limit (drop (before * limit) (find_many matches rows));
  total = count_where matches rows;
  page = suc before;
  limit = limit;
  pages = page_count (count_where matches rows) limit;
})

-- the statuses, numbered to be compared
abbrev pub transaction_rank : TransactionStatus → ℕ
transaction_rank TransactionStatus.pending = 0
transaction_rank TransactionStatus.processing = 1
transaction_rank TransactionStatus.success = 2
transaction_rank TransactionStatus.failed = 3
transaction_rank TransactionStatus.refunded = 4
transaction_rank TransactionStatus.partially_refunded = 5
transaction_rank TransactionStatus.void = 6

abbrev pub refund_rank : RefundStatus → ℕ
refund_rank RefundStatus.pending = 0
refund_rank RefundStatus.processing = 1
refund_rank RefundStatus.success = 2
refund_rank RefundStatus.failed = 3

abbrev pub invoice_rank : InvoiceStatus → ℕ
invoice_rank InvoiceStatus.draft = 0
invoice_rank InvoiceStatus.issued = 1
invoice_rank InvoiceStatus.paid = 2
invoice_rank InvoiceStatus.failed = 3
invoice_rank InvoiceStatus.void = 4

abbrev pub subscription_rank : SubscriptionStatus → ℕ
subscription_rank SubscriptionStatus.trialing = 0
subscription_rank SubscriptionStatus.active = 1
subscription_rank SubscriptionStatus.past_due = 2
subscription_rank SubscriptionStatus.cancelled = 3
subscription_rank SubscriptionStatus.expired = 4

-- a filter that is left out where there is no value
abbrev pub is_asked : {A : Type 0} → (A → ℕ) → Option A → A → Bool
is_asked rank none value = true
is_asked rank (some wanted) value = eqb (rank value) (rank wanted)

abbrev pub is_listed_transaction :
    String → Option TransactionStatus → Option String → Option String → Transaction → Bool
is_listed_transaction tenant_id status customer_id currency t =
    (t.tenant_id == tenant_id)
    && is_asked transaction_rank status t.status
    && restricts customer_id t.customer_id
    && restricts currency t.currency

unfoldable pub list_transactions :
    String
    → ℕ
    → ℕ
    → Option TransactionStatus
    → Option String
    → Option String
    → Db
    → Outcome (Page Transaction)
unfolding paginate
list_transactions tenant_id page limit status customer_id currency db =
    paginate (is_listed_transaction tenant_id status customer_id currency) db.transactions page
      limit

-- Every tenant's entries: the route does not ask for the tenant.
unfoldable pub get_transaction_ledger : String → Db → List LedgerEntry
get_transaction_ledger id db = find_many (λ e. e.transaction_id == id) db.ledger_entries

abbrev pub is_listed_refund : String → Option RefundStatus → Refund → Bool
is_listed_refund tenant_id status r =
    (r.tenant_id == tenant_id) && is_asked refund_rank status r.status

unfoldable pub list_refunds : String → ℕ → ℕ → Option RefundStatus → Db → Outcome (Page Refund)
unfolding paginate
list_refunds tenant_id page limit status db =
    paginate (is_listed_refund tenant_id status) db.refunds page limit

abbrev pub is_listed_invoice : String → Option InvoiceStatus → Option String → Invoice → Bool
is_listed_invoice tenant_id status customer_id v =
    (v.tenant_id == tenant_id)
    && is_asked invoice_rank status v.status
    && restricts customer_id v.customer_id

unfoldable pub list_invoices :
    String → ℕ → ℕ → Option InvoiceStatus → Option String → Db → Outcome (Page Invoice)
unfolding paginate
list_invoices tenant_id page limit status customer_id db =
    paginate (is_listed_invoice tenant_id status customer_id) db.invoices page limit

abbrev pub is_listed_subscription :
    String → Option SubscriptionStatus → Option String → Subscription → Bool
is_listed_subscription tenant_id status customer_id s =
    (s.tenant_id == tenant_id)
    && is_asked subscription_rank status s.status
    && restricts customer_id s.customer_id

unfoldable pub list_subscriptions :
    String → ℕ → ℕ → Option SubscriptionStatus → Option String → Db → Outcome (Page Subscription)
unfolding paginate
list_subscriptions tenant_id page limit status customer_id db =
    paginate (is_listed_subscription tenant_id status customer_id) db.subscriptions page limit

-- `provider?.toUpperCase()` restricts where it is STRIPE or RAZORPAY.
abbrev pub is_asked_provider : Env → Option String → Provider → Bool
is_asked_provider env none p = true
is_asked_provider env (some query) p =
    if env.to_upper query == "STRIPE"
    then is_same_provider p Provider.stripe
    else if env.to_upper query == "RAZORPAY"
    then is_same_provider p Provider.razorpay
    else true

-- `processed === 'true'`, where it is given
abbrev pub is_asked_processed : Option String → Bool → Bool
is_asked_processed none processed = true
is_asked_processed (some query) processed = if query == "true" then processed else not processed

abbrev pub is_listed_webhook : Env → Option String → Option String → WebhookLog → Bool
is_listed_webhook env provider processed w =
    is_asked_provider env provider w.provider && is_asked_processed processed w.is_processed

-- Every tenant's deliveries; the columns that the code selects leave out the payload.
unfoldable pub list_webhooks :
    Env → ℕ → ℕ → Option String → Option String → Db → Outcome (Page WebhookLog)
unfolding paginate
list_webhooks env page limit provider processed db =
    paginate (is_listed_webhook env provider processed) db.webhook_logs page limit

abbrev pub is_listed_audit :
    String → Option String → Option String → Option String → AuditLog → Bool
is_listed_audit tenant_id actor resource_type action a =
    (a.tenant_id == tenant_id)
    && restricts actor a.actor
    && restricts resource_type a.resource_type
    && restricts action a.action

unfoldable pub list_audit_logs :
    String → ℕ → ℕ → Option String → Option String → Option String → Db → Outcome (Page AuditLog)
unfolding paginate
list_audit_logs tenant_id page limit actor resource_type action db =
    paginate (is_listed_audit tenant_id actor resource_type action) db.audit_logs page limit
