-- ===== src/Billing.antt =====
-- `BillingService` (src/modules/billing/billing.service.ts).
pub mod Numbering
pub mod Totals
use payment_microservice.Prelude.{
  take, drop, ◌-◌, ◌*◌, find_many, ℕ, suc, ◌+◌, ◌*◌, String, Bool, true, false, not, ◌&&◌, Option,
  none, some, List, [], ◌∷◌, map, ℤ, pos, ◌+ℤ◌, ◌*ℤ◌, ◌==◌, eqb, is_some, ltb, if◌then◌else◌,
  find_first, update_where, count_where,
}
use payment_microservice.Store.{
  Invoice, InvoiceItem, InvoiceNumber, InvoiceStatus, ErrorCode, Db, bad_request, not_found,
  unique_violation, provider_fault, Action, pure, gets, modify, or_throw, require, throw_if,
  with_transaction, ◌>>=◌, ◌>>◌, Env, Rate, GstType,
}
use payment_microservice.Audit.{log}

-- A JavaScript number as `BigInt` takes it: it throws a RangeError for one with a fractional part.
pub data Quantity : Type 0 where
  whole : ℤ → Quantity
  fraction : Quantity

pub record InvoiceItemInput : Type 0 where
  pub description : String
  pub quantity : Quantity
  pub unit_amount : ℤ
  pub gst_type : Option GstType
  pub gst_rate : Option Rate

pub record CreateInvoiceDto : Type 0 where
  pub tenant_id : String
  pub customer_id : String
  pub currency : String
  pub items : List InvoiceItemInput
  pub due_date : Option ℕ
  pub actor_id : String

-- What `calculateItem` returns of the amounts; the other fields are the input's.
pub record ItemAmounts : Type 0 where
  pub amount : ℤ
  pub cgst_amount : Option ℤ
  pub sgst_amount : Option ℤ
  pub igst_amount : Option ℤ
  pub total_tax : ℤ

-- amount · rate / 100, rounded
unfoldable pub calculate_tax : Env → ℤ → Rate → ℤ
calculate_tax env amount rate = env.round_half_up (amount *ℤ pos rate.num) (rate.den * 100)

-- `rate / 2`
abbrev pub half_rate : Rate → Rate
half_rate rate = record rate { den = rate.den * 2 }

abbrev pub untaxed : ℤ → ItemAmounts
untaxed amount = record {
  amount = amount;
  cgst_amount = none;
  sgst_amount = none;
  igst_amount = none;
  total_tax = pos 0;
}

abbrev pub taxed : Env → ℤ → Rate → Option GstType → ItemAmounts
taxed env amount rate (some GstType.inter) =
    let igst = calculate_tax env amount rate in
    record {
      amount = amount;
      cgst_amount = none;
      sgst_amount = none;
      igst_amount = some igst;
      total_tax = igst;
    }
taxed env amount rate intra_or_none =
    let cgst = calculate_tax env amount (half_rate rate) in
    let sgst = calculate_tax env amount (half_rate rate) in
    record {
      amount = amount;
      cgst_amount = some cgst;
      sgst_amount = some sgst;
      igst_amount = none;
      total_tax = cgst +ℤ sgst;
    }

-- the test `item.gstRate && item.gstRate > 0`
abbrev pub item_amounts : Env → ℤ → Option GstType → Option Rate → ItemAmounts
item_amounts env amount gst_type none = untaxed amount
item_amounts env amount gst_type (some rate) =
    if ltb 0 rate.num then taxed env amount rate gst_type else untaxed amount

-- `BigInt(quantity)`; `create_invoice` has thrown before a fraction is read
abbrev pub count_of : Quantity → ℤ
count_of (whole n) = n
count_of fraction = pos 0

abbrev pub is_whole : Quantity → Bool
is_whole (whole n) = true
is_whole fraction = false

unfoldable pub has_whole_quantities : List InvoiceItemInput → Bool
has_whole_quantities [] = true
has_whole_quantities (item ∷ items) = is_whole item.quantity && has_whole_quantities items

unfoldable pub calculate_item : Env → InvoiceItemInput → ItemAmounts
calculate_item env item =
    item_amounts env (count_of item.quantity *ℤ item.unit_amount) item.gst_type item.gst_rate

-- `reduce((sum, i) => sum + f(i), 0n)`
unfoldable pub sum_by : (ItemAmounts → ℤ) → ℤ → List ItemAmounts → ℤ
sum_by f sum [] = sum
sum_by f sum (i ∷ items) = sum_by f (sum +ℤ f i) items

abbrev pub of_tenant : String → Invoice → Bool
of_tenant tenant_id i = i.tenant_id == tenant_id

-- INV-YYYYMM-XXXXXXXX: the year, the month, and the number of the tenant's invoices plus one
unfoldable pub generate_invoice_number : Env → String → Db → InvoiceNumber
generate_invoice_number env tenant_id db = record {
  year = env.year;
  month = env.month;
  sequence = count_where (of_tenant tenant_id) db.invoices + 1;
}

abbrev pub is_number : InvoiceNumber → InvoiceNumber → Bool
is_number a b = eqb a.year b.year && eqb a.month b.month && eqb a.sequence b.sequence

abbrev pub item_row : Env → InvoiceItemInput → InvoiceItem
item_row env item =
    let amounts = calculate_item env item in
    record {
      description = item.description;
      quantity = count_of item.quantity;
      unit_amount = item.unit_amount;
      amount = amounts.amount;
      cgst_amount = amounts.cgst_amount;
      sgst_amount = amounts.sgst_amount;
      igst_amount = amounts.igst_amount;
    }

-- The row that `createInvoice` writes, with its items
abbrev pub new_invoice : Env → CreateInvoiceDto → InvoiceNumber → Db → Invoice
new_invoice env dto number db =
    let processed = map (calculate_item env) dto.items in
    let subtotal = sum_by (λ i. i.amount) (pos 0) processed in
    let tax = sum_by (λ i. i.total_tax) (pos 0) processed in
    record {
      id = env.uuid db.issued;
      tenant_id = dto.tenant_id;
      invoice_number = number;
      customer_id = dto.customer_id;
      status = InvoiceStatus.draft;
      subtotal = subtotal;
      tax_amount = tax;
      total_amount = subtotal +ℤ tax;
      currency = dto.currency;
      due_date = dto.due_date;
      paid_at = none;
      items = map (item_row env) dto.items;
    }

abbrev pub has_number : String → InvoiceNumber → Invoice → Bool
has_number tenant_id number i = (i.tenant_id == tenant_id) && is_number i.invoice_number number

-- `tx.invoice.create` and `tx.invoiceItem.createMany`, under @@unique([tenantId, invoiceNumber])
unfoldable pub insert_invoice : Env → CreateInvoiceDto → InvoiceNumber → Action Invoice
insert_invoice env dto number = do
  clash ← gets (λ db. is_some (find_first (has_number dto.tenant_id number) db.invoices))
  throw_if clash unique_violation
  row ← gets (new_invoice env dto number)
  modify (λ db. record db { issued = suc db.issued; invoices = row ∷ db.invoices })
  pure row

unfoldable pub create_invoice : Env → CreateInvoiceDto → Action Invoice
unfolding insert_invoice log
create_invoice env dto = do
  number ← gets (generate_invoice_number env dto.tenant_id)
  throw_if (not (has_whole_quantities dto.items)) (provider_fault "RangeError")
  invoice ← with_transaction (insert_invoice env dto number)
  log (record {
    tenant_id = dto.tenant_id;
    actor = dto.actor_id;
    action = "INVOICE_CREATED";
    resource_type = "Invoice";
    resource_id = invoice.id;
  })
  pure invoice

abbrev pub has_id : String → Invoice → Bool
has_id id i = i.id == id

unfoldable pub find_by_id : String → Action Invoice
find_by_id id = do
  found ← gets (λ db. find_first (has_id id) db.invoices)
  or_throw found (not_found ErrorCode.invoice_not_found)

abbrev pub is_draft : InvoiceStatus → Bool
is_draft InvoiceStatus.draft = true
is_draft _ = false

abbrev pub is_paid : InvoiceStatus → Bool
is_paid InvoiceStatus.paid = true
is_paid _ = false

abbrev pub with_status : InvoiceStatus → Invoice → Invoice
with_status status i = record i { status = status }

abbrev pub update_invoice : String → (Invoice → Invoice) → Db → Db
update_invoice id f db = record db { invoices = update_where (has_id id) f db.invoices }

unfoldable pub issue_invoice : Env → String → String → Action Invoice
unfolding find_by_id log
issue_invoice env id actor_id = do
  invoice ← find_by_id id
  throw_if (if is_draft invoice.status then false else true)
      (bad_request ErrorCode.invoice_not_issuable)
  modify (update_invoice id (with_status InvoiceStatus.issued))
  log (record {
    tenant_id = invoice.tenant_id;
    actor = actor_id;
    action = "INVOICE_ISSUED";
    resource_type = "Invoice";
    resource_id = id;
  })
  pure (with_status InvoiceStatus.issued invoice)

abbrev pub paid_now : ℕ → Invoice → Invoice
paid_now now i = record i { status = InvoiceStatus.paid; paid_at = some now }

unfoldable pub mark_paid : Env → String → Action Invoice
mark_paid env id = do
  found ← gets (λ db. find_first (has_id id) db.invoices)
  invoice ← require found
  modify (update_invoice id (paid_now env.now))
  pure (paid_now env.now invoice)

unfoldable pub void_invoice : Env → String → String → Action Invoice
unfolding find_by_id log
void_invoice env id actor_id = do
  invoice ← find_by_id id
  throw_if (is_paid invoice.status) (bad_request ErrorCode.uncoded)
  modify (update_invoice id (with_status InvoiceStatus.void))
  log (record {
    tenant_id = invoice.tenant_id;
    actor = actor_id;
    action = "INVOICE_VOIDED";
    resource_type = "Invoice";
    resource_id = id;
  })
  pure (with_status InvoiceStatus.void invoice)

abbrev pub of_customer : String → String → Invoice → Bool
of_customer tenant_id customer_id i = (i.tenant_id == tenant_id) && (i.customer_id == customer_id)

-- A page of a customer's invoices, newest first, and their number. Pages count from 1.
unfoldable pub find_by_customer : String → String → ℕ → ℕ → Db → List Invoice × ℕ
find_by_customer tenant_id customer_id page limit db = (
  take limit
      (drop ((page - 1) * limit) (find_many (of_customer tenant_id customer_id) db.invoices)),
  count_where (of_customer tenant_id customer_id) db.invoices,
)
