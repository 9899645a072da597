-- ===== src/Billing/Totals.antt =====
-- The totals of an invoice.
use payment_microservice.Prelude.{
  Option, none, some, List, [], ◌∷◌, map, ℤ, pos, ◌+ℤ◌, ◌*ℤ◌, int_laws, ◌≡◌, or_default,
  Option-cases, Bool-cases, inl, inr, find_first, subst,
}
use payment_microservice.Store.{Invoice, InvoiceItem, InvoiceNumber, Db, ok, Env, GstType, Rate}
use payment_microservice.Billing.{
  count_of, has_whole_quantities, InvoiceItemInput, CreateInvoiceDto, create_invoice,
  calculate_item, sum_by, item_row, new_invoice, generate_invoice_number, has_number, item_amounts,
}

-- The sum of the amounts of the items that are kept.
unfoldable pub amount_of : List InvoiceItem → ℤ
amount_of [] = pos 0
amount_of (i ∷ items) = i.amount +ℤ amount_of items

-- The taxes of one item that is kept.
abbrev pub tax_of : InvoiceItem → ℤ
tax_of i =
    or_default i.cgst_amount (pos 0)
    +ℤ or_default i.sgst_amount (pos 0)
    +ℤ or_default i.igst_amount (pos 0)

unfoldable pub taxes_of : List InvoiceItem → ℤ
taxes_of [] = pos 0
taxes_of (i ∷ items) = tax_of i +ℤ taxes_of items

total_tax-parts :
    (env : Env) (amount : ℤ) (gst_type : Option GstType) (gst_rate : Option Rate)
    → let a = item_amounts env amount gst_type gst_rate in
      or_default a.cgst_amount (pos 0)
        +ℤ or_default a.sgst_amount (pos 0)
        +ℤ or_default a.igst_amount (pos 0)
      ≡ a.total_tax
total_tax-parts env amount gst_type none = omega int_laws
total_tax-parts env amount none (some rate) = grind int_laws
total_tax-parts env amount (some GstType.intra) (some rate) = grind int_laws
total_tax-parts env amount (some GstType.inter) (some rate) = grind int_laws

item_row-tax :
    (env : Env) (item : InvoiceItemInput)
    → tax_of (item_row env item) ≡ (calculate_item env item).total_tax
unfolding calculate_item
item_row-tax env item =
    total_tax-parts env (count_of item.quantity *ℤ item.unit_amount) item.gst_type item.gst_rate

sum_by-amount :
    (env : Env) (items : List InvoiceItemInput) (sum : ℤ)
    → sum_by (λ i. i.amount) sum (map (calculate_item env) items)
      ≡ sum +ℤ amount_of (map (item_row env) items)
unfolding sum_by amount_of
sum_by-amount env [] sum = omega int_laws
sum_by-amount env (item ∷ items) sum =
    rw (sum_by-amount env items (sum +ℤ (calculate_item env item).amount)) (omega int_laws)

sum_by-tax :
    (env : Env) (items : List InvoiceItemInput) (sum : ℤ)
    → sum_by (λ i. i.total_tax) sum (map (calculate_item env) items)
      ≡ sum +ℤ taxes_of (map (item_row env) items)
unfolding sum_by taxes_of
sum_by-tax env [] sum = omega int_laws
sum_by-tax env (item ∷ items) sum =
    rw (sum_by-tax env items (sum +ℤ (calculate_item env item).total_tax), ← item_row-tax env item)
      (omega int_laws)

new_invoice-totals :
    (env : Env) (dto : CreateInvoiceDto) (number : InvoiceNumber) (db : Db)
    → let invoice = new_invoice env dto number db in
      (invoice.subtotal ≡ amount_of invoice.items)
      × (invoice.tax_amount ≡ taxes_of invoice.items)
      × (invoice.total_amount ≡ amount_of invoice.items +ℤ taxes_of invoice.items)
new_invoice-totals env dto number db =
    let amounts = sum_by-amount env dto.items (pos 0) in
    let taxes = sum_by-tax env dto.items (pos 0) in
    rw (amounts, taxes) (omega int_laws, omega int_laws, omega int_laws)

create_invoice-row :
    (env : Env) (dto : CreateInvoiceDto) (db : Db) {invoice : Invoice}
    → (create_invoice env dto db).0 ≡ ok invoice
    → new_invoice env dto (generate_invoice_number env dto.tenant_id db) db ≡ invoice
unfolding create_invoice
create_invoice-row env dto db = elim (Bool-cases (has_whole_quantities dto.items)) [
  | inr fractional ↦ rw fractional (λ made. cc)
  | inl whole_items ↦
      elim (Option-cases (
        find_first (has_number dto.tenant_id (generate_invoice_number env dto.tenant_id db))
          db.invoices)) [
            | inl absent ↦ rw (whole_items, absent) (λ made. cc)
            | inr (i, found) ↦ rw (whole_items, found) (λ made. cc)
          ]
]

-- An invoice that `createInvoice` returns has as its subtotal the sum of its items' amounts, as its
-- tax the sum of their CGST, SGST and IGST amounts, and as its total the sum of both, whatever the
-- rounding.
pub create_invoice-totals :
    (env : Env) (dto : CreateInvoiceDto) (db : Db) {invoice : Invoice}
    → (create_invoice env dto db).0 ≡ ok invoice
    → (invoice.subtotal ≡ amount_of invoice.items)
      × (invoice.tax_amount ≡ taxes_of invoice.items)
      × (invoice.total_amount ≡ amount_of invoice.items +ℤ taxes_of invoice.items)
create_invoice-totals env dto db made =
    subst
      (λ (i : Invoice).
        (i.subtotal ≡ amount_of i.items)
        × (i.tax_amount ≡ taxes_of i.items)
        × (i.total_amount ≡ amount_of i.items +ℤ taxes_of i.items))
      (create_invoice-row env dto db made)
      (new_invoice-totals env dto (generate_invoice_number env dto.tenant_id db) db)
