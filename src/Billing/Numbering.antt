-- ===== src/Billing/Numbering.antt =====
-- Invoice numbers: they count up for each tenant, so `createInvoice` never runs into the constraint.
use payment_microservice.Prelude.{
  ℕ, suc, ◌+◌, String, Bool, true, false, ◌&&◌, none, List, [], ◌∷◌, ◌≡◌, refl, arith, ◌==◌, ==_iff,
  ap, Bool-cases, inl, inr, ltb, find_first, count_where, if◌then◌else◌,
}
use payment_microservice.Store.{Invoice, Db, ok, err, provider_fault, Env}
use payment_microservice.Billing.{
  CreateInvoiceDto, create_invoice, generate_invoice_number, new_invoice, of_tenant, has_number,
  has_whole_quantities,
}

-- A tenant's invoice with a number above n
abbrev pub is_above : String → ℕ → Invoice → Bool
is_above tenant_id n i = of_tenant tenant_id i && ltb n i.invoice_number.sequence

-- No number of a tenant is above the number of its invoices.
abbrev pub IsNumbered : String → Db → Type 0
IsNumbered tenant_id db =
    count_where (is_above tenant_id (count_where (of_tenant tenant_id) db.invoices)) db.invoices ≡ 0

pub next_number-find_first :
    (tenant_id : String) (year month n : ℕ) (rows : List Invoice)
    → count_where (is_above tenant_id n) rows ≡ 0
    → find_first
        (has_number tenant_id (record { year = year; month = month; sequence = n + 1 }))
        rows
      ≡ none
unfolding find_first count_where
next_number-find_first tenant_id year month n [] h = refl
next_number-find_first tenant_id year month n (i ∷ rows) h =
    grind (arith, next_number-find_first tenant_id year month n rows)

above_next :
    (tenant_id : String) (n : ℕ) (rows : List Invoice)
    → count_where (is_above tenant_id n) rows ≡ 0
    → count_where (is_above tenant_id (suc n)) rows ≡ 0
unfolding count_where
above_next tenant_id n [] h = refl
above_next tenant_id n (i ∷ rows) h = grind (arith, above_next tenant_id n rows)

create_invoice-fresh :
    (env : Env) (dto : CreateInvoiceDto) (db : Db)
    → has_whole_quantities dto.items ≡ true
    → let number = generate_invoice_number env dto.tenant_id db in
      find_first (has_number dto.tenant_id number) db.invoices ≡ none
      → ((create_invoice env dto db).0 ≡ ok (new_invoice env dto number db))
        × ((create_invoice env dto db).1.invoices ≡ new_invoice env dto number db ∷ db.invoices)
unfolding create_invoice
create_invoice-fresh env dto db whole_items fresh = rw (whole_items, fresh) (refl, refl)

create_invoice-fraction :
    (env : Env) (dto : CreateInvoiceDto) (db : Db)
    → has_whole_quantities dto.items ≡ false
    → create_invoice env dto db ≡ (err (provider_fault "RangeError"), db)
unfolding create_invoice
create_invoice-fraction env dto db fractional = rw fractional refl

-- One more invoice with the next number of its tenant
next_row-above :
    (tenant_id : String) (row : Invoice) (n : ℕ) (rows : List Invoice)
    → (row.tenant_id == tenant_id) ≡ true
    → row.invoice_number.sequence ≡ suc n
    → count_where (is_above tenant_id n) rows ≡ 0
    → count_where (is_above tenant_id (suc n)) (row ∷ rows) ≡ 0
unfolding count_where
next_row-above tenant_id row n rows same number h = ground (arith, above_next tenant_id n rows h)

other_row-above :
    (tenant_id : String) (row : Invoice) (n : ℕ) (rows : List Invoice)
    → (row.tenant_id == tenant_id) ≡ false
    → count_where (is_above tenant_id n) rows ≡ 0
    → count_where (is_above tenant_id n) (row ∷ rows) ≡ 0
unfolding count_where
other_row-above tenant_id row n rows different h = rw different h

more_of :
    (tenant_id : String) (row : Invoice) (rows : List Invoice)
    → (row.tenant_id == tenant_id) ≡ true
    → count_where (of_tenant tenant_id) (row ∷ rows) ≡ suc (count_where (of_tenant tenant_id) rows)
unfolding count_where
more_of tenant_id row rows same = rw same refl

same_of :
    (tenant_id : String) (row : Invoice) (rows : List Invoice)
    → (row.tenant_id == tenant_id) ≡ false
    → count_where (of_tenant tenant_id) (row ∷ rows) ≡ count_where (of_tenant tenant_id) rows
unfolding count_where
same_of tenant_id row rows different = rw different refl

own_number :
    (env : Env) (dto : CreateInvoiceDto) (tenant_id : String) (db : Db)
    → (dto.tenant_id == tenant_id) ≡ true
    → (generate_invoice_number env dto.tenant_id db).sequence
      ≡ suc (count_where (of_tenant tenant_id) db.invoices)
unfolding generate_invoice_number
own_number env dto tenant_id db same =
    let tenants = ap (λ t. count_where (of_tenant t) db.invoices) ((==_iff _ _).0 same) in
    omega (arith, tenants)

insert-IsNumbered :
    (env : Env) (dto : CreateInvoiceDto) (db : Db) (tenant_id : String)
    → count_where (is_above tenant_id (count_where (of_tenant tenant_id) db.invoices)) db.invoices
      ≡ 0
    → let rows =
        new_invoice env dto (generate_invoice_number env dto.tenant_id db) db ∷ db.invoices in
      count_where (is_above tenant_id (count_where (of_tenant tenant_id) rows)) rows ≡ 0
insert-IsNumbered env dto db tenant_id h =
    let row = new_invoice env dto (generate_invoice_number env dto.tenant_id db) db in
    elim (Bool-cases (dto.tenant_id == tenant_id)) [
      | inl same ↦ rw (more_of tenant_id row db.invoices same) (
          next_row-above tenant_id row (count_where (of_tenant tenant_id) db.invoices) db.invoices
            same (own_number env dto tenant_id db same) h)
      | inr different ↦ rw (same_of tenant_id row db.invoices different) (
          other_row-above tenant_id row (count_where (of_tenant tenant_id) db.invoices) db.invoices
            different h)
    ]

-- While no number of the tenant is above the number of its invoices, `createInvoice` succeeds with the
-- next number where all quantities are whole, and throws a RangeError where one is not; and in either
-- case no number of any tenant for which this held is above the number of its invoices afterwards.
pub create_invoice-IsNumbered :
    (env : Env) (dto : CreateInvoiceDto) (db : Db) (tenant_id : String)
    → IsNumbered dto.tenant_id db
    → IsNumbered tenant_id db
    → ((create_invoice env dto db).0 ≡ (
        if has_whole_quantities dto.items
        then ok (new_invoice env dto (generate_invoice_number env dto.tenant_id db) db)
        else err (provider_fault "RangeError")))
      × IsNumbered tenant_id (create_invoice env dto db).1
unfolding generate_invoice_number
create_invoice-IsNumbered env dto db tenant_id own h =
    elim (Bool-cases (has_whole_quantities dto.items)) [
      | inr fractional ↦
          let refused = create_invoice-fraction env dto db fractional in
          (rw (refused, fractional) refl, rw refused h)
      | inl whole_items ↦
          let (made, rows) = create_invoice-fresh env dto db whole_items (
            next_number-find_first dto.tenant_id env.year env.month
              (count_where (of_tenant dto.tenant_id) db.invoices) db.invoices own) in
          (rw whole_items made, rw rows (insert-IsNumbered env dto db tenant_id h))
    ]
