-- ===== src/Ledger/Balances.antt =====
-- Account balances (`getAccountBalance`) under the entries that payments and refunds append.
use payment_microservice.Prelude.{
  negsuc, zero, suc, ==_refl, ℕ, String, true, ◌&&◌, Option, none, some, List, [], ◌∷◌, ◌++◌, ℤ,
  pos, ◌+ℤ◌, ◌-ℤ◌, int_laws, ◌==◌, ==_refl, if◌then◌else◌, find_many, ◌≡◌, arith, ◌≤ℤ◌, or_default,
}
use payment_microservice.Store.{LedgerEntry, Db, Env}
use payment_microservice.Ledger.{
  tax_entries, AccountBalance, net, tally, is_selected, get_account_balance, in_range,
  RecordPaymentInput, base_amount, payment_entries, record_payment,
}

-- What one entry adds to the net balance of an account.
abbrev pub contribution : String → LedgerEntry → ℤ
contribution account e =
    (if e.debit_account == account then e.amount else pos 0)
    -ℤ (if e.credit_account == account then e.amount else pos 0)

-- The net balance as a sum over all entries of a currency and a time range.
unfoldable pub net_of : String → String → Option ℕ → Option ℕ → List LedgerEntry → ℤ
net_of account currency from to [] = pos 0
net_of account currency from to (e ∷ es) =
    let rest = net_of account currency from to es in
    if (e.currency == currency) && in_range from to e.created_at
    then contribution account e +ℤ rest
    else rest

tally-net :
    (account currency : String) (from to : Option ℕ) (es : List LedgerEntry) (acc : AccountBalance)
    → net (tally account (find_many (is_selected account currency from to) es) acc)
      ≡ net acc +ℤ net_of account currency from to es
unfolding tally find_many net_of
tally-net account currency from to [] acc = omega int_laws
tally-net account currency from to (e ∷ es) acc = grind (
  int_laws,
  tally-net account currency from to es acc,
  tally-net account currency from to es (record acc { debit = acc.debit +ℤ e.amount }),
  tally-net account currency from to es (record acc { credit = acc.credit +ℤ e.amount }),
  tally-net account currency from to es
      (record { debit = acc.debit +ℤ e.amount; credit = acc.credit +ℤ e.amount }),
)

-- `getAccountBalance` computes the net balance that the sum over the entries defines.
pub net-get_account_balance :
    (account currency : String) (from to : Option ℕ) (es : List LedgerEntry)
    → net (get_account_balance account currency from to es) ≡ net_of account currency from to es
unfolding get_account_balance
net-get_account_balance account currency from to es =
    rw (tally-net account currency from to es (record { debit = pos 0; credit = pos 0 }))
      (omega int_laws)

-- The net balance of an account in the ledger of a database.
abbrev pub balance : String → String → Option ℕ → Option ℕ → Db → ℤ
balance account currency from to db =
    net (get_account_balance account currency from to db.ledger_entries)

-- A tax amount as `recordPayment` is meant to be called: absent, or not negative.
abbrev pub IsTax : Option ℤ → Type 0
IsTax none = Unit
IsTax (some t) = pos 0 ≤ℤ t

-- The five accounts' balances under the tax entry.
tax_entries-net_of :
    (now : ℕ) (input : RecordPaymentInput) (tax : Option ℤ) (from to : Option ℕ)
    (rest : List LedgerEntry)
    → in_range from to now ≡ true
    → IsTax tax
    → let with_tax = tax_entries now input tax ++ rest in
      (net_of "ACCOUNTS_RECEIVABLE" input.currency from to with_tax
        ≡ net_of "ACCOUNTS_RECEIVABLE" input.currency from to rest +ℤ or_default tax (pos 0))
      × (net_of "TAX_PAYABLE" input.currency from to with_tax
          ≡ net_of "TAX_PAYABLE" input.currency from to rest -ℤ or_default tax (pos 0))
      × (net_of "REVENUE" input.currency from to with_tax
          ≡ net_of "REVENUE" input.currency from to rest)
      × (net_of "CASH" input.currency from to with_tax ≡ net_of "CASH" input.currency from to rest)
      × (net_of "REFUND_LIABILITY" input.currency from to with_tax
          ≡ net_of "REFUND_LIABILITY" input.currency from to rest)
      × (base_amount input.amount tax ≡ input.amount -ℤ or_default tax (pos 0))
unfolding net_of ◌==◌
tax_entries-net_of now input none from to rest r h = omega int_laws
tax_entries-net_of now input (some (pos zero)) from to rest r h = omega int_laws
tax_entries-net_of now input (some (pos (suc n))) from to rest r h =
    simp (==_refl, r) (omega int_laws)
tax_entries-net_of now input (some (negsuc n)) from to rest r h = absurd (omega arith)

module _ (env : Env) (input : RecordPaymentInput) (db : Db) (from to : Option ℕ)
    (now_in_range : in_range from to env.now ≡ true) where
  abbrev after_payment : Db
  after_payment = (record_payment env input db).1

  -- If the period holds the present and the tax amount is absent or not negative, `recordPayment`
  -- raises the net balance of ACCOUNTS_RECEIVABLE by the whole amount and lowers REVENUE by the
  -- amount less the tax, TAX_PAYABLE by the tax, and leaves CASH and REFUND_LIABILITY as they were.
  pub record_payment-balances :
      IsTax input.tax_amount
      → (balance "ACCOUNTS_RECEIVABLE" input.currency from to after_payment
          ≡ balance "ACCOUNTS_RECEIVABLE" input.currency from to db +ℤ input.amount)
        × (balance "REVENUE" input.currency from to after_payment
            ≡ balance "REVENUE" input.currency from to db
              -ℤ (input.amount -ℤ or_default input.tax_amount (pos 0)))
        × (balance "TAX_PAYABLE" input.currency from to after_payment
            ≡ balance "TAX_PAYABLE" input.currency from to db
              -ℤ or_default input.tax_amount (pos 0))
        × (balance "CASH" input.currency from to after_payment
            ≡ balance "CASH" input.currency from to db)
        × (balance "REFUND_LIABILITY" input.currency from to after_payment
            ≡ balance "REFUND_LIABILITY" input.currency from to db)
  unfolding record_payment payment_entries net_of ◌==◌
  record_payment-balances h =
      let (ar, tax, revenue, cash, liability, base) =
        tax_entries-net_of env.now input input.tax_amount from to db.ledger_entries now_in_range
          h in
      simp (net-get_account_balance, ==_refl, now_in_range)
        (rw (ar, tax, revenue, cash, liability, base) (omega int_laws))
