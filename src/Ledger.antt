-- ===== src/Ledger.antt =====
-- `LedgerService` (src/modules/ledger/ledger.service.ts).
pub mod Balances
pub mod TrialBalance
use payment_microservice.Prelude.{
  ℕ, String, Bool, true, ◌&&◌, ◌||◌, Option, none, some, List, [], ◌∷◌, ◌++◌, ℤ, pos, ◌+ℤ◌, ◌-ℤ◌,
  is_positive, leb, truthy_ℤ, ◌==◌, if◌then◌else◌, find_many,
}
use payment_microservice.Store.{EntryType, LedgerEntry, Db, Action, gets, modify, ◌>>=◌, ◌>>◌, Env}
use Prim.Native.String.{◌++◌ as str_append}

pub record RecordPaymentInput : Type 0 where
  pub tenant_id : String
  pub transaction_id : String
  pub amount : ℤ
  pub currency : String
  pub description : String
  pub tax_amount : Option ℤ

pub record RecordRefundInput : Type 0 where
  pub tenant_id : String
  pub transaction_id : String
  pub amount : ℤ
  pub currency : String
  pub description : String

-- `input.taxAmount ? input.amount - input.taxAmount : input.amount`
abbrev pub base_amount : ℤ → Option ℤ → ℤ
base_amount amount none = amount
base_amount amount (some t) = if truthy_ℤ t then amount -ℤ t else amount

-- The second entry, where `input.taxAmount && input.taxAmount > 0n`
abbrev pub tax_entries : ℕ → RecordPaymentInput → Option ℤ → List LedgerEntry
tax_entries now input none = []
tax_entries now input (some t) =
    if truthy_ℤ t && is_positive t
    then record {
      tenant_id = input.tenant_id;
      transaction_id = input.transaction_id;
      type = EntryType.tax;
      debit_account = "ACCOUNTS_RECEIVABLE";
      credit_account = "TAX_PAYABLE";
      amount = t;
      currency = input.currency;
      description = str_append "Tax for " input.description;
      created_at = now;
    }
      ∷ []
    else []

unfoldable pub payment_entries : ℕ → RecordPaymentInput → List LedgerEntry
payment_entries now input =
    record {
      tenant_id = input.tenant_id;
      transaction_id = input.transaction_id;
      type = EntryType.payment;
      debit_account = "ACCOUNTS_RECEIVABLE";
      credit_account = "REVENUE";
      amount = base_amount input.amount input.tax_amount;
      currency = input.currency;
      description = input.description;
      created_at = now;
    }
    ∷ tax_entries now input input.tax_amount

unfoldable pub refund_entries : ℕ → RecordRefundInput → List LedgerEntry
refund_entries now input =
    record {
      tenant_id = input.tenant_id;
      transaction_id = input.transaction_id;
      type = EntryType.refund;
      debit_account = "REVENUE";
      credit_account = "ACCOUNTS_RECEIVABLE";
      amount = input.amount;
      currency = input.currency;
      description = input.description;
      created_at = now;
    }
    ∷ record {
      tenant_id = input.tenant_id;
      transaction_id = input.transaction_id;
      type = EntryType.refund;
      debit_account = "REFUND_LIABILITY";
      credit_account = "CASH";
      amount = input.amount;
      currency = input.currency;
      description = str_append "Cash refunded: " input.description;
      created_at = now;
    }
    ∷ []

-- `ledgerEntry.createMany`
abbrev pub create_many : List LedgerEntry → Db → Db
create_many es db = record db { ledger_entries = es ++ db.ledger_entries }

abbrev pub is_refund_entry : EntryType → Bool
is_refund_entry EntryType.refund = true
is_refund_entry _ = Bool.false

unfoldable pub record_payment : Env → RecordPaymentInput → Action (List LedgerEntry)
record_payment env input = do
  modify (create_many (payment_entries env.now input))
  gets (λ db. find_many (λ e. e.transaction_id == input.transaction_id) db.ledger_entries)

unfoldable pub record_refund : Env → RecordRefundInput → Action (List LedgerEntry)
record_refund env input = do
  modify (create_many (refund_entries env.now input))
  gets (λ db.
      find_many (λ e. (e.transaction_id == input.transaction_id) && is_refund_entry e.type)
        db.ledger_entries)

-- `{ gte: from, lte: to }`; a bound that is `undefined` does not restrict
abbrev pub in_range : Option ℕ → Option ℕ → ℕ → Bool
in_range none none t = true
in_range (some from) none t = leb from t
in_range none (some to) t = leb t to
in_range (some from) (some to) t = leb from t && leb t to

abbrev pub is_selected : String → String → Option ℕ → Option ℕ → LedgerEntry → Bool
is_selected account currency from to e =
    (e.currency == currency)
    && in_range from to e.created_at
    && ((e.debit_account == account) || (e.credit_account == account))

pub record AccountBalance : Type 0 where
  pub debit : ℤ
  pub credit : ℤ

-- `net: debit - credit`
abbrev pub net : AccountBalance → ℤ
net b = b.debit -ℤ b.credit

-- The loop of `getAccountBalance` over the selected entries
unfoldable pub tally : String → List LedgerEntry → AccountBalance → AccountBalance
tally account [] acc = acc
tally account (e ∷ es) acc = tally account es (record {
  debit = if e.debit_account == account then acc.debit +ℤ e.amount else acc.debit;
  credit = if e.credit_account == account then acc.credit +ℤ e.amount else acc.credit;
})

unfoldable pub get_account_balance :
    String → String → Option ℕ → Option ℕ → List LedgerEntry → AccountBalance
get_account_balance account currency from to entries =
    tally account (find_many (is_selected account currency from to) entries)
      (record { debit = pos 0; credit = pos 0 })
