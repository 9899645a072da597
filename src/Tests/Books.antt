-- ===== src/Tests/Books.antt =====
-- The ledger at concrete inputs.
use payment_microservice.Prelude.{none, some, [], ◌∷◌, pos, ◌+ℤ◌, ◌-ℤ◌, ◌≡◌, refl, arith, List}
use payment_microservice.Store.{Env, ok}
use payment_microservice.Ledger.{
  RecordPaymentInput, RecordRefundInput, record_payment, net, get_account_balance,
}
use payment_microservice.Ledger.Balances.{
  net-get_account_balance, record_payment-balances, balance, net_of,
}
use payment_microservice.Ledger.TrialBalance.{trial_balance, Posting, post_all}
use payment_microservice.Tests.World.{here, at_time, accepted, empty_db}

abbrev taxed : RecordPaymentInput
taxed = record {
  tenant_id = "shop";
  transaction_id = "t";
  amount = pos 118;
  currency = "INR";
  description = "order";
  tax_amount = some (pos 18);
}

abbrev untaxed : RecordPaymentInput
untaxed = record taxed { tax_amount = none }

abbrev returned : RecordRefundInput
returned = record {
  tenant_id = "shop";
  transaction_id = "t";
  amount = pos 118;
  currency = "INR";
  description = "order";
}

abbrev tomorrow : Env
tomorrow = at_time 86401000 (ok accepted)

abbrev postings : List (Env × Posting)
postings = (here, Posting.payment taxed) ∷ (tomorrow, Posting.refund returned) ∷ []

net-get_account_balance_example :
    let entries = (record_payment here taxed empty_db).1.ledger_entries in
    net (get_account_balance "REVENUE" "INR" none none entries)
    ≡ net_of "REVENUE" "INR" none none entries
net-get_account_balance_example =
    net-get_account_balance "REVENUE" "INR" none none
      (record_payment here taxed empty_db).1.ledger_entries

record_payment-balances_example :
    let after = (record_payment here taxed empty_db).1 in
    (balance "ACCOUNTS_RECEIVABLE" "INR" none none after
      ≡ balance "ACCOUNTS_RECEIVABLE" "INR" none none empty_db +ℤ pos 118)
    × (balance "REVENUE" "INR" none none after
        ≡ balance "REVENUE" "INR" none none empty_db -ℤ (pos 118 -ℤ pos 18))
    × (balance "TAX_PAYABLE" "INR" none none after
        ≡ balance "TAX_PAYABLE" "INR" none none empty_db -ℤ pos 18)
    × (balance "CASH" "INR" none none after ≡ balance "CASH" "INR" none none empty_db)
    × (balance "REFUND_LIABILITY" "INR" none none after
        ≡ balance "REFUND_LIABILITY" "INR" none none empty_db)
record_payment-balances_example =
    record_payment-balances here taxed empty_db none none refl (omega arith)

trial_balance_example :
    let after = post_all postings empty_db in
    balance "ACCOUNTS_RECEIVABLE" "INR" none none after
      +ℤ balance "REVENUE" "INR" none none after
      +ℤ balance "TAX_PAYABLE" "INR" none none after
      +ℤ balance "CASH" "INR" none none after
      +ℤ balance "REFUND_LIABILITY" "INR" none none after
    ≡ pos 0
trial_balance_example = trial_balance postings empty_db "INR" none none tt
