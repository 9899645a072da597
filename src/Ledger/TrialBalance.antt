-- ===== src/Ledger/TrialBalance.antt =====
-- The books stay balanced: whatever payments and refunds `LedgerService` records, the net balances
-- of its five accounts add up to zero.
use payment_microservice.Prelude.{
  ℕ, String, true, Option, none, some, List, [], ◌∷◌, ◌++◌, ℤ, pos, negsuc, zero, suc, ◌+ℤ◌, ◌-ℤ◌,
  int_laws, ◌==◌, ==_refl, ◌≡◌, refl, ◌⊎◌, inl, inr, All, Bool-cases, ◌&&◌,
}
use payment_microservice.Store.{LedgerEntry, Db, Env}
use payment_microservice.Ledger.{
  RecordPaymentInput, RecordRefundInput, tax_entries, payment_entries, refund_entries,
  record_payment, record_refund, in_range,
}
use payment_microservice.Ledger.Balances.{net_of, balance, net-get_account_balance, contribution}

-- An entry between two accounts of the chart, as the service writes it.
abbrev pub IsPosting : LedgerEntry → Type 0
IsPosting e =
    ((e.debit_account ≡ "ACCOUNTS_RECEIVABLE") × (e.credit_account ≡ "REVENUE"))
    ⊎ ((e.debit_account ≡ "ACCOUNTS_RECEIVABLE") × (e.credit_account ≡ "TAX_PAYABLE"))
    ⊎ ((e.debit_account ≡ "REVENUE") × (e.credit_account ≡ "ACCOUNTS_RECEIVABLE"))
    ⊎ ((e.debit_account ≡ "REFUND_LIABILITY") × (e.credit_account ≡ "CASH"))

abbrev total_of : (String → ℤ) → ℤ
total_of f =
    f "ACCOUNTS_RECEIVABLE" +ℤ f "REVENUE" +ℤ f "TAX_PAYABLE" +ℤ f "CASH" +ℤ f "REFUND_LIABILITY"

contribution-total : (e : LedgerEntry) → IsPosting e → total_of (λ a. contribution a e) ≡ pos 0
unfolding ◌==◌
contribution-total e (inl (d, c)) = rw (d, c) (omega int_laws)
contribution-total e (inr (inl (d, c))) = rw (d, c) (omega int_laws)
contribution-total e (inr (inr (inl (d, c)))) = rw (d, c) (omega int_laws)
contribution-total e (inr (inr (inr (d, c)))) = rw (d, c) (omega int_laws)

regroup :
    (a b c d e a' b' c' d' e' : ℤ)
    → a +ℤ b +ℤ c +ℤ d +ℤ e ≡ pos 0
    → a' +ℤ b' +ℤ c' +ℤ d' +ℤ e' ≡ pos 0
    → (a +ℤ a') +ℤ (b +ℤ b') +ℤ (c +ℤ c') +ℤ (d +ℤ d') +ℤ (e +ℤ e') ≡ pos 0
regroup a b c d e a' b' c' d' e' h k = grind int_laws

net_of-total :
    (currency : String) (from to : Option ℕ) (es : List LedgerEntry)
    → All IsPosting es
    → total_of (λ a. net_of a currency from to es) ≡ pos 0
unfolding net_of
net_of-total currency from to [] h = omega int_laws
net_of-total currency from to (e ∷ es) (p, h) =
    elim (Bool-cases ((e.currency == currency) && in_range from to e.created_at)) [
      | inr no_match ↦ rw no_match (net_of-total currency from to es h)
      | inl matches ↦ rw matches (
          regroup _ _ _ _ _ _ _ _ _ _ (contribution-total e p) (net_of-total currency from to es h))
    ]

-- What the service may record.
pub data Posting : Type 0 where
  payment : RecordPaymentInput → Posting
  refund : RecordRefundInput → Posting

unfoldable pub post : Env → Posting → Db → Db
post env (payment input) db = (record_payment env input db).1
post env (refund input) db = (record_refund env input db).1

-- Any sequence of calls, each at its own time.
unfoldable pub post_all : List (Env × Posting) → Db → Db
post_all [] db = db
post_all ((env, p) ∷ ps) db = post_all ps (post env p db)

tax_entries-All :
    (now : ℕ) (input : RecordPaymentInput) (tax : Option ℤ) (rest : List LedgerEntry)
    → All IsPosting rest
    → All IsPosting (tax_entries now input tax ++ rest)
tax_entries-All now input none rest h = h
tax_entries-All now input (some (pos zero)) rest h = h
tax_entries-All now input (some (pos (suc n))) rest h = (inr (inl (refl, refl)), h)
tax_entries-All now input (some (negsuc n)) rest h = h

post-All :
    (env : Env) (p : Posting) (db : Db)
    → All IsPosting db.ledger_entries
    → All IsPosting (post env p db).ledger_entries
unfolding post record_payment record_refund payment_entries refund_entries
post-All env (payment input) db h =
    (inl (refl, refl), tax_entries-All env.now input input.tax_amount db.ledger_entries h)
post-All env (refund input) db h = (inr (inr (inl (refl, refl))), (inr (inr (inr (refl, refl))), h))

post_all-All :
    (ps : List (Env × Posting)) (db : Db)
    → All IsPosting db.ledger_entries
    → All IsPosting (post_all ps db).ledger_entries
unfolding post_all
post_all-All [] db h = h
post_all-All ((env, p) ∷ ps) db h = post_all-All ps (post env p db) (post-All env p db h)

-- From a ledger whose entries are all between accounts of the chart, after any sequence of recorded
-- payments and refunds, with any tax amounts, the balances of the five accounts in every currency
-- and every period add up to zero.
pub trial_balance :
    (ps : List (Env × Posting)) (db : Db) (currency : String) (from to : Option ℕ)
    → All IsPosting db.ledger_entries
    → let after = post_all ps db in
      balance "ACCOUNTS_RECEIVABLE" currency from to after
        +ℤ balance "REVENUE" currency from to after
        +ℤ balance "TAX_PAYABLE" currency from to after
        +ℤ balance "CASH" currency from to after
        +ℤ balance "REFUND_LIABILITY" currency from to after
      ≡ pos 0
trial_balance ps db currency from to h =
    simp net-get_account_balance
      (net_of-total currency from to (post_all ps db).ledger_entries (post_all-All ps db h))

-- A payment without tax and then a refund of the same amount, both in the period, leave
-- ACCOUNTS_RECEIVABLE and REVENUE as they were; CASH falls by the amount and REFUND_LIABILITY
-- rises by it.
pub record_refund-record_payment :
    (env later : Env) (paid : RecordPaymentInput) (returned : RecordRefundInput) (db : Db)
    (from to : Option ℕ)
    → in_range from to env.now ≡ true
    → in_range from to later.now ≡ true
    → paid.tax_amount ≡ none
    → returned.amount ≡ paid.amount
    → returned.currency ≡ paid.currency
    → let after = (record_refund later returned (record_payment env paid db).1).1 in
      (balance "ACCOUNTS_RECEIVABLE" paid.currency from to after
        ≡ balance "ACCOUNTS_RECEIVABLE" paid.currency from to db)
      × (balance "REVENUE" paid.currency from to after ≡ balance "REVENUE" paid.currency from to db)
      × (balance "CASH" paid.currency from to after
          ≡ balance "CASH" paid.currency from to db -ℤ paid.amount)
      × (balance "REFUND_LIABILITY" paid.currency from to after
          ≡ balance "REFUND_LIABILITY" paid.currency from to db +ℤ paid.amount)
unfolding record_payment record_refund payment_entries refund_entries net_of ◌==◌
record_refund-record_payment env later paid returned db from to r l no_tax amounts currencies =
    simp (net-get_account_balance, ==_refl, r, l, no_tax, amounts, currencies) (omega int_laws)
