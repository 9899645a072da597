-- ===== src/Admin/Totals.antt =====
-- The groups of the dashboard add up to its total.
use payment_microservice.Prelude.{
  ℕ, zero, suc, ◌+◌, String, Bool, List, [], ◌∷◌, ℤ, pos, ◌+ℤ◌, int_laws, eqb, Bool-cases,
  find_many, count_where, length, ◌≡◌, refl, ◌∙◌, ap, arith, inl, inr,
}
use payment_microservice.Store.{Transaction, TransactionStatus, Db}
use payment_microservice.Admin.{transaction_rank}
use payment_microservice.Admin.Views.{
  Group, has_status, sum_of, add_group, group_by, transaction_statuses, dashboard, of_tenant,
}

abbrev pub counted : {S : Type 0} → List (Group S) → ℕ
counted [] = 0
counted (g ∷ gs) = g.count + counted gs

abbrev pub summed : {S : Type 0} → List (Group S) → ℤ
summed [] = pos 0
summed (g ∷ gs) = g.total_amount +ℤ summed gs

counted-add :
    {S : Type 0} (n : ℕ) (s : S) (t : ℤ) (gs : List (Group S))
    → counted (add_group n s t gs) ≡ n + counted gs
counted-add zero s t gs = omega arith
counted-add (suc n) s t gs = refl

summed-add :
    {S : Type 0} (n : ℕ) (s : S) (t : ℤ) (gs : List (Group S))
    → (n ≡ 0 → t ≡ pos 0)
    → summed (add_group n s t gs) ≡ t +ℤ summed gs
summed-add zero s t gs h = rw (h refl) (omega int_laws)
summed-add (suc n) s t gs h = refl

+ℤ_assoc : (a b c : ℤ) → (a +ℤ b) +ℤ c ≡ a +ℤ (b +ℤ c)
+ℤ_assoc a b c = omega int_laws

+ℤ_swap : (a b c : ℤ) → a +ℤ (b +ℤ c) ≡ b +ℤ (a +ℤ c)
+ℤ_swap a b c = omega int_laws

length-find_many :
    {R : Type 0} (p : R → Bool) (rs : List R) → length (find_many p rs) ≡ count_where p rs
unfolding find_many count_where
length-find_many p [] = refl
length-find_many p (r ∷ rs) = ground (arith, length-find_many p rs)

module _ {R S : Type 0} (rank : S → ℕ) (status : R → S) (amount : R → ℤ) where
  abbrev count_of : S → List R → ℕ
  count_of s rs = count_where (has_status rank status s) rs

  sum_of-none : (s : S) (rs : List R) → count_of s rs ≡ 0 → sum_of rank status amount s rs ≡ pos 0
  unfolding sum_of count_where
  sum_of-none s [] h = refl
  sum_of-none s (r ∷ rs) h = ground (arith, sum_of-none s rs)

  total_count : List S → List R → ℕ
  total_count [] rs = 0
  total_count (s ∷ statuses) rs = count_of s rs + total_count statuses rs

  total_sum : List S → List R → ℤ
  total_sum [] rs = pos 0
  total_sum (s ∷ statuses) rs = sum_of rank status amount s rs +ℤ total_sum statuses rs

  counted-group_by :
      (statuses : List S) (rs : List R)
      → counted (group_by rank status amount statuses rs) ≡ total_count statuses rs
  unfolding group_by total_count
  counted-group_by [] rs = refl
  counted-group_by (s ∷ statuses) rs =
      counted-add (count_of s rs) s (sum_of rank status amount s rs)
        (group_by rank status amount statuses rs)
      ∙ ap (λ k. count_of s rs + k) (counted-group_by statuses rs)

  summed-group_by :
      (statuses : List S) (rs : List R)
      → summed (group_by rank status amount statuses rs) ≡ total_sum statuses rs
  unfolding group_by total_sum
  summed-group_by [] rs = refl
  summed-group_by (s ∷ statuses) rs =
      summed-add (count_of s rs) s (sum_of rank status amount s rs)
        (group_by rank status amount statuses rs) (sum_of-none s rs)
      ∙ ap (λ k. sum_of rank status amount s rs +ℤ k) (summed-group_by statuses rs)

  -- how many of the statuses a row has
  abbrev times : R → List S → ℕ
  times r statuses = count_where (λ s. has_status rank status s r) statuses

  total_count-cons :
      (statuses : List S) (r : R) (rs : List R)
      → total_count statuses (r ∷ rs) ≡ times r statuses + total_count statuses rs
  unfolding total_count count_where
  total_count-cons [] r rs = omega arith
  total_count-cons (s ∷ statuses) r rs = ground (arith, total_count-cons statuses r rs)

  total_sum-other :
      (statuses : List S) (r : R) (rs : List R)
      → times r statuses ≡ 0
      → total_sum statuses (r ∷ rs) ≡ total_sum statuses rs
  unfolding total_sum count_where sum_of
  total_sum-other [] r rs h = refl
  total_sum-other (s ∷ statuses) r rs h = ground (arith, total_sum-other statuses r rs)

  total_sum-cons :
      (statuses : List S) (r : R) (rs : List R)
      → times r statuses ≡ 1
      → total_sum statuses (r ∷ rs) ≡ amount r +ℤ total_sum statuses rs
  unfolding total_sum count_where sum_of
  total_sum-cons [] r rs h = absurd (omega arith)
  total_sum-cons (s ∷ statuses) r rs h = elim (Bool-cases (has_status rank status s r)) [
    | inl here ↦
        let rest : total_sum statuses (r ∷ rs) ≡ total_sum statuses rs =
          total_sum-other statuses r rs (ground arith) in
        rw (here, rest) (+ℤ_assoc (amount r) _ _)
    | inr there ↦
        let rest : total_sum statuses (r ∷ rs) ≡ amount r +ℤ total_sum statuses rs =
          total_sum-cons statuses r rs (ground arith) in
        rw (there, rest) (+ℤ_swap _ (amount r) _)
  ]

  -- Each row has one of the statuses.
  abbrev AreStatuses : List S → Type 0
  AreStatuses statuses = (r : R) → times r statuses ≡ 1

  total_sum-nil : (statuses : List S) → total_sum statuses [] ≡ pos 0
  unfolding total_sum sum_of
  total_sum-nil [] = refl
  total_sum-nil (s ∷ statuses) = rw (total_sum-nil statuses) (omega int_laws)

  total_count-nil : (statuses : List S) → total_count statuses [] ≡ 0
  unfolding total_count count_where
  total_count-nil [] = refl
  total_count-nil (s ∷ statuses) = omega (arith, total_count-nil statuses)

  -- the sum over all rows
  abbrev sum_all : List R → ℤ
  sum_all [] = pos 0
  sum_all (r ∷ rs) = amount r +ℤ sum_all rs

  totals_lem :
      (statuses : List S)
      → AreStatuses statuses
      → (rs : List R) → (total_count statuses rs ≡ length rs) × (total_sum statuses rs ≡ sum_all rs)
  totals_lem statuses one [] = (total_count-nil statuses, total_sum-nil statuses)
  totals_lem statuses one (r ∷ rs) =
      let (counts, sums) = totals_lem statuses one rs in
      (
        omega (arith, total_count-cons statuses r rs, one r, counts),
        total_sum-cons statuses r rs (one r) ∙ ap (λ k. amount r +ℤ k) sums,
      )

  group_by-totals :
      (statuses : List S)
      → AreStatuses statuses
      → (rs : List R)
      → (counted (group_by rank status amount statuses rs) ≡ length rs)
        × (summed (group_by rank status amount statuses rs) ≡ sum_all rs)
  group_by-totals statuses one rs = (
    counted-group_by statuses rs ∙ (totals_lem statuses one rs).0,
    summed-group_by statuses rs ∙ (totals_lem statuses one rs).1,
  )

status_once :
    (t : TransactionStatus)
    → count_where (λ s. eqb (transaction_rank t) (transaction_rank s)) transaction_statuses ≡ 1
unfolding count_where
status_once TransactionStatus.pending = refl
status_once TransactionStatus.processing = refl
status_once TransactionStatus.success = refl
status_once TransactionStatus.failed = refl
status_once TransactionStatus.refunded = refl
status_once TransactionStatus.partially_refunded = refl
status_once TransactionStatus.void = refl

abbrev pub amount_of_all : List Transaction → ℤ
amount_of_all [] = pos 0
amount_of_all (t ∷ ts) = t.amount +ℤ amount_of_all ts

-- The groups of the dashboard account for everything: the counts of a tenant's transactions by status
-- add up to their total, and the amounts by status to the sum over all of the tenant's
-- transactions.
pub dashboard-totals :
    (tenant_id : String) (db : Db)
    → let d = dashboard tenant_id db in
      (counted d.transactions_by_status ≡ d.transactions_total)
      × (summed d.transactions_by_status
          ≡ amount_of_all (find_many (of_tenant tenant_id) db.transactions))
unfolding dashboard
dashboard-totals tenant_id db =
    let rows = find_many (of_tenant tenant_id) db.transactions in
    let totals =
      group_by-totals transaction_rank (λ (t : Transaction). t.status)
        (λ (t : Transaction). t.amount) transaction_statuses (λ t. status_once t.status) rows in
    (totals.0 ∙ length-find_many (of_tenant tenant_id) db.transactions, totals.1)
