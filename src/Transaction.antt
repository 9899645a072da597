-- ===== src/Transaction.antt =====
-- `TransactionService` (src/modules/payment/transaction/transaction.service.ts).
pub mod Uniqueness
use payment_microservice.Prelude.{
  ℕ, suc, ◌-◌, ◌*◌, String, Bool, true, not, ◌&&◌, ◌||◌, Option, none, some, List, ◌∷◌, ℤ, ◌==◌,
  truthy, is_some, if◌then◌else◌, find_first, find_many, update_where, count_where, take, drop,
}
use payment_microservice.Store.{
  Transaction, TransactionStatus, ErrorCode, Metadata, Db, Fault, conflict, not_found,
  unique_violation, foreign_key_violation, Invoice, Action, pure, throw, gets, modify, or_throw,
  require, throw_if, catch, ◌>>=◌, ◌>>◌,
}
use payment_microservice.Store.{Env}

pub record CreateTransactionDto : Type 0 where
  pub tenant_id : String
  pub order_id : String
  pub idempotency_key : String
  pub customer_id : String
  pub amount : ℤ
  pub currency : String
  pub invoice_id : Option String
  pub metadata : Option Metadata

abbrev pub has_key : String → String → Transaction → Bool
has_key tenant_id hashed t = (t.tenant_id == tenant_id) && (t.idempotency_key == hashed)

abbrev pub has_order : String → String → Transaction → Bool
has_order tenant_id order_id t = (t.tenant_id == tenant_id) && (t.order_id == order_id)

-- The row that `transaction.create` writes
abbrev pub new_transaction : Env → CreateTransactionDto → Db → Transaction
new_transaction env dto db = record {
  id = env.uuid db.issued;
  tenant_id = dto.tenant_id;
  order_id = dto.order_id;
  idempotency_key = env.hash dto.idempotency_key;
  customer_id = dto.customer_id;
  amount = dto.amount;
  currency = dto.currency;
  status = TransactionStatus.pending;
  invoice_id = dto.invoice_id;
  metadata = dto.metadata;
}

abbrev pub add_transaction : Env → CreateTransactionDto → Db → Db
add_transaction env dto db = record db {
  issued = suc db.issued;
  transactions = new_transaction env dto db ∷ db.transactions;
}

-- the invoice that a row refers to is there
abbrev pub has_invoice : Option String → Db → Bool
has_invoice none db = true
has_invoice (some id) db = is_some (find_first (λ (i : Invoice). i.id == id) db.invoices)

-- `prisma.transaction.create`, under @@unique([tenantId, orderId]),
-- @@unique([tenantId, idempotencyKey]) and the reference to an invoice
unfoldable pub insert_transaction : Env → CreateTransactionDto → Action Transaction
insert_transaction env dto = do
  clash ← gets (λ db.
      is_some (find_first (has_order dto.tenant_id dto.order_id) db.transactions)
      || is_some
          (find_first (has_key dto.tenant_id (env.hash dto.idempotency_key)) db.transactions))
  throw_if clash unique_violation
  referred ← gets (has_invoice dto.invoice_id)
  throw_if (not referred) foreign_key_violation
  row ← gets (new_transaction env dto)
  modify (add_transaction env dto)
  pure row

abbrev pub rethrow_duplicate : Fault → Action Transaction
rethrow_duplicate unique_violation = throw (conflict ErrorCode.duplicate_transaction)
rethrow_duplicate e = throw e

-- what follows the look-up of the idempotency key
abbrev pub replay_or_insert : Env → CreateTransactionDto → Option Transaction → Action Transaction
replay_or_insert env dto (some existing) = pure existing
replay_or_insert env dto none = catch (insert_transaction env dto) rethrow_duplicate

unfoldable pub create : Env → CreateTransactionDto → Action Transaction
unfolding insert_transaction
create env dto = do
  existing ←
      gets (λ db. find_first (has_key dto.tenant_id (env.hash dto.idempotency_key)) db.transactions)
  replay_or_insert env dto existing

-- `...(tenantId && { tenantId })`: an absent or empty tenant does not restrict
abbrev pub of_tenant : Option String → String → Bool
of_tenant none tenant = true
of_tenant (some tenant_id) tenant = if truthy tenant_id then tenant == tenant_id else true

abbrev pub has_id : String → Option String → Transaction → Bool
has_id id tenant_id t = (t.id == id) && of_tenant tenant_id t.tenant_id

unfoldable pub find_by_id : String → Option String → Action Transaction
find_by_id id tenant_id = do
  found ← gets (λ db. find_first (has_id id tenant_id) db.transactions)
  or_throw found (not_found ErrorCode.payment_not_found)

unfoldable pub find_by_order_id : String → String → Db → Option Transaction
find_by_order_id tenant_id order_id db = find_first (has_order tenant_id order_id) db.transactions

abbrev pub with_status : TransactionStatus → Transaction → Transaction
with_status status t = record t { status = status }

abbrev pub set_status : String → TransactionStatus → Db → Db
set_status id status db = record db {
  transactions = update_where (λ t. t.id == id) (with_status status) db.transactions;
}

-- The row lock (`SELECT … FOR UPDATE`) has no effect on one call by itself.
unfoldable pub update_status : String → TransactionStatus → Action Transaction
update_status id status = do
  found ← gets (λ db. find_first (λ t. t.id == id) db.transactions)
  t ← require found
  modify (set_status id status)
  pure (with_status status t)

abbrev pub of_customer : String → String → Transaction → Bool
of_customer tenant_id customer_id t = (t.tenant_id == tenant_id) && (t.customer_id == customer_id)

-- A page of a customer's transactions, newest first, and their number. Pages count from 1.
unfoldable pub find_by_customer : String → String → ℕ → ℕ → Db → List Transaction × ℕ
find_by_customer tenant_id customer_id page limit db = (
  take limit
      (drop ((page - 1) * limit) (find_many (of_customer tenant_id customer_id) db.transactions)),
  count_where (of_customer tenant_id customer_id) db.transactions,
)
