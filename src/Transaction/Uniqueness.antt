-- ===== src/Transaction/Uniqueness.antt =====
-- Idempotent creation, and when a creation is refused.
use payment_microservice.Prelude.{
  List, [], ◌∷◌, String, false, none, some, ◌==◌, ==_refl, find_first, ◌≡◌, ◌⊎◌, inl, inr, arith,
  Option-cases,
}
use payment_microservice.Store.{
  Transaction, Invoice, ErrorCode, Db, Fault, conflict, foreign_key_violation, ok, err, Env,
}
use payment_microservice.Transaction.{CreateTransactionDto, has_key, has_order, create}

first_key :
    (tenant_id order_id hashed : String) (rows : List Transaction) {t : Transaction}
    → find_first (has_key tenant_id hashed) rows ≡ none
    → find_first (has_order tenant_id order_id) rows ≡ some t
    → (t.idempotency_key == hashed) ≡ false
unfolding find_first
first_key tenant_id order_id hashed [] no_key order = cc
first_key tenant_id order_id hashed (r ∷ rows) {t} no_key order =
    ground (arith, first_key tenant_id order_id hashed rows {t = t})

-- A creation is refused for two reasons only, and then nothing is written: the tenant has the order
-- already, under another idempotency key, which is a conflict; or the request names an invoice that
-- is not there. A request with a key that the tenant has used is never refused.
pub create-refused :
    (env : Env) (dto : CreateTransactionDto) (db : Db) {e : Fault}
    → (create env dto db).0 ≡ err e
    → ((create env dto db).1 ≡ db)
      × (find_first (has_key dto.tenant_id (env.hash dto.idempotency_key)) db.transactions ≡ none)
      × (((e ≡ conflict ErrorCode.duplicate_transaction)
            × (t : Transaction) × (find_first (has_order dto.tenant_id dto.order_id) db.transactions
                ≡ some t)
            × ((t.idempotency_key == env.hash dto.idempotency_key) ≡ false))
          ⊎ ((e ≡ foreign_key_violation)
              × (id : String) × (dto.invoice_id ≡ some id)
              × (find_first (λ (i : Invoice). i.id == id) db.invoices ≡ none)))
unfolding create
create-refused env dto db {e} refused =
    elim (Option-cases
      (find_first (has_key dto.tenant_id (env.hash dto.idempotency_key)) db.transactions)) [
        | inr (t, known) ↦ ground arith
        | inl no_key ↦
            elim (Option-cases
              (find_first (has_order dto.tenant_id dto.order_id) db.transactions)) [
                | inr (t, taken) ↦ (
                  ground arith,
                  no_key,
                  inl (
                    ground arith,
                    t,
                    taken,
                    first_key dto.tenant_id dto.order_id (env.hash dto.idempotency_key)
                        db.transactions no_key taken,
                  ),
                )
                | inl free ↦ elim (Option-cases dto.invoice_id) [
                  | inl unnamed ↦ ground arith
                  | inr (id, named) ↦
                      elim (Option-cases (find_first (λ (i : Invoice). i.id == id) db.invoices)) [
                        | inr (i, there) ↦ ground arith
                        | inl missing ↦
                            (ground arith, no_key, inr (ground arith, id, named, missing))
                      ]
                ]
              ]
      ]

-- A call that has returned a transaction returns the same one when it is made again with the same
-- tenant and a key of the same hash, whatever else the second request says, and writes nothing.
pub create-create :
    (env later : Env) (dto again : CreateTransactionDto) (db : Db) (t : Transaction)
    → (create env dto db).0 ≡ ok t
    → again.tenant_id ≡ dto.tenant_id
    → later.hash again.idempotency_key ≡ env.hash dto.idempotency_key
    → create later again (create env dto db).1 ≡ (ok t, (create env dto db).1)
unfolding create find_first
create-create env later dto again db t made same_tenant same_key =
    rw (same_tenant, same_key)
      (ground (arith, ==_refl dto.tenant_id, ==_refl (env.hash dto.idempotency_key)))

-- A new key for an order that the tenant has already is refused as a duplicate, and nothing is
-- written.
pub create-duplicate :
    (env : Env) (dto : CreateTransactionDto) (db : Db) {t : Transaction}
    → find_first (has_key dto.tenant_id (env.hash dto.idempotency_key)) db.transactions ≡ none
    → find_first (has_order dto.tenant_id dto.order_id) db.transactions ≡ some t
    → create env dto db ≡ (err (conflict ErrorCode.duplicate_transaction), db)
unfolding create
create-duplicate env dto db no_key order = rw (no_key, order)
