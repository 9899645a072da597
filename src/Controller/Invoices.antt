-- ===== src/Controller/Invoices.antt =====
-- `BillingController` (src/modules/billing/billing.controller.ts).
use payment_microservice.Prelude.{ℕ, String, Option, List}
use payment_microservice.Store.{Invoice, Action, gets, Env}
use payment_microservice.Http.Guards.{Request, Security}
use payment_microservice.Controller.{with_service_or_jwt}
use payment_microservice.Billing.{
  InvoiceItemInput, create_invoice, issue_invoice, void_invoice, find_by_id, find_by_customer,
}

module _ (security : Security) (env : Env) (request : Request) where
  unfoldable pub create : String → List InvoiceItemInput → Option ℕ → Action Invoice
  create currency items due_date = with_service_or_jwt security "invoice:write" request (λ user.
      create_invoice env (record {
        tenant_id = user.tenant_id;
        customer_id = user.sub;
        currency = currency;
        items = items;
        due_date = due_date;
        actor_id = user.sub;
      }))

  unfoldable pub issue : String → Action Invoice
  issue id =
      with_service_or_jwt security "invoice:write" request (λ user. issue_invoice env id user.sub)

  unfoldable pub void : String → Action Invoice
  void id =
      with_service_or_jwt security "invoice:void" request (λ user. void_invoice env id user.sub)

  unfoldable pub get_invoice : String → Action Invoice
  get_invoice id = with_service_or_jwt security "invoice:read" request (λ user. find_by_id id)

  unfoldable pub list_invoices : ℕ → ℕ → Action (List Invoice × ℕ)
  list_invoices page limit =
      with_service_or_jwt security "invoice:read" request
        (λ user. gets (find_by_customer user.tenant_id user.sub page limit))
