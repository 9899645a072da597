-- ===== src/Lib.antt =====
-- A verification library for the payment microservice (NestJS, Prisma, Redis): its services as
-- functions that take and return the database, and the theorems that make them correct.
--
-- The program. Controllers and queue workers call the services of src/modules/. The orchestrator
-- starts a payment (a transaction with one attempt for each configured provider) and verifies it
-- when the customer or a webhook reports it; a verified payment is posted to the ledger and may
-- create or renew a subscription. Refunds go back through the provider of the successful attempt and
-- are posted to the ledger. Subscriptions renew by issuing an invoice for the next period.
--
-- The files.
--   Prelude         numbers, lists as tables, integers, texts, and the lemmas on rows
--   Js              values of JavaScript that come from outside: objects, fields, conversions
--   Store           prisma/schema.prisma (Enums, Rows), JSON columns (Columns), calls that read and
--                   write the database and may throw (Monad), and what a call is given (Environment:
--                   the clock, the configuration, payment-provider.interface.ts); Store/Keeps: what
--                   it takes for a call to keep an invariant
--   Settings        src/modules/config/: runtime-env.ts and configuration.ts; Accessors
--                   (app-config.service.ts); Settings/Typed
--   Audit           src/modules/audit/audit.service.ts
--   Ledger          src/modules/ledger/ledger.service.ts; Ledger/Balances and Ledger/TrialBalance
--   Transaction     src/modules/payment/transaction/transaction.service.ts; Transaction/Uniqueness
--   Attempt         src/modules/payment/attempt/payment-attempt.service.ts; Attempt/Success, and
--                   Attempt/Sound: all its operations keep the invariant
--   Provider        src/modules/payment/provider/payment-provider.factory.ts; Provider/Enabled
--   Gateway         src/modules/payment/provider/: Cash (cash.provider.ts), Razorpay
--                   (razorpay.provider.ts: Sdk, Payments; Signatures), Stripe (stripe.provider.ts:
--                   Sdk, Checkout, Payments, Customers, Events; Keeps)
--   PaymentMethod   src/modules/payment/method/payment-method.service.ts: Profile (the billing
--                   profile at Stripe); PaymentMethod/Ownership
--   Idempotency     src/modules/security/services/idempotency.service.ts; Idempotency/Map
--   Orchestrator    src/modules/payment/orchestrator/payment-orchestrator.service.ts: Initiate
--                   (initiatePayment), Verify (verifyPayment), Recurring (the subscription that a
--                   verified payment creates); theorems in Replay, Atomic, Confirmed and Sound
--   Refund          src/modules/payment/refund/refund.service.ts; Refund/Safety, Refund/LateFailure
--   Webhook         src/modules/payment/webhook/webhook.service.ts: Stripe, Razorpay; Webhook/Once,
--                   Webhook/Delivery, Webhook/Sound
--   Reconciliation  src/modules/payment/reconciliation/reconciliation.service.ts;
--                   Reconciliation/Counts
--   Jobs            src/modules/events/processors/: what a worker does with a job
--   History         sequences of calls of all these services as a step relation;
--                   History/OneSuccess
--   Billing         src/modules/billing/billing.service.ts; Billing/Numbering, Billing/Totals
--   Plan            src/modules/subscription/plan.service.ts; Plan/Retired
--   Subscription    src/modules/subscription/subscription.service.ts: Lifecycle (status changes),
--                   Renewal (processRenewal); Renewal/Advance
--   Iam             src/modules/iam/: iam-settings.service.ts, and Permissions
--                   (iam-permission-registrar.service.ts); Iam/Fresh
--   Http            src/common/: guards (Guards), rbac/permissions.ts (Permissions),
--                   filters/global-exception.filter.ts (Filter),
--                   interceptors/idempotency.interceptor.ts (Replay); Http/Access, Filter/Masked,
--                   Replay/Again
--   Controller      the controllers of src/modules/: Payments, Methods, Subscriptions, Invoices,
--                   Webhooks; theorems in Ownership and Webhooks/Signed
--   Admin           src/modules/admin/admin.controller.ts: its lists, and Views (the dashboard and a
--                   subscription); Admin/Pages, Admin/Totals
--   Backfill        scripts/backfill-legacy-subscriptions.mjs; theorems in Settled, Created and Again
--   Currency        src/common/utils/currency.util.ts; Currency/Exact
--   Tests           a small shop, and the theorems at concrete inputs
--
-- How the code is modelled. A service method is a function of the same name, in snake_case, of its
-- dto into `Action`: it takes the database and the cache and returns them with a result or the
-- exception. What was written before an exception stays written, except in `withTransaction`, which
-- takes it back. A table is a list of records with the newest row first; a look-up by a unique key
-- takes the first row that matches. Amounts (`bigint`) are integers without bound. Dates are
-- milliseconds. Calls run one at a time: row locks have no effect. There is no fuel: the only loops
-- go over lists.
--
-- Parameters (`Env`): the calls of the payment providers, SHA-256, uuid, dayjs, decimal.js, the
-- settings that the services read, and string functions of JavaScript. The GST settings are one
-- too: `Env.gst_config` is what the `getGstConfig` of Iam.antt returns at the time of the call, and
-- the HTTP calls of that are its own parameter. The SDKs of Stripe and Razorpay are records of
-- their calls, which the gateways, the payment methods and the webhook routes take; what Stripe is
-- asked to change is a list of calls in the state. Tokens are verified by a parameter, and NestJS's
-- `ConfigService` is one. A theorem that needs a property of one of them has it as a hypothesis:
-- that two keys hash alike, that a new id is not taken.
--
-- Not modelled: the views of one transaction, refund or invoice in the administration and the health
-- check; the interceptors for correlation ids and logs; the wiring and the start of the process; the
-- reading of `.env` files; the validation of bodies and of the environment, which is
-- class-validator's and Joi's; the queues; log output; the columns of AuditLog that no service
-- reads; most texts of errors.
pub mod Prelude
pub mod Store
pub mod Settings
pub mod Audit
pub mod Js
pub mod Ledger
pub mod Billing
pub mod Subscription
pub mod Plan
pub mod Provider
pub mod Idempotency
pub mod Gateway
pub mod PaymentMethod
pub mod Http
pub mod Admin
pub mod Currency
pub mod Orchestrator
pub mod Reconciliation
pub mod Controller
pub mod Backfill
pub mod Iam
pub mod Jobs
pub mod History
pub mod Refund
pub mod Webhook
pub mod Transaction
pub mod Attempt
pub mod Tests
