-- ===== src/Http/Permissions.antt =====
-- The permissions (src/common/rbac/permissions.ts).
use payment_microservice.Prelude.{String}

pub data Permission : Type 0 where
  payment_read payment_write refund_read refund_write invoice_read invoice_write invoice_void :
      Permission
  subscription_read subscription_write subscription_cancel plan_read plan_manage : Permission
  admin_dashboard admin_transactions admin_refunds admin_invoices admin_subscriptions : Permission
  admin_webhooks admin_audit admin_ledger : Permission

abbrev pub permission_text : Permission → String
permission_text Permission.payment_read = "payment:read"
permission_text Permission.payment_write = "payment:write"
permission_text Permission.refund_read = "refund:read"
permission_text Permission.refund_write = "refund:write"
permission_text Permission.invoice_read = "invoice:read"
permission_text Permission.invoice_write = "invoice:write"
permission_text Permission.invoice_void = "invoice:void"
permission_text Permission.subscription_read = "subscription:read"
permission_text Permission.subscription_write = "subscription:write"
permission_text Permission.subscription_cancel = "subscription:cancel"
permission_text Permission.plan_read = "plan:read"
permission_text Permission.plan_manage = "plan:manage"
permission_text Permission.admin_dashboard = "admin:dashboard"
permission_text Permission.admin_transactions = "admin:transactions"
permission_text Permission.admin_refunds = "admin:refunds"
permission_text Permission.admin_invoices = "admin:invoices"
permission_text Permission.admin_subscriptions = "admin:subscriptions"
permission_text Permission.admin_webhooks = "admin:webhooks"
permission_text Permission.admin_audit = "admin:audit"
permission_text Permission.admin_ledger = "admin:ledger"
