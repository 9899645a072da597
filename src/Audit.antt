-- ===== src/Audit.antt =====
-- `AuditService.log` (src/modules/audit/audit.service.ts). It never throws: a failed write is caught
-- there and logged, so a call adds a row or, where the database refuses it, nothing. The model has
-- the database accept the row.
use payment_microservice.Prelude.{◌∷◌}
use payment_microservice.Store.{AuditLog, Action, modify}

unfoldable pub log : AuditLog → Action (Unit {0})
log entry = modify (λ db. record db { audit_logs = entry ∷ db.audit_logs })
