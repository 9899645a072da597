-- ===== src/Http.antt =====
-- What a request passes before it reaches a service: the guards, the idempotency interceptor, and
-- the filter that answers for an exception (src/common/).
pub mod Permissions
pub mod Guards
pub mod Access
pub mod Filter
pub mod Replay
