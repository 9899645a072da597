-- ===== src/Orchestrator.antt =====
-- `PaymentOrchestratorService`
-- (src/modules/payment/orchestrator/payment-orchestrator.service.ts), in three files of definitions:
-- how a payment is initiated, how a recurring one is passed on to its subscription, and how a
-- payment is verified.
pub mod Initiate
pub mod Recurring
pub mod Verify
pub mod Replay
pub mod Atomic
pub mod Sound
pub mod Confirmed
