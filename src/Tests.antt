-- ===== src/Tests.antt =====
-- Concrete data, and the theorems at concrete inputs.
pub mod World
pub mod Payments
pub mod Refunds
pub mod Books
pub mod Invoices
pub mod Histories
pub mod Legacy
pub mod Routes
pub mod Requests
pub mod Amounts
pub mod Customers
pub mod Environment
