-- ===== src/Gateway/Razorpay.antt =====
-- `RazorpayProvider` (src/modules/payment/provider/razorpay/razorpay.provider.ts): Payments has its
-- calls, Signatures what a verified payment has behind it. Razorpay's SDK is a parameter (Sdk).
pub mod Sdk
pub mod Payments
pub mod Signatures
