-- ===== src/Gateway.antt =====
-- The payment gateways (src/modules/payment/provider/). Their SDKs are parameters.
pub mod Cash
pub mod Razorpay
pub mod Stripe
