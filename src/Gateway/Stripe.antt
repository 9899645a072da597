-- ===== src/Gateway/Stripe.antt =====
-- `StripeProvider` (src/modules/payment/provider/stripe/stripe.provider.ts): Checkout and Payments
-- have the calls of `IPaymentProvider`, Customers those on saved payment methods. Stripe's SDK is a
-- parameter of all (Sdk).
pub mod Sdk
pub mod Checkout
pub mod Payments
pub mod Customers
pub mod Keeps
pub mod Events
