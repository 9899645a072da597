-- ===== src/Gateway/Cash.antt =====
-- `CashProvider` (src/modules/payment/provider/cash/cash.provider.ts). The texts of amounts and
-- dates are `String(v)`.
use payment_microservice.Prelude.{ℤ, String, true, none, some}
use payment_microservice.Store.{
  text, number, end, field, Outcome, ok, Env, CreatePaymentInput, ProviderPaymentResponse,
  VerifyPaymentInput, VerifyPaymentResult, RefundInput, RefundState, RefundProviderResponse,
  PaymentProvider,
}
use Prim.Native.String.{◌++◌ as str_append}

unfoldable pub create_payment :
    Env → (ℤ → String) → CreatePaymentInput → Outcome ProviderPaymentResponse
create_payment env amount_text input =
    let reference = str_append "CASH-" (env.slice (env.to_upper input.transaction_id) 0 12) in
    ok (record {
      provider_order_id = reference;
      client_secret = none;
      session_url = none;
      method = "cash";
      metadata = some (
          field "referenceCode" (text reference) (
            field "transactionId" (text input.transaction_id) (
              field "amount" (text (amount_text input.amount)) (
                field "currency" (text input.currency)
                  (field "note" (text "Awaiting offline cash collection") end)))));
    })

unfoldable pub verify_payment : VerifyPaymentInput → Outcome VerifyPaymentResult
verify_payment input = ok (record { is_success = true; failure_reason = none; metadata = none })

unfoldable pub refund_payment : Env → RefundInput → Outcome RefundProviderResponse
refund_payment env input = ok (record {
  provider_refund_id = str_append "CASH-REFUND-" (
      str_append (env.slice input.provider_payment_id 5 17)
        (str_append "-" (env.string_of (number env.now))));
  status = RefundState.success;
})

-- The provider, as the factory hands it over
abbrev pub cash_provider : Env → (ℤ → String) → PaymentProvider
cash_provider env amount_text = record {
  create_payment = create_payment env amount_text;
  verify_payment = verify_payment;
  refund_payment = refund_payment env;
}
