-- ===== src/Gateway/Razorpay/Signatures.antt =====
-- What a payment that Razorpay verifies has behind it.
use payment_microservice.Prelude.{
  ◌≡◌, String, true, false, some, truthy, starts_with, ==_iff, arith, if◌then◌else◌,
}
use payment_microservice.Store.{ok, Env, VerifyPaymentInput, VerifyPaymentResult}
use payment_microservice.Gateway.Razorpay.Payments.{verify_payment, signature_result}
use payment_microservice.Gateway.Razorpay.Sdk.{Sdk}
use Prim.Native.String.{◌++◌ as str_append}

-- What Razorpay's checkout signs: `order_id|payment_id`, and `payment_id|subscription_id`
abbrev pub signed_message : String → String → String
signed_message id payment_id =
    if starts_with id "sub_"
    then str_append payment_id (str_append "|" id)
    else str_append id (str_append "|" payment_id)

-- For a request with a payment id and a signature that are not empty, of an order or of a
-- subscription: `verifyPayment` reports a success only if the signature is the HMAC under the key
-- secret of the message that Razorpay's checkout signs, whatever Razorpay answers; and it reports one
-- for each such signature of an order.
pub verify_payment_signature :
    (hmac : String → String → String) (key_secret : String) (env : Env) (sdk : Sdk)
    (input : VerifyPaymentInput) {id payment_id signature : String}
    → input.provider_order_id ≡ some id
    → input.provider_payment_id ≡ some payment_id
    → input.provider_signature ≡ some signature
    → truthy payment_id ≡ true
    → truthy signature ≡ true
    → ((result : VerifyPaymentResult)
        → verify_payment hmac key_secret env sdk input ≡ ok result
        → result.is_success ≡ true
        → hmac key_secret (signed_message id payment_id) ≡ signature)
      × (starts_with id "sub_" ≡ false
          → hmac key_secret (signed_message id payment_id) ≡ signature
          → (result : VerifyPaymentResult) × (verify_payment hmac key_secret env sdk input
              ≡ ok result)
            × (result.is_success ≡ true))
unfolding verify_payment
verify_payment_signature hmac key_secret env sdk input {id} {payment_id} {signature} ho hp hs h2
      h3 =
    let iff = ==_iff (hmac key_secret (signed_message id payment_id)) signature in
    (
      λ result answered success. iff.0 (ground (arith)),
      λ order same.
          (signature_result hmac key_secret true, ground (arith, iff.1 same), ground arith),
    )
