-- ===== src/Provider.antt =====
-- `PaymentProviderFactory` (src/modules/payment/provider/payment-provider.factory.ts): which
-- providers are configured. The calls of a provider are parameters (`Env.providers`).
pub mod Enabled
use payment_microservice.Prelude.{Bool, ◌||◌, not, List, [], ◌∷◌, ◌++◌, if◌then◌else◌}
use payment_microservice.Store.{
  Provider, ErrorCode, bad_request, Outcome, ok, err, Env, PaymentProvider,
}

-- CASH is in the map if it is configured, or if nothing else is.
abbrev pub cash_is_on : Env → Bool
cash_is_on env = env.cash_enabled || not (env.stripe_enabled || env.razorpay_enabled)

-- the keys of `providerMap`, in the order of insertion
unfoldable pub get_enabled_providers : Env → List Provider
get_enabled_providers env =
    (if env.stripe_enabled then Provider.stripe ∷ [] else [])
    ++ ((if env.razorpay_enabled then Provider.razorpay ∷ [] else [])
        ++ (if cash_is_on env then Provider.cash ∷ [] else []))

unfoldable pub is_enabled : Env → Provider → Bool
is_enabled env Provider.stripe = env.stripe_enabled
is_enabled env Provider.razorpay = env.razorpay_enabled
is_enabled env Provider.cash = cash_is_on env

unfoldable pub get_provider : Env → Provider → Outcome PaymentProvider
unfolding is_enabled
get_provider env p =
    if is_enabled env p then ok (env.providers p) else err (bad_request ErrorCode.uncoded)
