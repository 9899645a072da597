-- ===== src/Provider/Enabled.antt =====
-- The provider map: its keys are the providers that `get` returns, and it is never empty.
use payment_microservice.Prelude.{if◌then◌else◌, Bool, false, ◌||◌, List, [], ◌∷◌, ◌≡◌, ◌≢◌, arith}
use payment_microservice.Store.{Provider, is_same_provider, ErrorCode, bad_request, ok, err, Env}
use payment_microservice.Provider.{get_enabled_providers, get_provider}

abbrev pub contains : Provider → List Provider → Bool
contains p [] = false
contains p (q ∷ qs) = is_same_provider p q || contains p qs

-- `get` returns the provider if `getEnabledProviders` lists it, and throws if it does not, whatever
-- the configuration.
pub get_provider-eq :
    (env : Env) (p : Provider)
    → get_provider env p ≡ (
        if contains p (get_enabled_providers env)
        then ok (env.providers p)
        else err (bad_request ErrorCode.uncoded))
unfolding get_enabled_providers get_provider
get_provider-eq env Provider.stripe = ground arith
get_provider-eq env Provider.razorpay = ground arith
get_provider-eq env Provider.cash = ground arith

-- There is always a provider, also with none configured.
pub get_enabled_providers-ne-nil : (env : Env) → get_enabled_providers env ≢ []
unfolding get_enabled_providers
get_enabled_providers-ne-nil env = ground arith
