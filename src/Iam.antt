-- ===== src/Iam.antt =====
-- `IamSettingsService` (src/modules/iam/iam-settings.service.ts): the GST settings of a tenant, which
-- the identity service answers and this process keeps for five minutes. A `Map` is a list with one
-- entry for each key.
pub mod Fresh
pub mod Permissions
use payment_microservice.Prelude.{
  ℕ, ◌+◌, ◌*◌, String, Bool, true, false, not, Option, none, some, List, [], ◌∷◌, ◌==◌, truthy, ltb,
  if◌then◌else◌, find_first, find_many,
}
use payment_microservice.Store.{
  Json, null, text, object, get, Outcome, ok, err, Fault, provider_fault, on_ok, GstConfig, GstType,
  Rate,
}

-- `Response` of `fetch`: `res.ok`, and what `res.json()` reads or throws
pub record Response : Type 0 where
  pub is_ok : Bool
  pub body : Outcome Json

-- The identity service as this one is configured to call it. A call that ends at a time is answered
-- for a tenant, or throws, also where it has taken more than five seconds. `rate_of` is `Number(raw)`
-- where that is positive.
pub record Remote : Type 0 where
  pub service_url : String
  pub fetch : ℕ → String → Outcome Response
  pub rate_of : Json → Option Rate

pub record CacheEntry : Type 0 where
  pub tenant_id : String
  pub value : GstConfig
  pub expires_at : ℕ

abbrev pub Cache : Type 0
Cache = List CacheEntry

abbrev pub cache_ttl_ms : ℕ
cache_ttl_ms = 5 * 60 * 1000

abbrev pub gst_defaults : GstConfig
gst_defaults = record {
  gst_type = some GstType.intra;
  gst_rate = some (record { num = 18; den = 1 });
}

-- A missing setting is `NaN`; a rate that is not positive is none.
abbrev pub parse_rate : Remote → Option Json → Option Rate
parse_rate remote none = gst_defaults.gst_rate
parse_rate remote (some raw) = elim (remote.rate_of raw) [
  | none ↦ gst_defaults.gst_rate
  | some rate ↦ some rate
]

abbrev pub parse_type : Option Json → GstType
parse_type (some (text s)) = if s == "inter" then GstType.inter else GstType.intra
parse_type _ = GstType.intra

-- `data[key]`; a value that is neither an object nor null has none of the keys
abbrev pub setting : String → Json → Option Json
setting key (object fields) = get key fields
setting key _ = none

-- Reading a key of null throws.
abbrev pub read_settings : Remote → Json → Outcome GstConfig
read_settings remote null = err (provider_fault "TypeError")
read_settings remote settings = ok (record {
  gst_rate = parse_rate remote (setting "payment.gst.default_rate" settings);
  gst_type = some (parse_type (setting "payment.gst.default_type" settings));
})

-- the `try` block
abbrev pub try_fetch : Remote → ℕ → String → Outcome GstConfig
try_fetch remote time tenant_id = on_ok (remote.fetch time tenant_id) (λ response.
    if response.is_ok
    then on_ok response.body (read_settings remote)
    else err (provider_fault "HTTP status"))

-- the `catch` block
abbrev pub or_defaults : Outcome GstConfig → GstConfig
or_defaults (ok config) = config
or_defaults (err e) = gst_defaults

unfoldable pub fetch_from_iam : Remote → ℕ → String → GstConfig
fetch_from_iam remote time tenant_id =
    if truthy remote.service_url
    then or_defaults (try_fetch remote time tenant_id)
    else gst_defaults

abbrev pub is_of : String → CacheEntry → Bool
is_of tenant_id e = e.tenant_id == tenant_id

unfoldable pub invalidate : String → Cache → Cache
invalidate tenant_id cache = find_many (λ e. not (is_of tenant_id e)) cache

-- `cache.set`
abbrev pub set : String → GstConfig → ℕ → Cache → Cache
set tenant_id value time cache =
    record { tenant_id = tenant_id; value = value; expires_at = time + cache_ttl_ms }
    ∷ find_many (λ e. not (is_of tenant_id e)) cache

abbrev pub fetched : Remote → ℕ → String → Cache → GstConfig × Cache
fetched remote time tenant_id cache =
    let value = fetch_from_iam remote time tenant_id in (value, set tenant_id value time cache)

abbrev pub cached_or_fetched :
    Remote → ℕ → ℕ → String → Cache → Option CacheEntry → GstConfig × Cache
cached_or_fetched remote now done tenant_id cache none = fetched remote done tenant_id cache
cached_or_fetched remote now done tenant_id cache (some e) =
    if ltb now e.expires_at then (e.value, cache) else fetched remote done tenant_id cache

-- A call made at `now`; where it asks the identity service, the answer is there at `done`.
unfoldable pub get_gst_config : Remote → ℕ → ℕ → String → Cache → GstConfig × Cache
get_gst_config remote now done tenant_id cache =
    cached_or_fetched remote now done tenant_id cache (find_first (is_of tenant_id) cache)
