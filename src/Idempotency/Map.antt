-- ===== src/Idempotency/Map.antt =====
-- The cache is a map from keys to results: an abstract view that forgets the list of entries.
use payment_microservice.Prelude.{
  ℕ, ◌≤◌, String, true, not, Option, none, some, List, [], ◌∷◌, ◌==◌, ==_iff, if◌then◌else◌,
  find_first, find_many, ◌≡◌, refl, arith,
}
use payment_microservice.Store.{InitiatePaymentResult, CacheEntry, Db, Env}
use payment_microservice.Idempotency.{get, store, release, is_live, delete_key, set_key}
use mathlib.Core.Option

-- What the clients see at one time: a result for the hash of a key, or none
abbrev pub View : Type 0
View = String → Option InitiatePaymentResult

abbrev pub view : Env → Db → View
view env db hashed = Option.map (λ e. e.value) (find_first (is_live env.now hashed) db.cache)

abbrev pub insert : String → InitiatePaymentResult → View → View
insert hashed value m other = if hashed == other then some value else m other

abbrev pub remove : String → View → View
remove hashed m other = if hashed == other then none else m other

==_left : (a b c : String) → (a == b) ≡ true → (a == c) ≡ (b == c)
==_left a b c h = rw ((==_iff a b).0 h) refl

==_right : (a b c : String) → (b == c) ≡ true → (a == b) ≡ (a == c)
==_right a b c h = rw ((==_iff b c).0 h) refl

find_first-delete :
    (now : ℕ) (hashed other : String) (entries : List CacheEntry)
    → find_first (is_live now other) (find_many (λ e. not (e.key == hashed)) entries)
      ≡ (if hashed == other then none else find_first (is_live now other) entries)
unfolding find_first find_many
find_first-delete now hashed other [] = ground arith
find_first-delete now hashed other (e ∷ entries) = ground (
  arith,
  find_first-delete now hashed other entries,
  ==_left e.key hashed other,
  ==_right e.key hashed other,
)

removed_lem :
    (env : Env) (hashed : String) (db : Db) (other : String)
    → view env (delete_key hashed db) other ≡ remove hashed (view env db) other
removed_lem env hashed db other =
    rw (find_first-delete env.now hashed other db.cache) (ground arith)

inserted_lem :
    (env : Env) (hashed : String) (result : InitiatePaymentResult) (db : Db)
    → 1 ≤ env.idempotency_ttl_seconds
    → (other : String)
    → view env (set_key env hashed result db) other ≡ insert hashed result (view env db) other
unfolding find_first
inserted_lem env hashed result db lasts other =
    ground (arith, find_first-delete env.now hashed other db.cache)

-- If entries last at least a second, the cache implements a map from the hashes of keys to results:
-- after `store` it is the map with the key's result inserted, after `release` it is the map without
-- the key, and `get` reads it at the hash of its key, all at the time of the calls.
pub view-store :
    (env : Env) (key : String) (result : InitiatePaymentResult) (db : Db)
    → 1 ≤ env.idempotency_ttl_seconds
    → (view env (store env key result db).1 ≡ insert (env.hash key) result (view env db))
      × (view env (release env key db).1 ≡ remove (env.hash key) (view env db))
      × ((other : String) → get env other db ≡ view env db (env.hash other))
unfolding store release get
view-store env key result db lasts = (
  (λ i other. inserted_lem env (env.hash key) result db lasts other i),
  (λ i other. removed_lem env (env.hash key) db other i),
  λ other. refl,
)
