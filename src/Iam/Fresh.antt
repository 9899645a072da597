-- ===== src/Iam/Fresh.antt =====
-- How old the settings may be that a call returns, and that they can be taxed by.
use payment_microservice.Prelude.{
  ℕ, ◌+◌, ◌≤◌, ◌<◌, String, true, not, [], ◌∷◌, ◌==◌, ==_iff, Bool-cases, Option-cases, ltb, ◌≡◌,
  refl, arith, find_first, find_many, inl, inr, All, All-find_first, find_first-holds,
}
use payment_microservice.Store.{GstConfig}
use payment_microservice.Iam.{
  Remote, Cache, CacheEntry, cache_ttl_ms, fetch_from_iam, get_gst_config, invalidate, is_of,
  fetched,
}

-- A call of the process or an invalidation; the clock does not go back. A call that starts at
-- `now` has ended at `done`.
pub data Reach (remote : Remote) : ℕ → Cache → Type 0 where
  started : (time : ℕ) → Reach remote time []
  then_get :
      {time : ℕ} {cache : Cache}
      → Reach remote time cache
      → (now done : ℕ) → time ≤ now
      → now ≤ done
      → (tenant_id : String) → Reach remote done (get_gst_config remote now done tenant_id cache).1
  then_invalidate :
      {time : ℕ} {cache : Cache}
      → Reach remote time cache
      → (tenant_id : String) → Reach remote time (invalidate tenant_id cache)

-- The identity service gave this configuration for the tenant, before the call ended and less than
-- five minutes before it started.
pub record IsFresh (remote : Remote) (now done : ℕ) (tenant_id : String) (value : GstConfig)
    : Type 0 where
  pub fetched_at : ℕ
  pub is_answer : value ≡ fetch_from_iam remote fetched_at tenant_id
  pub not_later : fetched_at ≤ done
  pub not_old : now < fetched_at + cache_ttl_ms

abbrev IsAnswer : Remote → ℕ → CacheEntry → Type 0
IsAnswer remote time e =
    (t : ℕ) × (e.value ≡ fetch_from_iam remote t e.tenant_id)
    × (t ≤ time)
    × (e.expires_at ≡ t + cache_ttl_ms)

module _ (remote : Remote) where
  All-later :
      (time later : ℕ) (cache : Cache)
      → time ≤ later
      → All (IsAnswer remote time) cache
      → All (IsAnswer remote later) cache
  All-later time later [] h v = tt
  All-later time later (e ∷ cache) h ((t, answer, known, until), rest) =
      ((t, answer, omega arith, until), All-later time later cache h rest)

  All-kept :
      (time : ℕ) (tenant_id : String) (cache : Cache)
      → All (IsAnswer remote time) cache
      → All (IsAnswer remote time) (find_many (λ e. not (is_of tenant_id e)) cache)
  unfolding find_many
  All-kept time tenant_id [] v = tt
  All-kept time tenant_id (e ∷ cache) (v, rest) = elim (Bool-cases (e.tenant_id == tenant_id)) [
    | inl same ↦ rw same (All-kept time tenant_id cache rest)
    | inr other ↦ rw other (v, All-kept time tenant_id cache rest)
  ]

  set-IsAnswer :
      (time done : ℕ) (tenant_id : String) (cache : Cache)
      → time ≤ done
      → All (IsAnswer remote time) cache
      → All (IsAnswer remote done) (fetched remote done tenant_id cache).1
  set-IsAnswer time done tenant_id cache later v = (
    (done, refl, omega arith, refl),
    All-later time done _ later (All-kept time tenant_id cache v),
  )

  fetched-IsFresh :
      (now done : ℕ) (tenant_id : String)
      → now ≤ done
      → IsFresh remote now done tenant_id (fetch_from_iam remote done tenant_id)
  fetched-IsFresh now done tenant_id longer = record {
    fetched_at = done;
    is_answer = refl;
    not_later = omega arith;
    not_old = omega arith;
  }

  kept_answer :
      (time now done : ℕ) (tenant_id : String) (e : CacheEntry)
      → IsAnswer remote time e
      → e.tenant_id ≡ tenant_id
      → ltb now e.expires_at ≡ true
      → now ≤ done
      → time ≤ now
      → IsFresh remote now done tenant_id e.value
  kept_answer time now done tenant_id e (t, answer, known, until) same live longer later = record {
    fetched_at = t;
    is_answer = rw⁻¹ same answer;
    not_later = omega arith;
    not_old = ground arith;
  }

  -- what one call returns, and what it leaves
  get_lem :
      (time now done : ℕ) (tenant_id : String) (cache : Cache)
      → time ≤ now
      → now ≤ done
      → All (IsAnswer remote time) cache
      → IsFresh remote now done tenant_id (get_gst_config remote now done tenant_id cache).0
        × All (IsAnswer remote done) (get_gst_config remote now done tenant_id cache).1
  unfolding get_gst_config
  get_lem time now done tenant_id cache later longer v =
      elim (Option-cases (find_first (is_of tenant_id) cache)) [
        | inl absent ↦ rw absent (
          fetched-IsFresh now done tenant_id longer,
          set-IsAnswer time done tenant_id cache (omega arith) v,
        )
        | inr (e, found) ↦ elim (Bool-cases (ltb now e.expires_at)) [
          | inl live ↦
              rw (found, live)
                (
                  kept_answer time now done tenant_id e
                      (All-find_first (IsAnswer remote time) _ cache v found)
                      ((==_iff _ _).0 (find_first-holds _ cache found)) live longer later,
                  All-later time done cache (omega arith) v,
                )
          | inr expired ↦
              rw (found, expired)
                (
                  fetched-IsFresh now done tenant_id longer,
                  set-IsAnswer time done tenant_id cache (omega arith) v,
                )
        ]
      ]

  invalidated-IsAnswer :
      (time : ℕ) (tenant_id : String) (cache : Cache)
      → All (IsAnswer remote time) cache
      → All (IsAnswer remote time) (invalidate tenant_id cache)
  unfolding invalidate
  invalidated-IsAnswer = All-kept

  Reach-IsAnswer :
      {time : ℕ} {cache : Cache} → Reach remote time cache → All (IsAnswer remote time) cache
  Reach-IsAnswer (started time) = tt
  Reach-IsAnswer (then_get {time} {cache} r now done later longer tenant_id) =
      (get_lem time now done tenant_id cache later longer (Reach-IsAnswer r)).1
  Reach-IsAnswer (then_invalidate {time} {cache} r tenant_id) =
      invalidated-IsAnswer time tenant_id cache (Reach-IsAnswer r)

-- However the calls and invalidations of a process have followed one another, `getGstConfig` returns
-- a configuration: one that the identity service gave for the same tenant, or the default in its
-- place, before the call ended and less than five minutes before it started.
pub Reach-IsFresh :
    (remote : Remote) {time : ℕ} {cache : Cache}
    → Reach remote time cache
    → (now done : ℕ) → time ≤ now
    → now ≤ done
    → (tenant_id : String)
    → IsFresh remote now done tenant_id (get_gst_config remote now done tenant_id cache).0
Reach-IsFresh remote {time} {cache} r now done later longer tenant_id =
    (get_lem remote time now done tenant_id cache later longer (Reach-IsAnswer remote r)).0
