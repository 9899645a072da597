-- ===== src/Backfill/Settled.antt =====
-- What one round of the script's loop leaves, and when a round prepares nothing.
use payment_microservice.Prelude.{
  String, true, false, some, List, [], ◌∷◌, ◌++◌, ◌==◌, ==_iff, ==_refl, contains, is_some,
  if◌then◌else◌, Bool-cases, Option-cases, find_first, ◌≡◌, refl, sym, arith, All, inl, inr, ◌∙◌,
  subst, find_first-holds,
}
use mathlib.Core.Option.{some-injective}
use payment_microservice.Store.{Transaction, Plan, Db, Env}
use payment_microservice.Backfill.{
  Script, Payload, SkipReason, Progress, Users, user_in, email_of, text_of, payload_fingerprint,
  new_payload, cached_plan, with_id, remember, add_or_skip, with_plan, skip, consider, consider_all,
}

-- every text of the first list is in the second
abbrev pub Within : List String → List String → Type 0
Within xs ys = (x : String) → contains x xs ≡ true → contains x ys ≡ true

contains-append_left :
    (x : String) (xs ys : List String) → contains x xs ≡ true → contains x (xs ++ ys) ≡ true
unfolding contains
contains-append_left x [] ys h = cc
contains-append_left x (y ∷ xs) ys h = ground (arith, contains-append_left x xs ys)

pub contains-append_right :
    (x : String) (xs ys : List String) → contains x ys ≡ true → contains x (xs ++ ys) ≡ true
unfolding contains
contains-append_right x [] ys h = h
contains-append_right x (y ∷ xs) ys h = ground (arith, contains-append_right x xs ys h)

-- The cache holds rows of the table, each under its id.
abbrev pub IsCache : Db → List Plan → Type 0
IsCache db cache = (id : String) → cached_plan db id cache ≡ find_first (with_id id) db.plans

-- If a transaction has a user, is no source of a subscription and has a plan, then the fingerprint
-- of its period is among these.
abbrev pub IsSettled : Env → Script → Db → Users → List String → List String → Transaction → Type 0
IsSettled env script db users sources fingerprints t =
    (user_id : String) (plan : Plan)
    → user_in (email_of env t) users ≡ some user_id
    → contains t.id sources ≡ false
    → find_first (with_id (text_of "planId" t)) db.plans ≡ some plan
    → contains (payload_fingerprint script (new_payload env script db t user_id plan)) fingerprints
      ≡ true

cached_plan-cons :
    (db : Db) (id : String) (plan : Plan) (cache : List Plan)
    → cached_plan db id (plan ∷ cache)
      ≡ (if plan.id == id then some plan else cached_plan db id cache)
unfolding find_first
cached_plan-cons db id plan cache = ground arith

pub remember-IsCache :
    (db : Db) (id : String) (plan : Plan) (cache : List Plan)
    → find_first (with_id id) db.plans ≡ some plan
    → plan.id ≡ id
    → IsCache db cache
    → IsCache db (remember plan cache)
remember-IsCache db id plan cache found same kept other =
    elim (Bool-cases (is_some (find_first (with_id plan.id) cache))) [
      | inl known ↦ rw known (kept other)
      | inr new ↦ rw new (
          cached_plan-cons db other plan cache ∙ (elim (Bool-cases (plan.id == other)) [
            | inl here ↦ rw here (
                sym (
                  subst (λ k. find_first (with_id k) db.plans ≡ some plan)
                    (sym same ∙ (==_iff plan.id other).0 here) found))
            | inr there ↦ rw there (kept other)
          ]))
    ]

-- what one round of the loop keeps and reaches
record IsRound (env : Env) (script : Script) (db : Db) (users : Users) (sources : List String)
    (t : Transaction) (p q : Progress) : Type 0 where
  keeps_cache : IsCache db q.plan_cache
  grows : Within p.fingerprints q.fingerprints
  settles : IsSettled env script db users sources q.fingerprints t

module _ (env : Env) (script : Script) (db : Db) (users : Users) (sources : List String) where
  add_or_skip-contains :
      (t : Transaction) (payload : Payload) (p : Progress)
      → contains (payload_fingerprint script payload) (add_or_skip script t payload p).fingerprints
        ≡ true
  unfolding contains
  add_or_skip-contains t payload p = ground (arith, ==_refl (payload_fingerprint script payload))

  add_or_skip-Within :
      (t : Transaction) (payload : Payload) (p : Progress)
      → Within p.fingerprints (add_or_skip script t payload p).fingerprints
  unfolding contains
  add_or_skip-Within t payload p x h = ground arith

  add_or_skip-plan_cache :
      (t : Transaction) (payload : Payload) (p : Progress)
      → (add_or_skip script t payload p).plan_cache ≡ p.plan_cache
  add_or_skip-plan_cache t payload p = ground arith

  -- a round that reaches the plan
  abbrev round_of : Transaction → String → Plan → Progress → Progress
  round_of t u plan p = with_plan env script db t u p (some plan)

  with_plan-IsRound :
      (t : Transaction) (u : String) (p : Progress)
      → IsCache db p.plan_cache
      → user_in (email_of env t) users ≡ some u
      → IsRound env script db users sources t p
          (with_plan env script db t u p (find_first (with_id (text_of "planId" t)) db.plans))
  with_plan-IsRound t u p kept user =
      elim (Option-cases (find_first (with_id (text_of "planId" t)) db.plans)) [
        | inl no_plan ↦ rw no_plan (record {
          keeps_cache = kept;
          grows = λ x h. h;
          settles = λ u' plan same other found. cc;
        })
        | inr (plan, found) ↦ rw found (record {
          keeps_cache = rw (add_or_skip-plan_cache t (new_payload env script db t u plan) _) (
              remember-IsCache db (text_of "planId" t) plan p.plan_cache found
                ((==_iff _ _).0 (find_first-holds _ db.plans found)) kept);
          grows = add_or_skip-Within t (new_payload env script db t u plan) _;
          settles = λ u' plan' same new found'.
              subst
                (λ w.
                  contains (payload_fingerprint script (new_payload env script db t w plan'))
                    (round_of t u plan p).fingerprints
                  ≡ true)
                (some-injective _ _ (sym user ∙ same))
                (subst
                  (λ w.
                    contains (payload_fingerprint script (new_payload env script db t u w))
                      (round_of t u plan p).fingerprints
                    ≡ true)
                  (some-injective _ _ (sym found ∙ found'))
                  (add_or_skip-contains t (new_payload env script db t u plan) _));
        })
      ]

  consider-IsRound :
      (t : Transaction) (p : Progress)
      → IsCache db p.plan_cache
      → IsRound env script db users sources t p (consider env script db users sources t p)
  unfolding consider
  consider-IsRound t p kept = elim (Option-cases (user_in (email_of env t) users)) [
    | inl nobody ↦
        rw nobody
          (record { keeps_cache = kept; grows = λ x h. h; settles = λ u plan user other found. cc })
    | inr (u, user) ↦ rw user (elim (Bool-cases (contains t.id sources)) [
      | inl source ↦
          rw source (record {
            keeps_cache = kept;
            grows = λ x h. h;
            settles = λ u plan user other found. cc;
          })
      | inr new ↦ rw (new, kept (text_of "planId" t)) (with_plan-IsRound t u p kept user)
    ])
  ]

  pub consider_all-IsLoop :
      (ts : List Transaction) (p : Progress)
      → IsCache db p.plan_cache
      → Within p.fingerprints (consider_all env script db users sources ts p).fingerprints
        × All
            (IsSettled env script db users sources
              (consider_all env script db users sources ts p).fingerprints)
            ts
  unfolding consider_all
  consider_all-IsLoop [] p kept = (λ x h. h, tt)
  consider_all-IsLoop (t ∷ ts) p kept =
      let q = consider env script db users sources t p in
      let round : IsRound env script db users sources t p q = consider-IsRound t p kept in
      let rest = consider_all-IsLoop ts q round.keeps_cache in
      (
        λ x h. rest.0 x (round.grows x h),
        (λ u plan user new found. rest.0 _ (round.settles u plan user new found), rest.1),
      )

  add_or_skip-settled :
      (t : Transaction) (payload : Payload) (p : Progress)
      → contains (payload_fingerprint script payload) p.fingerprints ≡ true
      → add_or_skip script t payload p ≡ skip t SkipReason.period_exists p
  add_or_skip-settled t payload p h = rw h refl

  with_plan-settled :
      (t : Transaction) (u : String) (p : Progress)
      → IsCache db p.plan_cache
      → IsSettled env script db users sources p.fingerprints t
      → user_in (email_of env t) users ≡ some u
      → contains t.id sources ≡ false
      → let q =
          with_plan env script db t u p (find_first (with_id (text_of "planId" t)) db.plans) in
        (q.prepared ≡ p.prepared) × (q.fingerprints ≡ p.fingerprints) × IsCache db q.plan_cache
  with_plan-settled t u p kept settled user new =
      elim (Option-cases (find_first (with_id (text_of "planId" t)) db.plans)) [
        | inl no_plan ↦ rw no_plan (refl, refl, kept)
        | inr (plan, found) ↦
            rw (found, settled u plan user new found)
              (
                refl,
                refl,
                remember-IsCache db (text_of "planId" t) plan p.plan_cache found
                    ((==_iff _ _).0 (find_first-holds _ db.plans found)) kept,
              )
      ]

  -- A round that finds its transaction settled prepares nothing.
  consider-settled :
      (t : Transaction) (p : Progress)
      → IsCache db p.plan_cache
      → IsSettled env script db users sources p.fingerprints t
      → let q = consider env script db users sources t p in
        (q.prepared ≡ p.prepared) × (q.fingerprints ≡ p.fingerprints) × IsCache db q.plan_cache
  unfolding consider
  consider-settled t p kept settled = elim (Option-cases (user_in (email_of env t) users)) [
    | inl nobody ↦ rw nobody (refl, refl, kept)
    | inr (u, user) ↦ elim (Bool-cases (contains t.id sources)) [
      | inl source ↦ rw (user, source) (refl, refl, kept)
      | inr new ↦
          rw (user, new, kept (text_of "planId" t)) (with_plan-settled t u p kept settled user new)
    ]
  ]

  pub consider_all-settled :
      (ts : List Transaction) (p : Progress)
      → IsCache db p.plan_cache
      → All (IsSettled env script db users sources p.fingerprints) ts
      → (consider_all env script db users sources ts p).prepared ≡ p.prepared
  unfolding consider_all
  consider_all-settled [] p kept v = refl
  consider_all-settled (t ∷ ts) p kept (settled, v) =
      let q = consider env script db users sources t p in
      let (same, fps, kept') = consider-settled t p kept settled in
      consider_all-settled ts q kept'
        (subst (λ f. All (IsSettled env script db users sources f) ts) (sym fps) v)
      ∙ same
