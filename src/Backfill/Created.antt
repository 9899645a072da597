-- ===== src/Backfill/Created.antt =====
-- What a run of the script writes: the rows that it has prepared, and nothing else.
use payment_microservice.Prelude.{
  String, true, List, [], ◌∷◌, ◌++◌, ◌==◌, ==_iff, ==_refl, contains, Bool-cases, Option-cases, ◌≡◌,
  refl, arith, inl, inr, subst,
}
use payment_microservice.Store.{Transaction, Db, Env}
use payment_microservice.Subscription.{add_subscription}
use payment_microservice.Backfill.{
  Script, Payload, Progress, Users, user_in, email_of, text_of, build_fingerprint,
  payload_fingerprint, source_transaction_ids, source_id, new_payload, cached_plan, add_or_skip,
  consider, consider_all, row_of, create_all,
}
use payment_microservice.Backfill.Settled.{Within, contains-append_right}
use mathlib.Core.List.{map}

abbrev pub fingerprints_of : Script → List (String × Payload) → List String
fingerprints_of script [] = []
fingerprints_of script ((id, p) ∷ rest) = payload_fingerprint script p ∷ fingerprints_of script rest

contains-last :
    (script : Script) (items : List (String × Payload)) (id : String) (p : Payload)
    (xs : List String)
    → contains
        (payload_fingerprint script p)
        (fingerprints_of script (items ++ ((id, p) ∷ [])) ++ xs)
      ≡ true
unfolding contains
contains-last script [] id p xs = ground (arith, ==_refl (payload_fingerprint script p))
contains-last script ((id', p') ∷ items) id p xs =
    ground (arith, contains-last script items id p xs)

contains-insert :
    (script : Script) (items : List (String × Payload)) (item : String × Payload) (xs : List String)
    → Within
        (fingerprints_of script items ++ xs)
        (fingerprints_of script (items ++ (item ∷ [])) ++ xs)
unfolding contains
contains-insert script [] (id, p) xs x h = ground arith
contains-insert script ((id', p') ∷ items) item xs x h =
    ground (arith, contains-insert script items item xs x)

contains-move : (xs ys : List String) (y : String) → Within (y ∷ (xs ++ ys)) (xs ++ (y ∷ ys))
unfolding contains
contains-move [] ys y x h = h
contains-move (z ∷ xs) ys y x h = ground (arith, contains-move xs ys y x)

-- The fingerprints are those of what is prepared, and others that there were before the loop.
abbrev pub IsCovered : Script → List String → Progress → Type 0
IsCovered script old p = Within p.fingerprints (fingerprints_of script p.prepared ++ old)

module _ (env : Env) (script : Script) (db : Db) (users : Users) (sources old : List String) where
  add_or_skip-IsCovered :
      (t : Transaction) (payload : Payload) (p : Progress)
      → IsCovered script old p
      → IsCovered script old (add_or_skip script t payload p)
  unfolding contains
  add_or_skip-IsCovered t payload p covered =
      elim (Bool-cases (contains (payload_fingerprint script payload) p.fingerprints)) [
        | inl known ↦ rw known covered
        | inr new ↦ rw new (λ x h. elim (Bool-cases (payload_fingerprint script payload == x)) [
          | inl same ↦
              subst
                (λ w.
                  contains w (fingerprints_of script (p.prepared ++ ((t.id, payload) ∷ [])) ++ old)
                  ≡ true)
                ((==_iff _ x).0 same) (contains-last script p.prepared t.id payload old)
          | inr other ↦
              contains-insert script p.prepared (t.id, payload) old x (covered x (rw other at h))
        ])
      ]

  consider-IsCovered :
      (t : Transaction) (p : Progress)
      → IsCovered script old p
      → IsCovered script old (consider env script db users sources t p)
  unfolding consider
  consider-IsCovered t p covered = elim (Option-cases (user_in (email_of env t) users)) [
    | inl nobody ↦ rw nobody covered
    | inr (u, user) ↦ elim (Bool-cases (contains t.id sources)) [
      | inl source ↦ rw (user, source) covered
      | inr new ↦
          rw (user, new)
            (elim (Option-cases (cached_plan db (text_of "planId" t) p.plan_cache)) [
              | inl no_plan ↦ rw no_plan covered
              | inr (plan, found) ↦
                  rw found (add_or_skip-IsCovered t (new_payload env script db t u plan) _ covered)
            ])
    ]
  ]

  pub consider_all-IsCovered :
      (ts : List Transaction) (p : Progress)
      → IsCovered script old p
      → IsCovered script old (consider_all env script db users sources ts p)
  unfolding consider_all
  consider_all-IsCovered [] p covered = covered
  consider_all-IsCovered (t ∷ ts) p covered =
      consider_all-IsCovered ts _ (consider-IsCovered t p covered)

module _ (env : Env) where
  pub create_all-fingerprints :
      (script : Script) (items : List (String × Payload)) (db : Db)
      → Within
          (fingerprints_of script items ++ map (build_fingerprint script) db.subscriptions)
          (map (build_fingerprint script) (create_all env items db).subscriptions)
  unfolding create_all build_fingerprint payload_fingerprint
  create_all-fingerprints script [] db x h = h
  create_all-fingerprints script ((id, p) ∷ items) db x h =
      create_all-fingerprints script items (add_subscription (row_of p (env.uuid db.issued)) db) x (
        contains-move (fingerprints_of script items)
          (map (build_fingerprint script) db.subscriptions) (payload_fingerprint script p) x h)

  pub create_all-sources :
      (items : List (String × Payload)) (db : Db)
      → Within
          (source_transaction_ids env db.subscriptions)
          (source_transaction_ids env (create_all env items db).subscriptions)
  unfolding create_all source_transaction_ids
  create_all-sources [] db x h = h
  create_all-sources ((id, p) ∷ items) db x h =
      create_all-sources items (add_subscription (row_of p (env.uuid db.issued)) db) x
        (contains-append_right x (source_id env (row_of p (env.uuid db.issued))) _ h)

  pub create_all-transactions :
      (items : List (String × Payload)) (db : Db)
      → (create_all env items db).transactions ≡ db.transactions
  unfolding create_all
  create_all-transactions [] db = refl
  create_all-transactions ((id, p) ∷ items) db =
      create_all-transactions items (add_subscription (row_of p (env.uuid db.issued)) db)

  pub create_all-plans :
      (items : List (String × Payload)) (db : Db) → (create_all env items db).plans ≡ db.plans
  unfolding create_all
  create_all-plans [] db = refl
  create_all-plans ((id, p) ∷ items) db =
      create_all-plans items (add_subscription (row_of p (env.uuid db.issued)) db)
