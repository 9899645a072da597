-- ===== src/Prelude/Rows.antt =====
-- Laws of the reads and writes of a table.
use Prim.Native.Nat.{ℕ, ◌+◌, ◌≤◌}
use mathlib.Core.Path.{◌≡◌, refl, subst}
use mathlib.Core.Bool.{Bool, true, false}
use mathlib.Core.Option.{none, some, some-injective}
use mathlib.Core.List.{List, [], ◌∷◌}
use native.Mathlib.Omega.{arith}
use payment_microservice.Prelude.Tests.{if◌then◌else◌}
use payment_microservice.Prelude.Lists.{find_first, update_where, count_where, All}

abbrev pub bit : Bool → ℕ
bit true = 1
bit false = 0

module _ {R : Type 0} where
  pub count_where-eq-zero :
      (p : R → Bool) (rs : List R) → find_first p rs ≡ none → count_where p rs ≡ 0
  unfolding find_first count_where
  count_where-eq-zero p [] h = refl
  count_where-eq-zero p (r ∷ rs) h = ground (arith, count_where-eq-zero p rs)

  pub find_first-eq-none :
      (p : R → Bool) (rs : List R) → count_where p rs ≡ 0 → find_first p rs ≡ none
  unfolding find_first count_where
  find_first-eq-none p [] h = refl
  find_first-eq-none p (r ∷ rs) h = ground (arith, find_first-eq-none p rs)

  pub find_first-holds :
      (p : R → Bool) (rs : List R) {r : R} → find_first p rs ≡ some r → p r ≡ true
  unfolding find_first
  find_first-holds p [] h = cc
  find_first-holds p (x ∷ rs) {r} h = ground (arith, find_first-holds p rs {r = r})

  pub find_first-pos :
      (p : R → Bool) (rs : List R) {r : R} → find_first p rs ≡ some r → 1 ≤ count_where p rs
  unfolding find_first count_where
  find_first-pos p [] h = cc
  find_first-pos p (x ∷ rs) {r} h = ground (arith, find_first-pos p rs {r = r})

  pub update_where_absent :
      (q : R → Bool) (f : R → R) (rs : List R) → count_where q rs ≡ 0 → update_where q f rs ≡ rs
  unfolding count_where update_where
  update_where_absent q f [] h = refl
  update_where_absent q f (r ∷ rs) h = ground (arith, update_where_absent q f rs)

  -- Where one row at most is written, a count changes by what that row's test changes.
  pub count_where-update_where :
      (p q : R → Bool) (f : R → R) (rs : List R) {r : R}
      → find_first q rs ≡ some r
      → count_where q rs ≤ 1
      → count_where p (update_where q f rs) + bit (p r) ≡ count_where p rs + bit (p (f r))
  unfolding find_first count_where update_where
  count_where-update_where p q f [] h u = cc
  count_where-update_where p q f (x ∷ rs) {r} h u =
      ground (arith, count_where-update_where p q f rs {r = r}, update_where_absent q f rs)

  -- A count over rows that a write does not bring in can only fall.
  pub count_where-update_where_le :
      (p q : R → Bool) (f : R → R) (rs : List R)
      → ((r : R) → p (f r) ≡ true → p r ≡ true)
      → count_where p (update_where q f rs) ≤ count_where p rs
  unfolding count_where update_where
  count_where-update_where_le p q f [] h = omega arith
  count_where-update_where_le p q f (r ∷ rs) h =
      ground (arith, h r, count_where-update_where_le p q f rs h)

  -- A count by a column that a write keeps does not change.
  pub count_where-update_where_eq :
      (p q : R → Bool) (f : R → R) (rs : List R)
      → ((r : R) → p (f r) ≡ p r)
      → count_where p (update_where q f rs) ≡ count_where p rs
  unfolding count_where update_where
  count_where-update_where_eq p q f [] h = refl
  count_where-update_where_eq p q f (r ∷ rs) h =
      ground (arith, h r, count_where-update_where_eq p q f rs h)

  -- The written row is found again, if the write keeps the test.
  pub find_first-update_where :
      (q : R → Bool) (f : R → R) (rs : List R) {r : R}
      → ((x : R) → q (f x) ≡ q x)
      → find_first q rs ≡ some r
      → find_first q (update_where q f rs) ≡ some (f r)
  unfolding find_first update_where
  find_first-update_where q f [] k h = cc
  find_first-update_where q f (x ∷ rs) {r} k h =
      ground (arith, k x, find_first-update_where q f rs {r = r} k)

  -- A read by another test does not see the write, if the tests exclude one another.
  pub find_first-update_where_other :
      (p q : R → Bool) (f : R → R) (rs : List R)
      → ((x : R) → q x ≡ true → p x ≡ false)
      → ((x : R) → q x ≡ true → p (f x) ≡ false)
      → find_first p (update_where q f rs) ≡ find_first p rs
  unfolding find_first update_where
  find_first-update_where_other p q f [] k l = refl
  find_first-update_where_other p q f (x ∷ rs) k l =
      ground (arith, k x, l x, find_first-update_where_other p q f rs k l)

  pub All-update_where {κ} :
      (P : R → Type κ) (q : R → Bool) (f : R → R) (rs : List R)
      → ((r : R) → P r → P (f r))
      → All P rs
      → All P (update_where q f rs)
  unfolding update_where
  All-update_where P q f [] k h = tt
  All-update_where P q f (r ∷ rs) k (p, h) =
      elim (q r) as (λ b. All P ((if b then f r else r) ∷ update_where q f rs)) [
        | true ↦ (k r p, All-update_where P q f rs k h)
        | false ↦ (p, All-update_where P q f rs k h)
      ]

  pub All-find_first {κ} :
      (P : R → Type κ) (q : R → Bool) (rs : List R) {r : R}
      → All P rs
      → find_first q rs ≡ some r
      → P r
  unfolding find_first
  All-find_first P q [] h e = cc
  All-find_first P q (x ∷ rs) {r} (p, h) e =
      (elim (q x) as (λ b. (if b then some x else find_first q rs) ≡ some r → P r) [
        | true ↦ λ same. subst P (some-injective _ _ same) p
        | false ↦ λ later. All-find_first P q rs h later
      ])
        e

  -- A write that takes every row out of the test leaves none in it.
  pub count_where-update_where_self :
      (p : R → Bool) (f : R → R) (rs : List R)
      → ((r : R) → p (f r) ≡ false)
      → count_where p (update_where p f rs) ≡ 0
  unfolding count_where update_where
  count_where-update_where_self p f [] h = refl
  count_where-update_where_self p f (r ∷ rs) h =
      ground (arith, h r, count_where-update_where_self p f rs h)

  pub find_first-update_where-none :
      (q : R → Bool) (f : R → R) (rs : List R)
      → find_first q rs ≡ none
      → find_first q (update_where q f rs) ≡ none
  unfolding find_first update_where
  find_first-update_where-none q f [] h = refl
  find_first-update_where-none q f (r ∷ rs) h = ground (arith, find_first-update_where-none q f rs)
