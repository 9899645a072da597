-- ===== src/Prelude/Lists.antt =====
-- Rows of a table: the reads and writes that the services make, as functions on lists.
use Prim.Native.Nat.{ℕ, zero, suc}
use mathlib.Core.Bool.{Bool}
use mathlib.Core.Option.{Option, none, some}
use mathlib.Core.List.{List, [], ◌∷◌}
use payment_microservice.Prelude.Tests.{if◌then◌else◌}

module _ {ℓ} {A : Type ℓ} where
  abbrev pub length : List A → ℕ
  length [] = 0
  length (x ∷ xs) = suc (length xs)

  abbrev pub take : ℕ → List A → List A
  take zero xs = []
  take (suc n) [] = []
  take (suc n) (x ∷ xs) = x ∷ take n xs

  abbrev pub drop : ℕ → List A → List A
  drop zero xs = xs
  drop (suc n) [] = []
  drop (suc n) (x ∷ xs) = drop n xs

module _ {R : Type 0} where
  -- `findFirst`, `findUnique`
  unfoldable pub find_first : (R → Bool) → List R → Option R
  find_first p [] = none
  find_first p (r ∷ rs) = if p r then some r else find_first p rs

  -- `findMany`
  unfoldable pub find_many : (R → Bool) → List R → List R
  find_many p [] = []
  find_many p (r ∷ rs) = let rest = find_many p rs in if p r then r ∷ rest else rest

  -- `updateMany`, and `update` by a unique key
  unfoldable pub update_where : (R → Bool) → (R → R) → List R → List R
  update_where p f [] = []
  update_where p f (r ∷ rs) = (if p r then f r else r) ∷ update_where p f rs

  -- `count`
  unfoldable pub count_where : (R → Bool) → List R → ℕ
  count_where p [] = 0
  count_where p (r ∷ rs) = let rest = count_where p rs in if p r then suc rest else rest

  -- Every row satisfies the predicate.
  abbrev pub All {κ} : (R → Type κ) → List R → Type κ
  All P [] = Unit
  All P (r ∷ rs) = P r × All P rs
