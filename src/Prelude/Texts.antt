-- ===== src/Prelude/Texts.antt =====
-- `===` on strings. It stays shut in proofs, which go by the two laws below.
use Prim.Native.String.{String}
use mathlib.Core.Path.{◌≡◌}
use mathlib.Core.Logic.{◌↔◌}
use mathlib.Core.Bool.{Bool, true, false, ◌||◌}
use mathlib.Core.List.{List, [], ◌∷◌}
use text.Mathlib.Text.{◌==◌ as text_eq}
use text.Mathlib.TextEquality.{eq_iff}
use text.Mathlib.TextPositions.{eq_refl}

infix 50 ◌==◌
unfoldable pub ◌==◌ : String → String → Bool
a == b = text_eq a b

pub ==_refl : (a : String) → (a == a) ≡ true
unfolding ◌==◌
==_refl a = eq_refl a

pub ==_iff : (a b : String) → ((a == b) ≡ true) ↔ (a ≡ b)
unfolding ◌==◌
==_iff a b = eq_iff a b

-- `Boolean(s)` of a string: the empty one is falsy.
unfoldable pub truthy : String → Bool
unfolding ◌==◌
truthy s = elim (s == "") [ true ↦ false | false ↦ true ]

-- `includes` of an array, and `has` of a `Set`, of strings
unfoldable pub contains : String → List String → Bool
contains p [] = false
contains p (x ∷ rest) = (x == p) || contains p rest
