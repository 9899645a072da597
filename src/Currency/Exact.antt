-- ===== src/Currency/Exact.antt =====
-- Conversions between units are exact, and amounts do not underflow.
use payment_microservice.Prelude.{
  ℕ, ◌+◌, ◌<◌, String, ℤ, pos, ◌+ℤ◌, ◌-ℤ◌, ◌*ℤ◌, ◌≤ℤ◌, ltb_ℤ, pos_part, neg_part, +ℤ_parts,
  -ℤ_parts, eq_of_parts, ◌≡◌, refl, arith, Bool-cases, inl, inr, ◌⊎◌, subst,
}
use payment_microservice.Store.{ok, err, Fault, provider_fault}
use payment_microservice.Currency.{
  Decimal, pow10, get_currency_exponent, to_smallest_unit, from_smallest_unit, add_amounts,
  subtract_amounts,
}

-- Subtraction and addition undo one another, and subtraction never returns a negative amount where
-- the amounts are not negative: it returns the difference, which is at most the first amount and
-- to which adding the second gives back the first, or throws if the second is greater.
pub subtract_amounts-add_amounts :
    (a b : ℤ)
    → pos 0 ≤ℤ b
    → ((d : ℤ) × (subtract_amounts a b ≡ ok d)
        × (b ≤ℤ a)
        × (pos 0 ≤ℤ d)
        × (d ≤ℤ a)
        × (add_amounts d b ≡ a))
      ⊎ ((e : Fault) × (subtract_amounts a b ≡ err e) × (a +ℤ pos 1 ≤ℤ b))
unfolding subtract_amounts add_amounts
subtract_amounts-add_amounts a b nonneg = elim (Bool-cases (ltb_ℤ a b)) [
  | inl less ↦
      inr (provider_fault "Amount underflow", rw less refl, ground (arith, +ℤ_parts a (pos 1)))
  | inr not_less ↦
      let d_parts = -ℤ_parts a b in
      let within : b ≤ℤ a = ground arith in
      inl (
        a -ℤ b,
        rw not_less refl,
        within,
        omega arith,
        omega arith,
        eq_of_parts _ _ (omega (arith, +ℤ_parts (a -ℤ b) b)),
      )
]

*ℤ_one : (a : ℤ) → a *ℤ pos 1 ≡ a
unfolding ◌*ℤ◌
*ℤ_one a = ground arith

-- An amount in the smallest unit, of 20 digits at most, comes back unchanged from the conversion to
-- the major unit and back, in every currency. decimal.js must leave a number of at most 20
-- significant digits as it is, and `toFixed(0)` a whole number.
pub to_smallest_unit-from_smallest_unit :
    (to_upper : String → String) (rounded : Decimal → Decimal) (to_fixed : Decimal → ℤ)
    → ((c : ℤ) (places k : ℕ)
        → pos_part c + neg_part c < pow10 20
        → rounded (record { coefficient = c *ℤ pos (pow10 k); places = places })
          ≡ record { coefficient = c *ℤ pos (pow10 k); places = places })
    → ((c : ℤ) (places : ℕ)
        → to_fixed (record { coefficient = c *ℤ pos (pow10 places); places = places }) ≡ c)
    → (amount : ℤ) (currency : String) → pos_part amount + neg_part amount < pow10 20
    → to_smallest_unit to_upper rounded to_fixed
        (from_smallest_unit to_upper rounded to_fixed amount currency)
        currency
      ≡ amount
unfolding to_smallest_unit from_smallest_unit
to_smallest_unit-from_smallest_unit to_upper rounded to_fixed exact whole amount currency short =
    let places = get_currency_exponent to_upper currency in
    let major : rounded (record { coefficient = amount; places = places })
        ≡ record { coefficient = amount; places = places } =
      subst
        (λ c.
          rounded (record { coefficient = c; places = places })
          ≡ record { coefficient = c; places = places })
        (*ℤ_one amount) (exact amount places 0 short) in
    rw (major, exact amount places places short) (whole amount places)
