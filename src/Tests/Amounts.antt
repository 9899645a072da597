-- ===== src/Tests/Amounts.antt =====
-- The conversion of amounts at a concrete input, with exact arithmetic in place of decimal.js.
use payment_microservice.Prelude.{
  ℕ, zero, suc, ◌-◌, ◌*◌, ◌/◌, ◌≤◌, ℤ, pos, negsuc, ◌*ℤ◌, ◌≡◌, refl, ap, arith, ◌∙◌,
}
use native.Mathlib.Nat.{mul-div_cancel}
use payment_microservice.Currency.{Decimal, pow10, to_smallest_unit, from_smallest_unit}
use payment_microservice.Currency.Exact.{to_smallest_unit-from_smallest_unit}

pow10-pos : (n : ℕ) → 1 ≤ pow10 n
pow10-pos zero = omega arith
pow10-pos (suc n) = omega (arith, pow10-pos n)

abbrev negated : ℕ → ℤ
negated zero = pos 0
negated (suc n) = negsuc n

-- the integer part
abbrev whole_part : Decimal → ℤ
whole_part d = elim d.coefficient [
  | pos n ↦ pos (n / pow10 d.places)
  | negsuc n ↦ negated (suc n / pow10 d.places)
]

times_pos : (n d : ℕ) → pos n *ℤ pos d ≡ pos (n * d)
unfolding ◌*ℤ◌
times_pos n d = ground arith

times_neg : (n d : ℕ) → 1 ≤ d → negsuc n *ℤ pos d ≡ negsuc (suc n * d - 1)
unfolding ◌*ℤ◌
times_neg n d h = ground arith

whole_part-pos :
    (n places : ℕ)
    → whole_part (record { coefficient = pos n *ℤ pos (pow10 places); places = places }) ≡ pos n
whole_part-pos n places =
    rw (times_pos n (pow10 places)) (ap pos (mul-div_cancel n (pow10-pos places)))

whole_part-negsuc :
    (n places : ℕ)
    → whole_part (record { coefficient = negsuc n *ℤ pos (pow10 places); places = places })
      ≡ negsuc n
whole_part-negsuc n places =
    let d = pow10 places in
    let positive = pow10-pos places in
    let back : suc (suc n * d - 1) ≡ suc n * d = omega arith in
    rw (times_neg n d positive)
      (ap (λ m. negated (m / d)) back ∙ ap negated (mul-div_cancel (suc n) positive))

whole_part_lem :
    (c : ℤ) (places : ℕ)
    → whole_part (record { coefficient = c *ℤ pos (pow10 places); places = places }) ≡ c
whole_part_lem (pos n) places = whole_part-pos n places
whole_part_lem (negsuc n) places = whole_part-negsuc n places

to_smallest_unit-from_smallest_unit_example :
    to_smallest_unit
      (λ s. s)
      (λ d. d)
      whole_part
      (from_smallest_unit (λ s. s) (λ d. d) whole_part (pos 9999) "INR")
      "INR"
    ≡ pos 9999
to_smallest_unit-from_smallest_unit_example =
    to_smallest_unit-from_smallest_unit (λ s. s) (λ d. d) whole_part (λ c places k short. refl)
      whole_part_lem (pos 9999) "INR" (omega arith)
