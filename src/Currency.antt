-- ===== src/Currency.antt =====
-- src/common/utils/currency.util.ts. A `Decimal` is an integer over a power of ten; that decimal.js
-- rounds results to its precision is a parameter (`rounded`), as is `toFixed(0)`, which rounds half
-- up. `formatCurrency` is Intl's.
pub mod Exact
use payment_microservice.Prelude.{
  ℕ, ◌+◌, ◌*◌, zero, suc, String, ◌||◌, ◌==◌, if◌then◌else◌, ℤ, pos, ◌+ℤ◌, ◌-ℤ◌, ◌*ℤ◌, ltb_ℤ,
}
use payment_microservice.Store.{Outcome, ok, err, provider_fault}

-- coefficient / 10 ^ places
pub record Decimal : Type 0 where
  pub coefficient : ℤ
  pub places : ℕ

abbrev pub pow10 : ℕ → ℕ
pow10 zero = 1
pow10 (suc n) = 10 * pow10 n

-- the table, at the currency's code in capitals; a currency that is not listed has two places
unfoldable pub get_currency_exponent : (String → String) → String → ℕ
get_currency_exponent to_upper currency = if to_upper currency == "JPY" then 0 else 2

module _ (to_upper : String → String) (rounded : Decimal → Decimal) (to_fixed : Decimal → ℤ) where
  -- of an amount that decimal.js has read
  unfoldable pub to_smallest_unit : Decimal → String → ℤ
  to_smallest_unit amount currency = to_fixed (
      rounded (record {
        coefficient = amount.coefficient *ℤ pos (pow10 (get_currency_exponent to_upper currency));
        places = amount.places;
      }))

  unfoldable pub from_smallest_unit : ℤ → String → Decimal
  from_smallest_unit amount currency =
      rounded (record { coefficient = amount; places = get_currency_exponent to_upper currency })

unfoldable pub add_amounts : ℤ → ℤ → ℤ
add_amounts a b = a +ℤ b

unfoldable pub subtract_amounts : ℤ → ℤ → Outcome ℤ
subtract_amounts a b = if ltb_ℤ a b then err (provider_fault "Amount underflow") else ok (a -ℤ b)
