-- ===== src/Billing.antt =====
-- internal/billing/fixed.go. A `*big.Rat` is a fraction in lowest terms. How `SetString` reads the
-- text of a quantity is an argument: the model fixes no grammar of numbers.
pub mod Fraction
pub mod Laws
pub mod Rates
mod Tests
use Prim.Native.Nat.{compare, Ordering}
use Prim.Native.String
use gpu_rental_platform.Common.{
  ℕ, ◌+◌, ◌-◌, ◌*◌, String, Bool, true, false, not, ◌&&◌, ◌||◌, Option, none, some, List, [], ◌∷◌,
  ltb, leb, ◌==◌, if◌then◌else◌, str_eq, find, min, Outcome, ok, err, Error, invalid, unknown_rate,
  fail_if, or_fail, ◌>>=◌, ◌>>◌, is_some,
}
use gpu_rental_platform.Common.Int.{ℤ, pos, negsuc, pos_part, ltb_ℤ, leb_ℤ, max_int64}
use gpu_rental_platform.Common.Text.{trim_space, is_blank, to_upper, len}
use gpu_rental_platform.ClusterState.{is_zero}
use Fraction.{Ratio, quotient, ceil_rat_int64}

pub record FixedRate : Type 0 where
  pub resource_class : String
  pub price_book_id : String
  pub price_version : ℤ
  pub minor_per_unit : ℤ
  pub currency : String

-- The map of `FixedEngine`, keyed by the resource class of its rates.
abbrev pub Rates : Type 0
Rates = List FixedRate

-- `s < t` on Go strings
abbrev string_lt : String → String → Bool
string_lt s t = elim (String.compare s t) [ Ordering.lt ↦ true | _ ↦ false ]

-- `engine.rates[class]`
unfoldable pub rate_for : String → Rates → Option FixedRate
rate_for class rates = find (λ r. str_eq r.resource_class class) rates

-- One round of the loop of `NewFixedEngine`.
unfoldable pub configure : Rates → FixedRate → Outcome Rates
unfolding rate_for
configure configured rate =
    let class = trim_space rate.resource_class in
    let currency = to_upper (trim_space rate.currency) in
    do
      fail_if
          (str_eq class ""
            || is_blank rate.price_book_id
            || ltb_ℤ rate.price_version (pos 1)
            || leb_ℤ rate.minor_per_unit (pos 0)
            || not (len currency == 3))
          invalid
      fail_if (string_lt currency "AAA" || string_lt "ZZZ" currency) invalid
      fail_if (is_some (rate_for class configured)) invalid
      ok (record rate { resource_class = class; currency = currency } ∷ configured)

configure_all : Rates → List FixedRate → Outcome Rates
unfolding configure
configure_all configured [] = ok configured
configure_all configured (rate ∷ rates) = do
  next ← configure configured rate
  configure_all next rates

unfoldable pub new_fixed_engine : List FixedRate → Outcome Rates
unfolding configure_all
new_fixed_engine rates = configure_all [] rates

pub record UsageFact : Type 0 where
  pub id : String
  pub tenant_id : String
  pub project_id : String
  pub resource_class : String
  pub quantity : String
  pub allocation_from : ℕ
  pub allocation_to : ℕ

-- The JSON object with the steps of the calculation.
pub record Calculation : Type 0 where
  pub resource_class : String
  pub quantity : String
  pub duration_nanoseconds : ℕ
  pub minor_per_unit_second : ℤ

pub record RatedUsage : Type 0 where
  pub usage_fact_id : String
  pub price_book_id : String
  pub price_version : ℤ
  pub amount_minor : ℕ
  pub currency : String
  pub calculation : Calculation
  pub calculated_at : ℕ

-- `to.Sub(from)` in nanoseconds, for `from` before `to`: it stops at the largest duration.
unfoldable pub duration : ℕ → ℕ → ℕ
duration from to = min (to - from) max_int64

abbrev pub nanoseconds : ℕ
nanoseconds = 1000000000

-- quantity * duration in seconds * price
unfoldable pub amount : Ratio → ℕ → ℤ → Ratio
amount quantity ns price =
    quotient (pos_part quantity.num * ns * pos_part price) (quantity.den * nanoseconds)

module _ (set_string : String → Option Ratio) where
  -- `none` is the nil engine; `now` is the clock.
  unfoldable pub rate_usage : Option Rates → UsageFact → ℕ → Outcome RatedUsage
  unfolding rate_for amount duration
  rate_usage engine fact now = do
    rates ← or_fail engine invalid
    rate ← or_fail (rate_for (trim_space fact.resource_class) rates) unknown_rate
    fail_if
        (is_blank fact.id
          || is_blank fact.resource_class
          || str_eq fact.tenant_id ""
          || str_eq fact.project_id ""
          || is_zero fact.allocation_from
          || is_zero fact.allocation_to
          || not (ltb fact.allocation_from fact.allocation_to))
        invalid
    quantity ← or_fail (set_string (trim_space fact.quantity)) invalid
    fail_if (leb_ℤ quantity.num (pos 0)) invalid
    minor ←
        ceil_rat_int64
          (amount quantity (duration fact.allocation_from fact.allocation_to) rate.minor_per_unit)
    ok (record {
      usage_fact_id = fact.id;
      price_book_id = rate.price_book_id;
      price_version = rate.price_version;
      amount_minor = minor;
      currency = rate.currency;
      calculation = record {
        resource_class = rate.resource_class;
        quantity = fact.quantity;
        duration_nanoseconds = duration fact.allocation_from fact.allocation_to;
        minor_per_unit_second = rate.minor_per_unit;
      };
      calculated_at = now;
    })
