-- ===== src/Billing/Laws.antt =====
-- What `RateUsage` charges.
use gpu_rental_platform.Common.{
  ℕ, ◌+◌, ◌*◌, ◌≤◌, ◌<◌, String, ◌≡◌, inl, inr, Option, some, arith, Option-cases, ok,
}
use gpu_rental_platform.Common.Int.{pos, pos_part, ◌≤ℤ◌, max_int64}
use gpu_rental_platform.Common.Text.{trim_space}
use gpu_rental_platform.Billing.Fraction.{Ratio, ceil_rat_int64, ceil_quotient}
use gpu_rental_platform.Billing.{
  FixedRate, Rates, rate_for, UsageFact, RatedUsage, duration, nanoseconds, amount, rate_usage,
}

-- The price of a fact, as a fraction of `units` over `parts`, in minor units.
abbrev pub units : Ratio → UsageFact → FixedRate → ℕ
units q fact rate =
    pos_part q.num * duration fact.allocation_from fact.allocation_to * pos_part rate.minor_per_unit

abbrev pub parts : Ratio → ℕ
parts q = q.den * nanoseconds

-- What a rated fact says of the rate and the quantity that it came from.
pub record IsRated (q : Ratio) (fact : UsageFact) (rate : FixedRate) (u : RatedUsage) : Type 0 where
  pub same_fact : u.usage_fact_id ≡ fact.id
  pub same_book : u.price_book_id ≡ rate.price_book_id
  pub same_version : u.price_version ≡ rate.price_version
  pub same_currency : u.currency ≡ rate.currency
  pub positive : ¬ (q.num ≤ℤ pos 0)
  pub before : fact.allocation_from < fact.allocation_to
  pub rounded :
      ceil_rat_int64
        (amount q (duration fact.allocation_from fact.allocation_to) rate.minor_per_unit)
      ≡ ok u.amount_minor

module _ (set_string : String → Option Ratio) where
  rate_usage-IsRated :
      (rates : Rates) (fact : UsageFact) (now : ℕ) (u : RatedUsage)
      → rate_usage set_string (some rates) fact now ≡ ok u
      → (rate : FixedRate) × (q : Ratio) × (rate_for (trim_space fact.resource_class) rates
          ≡ some rate)
        × (set_string (trim_space fact.quantity) ≡ some q)
        × IsRated q fact rate u
  unfolding rate_usage
  rate_usage-IsRated rates fact now u h =
      elim (Option-cases (rate_for (trim_space fact.resource_class) rates)) [
        | inl e ↦ absurd (ground arith)
        | inr (rate, e) ↦ elim (Option-cases (set_string (trim_space fact.quantity))) [
          | inl e' ↦ absurd (ground arith)
          | inr (q, e') ↦ (rate, q, e, e', ground arith)
        ]
      ]

  -- If `SetString` gives fractions with a positive denominator, then what a usage fact costs is the
  -- exact price, quantity times duration times rate, rounded up to the next minor unit; it fits in
  -- an int64, and is charged in the currency of the rate that is configured for the class.
  pub rate_usage_rounds_up :
      (rates : Rates) (fact : UsageFact) (now : ℕ) (u : RatedUsage)
      → ((s : String) (q : Ratio) → set_string s ≡ some q → 0 < q.den)
      → rate_usage set_string (some rates) fact now ≡ ok u
      → (rate : FixedRate) × (q : Ratio) × (rate_for (trim_space fact.resource_class) rates
          ≡ some rate)
        × (set_string (trim_space fact.quantity) ≡ some q)
        × (units q fact rate ≤ u.amount_minor * parts q)
        × (u.amount_minor * parts q < units q fact rate + parts q)
        × (u.amount_minor ≤ max_int64)
        × (u.currency ≡ rate.currency)
  unfolding amount
  rate_usage_rounds_up rates fact now u proper h =
      let (rate, q, found, parsed, r) = rate_usage-IsRated rates fact now u h in
      let (low, high, fits) =
        ceil_quotient (units q fact rate) (parts q) u.amount_minor
          (omega (arith, proper _ q parsed)) r.rounded in
      (rate, q, found, parsed, low, high, fits, r.same_currency)
