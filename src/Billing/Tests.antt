-- ===== src/Billing/Tests.antt =====
-- Runs of the engine, and witnesses.
use gpu_rental_platform.Common.{
  ◌+◌, ◌*◌, ◌≤◌, ◌<◌, String, ◌≡◌, refl, Option, some, none, [], ◌∷◌, arith, All, ok, str_eq,
  if◌then◌else◌,
}
use gpu_rental_platform.Common.Int.{pos, max_int64}
use gpu_rental_platform.Common.Text.{trim_space, to_upper, is_blank}
use gpu_rental_platform.Billing.Fraction.{Ratio, quotient, ceil_rat_int64}
use gpu_rental_platform.Billing.{
  FixedRate, Rates, rate_for, new_fixed_engine, UsageFact, RatedUsage, duration, amount, rate_usage,
  configure,
}
use gpu_rental_platform.Billing.Laws.{units, parts, rate_usage_rounds_up}
use gpu_rental_platform.Billing.Rates.{IsConfigured, IsServed, new_fixed_engine-IsConfigured}

code : Unit {0}
unfolding is_blank new_fixed_engine rate_usage rate_for trim_space to_upper ceil_rat_int64 quotient
    duration amount configure
code = tt

abbrev gpu_hour : FixedRate
gpu_hour = record {
  resource_class = " gpu.nvidia.full ";
  price_book_id = "standard";
  price_version = pos 1;
  minor_per_unit = pos 7;
  currency = "cny";
}

abbrev book : Rates
book = record gpu_hour { resource_class = "gpu.nvidia.full"; currency = "CNY" } ∷ []

configured : new_fixed_engine (gpu_hour ∷ []) ≡ ok book
unfolding code
configured = refl

-- The currency is compared as a text, so one that is no three letters gets through.
digits_in_currency :
    (rates : Rates) × (new_fixed_engine (record gpu_hour { currency = "B12" } ∷ []) ≡ ok rates)
unfolding code
digits_in_currency = (_, refl)

-- "0.5" stands for one half.
abbrev half : String → Option Ratio
half s = if str_eq s "0.5" then some (record { num = pos 1; den = 2 }) else none

abbrev fact : UsageFact
fact = record {
  id = "f1";
  tenant_id = "t1";
  project_id = "p1";
  resource_class = "gpu.nvidia.full";
  quantity = " 0.5 ";
  allocation_from = 1000000000;
  allocation_to = 4000000000;
}

-- Half a GPU for 3 seconds at 7 a second costs 10.5, which is charged as 11.
abbrev rated : RatedUsage
rated = record {
  usage_fact_id = "f1";
  price_book_id = "standard";
  price_version = pos 1;
  amount_minor = 11;
  currency = "CNY";
  calculation = record {
    resource_class = "gpu.nvidia.full";
    quantity = " 0.5 ";
    duration_nanoseconds = 3000000000;
    minor_per_unit_second = pos 7;
  };
  calculated_at = 9;
}

rating : rate_usage half (some book) fact 9 ≡ ok rated
unfolding code
rating = refl

half_proper : (s : String) (q : Ratio) → half s ≡ some q → 0 < q.den
half_proper s q h = ground arith

rate_usage_rounds_up_example :
    (rate : FixedRate) × (q : Ratio) × (rate_for (trim_space "gpu.nvidia.full") book ≡ some rate)
    × (half (trim_space " 0.5 ") ≡ some q)
    × (units q fact rate ≤ 11 * parts q)
    × (11 * parts q < units q fact rate + parts q)
    × (11 ≤ max_int64)
    × ("CNY" ≡ rate.currency)
rate_usage_rounds_up_example = rate_usage_rounds_up half book fact 9 rated half_proper rating

new_fixed_engine-IsConfigured_example : IsConfigured book × All (IsServed book) (gpu_hour ∷ [])
new_fixed_engine-IsConfigured_example =
    new_fixed_engine-IsConfigured (gpu_hour ∷ []) book configured
