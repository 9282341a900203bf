-- ===== src/Billing/Rates.antt =====
-- What `NewFixedEngine` configures.
use gpu_rental_platform.Common.{
  String, ◌≡◌, ◌≢◌, none, some, List, [], ◌∷◌, arith, eq_iff, eq_refl, All, ok, >>=-eq-ok,
}
use gpu_rental_platform.Common.Int.{pos, ◌≤ℤ◌}
use gpu_rental_platform.Common.Text.{trim_space, to_upper, len}
use gpu_rental_platform.Billing.{
  FixedRate, Rates, rate_for, configure, configure_all, new_fixed_engine,
}

-- A rate as it is stored.
abbrev pub normalised : FixedRate → FixedRate
normalised rate = record rate {
  resource_class = trim_space rate.resource_class;
  currency = to_upper (trim_space rate.currency);
}

-- What the checks of `NewFixedEngine` ensure of a stored rate.
pub record IsPriced (r : FixedRate) : Type 0 where
  pub named : r.resource_class ≢ ""
  pub versioned : pos 1 ≤ℤ r.price_version
  pub priced : ¬ (r.minor_per_unit ≤ℤ pos 0)
  pub three_letters : len r.currency ≡ 3

-- A configured map: every rate is priced, and no class stands in it twice.
abbrev pub IsConfigured : Rates → Type 0
IsConfigured [] = Unit
IsConfigured (r ∷ rates) =
    IsPriced r × (rate_for r.resource_class rates ≡ none) × IsConfigured rates

configure-ok :
    (configured : Rates) (rate : FixedRate) (next : Rates)
    → configure configured rate ≡ ok next
    → IsPriced (normalised rate)
      × (rate_for (trim_space rate.resource_class) configured ≡ none)
      × (next ≡ normalised rate ∷ configured)
unfolding configure
configure-ok configured rate next h = ground (arith, eq_iff (trim_space rate.resource_class) "")

-- A rate that is found is found after another is added, which has another class.
rate_for-cons :
    (class : String) (rates : Rates) (r new : FixedRate)
    → rate_for class rates ≡ some r
    → rate_for new.resource_class rates ≡ none
    → rate_for class (new ∷ rates) ≡ some r
unfolding rate_for
rate_for-cons class rates r new h fresh = ground (arith, eq_iff new.resource_class class)

rate_for_self : (r : FixedRate) (rates : Rates) → rate_for r.resource_class (r ∷ rates) ≡ some r
unfolding rate_for
rate_for_self r rates = rw (eq_refl r.resource_class)

abbrev pub IsServed : Rates → FixedRate → Type 0
IsServed rates rate = rate_for (trim_space rate.resource_class) rates ≡ some (normalised rate)

configure_all-IsConfigured :
    (configured : Rates) (given : List FixedRate) (rates : Rates)
    → IsConfigured configured
    → configure_all configured given ≡ ok rates
    → IsConfigured rates
      × All (IsServed rates) given
      × ((c : String) (r : FixedRate) → rate_for c configured ≡ some r → rate_for c rates ≡ some r)
unfolding configure_all
configure_all-IsConfigured configured [] rates valid h =
    let same : configured ≡ rates = ground arith in (rw (← same) valid, tt, λ c r e. rw (← same) e)
configure_all-IsConfigured configured (rate ∷ given) rates valid h =
    let (next, e, rest) = >>=-eq-ok (configure configured rate) _ h in
    let (priced, fresh, same) = configure-ok configured rate next e in
    let (inv, served, keep) =
      configure_all-IsConfigured next given rates (rw same (priced, fresh, valid)) rest in
    (
      inv,
      (keep _ _ (rw same (rate_for_self (normalised rate) configured)), served),
      λ c r found. keep c r (rw same (rate_for-cons c configured r (normalised rate) found fresh)),
    )

-- If `NewFixedEngine` succeeds, then each given rate is what the engine finds under its trimmed
-- class, with the currency in upper case, and the engine holds only rates with a class, a version
-- of at least 1, a positive price and a currency of three bytes, each class once.
pub new_fixed_engine-IsConfigured :
    (given : List FixedRate) (rates : Rates)
    → new_fixed_engine given ≡ ok rates
    → IsConfigured rates × All (IsServed rates) given
unfolding new_fixed_engine
new_fixed_engine-IsConfigured given rates h =
    let r = configure_all-IsConfigured [] given rates tt h in (r.0, r.1)
