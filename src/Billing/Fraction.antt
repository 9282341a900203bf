-- ===== src/Billing/Fraction.antt =====
-- The fractions of math/big as far as internal/billing/fixed.go uses them, and `ceilRatInt64`.
use mathlib.Core.Logic.{dite}
use mathlib.Core.WellFounded.{Acc}
use native.Mathlib.Nat.{div-add-mod', mod-lt, div-eq_of_eq-mul_left}
use native.Mathlib.Decide.{dec_lt}
use gpu_rental_platform.Common.{
  inr, inl, Bool-cases, ℕ, zero, suc, ◌+◌, ◌*◌, ◌/◌, ◌%◌, ◌≤◌, ◌<◌, ◌≡◌, Bool, true, false, not,
  ◌&&◌, ◌||◌, ltb, leb, ◌==◌, if◌then◌else◌, Outcome, ok, invalid, fail_if, ◌>>◌, ap, sym, ◌≢◌,
  arith,
}
use gpu_rental_platform.Common.Int.{ℤ, pos, negsuc, pos_part, max_int64}

-- A numerator and a positive denominator in lowest terms.
pub record Ratio : Type 0 where
  pub num : ℤ
  pub den : ℕ

Acc-below : (k n : ℕ) → n < k → Acc ◌<◌ n
Acc-below zero n h = elim h [ ]
Acc-below (suc k) n h = Acc.intro n (λ m hm. Acc-below k m (omega arith))

-- Euclid's algorithm.
euclid : (m n : ℕ) → Acc ◌<◌ n → ℕ
euclid m n (Acc.intro _ below) =
    dite (dec_lt 0 n) (λ some_n. euclid n (m % n) (below (m % n) (omega arith))) (λ none_left. m)

gcd : ℕ → ℕ → ℕ
unfolding euclid Acc-below dec_lt
gcd a b = euclid a b (Acc-below (suc b) b (omega arith))

-- `a` and `b` are multiples of `g`.
abbrev CommonFactor : ℕ → ℕ → ℕ → Type 0
CommonFactor a b g = (k : ℕ) × (l : ℕ) × (a ≡ k * g) × (b ≡ l * g)

gcd_step : (a b g : ℕ) → 0 < b → CommonFactor b (a % b) g → CommonFactor a b g
gcd_step a b g h (k, l, e, f) =
    (a / b * k + l, k, omega (arith, div-add-mod' a b, ap (λ (t : ℕ). a / b * t) e), e)

euclid-CommonFactor : (a b : ℕ) (w : Acc ◌<◌ b) → CommonFactor a b (euclid a b w)
unfolding euclid
euclid-CommonFactor a b (Acc.intro _ below) =
    elim (dec_lt 0 b)
      as (λ d.
        CommonFactor a b (dite d (λ h. euclid b (a % b) (below (a % b) (omega arith))) (λ _. a))) [
          | yes h ↦ gcd_step a b _ h (euclid-CommonFactor b (a % b) (below (a % b) (omega arith)))
          | no n ↦ (1, 0, omega arith, omega arith)
        ]

pos_of_mul_pos : (l g : ℕ) → 0 < l * g → 0 < g
pos_of_mul_pos l zero h = absurd (omega arith)
pos_of_mul_pos l (suc g) h = omega arith

-- A fraction of naturals, brought to lowest terms as `big.Rat` keeps it.
unfoldable pub quotient : ℕ → ℕ → Ratio
unfolding gcd
quotient a b = let g = gcd a b in record { num = pos (a / g); den = b / g }

abbrev is_negative : ℤ → Bool
is_negative (pos _) = false
is_negative (negsuc _) = true

-- `QuoRem`, and one more if there is a remainder
round_up : ℕ → ℕ → ℕ
round_up n d = if n % d == 0 then n / d else n / d + 1

-- `num.BitLen() > 62` says that the numerator is 2 ^ 62 or more.
unfoldable pub ceil_rat_int64 : Ratio → Outcome ℕ
unfolding round_up
ceil_rat_int64 value =
    let n = pos_part value.num in
    let rounded = round_up n value.den in
    do
      fail_if (is_negative value.num || (not (value.den == 1) && leb 4611686018427387904 n)) invalid
      fail_if (value.den == 0) invalid
      fail_if (ltb max_int64 rounded) invalid
      ok rounded

round_up-least : (n d : ℕ) → 0 < d → (n ≤ round_up n d * d) × (round_up n d * d < n + d)
unfolding round_up
round_up-least n d h = elim (Bool-cases (n % d == 0)) [
  | inl e ↦ let exact : n % d ≡ 0 = ground arith in rw e (omega (arith, div-add-mod' n d))
  | inr e ↦
      let inexact : n % d ≢ 0 = ground arith in rw e (omega (arith, div-add-mod' n d, mod-lt n h))
]

-- The result of `ceilRatInt64` is the least integer that is not below the value, and it fits.
pub ceil_rat_int64_least :
    (v : Ratio) (m : ℕ)
    → ceil_rat_int64 v ≡ ok m
    → (pos_part v.num ≤ m * v.den) × (m * v.den < pos_part v.num + v.den) × (m ≤ max_int64)
unfolding ceil_rat_int64
ceil_rat_int64_least v m h =
    let some_den : 0 < v.den = ground arith in
    let same : round_up (pos_part v.num) v.den ≡ m = ground arith in
    let (low, high) = round_up-least (pos_part v.num) v.den some_den in
    (rw (← same) low, rw (← same) high, ground arith)

gcd-CommonFactor : (a b : ℕ) → CommonFactor a b (gcd a b)
unfolding gcd
gcd-CommonFactor a b = euclid-CommonFactor a b (Acc-below (suc b) b (omega arith))

divide_factor :
    (a b g : ℕ) → 0 < b → CommonFactor a b g → (0 < g) × (a / g * g ≡ a) × (b / g * g ≡ b)
divide_factor a b g h (k, l, e, f) =
    let some_g : 0 < g = pos_of_mul_pos l g (omega (arith, f)) in
    (
      some_g,
      rw (div-eq_of_eq-mul_left some_g e) (sym e),
      rw (div-eq_of_eq-mul_left some_g f) (sym f),
    )

-- Lowest terms: both parts are divided by the same positive factor.
quotient-factor :
    (a b : ℕ)
    → 0 < b
    → (g : ℕ) × (0 < g) × (pos_part (quotient a b).num * g ≡ a) × ((quotient a b).den * g ≡ b)
unfolding quotient
quotient-factor a b h =
    let d = divide_factor a b (gcd a b) h (gcd-CommonFactor a b) in (gcd a b, d.0, d.1, d.2)

mul_mono : (g a b : ℕ) → a ≤ b → a * g ≤ b * g
mul_mono g a b h = grind arith

scale_bounds :
    (g n d m a b : ℕ)
    → 0 < g
    → n * g ≡ a
    → d * g ≡ b
    → n ≤ m * d
    → m * d < n + d
    → (a ≤ m * b) × (m * b < a + b)
scale_bounds g n d m a b h e f low high =
    let by_m = ap (λ (t : ℕ). m * t) f in
    let low' : n * g ≤ m * d * g = mul_mono g n (m * d) low in
    let high' : suc (m * d) * g ≤ (n + d) * g = mul_mono g (suc (m * d)) (n + d) high in
    (omega arith, omega arith)

-- The fraction `a / b`, rounded up: the result is the least integer not below it.
pub ceil_quotient :
    (a b m : ℕ)
    → 0 < b
    → ceil_rat_int64 (quotient a b) ≡ ok m
    → (a ≤ m * b) × (m * b < a + b) × (m ≤ max_int64)
ceil_quotient a b m h e =
    let (g, some_g, en, ed) = quotient-factor a b h in
    let (low, high, fits) = ceil_rat_int64_least (quotient a b) m e in
    let (low', high') =
      scale_bounds g (pos_part (quotient a b).num) (quotient a b).den m a b some_g en ed low high in
    (low', high', fits)
