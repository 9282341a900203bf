-- ===== src/Common/Result.antt =====
-- A Go pair `(value, error)`, with the sentinel errors of the packages as one type.
use Prim.Native.String.{String}
use mathlib.Core.Path.{◌≡◌, refl}
use mathlib.Core.Logic.{◌⊎◌, inl, inr}
use mathlib.Core.Bool.{Bool, true, false}
use mathlib.Core.Option.{Option, none, some}

pub data Error : Type 0 where
  invalid not_found conflict : Error
  idempotency_conflict quota_exceeded quota_below_usage invalid_transition : Error
  unknown_rate budget_exceeded capacity generation_conflict stale_report : Error
  -- an error of the database, of `rand.Read`, or one made by `errors.New` in place
  failure : String → Error

pub data Outcome {ℓ} (A : Type ℓ) : Type ℓ where
  ok : A → Outcome A
  err : Error → Outcome A

infixl 5 ◌>>=◌ ◌>>◌
abbrev pub ◌>>=◌ {ℓ κ} : {A : Type ℓ} {B : Type κ} → Outcome A → (A → Outcome B) → Outcome B
ok a >>= f = f a
err e >>= f = err e

abbrev pub ◌>>◌ {ℓ} : {B : Type ℓ} → Outcome (Unit {0}) → Outcome B → Outcome B
m >> k = m >>= λ _. k

-- `if c { return …, e }`
abbrev pub fail_if : Bool → Error → Outcome (Unit {0})
fail_if true e = err e
fail_if false e = ok tt

-- `sql.ErrNoRows` mapped to an error
abbrev pub or_fail {ℓ} : {A : Type ℓ} → Option A → Error → Outcome A
or_fail none e = err e
or_fail (some a) e = ok a

-- Inversion of a successful call that binds another.
pub >>=-eq-ok {ℓ κ} :
    {A : Type ℓ} {B : Type κ} (first : Outcome A) (rest : A → Outcome B) {last : B}
    → (first >>= rest) ≡ ok last
    → (mid : A) × (first ≡ ok mid) × (rest mid ≡ ok last)
>>=-eq-ok (err failed) rest e = cc
>>=-eq-ok (ok mid) rest e = (mid, refl, e)

pub fail_if-eq-ok : (c : Bool) (e : Error) {u : Unit {0}} → fail_if c e ≡ ok u → c ≡ false
fail_if-eq-ok true e h = cc
fail_if-eq-ok false e h = refl

pub or_fail-eq-ok {ℓ} :
    {A : Type ℓ} (o : Option A) (e : Error) {a : A} → or_fail o e ≡ ok a → o ≡ some a
or_fail-eq-ok none e h = cc
or_fail-eq-ok (some a) e h = cc

pub Outcome-cases {ℓ} :
    {A : Type ℓ} (r : Outcome A) → ((a : A) × (r ≡ ok a)) ⊎ ((e : Error) × (r ≡ err e))
Outcome-cases (ok a) = inl (a, refl)
Outcome-cases (err e) = inr (e, refl)

pub fail_if-ok {ℓ} :
    {B : Type ℓ} (c : Bool) (e : Error) (k : Outcome B) {b : B}
    → (fail_if c e >> k) ≡ ok b
    → k ≡ ok b
fail_if-ok true e k h = cc
fail_if-ok false e k h = h

pub ok-injective {ℓ} : {A : Type ℓ} {a b : A} → ok a ≡ ok b → a ≡ b
ok-injective h = cc
